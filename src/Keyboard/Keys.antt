-- ===== src/Keyboard/Keys.antt =====
-- kernel/src/ps2.c: how the keyboard's interrupt is routed, and what the handler keeps of the keys.
use plusplus_os.Base.{
  ℕ, ◌+◌, ◌-◌, ◌/◌, ◌%◌, ◌^◌, ◌<◌, ◌≤◌, ◌≡◌, ap, ◌∙◌, refl, false, some, arith, u32,
}
use plusplus_os.Machine.{ok}
use plusplus_os.Apic.{
  Apic, LocalApic, redtbl_offset, read_redtable_entry, write_redtable_entry, get_responsible_ioapic,
}
use plusplus_os.Apic.Registers.{
  register, responsible_from-Responsible, read_redtable_entry_lem, read_redtable_entry-write,
}
use plusplus_os.Descriptors.{interrupt_gate, register_interrupt}
use plusplus_os.Descriptors.Gates.{handler_of, register_interrupt_lem}
use plusplus_os.Keyboard.{Keyboard, set_field, lower_entry, route_interrupt, register_ps2_interrupt}

lower_entry_fields :
    (w : ℕ)
    → (lower_entry w % 2 ^ 8 ≡ 0x21)
      × (lower_entry w / 2 ^ 8 % 2 ^ 3 ≡ 0)
      × (lower_entry w / 2 ^ 16 % 2 ≡ 0)
      × (lower_entry w / 2 ^ 11 % 2 ^ 5 ≡ w / 2 ^ 11 % 2 ^ 5)
unfolding lower_entry set_field
lower_entry_fields w = omega arith

destination_field : (id w : ℕ) → w < 2 ^ 32 → set_field 24 8 id w / 2 ^ 24 ≡ id % 2 ^ 8
unfolding set_field
destination_field id w fits = omega arith

-- The keyboard's global system interrupt, and its number at the IOAPIC `i`.
abbrev pub keyboard_gsi : Apic Keyboard → ℕ
keyboard_gsi s = (s.gsi_override_table 1).gsi

abbrev pub keyboard_irq : Apic Keyboard → ℕ → ℕ
keyboard_irq s i = keyboard_gsi s - (s.found_ioapics i).gsi_offset

abbrev pub low_word : Apic Keyboard → Apic Keyboard → ℕ → ℕ
low_word t s i = register (s.found_ioapics i).virtual_address (redtbl_offset (keyboard_irq s i)) t

abbrev pub high_word : Apic Keyboard → Apic Keyboard → ℕ → ℕ
high_word t s i =
    register (s.found_ioapics i).virtual_address (redtbl_offset (keyboard_irq s i) + 1) t

responsible :
    (s : Apic Keyboard) (i : ℕ)
    → get_responsible_ioapic (keyboard_gsi s) s ≡ some i
    → (s.found_ioapics i).gsi_offset ≤ keyboard_gsi s
unfolding get_responsible_ioapic
responsible s i found =
    (responsible_from-Responsible s.found_ioapics (keyboard_gsi s) 0 s.ioapic_count found).has.0

read_back :
    (io irq lower upper : ℕ) (t u : Apic Keyboard)
    → irq < 120
    → read_redtable_entry io irq t ≡ ok (lower, upper) u
    → (register io (redtbl_offset irq) t ≡ lower) × (register io (redtbl_offset irq + 1) t ≡ upper)
read_back io irq lower upper t u small r =
    let (v, e, same_lapic, same_rest) = read_redtable_entry_lem io irq t small in (cc, cc)

-- The run of route_interrupt from the reading and the writing of the entry.
routed :
    (handler i : ℕ) (s s1 t : Apic Keyboard)
    → keyboard_irq s i < 120
    → keyboard_gsi s < 2 ^ 32
    → (s.found_ioapics i).gsi_offset ≤ keyboard_gsi s
    → read_redtable_entry (s.found_ioapics i).virtual_address (keyboard_irq s i) s
      ≡ ok (low_word s s i, high_word s s i) s1
    → write_redtable_entry
        (s.found_ioapics i).virtual_address
        (keyboard_irq s i)
        (lower_entry (low_word s s i))
        (set_field 24 8 s1.lapic.id (high_word s s i))
        s1
      ≡ ok tt t
    → route_interrupt handler (keyboard_gsi s) (some i) s
      ≡ ok tt (record t {
        rest = record t.rest {
          idt = register_interrupt 0x21 interrupt_gate false handler t.rest.idt;
        };
      })
routed handler i s s1 t small narrow serves r w =
    let irq : u32 (keyboard_gsi s + 2 ^ 32 - (s.found_ioapics i).gsi_offset) ≡ keyboard_irq s i =
      omega arith in
    rw (irq, r, w) refl

-- register_ps2_interrupt, where `i` is the IOAPIC that serves the keyboard's interrupt with one of its
-- first 120 entries, returns: that entry has the vector 0x21 and fixed delivery, is not masked and
-- keeps its polarity and trigger bits, its destination is the lowest byte of the local APIC's id
-- register, and the interrupt gate 0x21 leads to the handler.
pub register_ps2_interrupt_lem :
    (handler i : ℕ) (s : Apic Keyboard)
    → get_responsible_ioapic (keyboard_gsi s) s ≡ some i
    → keyboard_irq s i < 120
    → keyboard_gsi s < 2 ^ 32
    → high_word s s i < 2 ^ 32
    → handler < 2 ^ 64
    → (t : Apic Keyboard) × (register_ps2_interrupt handler s ≡ ok tt t)
      × (low_word t s i % 2 ^ 8 ≡ 0x21)
      × (low_word t s i / 2 ^ 8 % 2 ^ 3 ≡ 0)
      × (low_word t s i / 2 ^ 16 % 2 ≡ 0)
      × (low_word t s i / 2 ^ 11 % 2 ^ 5 ≡ low_word s s i / 2 ^ 11 % 2 ^ 5)
      × (high_word t s i / 2 ^ 24 ≡ s.lapic.id % 2 ^ 8)
      × (handler_of (t.rest.idt 0x21) ≡ handler)
unfolding register_ps2_interrupt
register_ps2_interrupt_lem handler i s found small narrow word fits =
    let io : ℕ = (s.found_ioapics i).virtual_address in
    let irq : ℕ = keyboard_irq s i in
    let (s1, r1, lapic1, rest1) = read_redtable_entry_lem io irq s small in
    let lower : ℕ = lower_entry (low_word s s i) in
    let upper : ℕ = set_field 24 8 s1.lapic.id (high_word s s i) in
    let (t, u, w, r, kept, lapic2, rest2) = read_redtable_entry-write io irq lower upper s1 small in
    let words = read_back io irq lower upper t u small r in
    let fields = lower_entry_fields (low_word s s i) in
    let gate =
      register_interrupt_lem 0x21 interrupt_gate handler false t.rest.idt fits (omega arith) in
    (
      record t {
        rest = record t.rest {
          idt = register_interrupt 0x21 interrupt_gate false handler t.rest.idt;
        };
      },
      rw found (routed handler i s s1 t small narrow (responsible s i found) r1 w),
      rw words.0 fields.0,
      rw words.0 fields.1,
      rw words.0 fields.2,
      rw words.0 fields.3,
      rw words.1 (
          destination_field s1.lapic.id (high_word s s i) word
          ∙ ap (λ (l : LocalApic). l.id % 2 ^ 8) lapic1),
      gate.0,
    )
