-- ===== src/Keyboard/Tests.antt =====
-- kernel/src/ps2.c: a keyboard at the second entry of an IOAPIC that has 24.
use plusplus_os.Base.{ℕ, ◌/◌, ◌%◌, ◌^◌, ◌≡◌, refl, false, some, [], arith, update}
use plusplus_os.Machine.{Run, ok, and_then}
use plusplus_os.Apic.{Apic, get_responsible_ioapic, responsible_from}
use plusplus_os.Descriptors.Gates.{handler_of}
use plusplus_os.Keyboard.{
  Keyboard, kb_handler, key_changed, scan_code_to_letter, upper_case, element, translation_table,
  shift_translation_table, register_ps2_interrupt,
}
use plusplus_os.Keyboard.Keys.{keyboard_gsi, low_word, high_word, register_ps2_interrupt_lem}

abbrev state : Apic Keyboard
state = record {
  lapic = record {
    virtual_address = 0;
    id = 0x103;
    task_priority = 0;
    eoi = 1;
    spurious_interrupt_vector = 0;
  };
  gsi_override_table = λ i. record { present = false; gsi = i; flags = 0 };
  found_ioapics = λ i. record {
    ioapic_id = 0;
    physical_address = 0xfec00000;
    virtual_address = 0xfffff00000000000;
    gsi_offset = 0;
    used_irqs = 24;
  };
  ioapic_count = 1;
  found_lapics = λ i. 0;
  lapic_count = 0;
  bytes = λ a. 0;
  ioapics = λ i. record { current_register = 0; registers = λ j. 0x10700 };
  port_writes = [];
  rest = record {
    kbstatus = λ k. false;
    last_char_changed = 0;
    idt = λ i. record {
      offset_0_15 = 0;
      selector = 0;
      ist = 0;
      type_attr = 0;
      offset_16_31 = 0;
      offset_32_63 = 0;
      reserved = 0;
    };
  };
}

served : get_responsible_ioapic (keyboard_gsi state) state ≡ some 0
unfolding get_responsible_ioapic responsible_from
served = refl

register_ps2_interrupt_lem_example :
    (t : Apic Keyboard) × (register_ps2_interrupt 0xfffff00000123456 state ≡ ok tt t)
    × (low_word t state 0 % 2 ^ 8 ≡ 0x21)
    × (low_word t state 0 / 2 ^ 8 % 2 ^ 3 ≡ 0)
    × (low_word t state 0 / 2 ^ 16 % 2 ≡ 0)
    × (low_word t state 0 / 2 ^ 11 % 2 ^ 5 ≡ low_word state state 0 / 2 ^ 11 % 2 ^ 5)
    × (high_word t state 0 / 2 ^ 24 ≡ state.lapic.id % 2 ^ 8)
    × (handler_of (t.rest.idt 0x21) ≡ 0xfffff00000123456)
register_ps2_interrupt_lem_example =
    register_ps2_interrupt_lem 0xfffff00000123456 0 state served (omega arith) (omega arith)
      (omega arith) (omega arith)

abbrev last_char : Run (Apic Keyboard) (Unit {0}) → ℕ
last_char (ok u s) = s.rest.last_char_changed
last_char _ = 0

-- Shift is pressed, then the key A.
shifted_test : last_char (and_then (kb_handler 1 0x2a state) (λ u. kb_handler 1 0x1e)) ≡ b'A'
unfolding kb_handler key_changed scan_code_to_letter upper_case element translation_table
    shift_translation_table update
shifted_test = refl

-- Shift is pressed and released.
released_test :
    last_char (
      and_then
        (kb_handler 1 0x2a state)
        (λ u s. and_then (kb_handler 1 0xaa s) (λ v. kb_handler 1 0x1e)))
    ≡ b'a'
unfolding kb_handler key_changed scan_code_to_letter upper_case element translation_table
    shift_translation_table update
released_test = refl
