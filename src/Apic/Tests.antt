-- ===== src/Apic/Tests.antt =====
-- kernel/src/apic.c: a MADT with two local APICs, one with an entry of length 0, and an IOAPIC.
use plusplus_os.Base.{
  ℕ, suc, ◌+◌, ◌%◌, ◌<◌, ◌≡◌, ◌≢◌, refl, false, none, [], arith, ◌==◌, if◌then◌else◌, update,
}
use plusplus_os.Machine.{Cmd, ok, result_or, Ends, returns, Never}
use plusplus_os.Apic.{
  Apic, redtbl_offset, read_redtable_entry, write_redtable_entry, read_ioapic_register,
  select_register, read_ioapic_id, get_bitrange_value, lapic_from, get_lapic_id,
}
use plusplus_os.Apic.Setup.{parse_madt}
use plusplus_os.Apic.Madt.{
  Refused, KeepsBytes, Parsed, Meets, here, there, parse_madt_total, parse_madt_stuck,
}
use plusplus_os.Apic.Registers.{register, read_redtable_entry-write}

abbrev state : (ℕ → ℕ) → Apic (Unit {0})
state bytes = record {
  lapic = record {
    virtual_address = 0;
    id = 0;
    task_priority = 0;
    eoi = 0;
    spurious_interrupt_vector = 0;
  };
  gsi_override_table = λ i. record { present = false; gsi = i; flags = 0 };
  found_ioapics = λ i. record {
    ioapic_id = 0;
    physical_address = 0;
    virtual_address = 0;
    gsi_offset = 0;
    used_irqs = 0;
  };
  ioapic_count = 0;
  found_lapics = λ i. 0;
  lapic_count = 0;
  bytes = bytes;
  ioapics = λ i. record { current_register = 0; registers = λ j. 0x09000000 };
  port_writes = [];
  rest = tt;
}

abbrev kmap : ℕ → ℕ → ℕ → Cmd (Apic (Unit {0})) ℕ
kmap phys pages flags s = ok 0xfffff00000000000 s

kmap-Keeps :
    (phys pages flags : ℕ) (s : Apic (Unit {0}))
    → Ends Never (KeepsBytes s.bytes) (kmap phys pages flags s)
kmap-Keeps phys pages flags s = returns refl

-- Entries of the type 0 and the length 8 at the multiples of 8.
abbrev two_lapics : ℕ → ℕ
two_lapics a = if a % 8 == 1 then 8 else 0

entries_at_multiples : {p c : ℕ} → Meets two_lapics 64 p c → c % 8 ≡ 0 → 0 < two_lapics (p + 1)
entries_at_multiples (here e) h = ground arith
entries_at_multiples (there {curr_addr = c} more m) h =
    entries_at_multiples m (let e : two_lapics (c + 1) ≡ 8 = ground arith in omega (arith, e))

parse_madt_total_example :
    Ends
      (Refused Never)
      (Parsed two_lapics 64 48 0xfee00000)
      (parse_madt kmap (suc 20) 64 48 0xfee00000 (state two_lapics))
parse_madt_total_example =
    parse_madt_total Never kmap kmap-Keeps 20 64 48 0xfee00000 (state two_lapics)
      (λ p m inside. entries_at_multiples m refl) (omega arith)

-- Memory that is zero.
parse_madt_stuck_example :
    parse_madt kmap 1000 64 44 0xfee00000 (state (λ a. 0)) ≢ ok 0xfee00000 (state (λ a. 0))
parse_madt_stuck_example =
    parse_madt_stuck Never kmap kmap-Keeps 64 44 44 0xfee00000 (state (λ a. 0)) (here refl)
      (omega arith) refl 1000 0xfee00000 (state (λ a. 0))

read_redtable_entry-write_example :
    (t u : Apic (Unit {0})) × (write_redtable_entry 0xfffff00000000000 2 0x21 0x01000000
        (state (λ a. 0))
      ≡ ok tt t)
    × (read_redtable_entry 0xfffff00000000000 2 t ≡ ok (0x21, 0x01000000) u)
    × ((j : ℕ)
        → j ≢ redtbl_offset 2
        → j ≢ redtbl_offset 2 + 1
        → register 0xfffff00000000000 j t ≡ register 0xfffff00000000000 j (state (λ a. 0)))
    × (t.lapic ≡ (state (λ a. 0)).lapic)
    × (t.rest ≡ (state (λ a. 0)).rest)
read_redtable_entry-write_example =
    read_redtable_entry-write 0xfffff00000000000 2 0x21 0x01000000 (state (λ a. 0)) (omega arith)

-- The id 9, in the bits 24 to 27, is read as 1.
read_ioapic_id_test : result_or 0 (read_ioapic_id 0 (state (λ a. 0))) ≡ 1
unfolding read_ioapic_id read_ioapic_register select_register get_bitrange_value update
read_ioapic_id_test = refl

get_lapic_id_test : get_lapic_id 3 (state (λ a. 0)) ≡ none
unfolding get_lapic_id lapic_from
get_lapic_id_test = refl
