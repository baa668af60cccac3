-- ===== src/Apic/Setup.antt =====
-- kernel/src/apic.c: setup_apic. The table search, the mapping of device memory and the enabling of
-- the local APIC through a model-specific register are arguments.
use plusplus_os.Base.{
  ℕ, zero, suc, ◌+◌, ◌*◌, ◌/◌, ◌^◌, true, not, List, [], ◌∷◌, ltb, ◌==◌, if◌then◌else◌, update, u8,
  u32,
}
use plusplus_os.Machine.{
  Cmd, ok, stop, out_of_bounds, out_of_fuel, madt_not_found, invalid_madt, id_mismatch, pure,
  kernel_assert, ◌>>=◌, ◌>>◌,
}
use plusplus_os.Memory.Paging.{paging_writable, paging_cache_disable}
use plusplus_os.Acpi.{read_le, sdt_length, sdt_is_valid}
use plusplus_os.Apic.{
  max_ioapic_count, max_lapic_count, max_8259_irq_count, local_apic_entry, io_apic_entry,
  interrupt_source_override_entry, local_apic_address_override_entry, IoapicInfo, LocalApic, Apic,
  read_ioapic_id, read_ioapic_mre,
}

-- sizeof(MADT)
abbrev pub madt_size : ℕ
madt_size = 44

-- The port writes that mask the 8259 PIC.
abbrev pub pic_writes : List (ℕ × ℕ)
pic_writes =
    (0x20, 0x11)
    ∷ (0xA0, 0x11)
    ∷ (0x21, 0x20)
    ∷ (0xA1, 0x28)
    ∷ (0x21, 0x04)
    ∷ (0xA1, 0x02)
    ∷ (0x21, 0x01)
    ∷ (0xA1, 0x01)
    ∷ (0x21, 0xff)
    ∷ (0xA1, 0xff)
    ∷ []

abbrev pub described : (ℕ → ℕ) → ℕ → IoapicInfo → IoapicInfo
described bytes entry e = record e {
  gsi_offset = read_le bytes 4 (entry + 8);
  ioapic_id = bytes (entry + 2);
  physical_address = read_le bytes 4 (entry + 4);
}

module _ {X : Type 0} where
  abbrev pub write_ports : List (ℕ × ℕ) → Cmd (Apic X) (Unit {0})
  write_ports [] = pure tt
  write_ports (w ∷ writes) = do
    (λ s. ok tt (record s { port_writes = w ∷ s.port_writes }))
    write_ports writes

  -- g_found_lapics[g_lapic_count++] = entry
  unfoldable pub add_lapic : ℕ → Cmd (Apic X) (Unit {0})
  add_lapic entry s =
      if ltb s.lapic_count max_lapic_count
      then ok tt (record s {
        found_lapics = update s.found_lapics s.lapic_count entry;
        lapic_count = s.lapic_count + 1;
      })
      else stop out_of_bounds

  unfoldable pub override_gsi : ℕ → Cmd (Apic X) (Unit {0})
  override_gsi entry s =
      if ltb (s.bytes (entry + 3)) max_8259_irq_count
      then ok tt (record s {
        gsi_override_table = update s.gsi_override_table (s.bytes (entry + 3)) (record {
          present = true;
          gsi = read_le s.bytes 4 (entry + 4);
          flags = read_le s.bytes 2 (entry + 8);
        });
      })
      else stop out_of_bounds

  -- g_gsi_override_table[i].gsi = i, from `i` on, `left` times
  unfoldable pub number_gsis : ℕ → ℕ → Cmd (Apic X) (Unit {0})
  number_gsis i zero = pure tt
  number_gsis i (suc left) = do
    (λ s. ok tt (record s {
      gsi_override_table =
          update s.gsi_override_table i (record (s.gsi_override_table i) { gsi = i });
    }))
    number_gsis (i + 1) left

  -- ioapic is &g_found_ioapics[i]
  abbrev pub change_ioapic : ℕ → (IoapicInfo → IoapicInfo) → Cmd (Apic X) (Unit {0})
  change_ioapic i f s =
      ok tt (record s { found_ioapics = update s.found_ioapics i (f (s.found_ioapics i)) })

  module _ (kmap_phys_range : ℕ → ℕ → ℕ → Cmd (Apic X) ℕ) where
    -- The IOAPIC of an entry becomes the element `i`.
    unfoldable pub load_ioapic : ℕ → ℕ → Cmd (Apic X) (Unit {0})
    load_ioapic entry i = do
      (λ s. ok tt (record s { ioapic_count = i + 1 }))
      (λ s. change_ioapic i (described s.bytes entry) s)
      virtual_address ← (λ s.
          kmap_phys_range (s.found_ioapics i).physical_address 1
            (paging_writable + paging_cache_disable) s)
      change_ioapic i (λ e. record e { virtual_address = virtual_address })
      mre ← read_ioapic_mre virtual_address
      change_ioapic i (λ e. record e { used_irqs = u32 (1 + mre) })
      fetched_id ← read_ioapic_id virtual_address
      (λ s. kernel_assert ((s.found_ioapics i).ioapic_id == u8 fetched_id) id_mismatch s)

    unfoldable pub add_ioapic : ℕ → Cmd (Apic X) (Unit {0})
    add_ioapic entry s =
        if ltb s.ioapic_count max_ioapic_count
        then load_ioapic entry s.ioapic_count s
        else stop out_of_bounds

    -- The switch on the entry's type; the physical address of the local APIC after it.
    unfoldable pub parse_entry : ℕ → ℕ → Cmd (Apic X) ℕ
    parse_entry entry local_apic_phys_addr s =
        let type = s.bytes entry in
        if type == local_apic_entry
        then (add_lapic entry >> pure local_apic_phys_addr) s
        else if type == io_apic_entry
        then (add_ioapic entry >> pure local_apic_phys_addr) s
        else if type == interrupt_source_override_entry
        then (override_gsi entry >> pure local_apic_phys_addr) s
        else if type == local_apic_address_override_entry
        then ok (read_le s.bytes 8 (entry + 4)) s
        else ok local_apic_phys_addr s

    -- The loop over the entries from `curr_addr` to `end`. The length of an entry is read before the
    -- entry is used.
    unfoldable pub parse_madt : ℕ → ℕ → ℕ → ℕ → Cmd (Apic X) ℕ
    parse_madt zero end curr_addr local_apic_phys_addr s = stop out_of_fuel
    parse_madt (suc fuel) end curr_addr local_apic_phys_addr s =
        let next = curr_addr + s.bytes (curr_addr + 1) in
        let rest =
          (do addr ← parse_entry curr_addr local_apic_phys_addr; parse_madt fuel end next addr) s in
        if ltb curr_addr end then rest else ok local_apic_phys_addr s

    -- g_lapic, and its registers that are written. `bit_and x (~0xff)` of 32 bits.
    abbrev pub start_lapic : ℕ → LocalApic → LocalApic
    start_lapic address l = record l {
      virtual_address = address;
      spurious_interrupt_vector = 0xff + 2 ^ 8;
      task_priority = l.task_priority / 2 ^ 8 * 2 ^ 8;
    }

    -- `fuel` bounds the number of MADT entries; `enable_lapic` is the write of the APIC base register.
    unfoldable pub setup_apic :
        Cmd (Apic X) ℕ → Cmd (Apic X) (Unit {0}) → ℕ → Cmd (Apic X) (Unit {0})
    setup_apic find_madt enable_lapic fuel = do
      write_ports pic_writes
      madt ← find_madt
      kernel_assert (not (madt == 0)) madt_not_found
      (λ s.
          kernel_assert (sdt_is_valid s.bytes madt (b'A' ∷ b'P' ∷ b'I' ∷ b'C' ∷ [])) invalid_madt s)
      number_gsis 0 max_8259_irq_count
      local_apic_phys_addr ← (λ s.
          parse_madt fuel (madt + sdt_length s.bytes madt) (madt + madt_size)
            (read_le s.bytes 4 (madt + 36)) s)
      enable_lapic
      address ← kmap_phys_range local_apic_phys_addr 1 (paging_writable + paging_cache_disable)
      (λ s. ok tt (record s { lapic = start_lapic address s.lapic }))
