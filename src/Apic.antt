-- ===== src/Apic.antt =====
-- kernel/src/apic.c: the tables of the interrupt controllers that setup_apic reads from the MADT, the
-- registers of an IOAPIC, and the entries of its redirection table. The registers are reached by
-- their number through the two words of memory at the IOAPIC's virtual address.
pub mod Setup
pub mod Madt
pub mod Registers
mod Tests
use plusplus_os.Base.{
  ℕ, zero, suc, ◌+◌, ◌-◌, ◌*◌, ◌/◌, ◌%◌, ◌^◌, Bool, true, false, not, ◌&&◌, Option, none, some,
  List, [], ◌∷◌, ltb, leb, ◌==◌, if◌then◌else◌, update, u8, u32, ◌<<<◌, ◌>>>◌, bit_and,
}
use plusplus_os.Machine.{
  Cmd, ok, stop, out_of_bounds, out_of_fuel, madt_not_found, invalid_madt, id_mismatch, halt, pure,
  kernel_assert, ◌>>=◌, ◌>>◌,
}
use plusplus_os.Memory.Paging.{paging_writable, paging_cache_disable}
use plusplus_os.Acpi.{read_le, sdt_length}

abbrev pub max_ioapic_count : ℕ
max_ioapic_count = 4

abbrev pub max_lapic_count : ℕ
max_lapic_count = 16

abbrev pub max_8259_irq_count : ℕ
max_8259_irq_count = 16

-- LOCAL_APIC_ENTRY, IO_APIC_ENTRY, INTERRUPT_SOURCE_OVERRIDE_ENTRY,
-- LOCAL_APIC_ADDRESS_OVERRIDE_ENTRY
abbrev pub local_apic_entry : ℕ
local_apic_entry = 0

abbrev pub io_apic_entry : ℕ
io_apic_entry = 1

abbrev pub interrupt_source_override_entry : ℕ
interrupt_source_override_entry = 2

abbrev pub local_apic_address_override_entry : ℕ
local_apic_address_override_entry = 5

-- REDTBL_OFFSET
abbrev pub redtbl_offset : ℕ → ℕ
redtbl_offset irq = 2 * irq + 0x10

-- GET_BITRANGE_VALUE
unfoldable pub get_bitrange_value : ℕ → ℕ → ℕ → ℕ
get_bitrange_value num lb ub = bit_and num (2 ^ ub - 2 ^ lb) >>> lb

-- IOAPICInfo
pub record IoapicInfo : Type 0 where
  pub ioapic_id : ℕ
  pub physical_address : ℕ
  pub virtual_address : ℕ
  pub gsi_offset : ℕ
  pub used_irqs : ℕ

-- GSIOverrideEntry
pub record GsiOverrideEntry : Type 0 where
  pub present : Bool
  pub gsi : ℕ
  pub flags : ℕ

-- The registers of an IOAPIC: current_register, and the registers that it chooses from.
pub record Ioapic : Type 0 where
  pub current_register : ℕ
  pub registers : ℕ → ℕ

-- The registers of the local APIC that the kernel uses, and where they are mapped.
pub record LocalApic : Type 0 where
  pub virtual_address : ℕ
  pub id : ℕ
  pub task_priority : ℕ
  pub eoi : ℕ
  pub spurious_interrupt_vector : ℕ

-- g_lapic, g_gsi_override_table, g_found_ioapics with g_ioapic_count, g_found_lapics (addresses of
-- MADT entries) with g_lapic_count, memory, the IOAPICs by their virtual addresses, the port writes
-- so far, the last one first, and the state of the other parts.
pub record Apic (X : Type 0) : Type 0 where
  pub lapic : LocalApic
  pub gsi_override_table : ℕ → GsiOverrideEntry
  pub found_ioapics : ℕ → IoapicInfo
  pub ioapic_count : ℕ
  pub found_lapics : ℕ → ℕ
  pub lapic_count : ℕ
  pub bytes : ℕ → ℕ
  pub ioapics : ℕ → Ioapic
  pub port_writes : List (ℕ × ℕ)
  pub rest : X

-- The IOAPICs that are found, from the element `i` on with `left` left: the index of the first
-- one that has the interrupt. gsi_offset + used_irqs has 32 bits.
unfoldable pub responsible_from : (ℕ → IoapicInfo) → ℕ → ℕ → ℕ → Option ℕ
responsible_from found gsi i zero = none
responsible_from found gsi i (suc left) =
    let e = found i in
    if leb e.gsi_offset gsi && ltb gsi (u32 (e.gsi_offset + e.used_irqs))
    then some i
    else responsible_from found gsi (i + 1) left

-- entry->processor_id and entry->apic_id are the bytes 2 and 3 of the entry.
unfoldable pub lapic_from : (ℕ → ℕ) → (ℕ → ℕ) → ℕ → ℕ → ℕ → Option ℕ
lapic_from bytes found acpi_id i zero = none
lapic_from bytes found acpi_id i (suc left) =
    if bytes (found i + 2) == acpi_id
    then some (bytes (found i + 3))
    else lapic_from bytes found acpi_id (i + 1) left

module _ {X : Type 0} where
  unfoldable pub write_register : ℕ → ℕ → Cmd (Apic X) (Unit {0})
  write_register ioapic value s =
      let i = s.ioapics ioapic in
      ok tt (record s {
        ioapics =
            update s.ioapics ioapic
              (record i { registers = update i.registers i.current_register value });
      })

  unfoldable pub select_register : ℕ → ℕ → Cmd (Apic X) (Unit {0})
  select_register ioapic offset s = ok tt (record s {
    ioapics = update s.ioapics ioapic (record (s.ioapics ioapic) { current_register = offset });
  })

  unfoldable pub read_ioapic_register : ℕ → ℕ → Cmd (Apic X) ℕ
  read_ioapic_register ioapic offset = do
    select_register ioapic offset
    (λ s. ok ((s.ioapics ioapic).registers (s.ioapics ioapic).current_register) s)

  unfoldable pub write_ioapic_register : ℕ → ℕ → ℕ → Cmd (Apic X) (Unit {0})
  write_ioapic_register ioapic offset value = do
    select_register ioapic offset
    write_register ioapic value

  unfoldable pub read_ioapic_id : ℕ → Cmd (Apic X) ℕ
  read_ioapic_id ioapic = do r0 ← read_ioapic_register ioapic 0; pure (get_bitrange_value r0 24 27)

  unfoldable pub read_ioapic_version : ℕ → Cmd (Apic X) ℕ
  read_ioapic_version ioapic = do
    r1 ← read_ioapic_register ioapic 1
    pure (get_bitrange_value r1 0 8)

  unfoldable pub read_ioapic_mre : ℕ → Cmd (Apic X) ℕ
  read_ioapic_mre ioapic = do r1 ← read_ioapic_register ioapic 1; pure (get_bitrange_value r1 16 24)

  -- The two words of an entry, the lower one first.
  unfoldable pub read_redtable_entry : ℕ → ℕ → Cmd (Apic X) (ℕ × ℕ)
  read_redtable_entry ioapic irq = do
    lower_dword ← read_ioapic_register ioapic (u8 (redtbl_offset irq))
    upper_dword ← read_ioapic_register ioapic (u8 (u8 (redtbl_offset irq) + 1))
    pure (lower_dword, upper_dword)

  unfoldable pub write_redtable_entry : ℕ → ℕ → ℕ → ℕ → Cmd (Apic X) (Unit {0})
  write_redtable_entry ioapic irq lower_dword upper_dword = do
    write_ioapic_register ioapic (u8 (redtbl_offset irq)) lower_dword
    write_ioapic_register ioapic (u8 (u8 (redtbl_offset irq) + 1)) upper_dword

  unfoldable pub get_responsible_ioapic : ℕ → Apic X → Option ℕ
  get_responsible_ioapic gsi s = responsible_from s.found_ioapics gsi 0 s.ioapic_count

  unfoldable pub get_lapic_id : ℕ → Apic X → Option ℕ
  get_lapic_id acpi_id s = lapic_from s.bytes s.found_lapics acpi_id 0 s.lapic_count
