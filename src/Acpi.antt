-- ===== src/Acpi.antt =====
-- kernel/src/acpi.c: where the ACPI memory is mapped, the checks of RSDP and XSDT, and the search
-- for a table. Memory is a table of bytes by virtual addresses; `kmap_phys_range` and `kalloc` are
-- arguments.
pub mod Checksum
mod Tests
use plusplus_os.Base.{
  ℕ, zero, suc, ◌+◌, ◌-◌, ◌*◌, ◌/◌, ◌%◌, ◌^◌, Bool, true, false, not, ◌&&◌, ◌||◌, List, [], ◌∷◌,
  ◌++◌, ◌==◌, if◌then◌else◌, length, u8, u64, add64, sub64,
}
use plusplus_os.Machine.{
  Cmd, ok, stop, null_pointer, out_of_memory, rsdp_not_found, invalid_rsdp_signature, invalid_rsdp,
  xsdt_not_found, invalid_xsdt, pure, kernel_assert, ◌>>=◌, ◌>>◌,
}
use plusplus_os.Uefi.{efi_acpi_reclaim_memory, efi_acpi_memory_nvs, MemoryDescriptor}
use plusplus_os.Memory.EntryPool.{page_size}
use plusplus_os.Memory.Orders.{range_contains}

-- sizeof(XSDT)
abbrev pub sdt_size : ℕ
sdt_size = 36

-- ACPIMemRemap
pub record MemRemap : Type 0 where
  pub phys : ℕ
  pub virt : ℕ
  pub size : ℕ

-- g_remap_list up to g_remap_count, g_xsdt, memory, and the state of the other parts.
pub record Acpi (X : Type 0) : Type 0 where
  pub remap_list : List MemRemap
  pub xsdt : ℕ
  pub bytes : ℕ → ℕ
  pub rest : X

-- A little-endian integer of `size` bytes.
unfoldable pub read_le : (ℕ → ℕ) → ℕ → ℕ → ℕ
read_le bytes zero ptr = 0
read_le bytes (suc size) ptr = bytes ptr + 256 * read_le bytes size (ptr + 1)

-- `memcmp(ptr, text, n) == 0`, where `text` has `n` characters
unfoldable pub same_bytes : (ℕ → ℕ) → ℕ → List ℕ → Bool
same_bytes bytes ptr [] = true
same_bytes bytes ptr (c ∷ text) = bytes ptr == c && same_bytes bytes (ptr + 1) text

-- The loops over `n` bytes that add them to a `uint8_t`.
unfoldable pub sum_bytes : (ℕ → ℕ) → ℕ → ℕ → ℕ → ℕ
sum_bytes bytes sum ptr zero = sum
sum_bytes bytes sum ptr (suc n) = sum_bytes bytes (u8 (sum + bytes ptr)) (ptr + 1) n

-- sdt->length
abbrev pub sdt_length : (ℕ → ℕ) → ℕ → ℕ
sdt_length bytes sdt = read_le bytes 4 (sdt + 4)

unfoldable pub sdt_is_valid : (ℕ → ℕ) → ℕ → List ℕ → Bool
sdt_is_valid bytes sdt signature =
    same_bytes bytes sdt signature && sum_bytes bytes 0 sdt (sdt_length bytes sdt) == 0

unfoldable pub get_virtual_acpi_address : List MemRemap → ℕ → ℕ
get_virtual_acpi_address [] physical = 0
get_virtual_acpi_address (e ∷ list) physical =
    if range_contains physical e.phys e.size
    then add64 (sub64 e.virt e.phys) physical
    else get_virtual_acpi_address list physical

-- The loop of find_table with `entries` rounds left. A table that is not mapped is read through the
-- null pointer.
unfoldable pub find_from : {X : Type 0} → List ℕ → ℕ → ℕ → Cmd (Acpi X) ℕ
find_from signature entry zero s = ok 0 s
find_from signature entry (suc entries) s =
    let header = get_virtual_acpi_address s.remap_list (read_le s.bytes 8 entry) in
    let rest = find_from signature (entry + 8) entries s in
    if header == 0
    then stop null_pointer
    else if same_bytes s.bytes header signature
    then ok header s
    else rest

-- XSDTs shorter than their header have (2 ^ 64 - ..) / 8 entries.
unfoldable pub find_table : {X : Type 0} → List ℕ → Cmd (Acpi X) ℕ
find_table signature s =
    find_from signature (s.xsdt + sdt_size) (sub64 (sdt_length s.bytes s.xsdt) sdt_size / 8) s

-- desc->type is one of the two types of ACPI memory
unfoldable pub is_acpi : MemoryDescriptor → Bool
is_acpi desc = desc.desc_type == efi_acpi_memory_nvs || desc.desc_type == efi_acpi_reclaim_memory

unfoldable pub count_acpi : List MemoryDescriptor → ℕ → ℕ
count_acpi [] entry_count = entry_count
count_acpi (desc ∷ map) entry_count =
    count_acpi map (if is_acpi desc then entry_count + 1 else entry_count)

abbrev pub push_remap : {X : Type 0} → MemRemap → Cmd (Acpi X) (Unit {0})
push_remap e s = ok tt (record s { remap_list = s.remap_list ++ e ∷ [] })

module _ {X : Type 0} where
  -- `memory_map` is the list of the descriptors of the UEFI memory map. `kalloc` gives 0 when there
  -- is no memory; what it gives is used as g_remap_list.
  module _ (kmap_phys_range : ℕ → ℕ → Cmd (Acpi X) ℕ) (kalloc : ℕ → Cmd (Acpi X) ℕ) where
    unfoldable pub remap_all : List MemoryDescriptor → Cmd (Acpi X) (Unit {0})
    remap_all [] = pure tt
    remap_all (desc ∷ memory_map) = do
      if is_acpi desc
          then (do
            virt ← kmap_phys_range desc.physical_start desc.num_pages
            push_remap (record {
              phys = desc.physical_start;
              virt = virt;
              size = u64 (desc.num_pages * page_size);
            }))
          else pure tt
      remap_all memory_map

    unfoldable pub prepare_acpi_memory : List MemoryDescriptor → Cmd (Acpi X) (Unit {0})
    prepare_acpi_memory memory_map = do
      list ← kalloc (count_acpi memory_map 0 * 24)
      kernel_assert (not (list == 0)) out_of_memory
      remap_all memory_map

  -- rsdp->xsdt_phys_addr
  abbrev pub xsdt_of : ℕ → Cmd (Acpi X) ℕ
  xsdt_of rsdp s = ok (get_virtual_acpi_address s.remap_list (read_le s.bytes 8 (rsdp + 24))) s

  -- The two checksums of the RSDP: the second one goes on from the first.
  unfoldable pub validate_rsdp : ℕ → Cmd (Acpi X) (Unit {0})
  validate_rsdp rsdp = do
    (λ s.
        kernel_assert
          (same_bytes s.bytes rsdp (b'R' ∷ b'S' ∷ b'D' ∷ b' ' ∷ b'P' ∷ b'T' ∷ b'R' ∷ b' ' ∷ []))
          invalid_rsdp_signature s)
    (λ s. kernel_assert (sum_bytes s.bytes 0 rsdp 20 == 0) invalid_rsdp s)
    (λ s.
        kernel_assert (sum_bytes s.bytes (sum_bytes s.bytes 0 rsdp 20) (rsdp + 20) 16 == 0)
          invalid_rsdp s)

  unfoldable pub initialize_acpi : ℕ → Cmd (Acpi X) (Unit {0})
  initialize_acpi rsdp_ptr = do
    rsdp ← (λ s. ok (get_virtual_acpi_address s.remap_list rsdp_ptr) s)
    kernel_assert (not (rsdp == 0)) rsdp_not_found
    validate_rsdp rsdp
    xsdt ← xsdt_of rsdp
    (λ s. ok tt (record s { xsdt = xsdt }))
    kernel_assert (not (xsdt == 0)) xsdt_not_found
    (λ s. kernel_assert (sdt_is_valid s.bytes xsdt (b'X' ∷ b'S' ∷ b'D' ∷ b'T' ∷ [])) invalid_xsdt s)
