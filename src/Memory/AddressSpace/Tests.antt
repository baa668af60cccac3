-- ===== src/Memory/AddressSpace/Tests.antt =====
-- The theorems of the address spaces at concrete states.
use plusplus_os.Base.{ℕ, ◌+◌, ◌*◌, ◌≡◌, refl, arith, ◌⊎◌, List, [], ◌∷◌, one_if, ◌<<<◌}
use plusplus_os.Machine.{Cmd, pure, stop, general_protection, Ends, Never, and_then}
use plusplus_os.Memory.{Mem}
use plusplus_os.Memory.Frames.Tests.{no_blocks, hundred_entries, hundred_entries-IsStocked}
use plusplus_os.Memory.AddressSpace.{
  FreeListEntry, whole, AddressSpace, Pointer, sign_ext_addr, entries_of, alloc_addr_space,
  add_range_to_free_list, claim_virt_range,
}
use plusplus_os.Memory.AddressSpace.Ranges.{page_in, free_ranges}
use plusplus_os.Memory.AddressSpace.Contract.{
  Reuses, Extends, Full, alloc_addr_space_total, alloc_addr_space_overlap,
  alloc_addr_space_dangling, add_range_to_free_list-alloc_addr_space,
}
use plusplus_os.Memory.AddressSpace.Claim.{ClaimResult, claim_virt_range_total}

-- The state of the kernel is one address space.
abbrev the_space : Pointer AddressSpace
the_space = record { load = λ a. a; store = λ a b. a }

abbrev entry : ℕ → ℕ → ℕ → FreeListEntry
entry n a p = record { node = n; addr = a; pages = p }

abbrev pub space_with : List FreeListEntry → AddressSpace
space_with entries = record {
  current_address = 0x40000;
  pdp_index = 0;
  pdp = 0;
  prot = 0;
  free_list = whole entries;
  entry_maps = λ level. [];
}

abbrev kernel : List FreeListEntry → Mem AddressSpace
kernel entries = record { lists = no_blocks; pool = hundred_entries; rest = space_with entries }

abbrev no_page : Cmd (Mem AddressSpace) ℕ
no_page = pure 0

abbrev small_ranges : List FreeListEntry
small_ranges = entry 1 16 2 ∷ entry 2 20 4 ∷ []

alloc_addr_space_total_example :
    Ends
      (Full the_space (λ a x. refl) 4 (space_with small_ranges))
      (λ addr t.
        Reuses 4 (space_with small_ranges) addr t.rest
        ⊎ Extends 4 (space_with small_ranges) addr t.rest)
      (alloc_addr_space the_space 4 (kernel small_ranges))
alloc_addr_space_total_example =
    alloc_addr_space_total the_space (λ a x. refl) 4 (kernel small_ranges) small_ranges refl
      (omega arith, (omega arith, tt)) (omega arith)

alloc_addr_space_overlap_example :
    Ends Never
      (λ addr t.
        (addr ≡ sign_ext_addr (20 <<< 12))
        × ((x : ℕ)
            → free_ranges (entries_of t.rest.free_list) x + one_if (page_in 20 1 x)
              ≡ free_ranges (entry 2 20 4 ∷ []) x + one_if (page_in (20 + 4) (2 * 1) x)))
      (alloc_addr_space the_space 1 (kernel (entry 2 20 4 ∷ [])))
alloc_addr_space_overlap_example =
    alloc_addr_space_overlap the_space (λ a x. refl) 1 (kernel (entry 2 20 4 ∷ [])) (entry 2 20 4)
      [] refl (omega arith) (omega arith)

alloc_addr_space_dangling_example :
    and_then
      (alloc_addr_space the_space 2 (kernel small_ranges))
      (λ _. alloc_addr_space the_space 4)
    ≡ stop general_protection
alloc_addr_space_dangling_example =
    alloc_addr_space_dangling the_space (λ a x. refl) 2 4 (kernel small_ranges) (entry 1 16 2)
      (entry 2 20 4) [] refl refl

add_range_to_free_list-alloc_addr_space_example :
    Ends Never
      (λ addr t.
        (addr ≡ sign_ext_addr 0x8000)
        × (entries_of t.rest.free_list ≡ small_ranges)
        × (t.rest.current_address ≡ 0x40000))
      (and_then
        (add_range_to_free_list the_space no_page 0x8000 3 (kernel small_ranges))
        (λ _. alloc_addr_space the_space 3))
add_range_to_free_list-alloc_addr_space_example =
    add_range_to_free_list-alloc_addr_space the_space (λ a x. refl) no_page 0 0x8000 3
      (kernel small_ranges) refl (omega arith) (omega arith)
      (hundred_entries-IsStocked 1 (omega arith))

claim_virt_range_total_example :
    Ends Never
      (ClaimResult the_space 0x50000 16 (kernel small_ranges))
      (claim_virt_range the_space no_page 0x50000 16 (kernel small_ranges))
claim_virt_range_total_example =
    claim_virt_range_total the_space (λ a x. refl) no_page 0 0x50000 16 (kernel small_ranges) refl
      refl (omega arith) (hundred_entries-IsStocked 1 (omega arith))
