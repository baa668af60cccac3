-- ===== src/Memory/Paging/Tests.antt =====
-- kernel/src/memory/paging.c: an address space with one page directory and one page table.
use plusplus_os.Base.{
  ℕ, ◌+◌, ◌*◌, ◌^◌, ◌<◌, ◌≤◌, ◌≡◌, ◌⊎◌, refl, true, Option, some, List, [], ◌∷◌, arith, ◌==◌,
  if◌then◌else◌,
}
use plusplus_os.Machine.{Cmd, ok, pure}
use plusplus_os.Memory.{PageFrameAllocation, Mem}
use plusplus_os.Memory.Frames.Tests.{no_blocks, hundred_entries}
use plusplus_os.Memory.AddressSpace.{AddressSpace, whole, sign_ext_addr}
use plusplus_os.Memory.Paging.{
  PageEntry, zero_entry, Paging, user_space, find_mapping, paging_writable,
}
use plusplus_os.Memory.Paging.Mapping.{map_claimed_range, virt_to_phys_addr}
use plusplus_os.Memory.Paging.Walk.{Walks, get_level_index_lem, pdp_index, pd_index}
use plusplus_os.Memory.Paging.Translate.{map_claimed_range-translates}

-- The pointer table is at 0x1000, the directory at 0x2000 and the page table at 0x3000.
abbrev space : AddressSpace
space = record {
  current_address = 0x100000;
  pdp_index = 0;
  pdp = 0x1000;
  prot = 3;
  free_list = whole [];
  entry_maps = λ level.
      (if level == 0
        then record { node = 1; virt_addr = 3; phys_addr = 6 }
        else record { node = 2; virt_addr = 2; phys_addr = 5 })
      ∷ [];
}

abbrev present_at : ℕ → PageEntry
present_at phys = record zero_entry { present = true; phys_addr = phys }

abbrev kernel : Mem Paging
kernel = record {
  lists = no_blocks;
  pool = hundred_entries;
  rest = record {
    kernel_space = space;
    user_spaces = λ n. space;
    tables = λ t index.
        if t == 0x1000 then present_at 5 else if t == 0x2000 then present_at 6 else zero_entry;
    pml4 = λ i. zero_entry;
    page_pool = record { count = 0; head = [] };
    paging_execute_disable = true;
  };
}

abbrev InFirstTable : ℕ → Type 0
InFirstTable u = u < 2 ^ 21

first_pdp : (u : ℕ) → InFirstTable u → pdp_index u ≡ 0
first_pdp u h = omega (arith, get_level_index_lem u 2)

first_pd : (u : ℕ) → InFirstTable u → pd_index u ≡ 0
first_pd u h = omega (arith, get_level_index_lem u 1)

kernel-Walks : Walks (user_space 7) space InFirstTable (λ i. 0x2000) (λ i j. 0x3000) kernel
unfolding find_mapping sign_ext_addr
kernel-Walks = record {
  loaded = refl;
  top = λ v w p q. omega arith;
  pdp_some = λ e. omega arith;
  pd_present = λ v p. refl;
  pd_found = λ v p. refl;
  pd_some = λ v p e. omega arith;
  pt_present = λ v p. refl;
  pt_found = λ v p. refl;
  pt_some = λ v p e. omega arith;
  pt_not_pdp = λ v p e. omega arith;
  pt_not_pd = λ v w p q e. omega arith;
  pt_apart = λ v w p q e.
      (omega (arith, first_pdp v p, first_pdp w q), omega (arith, first_pd v p, first_pd w q));
}

abbrev no_page : Cmd (Mem Paging) ℕ
no_page = pure 0

abbrev no_mapping : List PageFrameAllocation → Cmd (Mem Paging) ℕ
no_mapping allocation = pure 0

abbrev no_range : ℕ → ℕ → Cmd (Mem Paging) ℕ
no_range phys pages = pure 0

-- Three pages from 0x5000 on.
map_claimed_range-translates_example :
    (t : Mem Paging) × (map_claimed_range no_page no_mapping no_range
        (user_space 7)
        0x800000
        0x5000
        3
        paging_writable
        kernel
      ≡ ok true t)
    × ((i off : ℕ)
        → i < 3
        → off < 4096
        → virt_to_phys_addr (user_space 7) (0x5000 + i * 4096 + off) t
          ≡ ok (some (0x800000 + i * 4096 + off)) t)
    × ((u : ℕ)
        → InFirstTable u
        → (u < 0x5000) ⊎ (0x5000 + 3 * 4096 ≤ u)
        → (r : Option ℕ) × (virt_to_phys_addr (user_space 7) u kernel ≡ ok r kernel)
          × (virt_to_phys_addr (user_space 7) u t ≡ ok r t))
map_claimed_range-translates_example =
    map_claimed_range-translates no_page no_mapping no_range (user_space 7) space InFirstTable
      (λ i. 0x2000) (λ i j. 0x3000) kernel 0x5000 0x800000 3 paging_writable kernel-Walks
      (λ i off h small. omega arith) (omega arith) refl refl (omega arith) (omega arith)
