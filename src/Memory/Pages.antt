-- ===== src/Memory/Pages.antt =====
-- kernel/src/memory.c, the kernel's calls in kernel/src/memory/paging.c and the address spaces of
-- the processes. These functions call each other through the entry pool and the page pool: `depth`
-- bounds how often a call leads back here.
use plusplus_os.Base.{
  ℕ, zero, suc, ◌*◌, ◌^◌, ◌%◌, true, not, Option, none, some, List, [], ◌∷◌, ltb, leb, ◌==◌,
  if◌then◌else◌, ◌<<<◌, ◌>>>◌, update,
}
use plusplus_os.Machine.{
  Cmd, halt, assert_failed, out_of_fuel, out_of_memory, no_physical_address, general_protection,
  not_a_user_space, not_four_bits, pure, kernel_assert, ◌>>=◌, ◌>>◌,
}
use plusplus_os.Memory.{PageFrameAllocation, Mem}
use plusplus_os.Memory.EntryPool.{page_size, free_memory_entry}
use plusplus_os.Memory.Frames.{alloc_frames, alloc_frames_contiguos, free_frames_contiguos}
use plusplus_os.Memory.Frames.Allocations.{free_frame_allocation_entries}
use plusplus_os.Memory.AddressSpace.{
  FreeListEntry, whole, MappingEntry, AddressSpace, pdp_mem_range, FreeList, cut, sign_ext_addr,
}
use plusplus_os.Memory.Paging.{
  zero_entry, Paging, Space, kernel_space, paging_writable, change_space, change_paging,
  clear_table,
}
use plusplus_os.Memory.Paging.Entries.{chain_of}
use plusplus_os.Memory.Paging.Mapping.{
  map_allocation, map_phys_range, unmap_range, unmap_and_free_frames, virt_to_phys_addr,
}

-- alloc_pages(1, PAGING_WRITABLE), and kmap_allocation and kmap_phys_range with PAGING_WRITABLE,
-- as they are called from below.
pub record Calls : Type 0 where
  pub alloc_page : Cmd (Mem Paging) ℕ
  pub kmap_writable : List PageFrameAllocation → Cmd (Mem Paging) ℕ
  pub kmap_range_writable : ℕ → ℕ → Cmd (Mem Paging) ℕ

module _ (below : Calls) where
  open below use {alloc_page, kmap_writable, kmap_range_writable}

  unfoldable pub kmap_allocation : List PageFrameAllocation → ℕ → Cmd (Mem Paging) ℕ
  kmap_allocation allocation flags =
      map_allocation alloc_page kmap_writable kmap_range_writable kernel_space allocation flags

  unfoldable pub kmap_phys_range : ℕ → ℕ → ℕ → Cmd (Mem Paging) ℕ
  kmap_phys_range phys_addr pages flags =
      map_phys_range alloc_page kmap_writable kmap_range_writable kernel_space phys_addr pages flags

  unfoldable pub kunmap_range : ℕ → ℕ → Cmd (Mem Paging) (Unit {0})
  kunmap_range virt_addr pages =
      unmap_range alloc_page kmap_writable kmap_range_writable kernel_space virt_addr pages

  unfoldable pub kunmap_and_free_frames : ℕ → ℕ → Cmd (Mem Paging) (Unit {0})
  kunmap_and_free_frames virt_addr pages =
      unmap_and_free_frames alloc_page kmap_writable kmap_range_writable kernel_space virt_addr
        pages

  abbrev pub mapped_pages :
      (List PageFrameAllocation → Cmd (Mem Paging) ℕ)
      → List PageFrameAllocation
      → Cmd (Mem Paging) ℕ
  mapped_pages kmap [] = pure 0
  mapped_pages kmap (a ∷ next) = do
    ptr ← kmap (a ∷ next)
    free_frame_allocation_entries (a ∷ next)
    pure ptr

  unfoldable pub alloc_pages : ℕ → ℕ → Cmd (Mem Paging) ℕ
  alloc_pages pages flags = do
    frames ← alloc_frames alloc_page pages
    mapped_pages (λ allocation. kmap_allocation allocation flags) (chain_of frames)

  unfoldable pub free_pages : ℕ → ℕ → Cmd (Mem Paging) (Unit {0})
  free_pages ptr pages = kunmap_and_free_frames ptr pages

  abbrev pub mapped_range : ℕ → ℕ → Option ℕ → Cmd (Mem Paging) ℕ
  mapped_range pages flags none = pure 0
  mapped_range pages flags (some phys_addr) = kmap_phys_range phys_addr pages flags

  unfoldable pub alloc_pages_contiguous : ℕ → ℕ → Cmd (Mem Paging) ℕ
  alloc_pages_contiguous pages flags = do
    frame ← alloc_frames_contiguos alloc_page pages
    mapped_range pages flags frame

  abbrev pub free_range : ℕ → ℕ → Option ℕ → Cmd (Mem Paging) (Unit {0})
  free_range ptr pages none = halt (assert_failed no_physical_address)
  free_range ptr pages (some phys_addr) = do
    kunmap_range ptr pages
    free_frames_contiguos alloc_page phys_addr pages

  unfoldable pub free_pages_contiguous : ℕ → ℕ → Cmd (Mem Paging) (Unit {0})
  free_pages_contiguous ptr pages = do
    phys_addr ← virt_to_phys_addr kernel_space ptr
    free_range ptr pages phys_addr

  -- The fields that new_address_space sets before it allocates the page directory pointer table.
  abbrev pub empty_space : ℕ → ℕ → AddressSpace
  empty_space pdp_index prot = record {
    current_address =
        if pdp_index * pdp_mem_range == 0 then page_size else pdp_index * pdp_mem_range;
    pdp_index = pdp_index;
    pdp = 0;
    prot = prot;
    free_list = whole [];
    entry_maps = λ level. [];
  }

  unfoldable pub new_address_space : Space → ℕ → ℕ → Cmd (Mem Paging) (Unit {0})
  new_address_space space pdp_index prot = do
    kernel_assert (ltb pdp_index 480) not_a_user_space
    kernel_assert (leb prot 0b1111) not_four_bits
    change_space space (λ a. empty_space pdp_index prot)
    pdp ← alloc_pages_contiguous 1 paging_writable
    change_space space (λ a. record a { pdp = pdp })
    kernel_assert (not (pdp == 0)) out_of_memory
    clear_table pdp

  -- The loops of delete_address_space.
  unfoldable pub free_range_entries : List FreeListEntry → Cmd (Mem Paging) (Unit {0})
  free_range_entries [] = pure tt
  free_range_entries (e ∷ next) = do free_memory_entry e.node; free_range_entries next

  -- A pointer without its upper bits is not followed.
  abbrev pub free_ranges : FreeList → Cmd (Mem Paging) (Unit {0})
  free_ranges (whole entries) = free_range_entries entries
  free_ranges (cut []) = pure tt
  free_ranges (cut (e ∷ next)) = halt general_protection

  unfoldable pub free_mappings : List MappingEntry → Cmd (Mem Paging) (Unit {0})
  free_mappings [] = pure tt
  free_mappings (m ∷ next) = do
    free_pages_contiguous (sign_ext_addr (m.virt_addr <<< 12)) 1
    free_memory_entry m.node
    free_mappings next

  -- The space is the argument's own copy: it is not changed.
  unfoldable pub delete_address_space : AddressSpace → Cmd (Mem Paging) (Unit {0})
  delete_address_space a = do
    free_ranges a.free_list
    free_mappings (a.entry_maps 0)
    free_mappings (a.entry_maps 1)
    free_pages_contiguous a.pdp 1

  -- `some p` is the physical address of the page directory pointer table.
  abbrev pub enter_space : AddressSpace → Option ℕ → Cmd (Mem Paging) (Unit {0})
  enter_space a none = halt (assert_failed no_physical_address)
  enter_space a (some phys_addr) = change_paging λ p. record p {
    pml4 = update p.pml4 a.pdp_index (record (p.pml4 a.pdp_index) {
      phys_addr = (phys_addr >>> 12) % 2 ^ 40;
      present = true;
      write = true;
      prot = a.prot;
      user = a.prot == 3;
    });
  }

  unfoldable pub map_address_space : AddressSpace → Cmd (Mem Paging) (Unit {0})
  map_address_space a = do phys_addr ← virt_to_phys_addr kernel_space a.pdp; enter_space a phys_addr

  unfoldable pub unmap_address_space : AddressSpace → Cmd (Mem Paging) (Unit {0})
  unmap_address_space a =
      change_paging λ p. record p { pml4 = update p.pml4 a.pdp_index zero_entry }

-- The calls that lead back here at most `depth` times.
unfoldable pub calls : ℕ → Calls
calls zero = record {
  alloc_page = halt out_of_fuel;
  kmap_writable = λ allocation. halt out_of_fuel;
  kmap_range_writable = λ phys_addr pages. halt out_of_fuel;
}
calls (suc depth) = record {
  alloc_page = alloc_pages (calls depth) 1 paging_writable;
  kmap_writable = λ allocation. kmap_allocation (calls depth) allocation paging_writable;
  kmap_range_writable =
      λ phys_addr pages. kmap_phys_range (calls depth) phys_addr pages paging_writable;
}
