-- ===== src/Memory/Paging/Mapping.antt =====
-- kernel/src/memory/paging.c: mapping, unmapping and translation of virtual address ranges.
use plusplus_os.Base.{
  ℕ, zero, suc, ◌+◌, ◌-◌, ◌/◌, ◌%◌, ◌^◌, Bool, true, false, not, ◌||◌, Option, none, some, List, [],
  ◌∷◌, leb, ◌==◌, if◌then◌else◌, add64, mul64, ◌<<<◌, ◌>>>◌, bit_and, bit_or,
}
use plusplus_os.Machine.{
  Cmd, ok, pd_not_present, pt_not_present, not_a_power, pure, kernel_assert, ◌>>=◌, ◌>>◌,
}
use plusplus_os.Memory.{PageFrameAllocation, Mem}
use plusplus_os.Memory.EntryPool.{page_size}
use plusplus_os.Memory.Orders.{frame_orders, get_frame_order_size}
use plusplus_os.Memory.Frames.{free_frames_contiguos}
use plusplus_os.Memory.Frames.Allocations.{calculate_allocation_pages}
use plusplus_os.Memory.AddressSpace.{alloc_addr_space, claim_virt_range, add_range_to_free_list}
use plusplus_os.Memory.Paging.{
  PageEntry, zero_entry, Paging, Space, pointer, level_pt, level_pd, level_pdp, load_space,
  read_entry, change_entry, get_level_index, set_flags, get_page_entries,
}
use plusplus_os.Memory.Paging.Entries.{get_or_alloc_page_entries}

-- PageTableLocation
pub record Location : Type 0 where
  pub pd_index : ℕ
  pub pd : ℕ
  pub pt_index : ℕ
  pub pt : ℕ

-- The entry of map_range_helper.
abbrev pub mapped_entry : Bool → ℕ → ℕ → ℕ → PageEntry → PageEntry
mapped_entry execute_disable flags prot phys_addr e =
    record (set_flags execute_disable flags
      (record e { phys_addr = (phys_addr >>> 12) % 2 ^ 40; present = true })) {
        prot = prot;
        user = prot == 3;
      }

-- __builtin_popcountll, of `width` bits
unfoldable pub popcount : ℕ → ℕ → ℕ
popcount zero n = 0
popcount (suc width) n = n % 2 + popcount width (n / 2)

-- The blocks of frames that unmap_and_free_frames collects: `pages` pages from `start` on, up to
-- the page at `curr`.
pub record Run : Type 0 where
  pub start : ℕ
  pub curr : ℕ
  pub pages : ℕ

module _ (alloc_page : Cmd (Mem Paging) ℕ)
    (kmap_allocation : List PageFrameAllocation → Cmd (Mem Paging) ℕ)
    (kmap_phys_range : ℕ → ℕ → Cmd (Mem Paging) ℕ) where
  -- get_or_alloc_page_entries or get_page_entries
  abbrev pub entries_at : Bool → Space → ℕ → ℕ → ℕ → Cmd (Mem Paging) ℕ
  entries_at true = get_or_alloc_page_entries alloc_page kmap_allocation kmap_phys_range
  entries_at false = get_page_entries

  unfoldable pub populate_page_table_location : Space → ℕ → Bool → Cmd (Mem Paging) Location
  populate_page_table_location space virt_addr alloc = do
    let pd_index = get_level_index virt_addr level_pdp
    let pt_index = get_level_index virt_addr level_pd
    pd ← (λ s. entries_at alloc space (load_space space s).pdp pd_index level_pd s)
    pt ← entries_at alloc space pd pt_index level_pt
    pure (record { pd_index = pd_index; pd = pd; pt_index = pt_index; pt = pt })

  -- Another page directory: the first of its page tables is taken.
  unfoldable pub next_pd : Space → ℕ → Bool → Cmd (Mem Paging) Location
  next_pd space pd_index alloc = do
    pd ← (λ s. entries_at alloc space (load_space space s).pdp pd_index level_pd s)
    kernel_assert (not (pd == 0)) pd_not_present
    pt ← entries_at alloc space pd 0 level_pt
    kernel_assert (not (pt == 0)) pt_not_present
    pure (record { pd_index = pd_index; pd = pd; pt_index = 0; pt = pt })

  unfoldable pub next_pt : Space → ℕ → Location → Bool → Cmd (Mem Paging) Location
  next_pt space pt_index location alloc = do
    pt ← entries_at alloc space location.pd pt_index level_pt
    kernel_assert (not (pt == 0)) pt_not_present
    pure (record location { pt_index = pt_index; pt = pt })

  unfoldable pub page_table_traversal_helper :
      Space → ℕ → Location → Bool → Cmd (Mem Paging) Location
  page_table_traversal_helper space virt_addr location alloc =
      let pd_index = get_level_index virt_addr level_pdp in
      let pt_index = get_level_index virt_addr level_pd in
      if pd_index == location.pd_index
      then if pt_index == location.pt_index
        then pure location
        else next_pt space pt_index location alloc
      else next_pd space pd_index alloc

  -- `pages` more rounds of map_range_helper; the location after them.
  unfoldable pub map_range_helper : Space → ℕ → ℕ → ℕ → ℕ → Location → Cmd (Mem Paging) Location
  map_range_helper space virt_addr phys_addr zero flags location = pure location
  map_range_helper space virt_addr phys_addr (suc pages) flags location = do
    at ← page_table_traversal_helper space virt_addr location true
    (λ s.
        change_entry at.pt (get_level_index virt_addr level_pt)
          (mapped_entry s.rest.paging_execute_disable flags (load_space space s).prot phys_addr) s)
    map_range_helper space (add64 virt_addr page_size) (add64 phys_addr page_size) pages flags at

  -- The loop of map_allocation and of map_allocation_to_range.
  unfoldable pub map_blocks :
      Space → ℕ → List PageFrameAllocation → ℕ → Location → Cmd (Mem Paging) (Unit {0})
  map_blocks space virt_addr [] flags location = pure tt
  map_blocks space virt_addr (a ∷ next) flags location = do
    size ← get_frame_order_size a.order
    at ← map_range_helper space virt_addr a.addr (size / page_size) flags location
    map_blocks space (add64 virt_addr size) next flags at

  unfoldable pub map_allocation : Space → List PageFrameAllocation → ℕ → Cmd (Mem Paging) ℕ
  map_allocation space allocation flags = do
    total_pages ← calculate_allocation_pages allocation
    virt_addr ← alloc_addr_space (pointer space) total_pages
    location ← populate_page_table_location space virt_addr true
    map_blocks space virt_addr allocation flags location
    pure virt_addr

  unfoldable pub map_phys_range : Space → ℕ → ℕ → ℕ → Cmd (Mem Paging) ℕ
  map_phys_range space phys_addr pages flags = do
    virt_addr ← alloc_addr_space (pointer space) pages
    location ← populate_page_table_location space virt_addr true
    map_range_helper space virt_addr phys_addr pages flags location
    pure virt_addr

  unfoldable pub map_claimed_allocation :
      Space → List PageFrameAllocation → ℕ → ℕ → Cmd (Mem Paging) Bool
  map_claimed_allocation space allocation virt_addr flags = do
    location ← populate_page_table_location space virt_addr true
    map_blocks space virt_addr allocation flags location
    pure true

  unfoldable pub map_allocation_to_range :
      Space → List PageFrameAllocation → ℕ → ℕ → Cmd (Mem Paging) Bool
  map_allocation_to_range space allocation virt_addr flags = do
    total_pages ← calculate_allocation_pages allocation
    claimed ← claim_virt_range (pointer space) alloc_page virt_addr total_pages
    if claimed then map_claimed_allocation space allocation virt_addr flags else pure false

  unfoldable pub map_claimed_range : Space → ℕ → ℕ → ℕ → ℕ → Cmd (Mem Paging) Bool
  map_claimed_range space phys_addr virt_addr pages flags = do
    location ← populate_page_table_location space virt_addr true
    map_range_helper space virt_addr phys_addr pages flags location
    pure true

  unfoldable pub map_to_range : Space → ℕ → ℕ → ℕ → ℕ → Cmd (Mem Paging) Bool
  map_to_range space phys_addr virt_addr pages flags = do
    claimed ← claim_virt_range (pointer space) alloc_page virt_addr pages
    if claimed then map_claimed_range space phys_addr virt_addr pages flags else pure false

  -- `pages` more rounds of unmap_range.
  unfoldable pub unmap_pages : Space → ℕ → ℕ → Location → Cmd (Mem Paging) (Unit {0})
  unmap_pages space virt_addr zero location = pure tt
  unmap_pages space virt_addr (suc pages) location = do
    at ← page_table_traversal_helper space virt_addr location false
    change_entry at.pt (get_level_index virt_addr level_pt) (λ e. zero_entry)
    unmap_pages space (add64 virt_addr page_size) pages at

  unfoldable pub unmap_range : Space → ℕ → ℕ → Cmd (Mem Paging) (Unit {0})
  unmap_range space virt_addr pages = do
    add_range_to_free_list (pointer space) alloc_page virt_addr pages
    location ← populate_page_table_location space virt_addr false
    unmap_pages space virt_addr pages location

  -- free_frames_contiguos of the pages that were collected, which must be a power of two.
  unfoldable pub free_run : Run → Cmd (Mem Paging) (Unit {0})
  free_run run = do
    kernel_assert (popcount 64 run.pages == 1) not_a_power
    free_frames_contiguos alloc_page run.start run.pages

  -- A page at `phys_addr` is unmapped: it starts a run, it extends the run, or it ends it.
  unfoldable pub collect_page : ℕ → Run → Cmd (Mem Paging) Run
  collect_page phys_addr run =
      let next = add64 run.curr page_size in
      let ended = (do
        limit ← get_frame_order_size (frame_orders - 1)
        if not (next == phys_addr) || leb limit (mul64 run.pages page_size)
            then (free_run run >> pure (record { start = run.start; curr = next; pages = 0 }))
            else pure (record { start = run.start; curr = next; pages = run.pages + 1 })) in
      if run.pages == 0
      then pure (record { start = phys_addr; curr = phys_addr; pages = 1 })
      else ended

  unfoldable pub unmap_and_collect : Space → ℕ → ℕ → Location → Run → Cmd (Mem Paging) Run
  unmap_and_collect space virt_addr zero location run = pure run
  unmap_and_collect space virt_addr (suc pages) location run = do
    let index = get_level_index virt_addr level_pt
    at ← page_table_traversal_helper space virt_addr location false
    e ← read_entry at.pt index
    after ← collect_page (e.phys_addr <<< 12) run
    change_entry at.pt index (λ e. zero_entry)
    unmap_and_collect space (add64 virt_addr page_size) pages at after

  unfoldable pub unmap_and_free_frames : Space → ℕ → ℕ → Cmd (Mem Paging) (Unit {0})
  unmap_and_free_frames space virt_addr pages = do
    add_range_to_free_list (pointer space) alloc_page virt_addr pages
    location ← populate_page_table_location space virt_addr false
    run ←
        unmap_and_collect space virt_addr pages location (record { start = 0; curr = 0; pages = 0 })
    if run.pages == 0 then pure tt else free_run run

  -- `pages` more rounds of range_set_flags.
  unfoldable pub set_flags_pages : Space → ℕ → ℕ → ℕ → Location → Cmd (Mem Paging) Bool
  set_flags_pages space virt_addr zero flags location = pure true
  set_flags_pages space virt_addr (suc pages) flags location = do
    let index = get_level_index virt_addr level_pt
    at ← page_table_traversal_helper space virt_addr location false
    e ← read_entry at.pt index
    if e.present
        then (do
          (λ s. change_entry at.pt index (set_flags s.rest.paging_execute_disable flags) s)
          set_flags_pages space (add64 virt_addr page_size) pages flags at)
        else pure false

  unfoldable pub range_set_flags : Space → ℕ → ℕ → ℕ → Cmd (Mem Paging) Bool
  range_set_flags space virt_addr pages flags = do
    location ← populate_page_table_location space virt_addr false
    set_flags_pages space virt_addr pages flags location

-- The physical address of a page that is present.
abbrev pub phys_of : ℕ → PageEntry → Option ℕ
phys_of virt_addr e =
    if e.present then some (bit_or (e.phys_addr <<< 12) (bit_and virt_addr 0xfff)) else none

unfoldable pub translate_pt : ℕ → ℕ → Cmd (Mem Paging) (Option ℕ)
translate_pt virt_addr pt s =
    if pt == 0
    then ok none s
    else ok (phys_of virt_addr (s.rest.tables pt (get_level_index virt_addr level_pt))) s

unfoldable pub translate_pd : Space → ℕ → ℕ → Cmd (Mem Paging) (Option ℕ)
translate_pd space virt_addr pd =
    let found = (do
      pt ← get_page_entries space pd (get_level_index virt_addr level_pd) level_pt
      translate_pt virt_addr pt) in
    if pd == 0 then pure none else found

-- `some p`: the call returns true and stores `p` to *phys_addr.
unfoldable pub virt_to_phys_addr : Space → ℕ → Cmd (Mem Paging) (Option ℕ)
virt_to_phys_addr space virt_addr = do
  pd ← (λ s.
      get_page_entries space (load_space space s).pdp (get_level_index virt_addr level_pdp) level_pd
        s)
  translate_pd space virt_addr pd
