-- ===== src/Memory/Paging/Entries.antt =====
-- kernel/src/memory/paging.c: get_or_alloc_page_entries and the pool of pages for page tables.
-- `alloc_page` is alloc_pages(1, PAGING_WRITABLE), `kmap_allocation` and `kmap_phys_range` are the
-- calls of these functions with PAGING_WRITABLE; both lead back here.
use plusplus_os.Base.{
  ℕ, zero, suc, ◌*◌, ◌/◌, ◌%◌, ◌^◌, Bool, true, false, Option, none, some, List, [], ◌∷◌, leb, ◌==◌,
  if◌then◌else◌, update, add64, sub64, ◌<<<◌, ◌>>>◌,
}
use plusplus_os.Machine.{
  Cmd, ok, stop, halt, assert_failed, null_pointer, out_of_memory, pure, kernel_assert, ◌>>=◌, ◌>>◌,
}
use plusplus_os.Memory.{PageFrameAllocation, Mem}
use plusplus_os.Memory.EntryPool.{page_size, get_memory_entry, free_memory_entry}
use plusplus_os.Memory.Orders.{get_frame_order_size}
use plusplus_os.Memory.Frames.{alloc_frames, alloc_frames_contiguos}
use plusplus_os.Memory.AddressSpace.{MappingEntry, AddressSpace, sign_ext_addr}
use plusplus_os.Memory.Paging.{
  PageEntry, Paging, Space, kernel_space, user_space, page_pool_threshold, load_space, change_space,
  change_paging, read_entry, change_entry, clear_table, get_page_entries,
}

-- The first entry of an allocation, or null: no entry is null.
abbrev pub chain_of : Option (List PageFrameAllocation) → List PageFrameAllocation
chain_of none = []
chain_of (some l) = l

abbrev pub not_null : List PageFrameAllocation → Bool
not_null [] = false
not_null (a ∷ next) = true

abbrev pub mapping_of : ℕ → ℕ → ℕ → MappingEntry
mapping_of n virt phys = record {
  node = n;
  virt_addr = (virt >>> 12) % 2 ^ 36;
  phys_addr = (phys >>> 12) % 2 ^ 38;
}

abbrev pub push_page : MappingEntry → Paging → Paging
push_page m p = record p { page_pool = record p.page_pool { head = m ∷ p.page_pool.head } }

abbrev pub page_count : (ℕ → ℕ) → Paging → Paging
page_count f p = record p { page_pool = record p.page_pool { count = f p.page_pool.count } }

-- mapping->next = space->entry_maps[level]; space->entry_maps[level] = mapping
abbrev pub push_mapping : ℕ → MappingEntry → AddressSpace → AddressSpace
push_mapping level m a = record a {
  entry_maps = update a.entry_maps level (m ∷ a.entry_maps level);
}

-- The new table entry of the kernel space, and of another one.
abbrev pub kernel_table_entry : ℕ → PageEntry → PageEntry
kernel_table_entry phys e = record e { phys_addr = phys; present = true; write = true }

abbrev pub user_table_entry : ℕ → ℕ → PageEntry → PageEntry
user_table_entry prot phys e = record e {
  phys_addr = (phys >>> 12) % 2 ^ 40;
  present = true;
  write = true;
  prot = prot;
  user = prot == 3;
}

-- pool_entry = head; head = pool_entry->next; --count
unfoldable pub pop_page : List MappingEntry → Cmd (Mem Paging) MappingEntry
pop_page [] s = stop null_pointer
pop_page (m ∷ next) s = ok m (record s {
  rest = record s.rest {
    page_pool = record { count = sub64 s.rest.page_pool.count 1; head = next };
  };
})

module _ (alloc_page : Cmd (Mem Paging) ℕ)
    (kmap_allocation : List PageFrameAllocation → Cmd (Mem Paging) ℕ)
    (kmap_phys_range : ℕ → ℕ → Cmd (Mem Paging) ℕ) where
  -- The pages of one block of the allocation go to the pool.
  unfoldable pub push_pages : ℕ → ℕ → ℕ → Cmd (Mem Paging) (Unit {0})
  push_pages zero virt_addr phys_addr = pure tt
  push_pages (suc pages) virt_addr phys_addr = do
    node ← get_memory_entry alloc_page
    change_paging (push_page (mapping_of node virt_addr phys_addr))
    push_pages pages (add64 virt_addr page_size) (add64 phys_addr page_size)

  unfoldable pub populate_pool : List PageFrameAllocation → ℕ → Cmd (Mem Paging) (Unit {0})
  populate_pool [] virt_addr = pure tt
  populate_pool (a ∷ next) virt_addr = do
    size ← get_frame_order_size a.order
    push_pages (size / page_size) virt_addr a.addr
    free_memory_entry a.node
    populate_pool next (add64 virt_addr (size / page_size * page_size))

  -- The count is raised beforehand.
  unfoldable pub refill_page_pool : Cmd (Mem Paging) (Unit {0})
  refill_page_pool = do
    change_paging (page_count (λ n. add64 n page_pool_threshold))
    frames ← alloc_frames alloc_page page_pool_threshold
    kernel_assert (not_null (chain_of frames)) out_of_memory
    virt_addr ← kmap_allocation (chain_of frames)
    populate_pool (chain_of frames) virt_addr

  unfoldable pub fill_if_low : ℕ → Cmd (Mem Paging) (Unit {0})
  fill_if_low count = if leb count page_pool_threshold then refill_page_pool else pure tt

  -- A page of the pool becomes a table of the kernel space.
  unfoldable pub alloc_kernel_entries : ℕ → ℕ → ℕ → Cmd (Mem Paging) ℕ
  alloc_kernel_entries table index level = do
    (λ s. fill_if_low s.rest.page_pool.count s)
    page ← (λ s. pop_page s.rest.page_pool.head s)
    change_space kernel_space (push_mapping level page)
    change_entry table index (kernel_table_entry page.phys_addr)
    clear_table (sign_ext_addr (page.virt_addr <<< 12))
    pure (sign_ext_addr (page.virt_addr <<< 12))

  unfoldable pub frame_of : Option ℕ → Cmd (Mem Paging) ℕ
  frame_of none = halt (assert_failed out_of_memory)
  frame_of (some phys_addr) = pure phys_addr

  -- A frame becomes a table of another space.
  unfoldable pub alloc_user_entries : Space → ℕ → ℕ → ℕ → Cmd (Mem Paging) ℕ
  alloc_user_entries space table index level = do
    frame ← alloc_frames_contiguos alloc_page 1
    phys_addr ← frame_of frame
    (λ s. change_entry table index (user_table_entry (load_space space s).prot phys_addr) s)
    virt_addr ← kmap_phys_range phys_addr 1
    clear_table virt_addr
    node ← get_memory_entry alloc_page
    change_space space (push_mapping level (mapping_of node virt_addr phys_addr))
    pure virt_addr

  abbrev pub alloc_entries : Space → ℕ → ℕ → ℕ → Cmd (Mem Paging) ℕ
  alloc_entries kernel_space = alloc_kernel_entries
  alloc_entries (user_space n) = alloc_user_entries (user_space n)

  -- get_or_alloc_page_entries(space, &table[index], level)
  unfoldable pub get_or_alloc_page_entries : Space → ℕ → ℕ → ℕ → Cmd (Mem Paging) ℕ
  get_or_alloc_page_entries space table index level = do
    entry ← read_entry table index
    if entry.present
        then get_page_entries space table index level
        else alloc_entries space table index level
