-- ===== src/Memory/EntryPool.antt =====
-- kernel/src/memory/entry_pool.c: the pool of 16-byte nodes.
use plusplus_os.Base.{
  ℕ, zero, suc, ◌/◌, not, List, [], ◌∷◌, ltb, ◌==◌, if◌then◌else◌, add64, sub64, mul64,
}
use plusplus_os.Machine.{Cmd, ok, stop, null_pointer, out_of_memory, kernel_assert, ◌>>=◌, ◌>>◌}
use plusplus_os.Memory.{MemoryEntryPool, Mem, set_pool}

-- PAGE_SIZE, sizeof(MemoryEntry), ENTRY_THRESHOLD
abbrev pub page_size : ℕ
page_size = 4096

abbrev pub entry_size : ℕ
entry_size = 16

abbrev pub entry_threshold : ℕ
entry_threshold = 20

-- The loop of fill_memory_entry_pool: `left` rounds from `addr` on.
unfoldable pub push_entries : ℕ → ℕ → List ℕ → List ℕ
push_entries zero addr chain = chain
push_entries (suc left) addr chain = push_entries left (add64 addr entry_size) (addr ∷ chain)

unfoldable pub fill_memory_entry_pool : ℕ → ℕ → MemoryEntryPool → MemoryEntryPool
fill_memory_entry_pool addr pages p =
    let n = mul64 pages page_size / entry_size in
    record { count = add64 p.count n; head = push_entries n addr p.head }

-- ++count; entry->next = head; head = entry
abbrev pub freed_entry : ℕ → MemoryEntryPool → MemoryEntryPool
freed_entry entry p = record { count = add64 p.count 1; head = entry ∷ p.head }

module _ {X : Type 0} where
  abbrev pub pool_count : (ℕ → ℕ) → Cmd (Mem X) (Unit {0})
  pool_count f s = ok tt (set_pool (record s.pool { count = f s.pool.count }) s)

  -- The count is raised beforehand so that the call of alloc_pages does not come back here.
  unfoldable pub refill_pool : Cmd (Mem X) ℕ → Cmd (Mem X) (Unit {0})
  refill_pool alloc_page = do
    pool_count (λ n. add64 n entry_threshold)
    memory ← alloc_page
    kernel_assert (not (memory == 0)) out_of_memory
    (λ s. ok tt (set_pool (fill_memory_entry_pool memory 1 s.pool) s))
    pool_count (λ n. sub64 n entry_threshold)

  -- entry = head; head = entry->next; --count
  unfoldable pub pop_chain : List ℕ → Cmd (Mem X) ℕ
  pop_chain [] s = stop null_pointer
  pop_chain (entry ∷ next) s =
      ok entry (set_pool (record { count = sub64 s.pool.count 1; head = next }) s)

  unfoldable pub pop_entry : Cmd (Mem X) ℕ
  pop_entry s = pop_chain s.pool.head s

  -- `alloc_page` is the call alloc_pages(1, PAGING_WRITABLE).
  unfoldable pub get_memory_entry : Cmd (Mem X) ℕ → Cmd (Mem X) ℕ
  get_memory_entry alloc_page s =
      if ltb s.pool.count entry_threshold
      then (refill_pool alloc_page >> pop_entry) s
      else pop_entry s

  unfoldable pub free_memory_entry : ℕ → Cmd (Mem X) (Unit {0})
  free_memory_entry entry s = ok tt (set_pool (freed_entry entry s.pool) s)
