-- ===== src/Memory/Slab/Heap.antt =====
-- kernel/src/memory/slab_allocator.c: the lists of slabs. A Slab and a PageAllocation are known by
-- their addresses; that kalloc may give out memory over one of them is not modelled.
pub mod Calls
pub mod Moved
pub mod Taken
pub mod Returned
mod Tests
use Prim.Native.Nat.{min}
use plusplus_os.Base.{
  ℕ, zero, suc, ◌+◌, ◌-◌, ◌*◌, ◌/◌, ◌%◌, ◌^◌, Bool, true, false, ltb, ◌==◌, if◌then◌else◌, update,
  add64, sub64, u32,
}
use plusplus_os.Machine.{
  Run, Cmd, ok, stop, halt, pure, assert_failed, out_of_fuel, null_pointer, object_not_aligned,
  pointer_not_aligned, failed_to_free, kernel_assert, ◌>>=◌, ◌>>◌,
}
use plusplus_os.Memory.EntryPool.{page_size}
use plusplus_os.Memory.Orders.{range_contains}
use plusplus_os.Memory.Paging.{paging_writable}
use plusplus_os.Memory.Slab.{
  cache_start_order, cache_end_order, off_slab_threshold, slab_size, max_align, Cache,
  get_min_cache_order, get_cache,
}

-- Slab
pub record LinkedSlab : Type 0 where
  pub next : ℕ
  pub prev : ℕ
  pub mem : ℕ
  pub allocated : ℕ
  pub next_free : ℕ

-- PageAllocation
pub record PageAllocation : Type 0 where
  pub next : ℕ
  pub ptr : ℕ
  pub pages : ℕ

-- sizeof(PageAllocation)
abbrev pub page_allocation_size : ℕ
page_allocation_size = 24

-- g_slab_allocator, with the lists of a cache apart from its sizes, and the memory that it uses:
-- the slabs and page allocations, and the 32-bit words of the free arrays. `rest` is the state of
-- alloc_pages and free_pages.
pub record Heap (X : Type 0) : Type 0 where
  pub size_caches : ℕ → Cache
  pub part : ℕ → ℕ
  pub full : ℕ → ℕ
  pub page_allocation_list : ℕ
  pub slabs : ℕ → LinkedSlab
  pub page_allocations : ℕ → PageAllocation
  pub words : ℕ → ℕ
  pub rest : X

module _ {X : Type 0} where
  abbrev pub in_heap : {A : Type 0} → Heap X → Run X A → Run (Heap X) A
  in_heap s (ok a r) = ok a (record s { rest = r })
  in_heap s (stop e) = stop e

  -- A command of the pages.
  abbrev pub with_pages : {A : Type 0} → Cmd X A → Cmd (Heap X) A
  with_pages m s = in_heap s (m s.rest)

  abbrev pub get_heap : {A : Type 0} → (Heap X → A) → Cmd (Heap X) A
  get_heap f s = ok (f s) s

  abbrev pub change_heap : (Heap X → Heap X) → Cmd (Heap X) (Unit {0})
  change_heap f s = ok tt (f s)

  abbrev pub set_slab : ℕ → LinkedSlab → Heap X → Heap X
  set_slab slab a s = record s { slabs = update s.slabs slab a }

  -- A write to fields of *slab.
  abbrev pub change_slab : ℕ → (LinkedSlab → LinkedSlab) → Cmd (Heap X) (Unit {0})
  change_slab slab f s =
      if slab == 0 then stop null_pointer else ok tt (set_slab slab (f (s.slabs slab)) s)

  -- `if (slab != 0) slab->prev = prev`
  abbrev pub set_prev : ℕ → ℕ → Heap X → Heap X
  set_prev slab prev s =
      if slab == 0 then s else set_slab slab (record (s.slabs slab) { prev = prev }) s

  -- `if (slab != 0) slab->next = next`
  abbrev pub set_next : ℕ → ℕ → Heap X → Heap X
  set_next slab next s =
      if slab == 0 then s else set_slab slab (record (s.slabs slab) { next = next }) s

-- The address of FREE_ARRAY(cache, slab)[i]
abbrev pub free_slot : Cache → LinkedSlab → ℕ → ℕ
free_slot cache slab i = add64 (sub64 slab.mem cache.free_arr_size) (4 * i)

-- The loop that fills the free array at `free`, from `i` on.
unfoldable pub init_free_array : ℕ → ℕ → ℕ → (ℕ → ℕ) → ℕ → ℕ
init_free_array zero free i words = words
init_free_array (suc left) free i words =
    init_free_array left free (i + 1) (update words (add64 free (4 * i)) (u32 (i + 1)))

-- The lists of slabs.
module _ {X : Type 0} where
  abbrev pub set_part : ℕ → ℕ → Heap X → Heap X
  set_part index slab s = record s { part = update s.part index slab }

  abbrev pub set_full : ℕ → ℕ → Heap X → Heap X
  set_full index slab s = record s { full = update s.full index slab }

  -- `slab` becomes the head of the partial list of the cache.
  unfoldable pub push_part : ℕ → ℕ → Cmd (Heap X) (Unit {0})
  push_part index slab = do
    part ← get_heap (λ s. s.part index)
    change_slab slab (λ a. record a { next = part; prev = 0 })
    change_heap (set_prev part slab)
    change_heap (set_part index slab)

  -- `head` and `set_head` are *head.
  unfoldable pub remove_slab_from_list :
      (Heap X → ℕ) → (ℕ → Heap X → Heap X) → ℕ → Cmd (Heap X) (Unit {0})
  remove_slab_from_list head set_head slab = do
    change_heap (λ s. set_prev (s.slabs slab).next (s.slabs slab).prev s)
    change_heap (λ s. set_next (s.slabs slab).prev (s.slabs slab).next s)
    change_heap (λ s. if slab == head s then set_head (s.slabs slab).next s else s)

  -- The full slab at the head of the partial list goes to the full list.
  unfoldable pub move_to_full : ℕ → ℕ → Cmd (Heap X) (Unit {0})
  move_to_full index slab = do
    change_heap (λ s. set_part index (s.slabs slab).next s)
    change_heap (λ s. set_prev (s.part index) 0 s)
    full ← get_heap (λ s. s.full index)
    change_slab slab (λ a. record a { next = full })
    change_heap (set_prev full slab)
    change_heap (set_full index slab)

  -- The end of kalloc: an object of `slab`, the head of the partial list.
  unfoldable pub take_from_slab : ℕ → ℕ → Cmd (Heap X) ℕ
  take_from_slab index slab = do
    cache ← get_heap (λ s. s.size_caches index)
    a ← get_heap (λ s. s.slabs slab)
    let obj_ptr = add64 a.mem (u32 (a.next_free * cache.size))
    next_free ← get_heap (λ s. s.words (free_slot cache a a.next_free))
    let allocated = u32 (a.allocated + 1)
    change_slab slab (λ b. record b { next_free = next_free; allocated = allocated })
    if allocated == cache.count then move_to_full index slab else pure tt
    kernel_assert (obj_ptr % min max_align cache.size == 0) object_not_aligned
    pure obj_ptr
