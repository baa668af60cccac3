-- ===== src/Memory/Slab/Heap/Calls.antt =====
-- kernel/src/memory/slab_allocator.c: kalloc and kfree.
use plusplus_os.Base.{
  ℕ, zero, suc, ◌+◌, ◌-◌, ◌/◌, ◌%◌, ◌^◌, Bool, true, false, ltb, ◌==◌, if◌then◌else◌, update, add64,
  sub64, u32,
}
use plusplus_os.Machine.{
  Cmd, halt, pure, assert_failed, out_of_fuel, null_pointer, pointer_not_aligned, failed_to_free,
  kernel_assert, ◌>>=◌, ◌>>◌,
}
use plusplus_os.Memory.EntryPool.{page_size}
use plusplus_os.Memory.Orders.{range_contains}
use plusplus_os.Memory.Paging.{paging_writable}
use plusplus_os.Memory.Slab.{
  cache_start_order, cache_end_order, off_slab_threshold, slab_size, get_min_cache_order, get_cache,
}
use plusplus_os.Memory.Slab.Heap.{
  Heap, page_allocation_size, with_pages, get_heap, change_heap, change_slab, free_slot,
  init_free_array, set_part, set_full, push_part, remove_slab_from_list, take_from_slab,
}

-- `kalloc` and `kfree` are the calls from inside these functions.
module _ {X : Type 0} (alloc_pages : ℕ → ℕ → Cmd X ℕ) (free_pages : ℕ → ℕ → Cmd X (Unit {0}))
    (kalloc_below : ℕ → Cmd (Heap X) ℕ) (kfree_below : ℕ → Cmd (Heap X) (Unit {0})) where
  abbrev pub record_pages : ℕ → ℕ → ℕ → Cmd (Heap X) ℕ
  record_pages ptr pages zero = halt null_pointer
  record_pages ptr pages (suc n) = do
    change_heap λ s. record s {
      page_allocations =
          update s.page_allocations (suc n)
            (record { next = s.page_allocation_list; ptr = ptr; pages = pages });
      page_allocation_list = suc n;
    }
    pure ptr

  abbrev pub keep_pages : ℕ → ℕ → Cmd (Heap X) ℕ
  keep_pages pages zero = pure 0
  keep_pages pages (suc n) = do
    allocation ← kalloc_below page_allocation_size
    record_pages (suc n) pages allocation

  -- kalloc of a size that no cache has
  unfoldable pub kalloc_pages : ℕ → Cmd (Heap X) ℕ
  kalloc_pages size = do
    let pages = sub64 (add64 size page_size) 1 / page_size
    ptr ← with_pages (alloc_pages pages paging_writable)
    keep_pages pages ptr

  -- The new slab, with its free array at `free`.
  abbrev pub start_slab : ℕ → ℕ → ℕ → Cmd (Heap X) ℕ
  start_slab index free slab = do
    cache ← get_heap (λ s. s.size_caches index)
    change_heap (λ s. record s { words = init_free_array cache.count free 0 s.words })
    change_slab slab
        λ a. record a { mem = add64 free cache.free_arr_size; next_free = 0; allocated = 0 }
    push_part index slab
    pure slab

  abbrev pub start_off_slab : ℕ → ℕ → ℕ → Cmd (Heap X) ℕ
  start_off_slab index mem zero = do
    cache ← get_heap (λ s. s.size_caches index)
    with_pages (free_pages mem cache.pages)
    pure 0
  start_off_slab index mem (suc n) = start_slab index mem (suc n)

  abbrev pub place_slab : ℕ → ℕ → Cmd (Heap X) ℕ
  place_slab index zero = pure 0
  place_slab index (suc n) = do
    cache ← get_heap (λ s. s.size_caches index)
    if ltb cache.size off_slab_threshold
        then start_slab index (add64 (suc n) slab_size) (suc n)
        else (do slab ← kalloc_below slab_size; start_off_slab index (suc n) slab)

  -- A new slab at the head of the partial list, or 0.
  unfoldable pub alloc_slab : ℕ → Cmd (Heap X) ℕ
  alloc_slab index = do
    cache ← get_heap (λ s. s.size_caches index)
    mem ← with_pages (alloc_pages cache.pages paging_writable)
    place_slab index mem

  abbrev pub take_unless_null : ℕ → ℕ → Cmd (Heap X) ℕ
  take_unless_null index zero = pure 0
  take_unless_null index (suc n) = take_from_slab index (suc n)

  unfoldable pub kalloc_step : ℕ → Cmd (Heap X) ℕ
  kalloc_step size =
      let order = get_min_cache_order size in
      if ltb cache_end_order order then kalloc_pages size else (do
        index ← get_cache order
        part ← get_heap (λ s. s.part index)
        slab ← if part == 0 then alloc_slab index else pure part
        take_unless_null index slab)

  -- Free the slab if it is empty.
  unfoldable pub free_slab : ℕ → ℕ → Cmd (Heap X) (Unit {0})
  free_slab index slab = do
    cache ← get_heap (λ s. s.size_caches index)
    remove_slab_from_list (λ s. s.part index) (set_part index) slab
    if ltb cache.size off_slab_threshold then with_pages (free_pages slab cache.pages) else (do
      change_slab slab (λ a. record a { mem = sub64 a.mem cache.free_arr_size })
      a ← get_heap (λ s. s.slabs slab)
      with_pages (free_pages a.mem cache.pages)
      kfree_below slab)

  -- The object at `ptr` goes back to the slab that contains it.
  unfoldable pub return_object : ℕ → ℕ → ℕ → Cmd (Heap X) (Unit {0})
  return_object ptr index slab = do
    cache ← get_heap (λ s. s.size_caches index)
    a ← get_heap (λ s. s.slabs slab)
    let obj_offset = sub64 ptr a.mem
    kernel_assert (obj_offset % cache.size == 0) pointer_not_aligned
    let obj_index = u32 (obj_offset / cache.size)
    change_heap (λ s. record s { words = update s.words (free_slot cache a obj_index) a.next_free })
    change_slab slab (λ b. record b { next_free = obj_index })
    if a.allocated == cache.count
        then (do
          remove_slab_from_list (λ s. s.full index) (set_full index) slab
          push_part index slab)
        else pure tt
    let allocated = u32 (a.allocated + 2 ^ 32 - 1)
    change_slab slab (λ b. record b { allocated = allocated })
    if allocated == 0 then free_slab index slab else pure tt

  -- The fuel bounds the length of the list.
  unfoldable pub free_from_slab_list : ℕ → ℕ → ℕ → ℕ → Cmd (Heap X) Bool
  free_from_slab_list zero ptr index slab = halt out_of_fuel
  free_from_slab_list (suc fuel) ptr index slab = do
    a ← get_heap (λ s. s.slabs slab)
    cache ← get_heap (λ s. s.size_caches index)
    let later = free_from_slab_list fuel ptr index a.next
    if slab == 0
        then pure false
        else if range_contains ptr a.mem cache.mem_size
        then (do return_object ptr index slab; pure true)
        else later

  -- The loop over the list of page allocations.
  unfoldable pub free_page_allocation : ℕ → ℕ → ℕ → ℕ → Cmd (Heap X) (Unit {0})
  free_page_allocation zero ptr allocation last = halt out_of_fuel
  free_page_allocation (suc fuel) ptr allocation last = do
    a ← get_heap (λ s. s.page_allocations allocation)
    let later = free_page_allocation fuel ptr a.next allocation
    if allocation == 0
        then halt (assert_failed failed_to_free)
        else if a.ptr == ptr
        then (do
          with_pages (free_pages a.ptr a.pages)
          change_heap λ s.
              if last == 0 then record s { page_allocation_list = a.next } else record s {
                page_allocations =
                    update s.page_allocations last
                      (record (s.page_allocations last) { next = a.next });
              }
          kfree_below allocation)
        else later

  -- The loop over the caches: `left` more.
  unfoldable pub free_from_caches : ℕ → ℕ → ℕ → ℕ → Cmd (Heap X) (Unit {0})
  free_from_caches fuel zero order ptr = do
    list ← get_heap (λ s. s.page_allocation_list)
    free_page_allocation fuel ptr list 0
  free_from_caches fuel (suc left) order ptr = do
    index ← get_cache order
    let later = free_from_caches fuel left (order + 1) ptr
    part ← get_heap (λ s. s.part index)
    in_part ← free_from_slab_list fuel ptr index part
    if in_part then pure tt else (do
      full ← get_heap (λ s. s.full index)
      in_full ← free_from_slab_list fuel ptr index full
      if in_full then pure tt else later)

  unfoldable pub kfree_step : ℕ → ℕ → Cmd (Heap X) (Unit {0})
  kfree_step fuel ptr = free_from_caches fuel 8 cache_start_order ptr

module _ {X : Type 0} (alloc_pages : ℕ → ℕ → Cmd X ℕ) (free_pages : ℕ → ℕ → Cmd X (Unit {0})) where
  -- The call for a slab or a page allocation finds or makes a cache of small objects: no call leads
  -- back more than once.
  unfoldable pub kfree : ℕ → ℕ → ℕ → Cmd (Heap X) (Unit {0})
  kfree zero fuel ptr = halt out_of_fuel
  kfree (suc depth) fuel ptr =
      kfree_step alloc_pages free_pages (λ size. halt out_of_fuel) (kfree depth fuel) fuel ptr

  unfoldable pub kalloc : ℕ → ℕ → Cmd (Heap X) ℕ
  kalloc zero size = halt out_of_fuel
  kalloc (suc depth) size =
      kalloc_step alloc_pages free_pages (kalloc depth) (λ ptr. halt out_of_fuel) size
