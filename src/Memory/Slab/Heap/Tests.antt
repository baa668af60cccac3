-- ===== src/Memory/Slab/Heap/Tests.antt =====
-- kalloc and kfree at concrete values.
use plusplus_os.Base.{
  ℕ, ◌+◌, ◌-◌, ◌<◌, ◌*◌, ◌^◌, ◌≤◌, ◌≡◌, ◌%◌, refl, arith, ◌==◌, if◌then◌else◌, List, [], ◌∷◌,
  update,
}
use plusplus_os.Machine.{Cmd, Run, ok, stop, out_of_bounds}
use plusplus_os.Memory.Slab.{
  get_cache, new_cache, get_min_cache_order, climb_order, fit_objects, cache_room, add_pages,
  free_array,
}
use plusplus_os.Memory.Orders.{round_up_to_multiple, range_contains, bound_contains}
use plusplus_os.Memory.Slab.Layout.{new_cache-IsLaidOut}
use plusplus_os.Memory.Slab.Objects.{Holds}
use plusplus_os.Memory.Slab.Heap.{
  LinkedSlab, Heap, take_from_slab, push_part, init_free_array, remove_slab_from_list, move_to_full,
}
use plusplus_os.Memory.Slab.Heap.Calls.{
  kalloc, kfree, kalloc_step, kfree_step, free_from_caches, free_from_slab_list, return_object,
  free_slab, alloc_slab, kalloc_pages,
}
use plusplus_os.Memory.Slab.Heap.Moved.{objects_of}
use plusplus_os.Memory.Slab.Heap.Taken.{HasFree, IsListed, kalloc_lem}
use plusplus_os.Memory.Slab.Heap.Returned.{Passed, kfree_lem}

abbrev no_slab : LinkedSlab
no_slab = record { next = 0; prev = 0; mem = 0; allocated = 0; next_free = 0 }

-- Objects 2 and 0 of the 30 are free.
abbrev slab_28_used : LinkedSlab
slab_28_used = record { next = 0x9000; prev = 0; mem = 0x50a0; allocated = 28; next_free = 2 }

-- The next pages, and those that were freed.
abbrev Pages : Type 0
Pages = ℕ × List ℕ

abbrev heap : Heap Pages
heap = record {
  size_caches = λ index. new_cache (index + 4);
  part = λ index. if index == 3 then 0x5000 else 0;
  full = λ index. 0;
  page_allocation_list = 0;
  slabs = λ slab. if slab == 0x5000 then slab_28_used else no_slab;
  page_allocations = λ n. record { next = 0; ptr = 0; pages = 0 };
  words = λ a. if a == 0x5028 then 0 else 30;
  rest = (0x7000, []);
}

abbrev alloc_pages : ℕ → ℕ → Cmd Pages ℕ
alloc_pages pages flags s = ok s.0 (s.0 + 4096 * pages, s.1)

abbrev free_pages : ℕ → ℕ → Cmd Pages (Unit {0})
free_pages ptr pages s = ok tt (s.0, ptr ∷ s.1)

heap-HasFree : HasFree 7 0x5000 (2 ∷ 0 ∷ []) heap
unfolding new_cache fit_objects cache_room add_pages free_array round_up_to_multiple
heap-HasFree = record {
  lo = omega arith;
  hi = omega arith;
  laid_out = new_cache-IsLaidOut 7 (omega arith) (omega arith);
  at_head = refl;
  some_slab = omega arith;
  aligned = refl;
  in_memory = omega arith;
  small = omega arith;
  objects = record {
    chain = (refl, omega arith, (refl, omega arith, refl));
    distinct = ((omega arith, tt), (tt, tt));
    counted = refl;
  };
}

kalloc_lem_example :
    (object : ℕ) × (t : Heap Pages) × (kalloc alloc_pages free_pages 1 100 heap ≡ ok object t)
    × (object ≡ 0x50a0 + 2 * 2 ^ 7)
    × (object % 16 ≡ 0)
    × (100 ≤ 2 ^ 7)
    × (object + 2 ^ 7 ≤ 0x50a0 + (new_cache 7).mem_size)
    × Holds (new_cache 7).count (objects_of (new_cache 7) (t.slabs 0x5000) t.words) (0 ∷ [])
    × IsListed 7 0x5000 0x9000 (0 ∷ []) t
unfolding get_min_cache_order climb_order
kalloc_lem_example =
    kalloc_lem alloc_pages free_pages 0 100 7 0x5000 2 (0 ∷ []) heap refl heap-HasFree

no_smaller : (k : ℕ) → 4 ≤ k → k < 7 → Passed (0x50a0 + 1 * (new_cache 7).size) heap 1 k
no_smaller k lo hi =
    let none : heap.part (k - 4) ≡ 0 = ground arith in
    ([], [], omega arith, omega arith, none, refl)

kfree_lem_example :
    (t : Heap Pages) × (kfree alloc_pages free_pages 1 1 (0x50a0 + 1 * (new_cache 7).size) heap
      ≡ ok tt t)
    × HasFree 7 0x5000 (1 ∷ 2 ∷ 0 ∷ []) t
unfolding new_cache fit_objects cache_room add_pages free_array round_up_to_multiple
kfree_lem_example =
    kfree_lem alloc_pages free_pages 0 0 7 0x5000 1 (2 ∷ 0 ∷ []) heap heap-HasFree (omega arith)
      (omega arith, (omega arith, tt)) (omega arith) (omega arith) _ refl no_smaller

-- The address of an object, and the pages that are freed when it goes back.
abbrev freed : ℕ → Run (Heap Pages) (Unit {0}) → Run (List ℕ) ℕ
freed object (ok a s) = ok object s.rest.1
freed object (stop e) = stop e

abbrev kfreed : ℕ → Run (Heap Pages) ℕ → Run (List ℕ) ℕ
kfreed depth (ok object s) = freed object (kfree alloc_pages free_pages depth 9 object s)
kfreed depth (stop e) = stop e

abbrev empty_heap : Heap Pages
empty_heap = record heap { part = λ index. 0 }

abbrev there_and_back : ℕ → ℕ → Heap Pages → Run (List ℕ) ℕ
there_and_back depth size s = kfreed depth (kalloc alloc_pages free_pages depth size s)

-- An object of a new slab: its page is freed with it.
there_and_back_100 : there_and_back 1 100 empty_heap ≡ ok 28832 (0x7000 ∷ [])
unfolding kalloc kfree kalloc_step kfree_step free_from_caches free_from_slab_list return_object
    free_slab alloc_slab take_from_slab push_part init_free_array remove_slab_from_list move_to_full
    get_cache get_min_cache_order climb_order new_cache fit_objects cache_room add_pages free_array
    round_up_to_multiple range_contains bound_contains update
there_and_back_100 = refl

-- The slab of larger objects is an object of another one, which is freed after it.
there_and_back_512 : there_and_back 2 512 empty_heap ≡ ok 28704 (0x8000 ∷ 0x7000 ∷ [])
unfolding kalloc kfree kalloc_step kfree_step free_from_caches free_from_slab_list return_object
    free_slab alloc_slab take_from_slab push_part init_free_array remove_slab_from_list move_to_full
    get_cache get_min_cache_order climb_order new_cache fit_objects cache_room add_pages free_array
    round_up_to_multiple range_contains bound_contains update
there_and_back_512 = refl

-- No slab holds what kalloc takes directly from the pages, and there is no eighth cache.
there_and_back_5000 : there_and_back 2 5000 empty_heap ≡ stop out_of_bounds
unfolding kalloc kfree kalloc_step kfree_step kalloc_pages free_from_caches free_from_slab_list
    return_object free_slab alloc_slab take_from_slab push_part init_free_array
    remove_slab_from_list move_to_full get_cache get_min_cache_order climb_order new_cache
    fit_objects cache_room add_pages free_array round_up_to_multiple range_contains bound_contains
    update
there_and_back_5000 = refl
