-- ===== src/Memory/Slab/Heap/Returned.antt =====
-- What kfree does with an object of a slab that keeps others in use.
use native.Mathlib.Nat.{mul-div_cancel, mul-mod_left}
use plusplus_os.Base.{
  ℕ, zero, suc, ltb, ◌+◌, ◌-◌, ◌*◌, ◌/◌, ◌%◌, ◌^◌, ◌<◌, ◌≤◌, ◌≡◌, ◌≢◌, refl, sym, arith, ◌∙◌, true,
  false, ◌==◌, inl, inr, List, [], ◌∷◌, All, length, update, update_same, update_other, sub64, u32,
  Bool-cases,
}
use plusplus_os.Machine.{Run, Cmd, ok, halt, out_of_fuel}
use plusplus_os.Memory.Orders.{range_contains, bound_contains}
use plusplus_os.Memory.Slab.{Cache, get_cache, put_object}
use plusplus_os.Memory.Slab.Objects.{FreeChain, Holds, put_object-Holds}
use plusplus_os.Memory.Slab.Heap.{LinkedSlab, Heap, free_slot}
use plusplus_os.Memory.Slab.Heap.Calls.{
  return_object, free_from_slab_list, free_from_caches, kfree, kfree_step,
}
use plusplus_os.Memory.Slab.Heap.Moved.{objects_of}
use plusplus_os.Memory.Slab.Heap.Taken.{HasFree}
use plusplus_os.Memory.Slab.Addresses.{step_le, size_lem, le_product}

FreeChain-same :
    (count : ℕ) (free new : ℕ → ℕ) (l : List ℕ) (start : ℕ)
    → ((j : ℕ) → j < count → new j ≡ free j)
    → FreeChain count free l start
    → FreeChain count new l start
FreeChain-same count free new [] start same chain = chain
FreeChain-same count free new (j ∷ l) start same chain =
    (chain.0, chain.1, FreeChain-same count free new l (new j) same (rw (same j chain.1) chain.2))

-- Two objects have different places in the free array.
free_slot_apart :
    (cache : Cache) (a : LinkedSlab) (i j : ℕ)
    → i < 2 ^ 32
    → j < 2 ^ 32
    → j ≢ i
    → free_slot cache a j ≢ free_slot cache a i
free_slot_apart cache a i j small_i small_j apart e = apart (omega arith)

-- The free array in memory after a write to one place.
written_array :
    (cache : Cache) (a : LinkedSlab) (words : ℕ → ℕ) (i v j : ℕ)
    → i < 2 ^ 32
    → j < 2 ^ 32
    → update words (free_slot cache a i) v (free_slot cache a j)
      ≡ update (λ k. words (free_slot cache a k)) i v j
written_array cache a words i v j small_i small_j = elim (Bool-cases (j == i)) [
  | inl e ↦
      let same : j ≡ i = ground arith in
      rw same (
        update_same words (free_slot cache a i) v
        ∙ sym (update_same (λ k. words (free_slot cache a k)) i v))
  | inr e ↦
      let apart : j ≢ i = ground arith in
      update_other words (free_slot cache a i) (free_slot cache a j) v
        (free_slot_apart cache a i j small_i small_j apart)
      ∙ sym (update_other (λ k. words (free_slot cache a k)) i j v apart)
]

module _ {X : Type 0} (order slab i : ℕ) (l : List ℕ) (s : Heap X) (h : HasFree order slab l s)
    (low : i < (s.size_caches (order - 4)).count) (used : All (λ j. j ≢ i) l)
    (not_full : 0 < length l) (not_last : 2 ≤ (s.slabs slab).allocated) where
  abbrev cache : Cache
  cache = s.size_caches (order - 4)

  abbrev slab_before : LinkedSlab
  slab_before = s.slabs slab

  abbrev object : ℕ
  object = slab_before.mem + i * cache.size

  wide : 16 ≤ cache.size
  wide = (size_lem cache.size order h.lo h.laid_out.size).1

  few : cache.count < 2 ^ 32
  few = omega (arith, le_product cache.count cache.size wide, h.laid_out.objects, h.small)

  within : i * cache.size + cache.size ≤ cache.mem_size
  within = omega (arith, step_le i cache.count cache.size low, h.laid_out.objects)

  offset : sub64 object slab_before.mem ≡ i * cache.size
  offset = omega (arith, within, h.in_memory, h.small, wide)

  index_lem : u32 (i * cache.size / cache.size) ≡ i
  index_lem =
      let quotient : i * cache.size / cache.size ≡ i = mul-div_cancel i (omega (arith, wide)) in
      omega (arith, quotient, few)

  multiple : (i * cache.size % cache.size == 0) ≡ true
  multiple = ground (arith, mul-mod_left i cache.size)

  contained : range_contains object slab_before.mem cache.mem_size ≡ true
  unfolding range_contains bound_contains
  contained = ground (arith, within, h.in_memory, h.small, wide)

  abbrev slab_after : LinkedSlab
  slab_after = record slab_before {
    next_free = i;
    allocated = u32 (slab_before.allocated + 2 ^ 32 - 1);
  }

  abbrev fuller : Heap X
  fuller =
      let linked = record slab_before { next_free = i } in
      let slabs = update s.slabs slab linked in
      record s {
        words = update s.words (free_slot cache slab_before i) slab_before.next_free;
        slabs = update slabs slab (record (slabs slab) { allocated = slab_after.allocated });
      }

  fuller_slab : fuller.slabs slab ≡ slab_after
  fuller_slab =
      rw (update_same s.slabs slab (record slab_before { next_free = i }))
        (update_same _ slab slab_after)

  returned-Holds : Holds cache.count (objects_of cache slab_after fuller.words) (i ∷ l)
  unfolding put_object
  returned-Holds =
      let held =
        put_object-Holds cache.count (objects_of cache slab_before s.words) i l few low
          (omega (arith, not_last)) used h.objects in
      record {
        chain =
            FreeChain-same cache.count (put_object i (objects_of cache slab_before s.words)).free _
              (i ∷ l) i
              (λ j lt.
                written_array cache slab_before s.words i slab_before.next_free j
                  (omega (arith, few, low)) (omega (arith, few, lt)))
              held.chain;
        distinct = held.distinct;
        counted = held.counted;
      }

  fuller-HasFree : HasFree order slab (i ∷ l) fuller
  fuller-HasFree = record {
    lo = h.lo;
    hi = h.hi;
    laid_out = h.laid_out;
    at_head = h.at_head;
    some_slab = h.some_slab;
    aligned = rw fuller_slab h.aligned;
    in_memory = rw fuller_slab h.in_memory;
    small = h.small;
    objects = rw fuller_slab returned-Holds;
  }

  module _ (alloc_pages : ℕ → ℕ → Cmd X ℕ) (free_pages : ℕ → ℕ → Cmd X (Unit {0}))
      (kalloc_below : ℕ → Cmd (Heap X) ℕ) (kfree_below : ℕ → Cmd (Heap X) (Unit {0})) where
    return_object_lem :
        return_object alloc_pages free_pages kalloc_below kfree_below object (order - 4) slab s
        ≡ ok tt fuller
    unfolding return_object
    return_object_lem =
        let some : (slab == 0) ≡ false = ground (arith, h.some_slab) in
        let partial : (slab_before.allocated == cache.count) ≡ false =
          ground (arith, h.objects.counted, not_full) in
        let others : (slab_after.allocated == 0) ≡ false =
          ground (arith, not_last, few, h.objects.counted) in
        rw offset (rw multiple (rw index_lem (rw some (rw partial (rw others (rw some refl))))))

    free_from_slab_list_lem :
        (fuel : ℕ)
        → free_from_slab_list alloc_pages free_pages kalloc_below kfree_below
            (suc fuel)
            object
            (order - 4)
            slab
            s
          ≡ ok true fuller
    unfolding free_from_slab_list
    free_from_slab_list_lem fuel =
        let some : (slab == 0) ≡ false = ground (arith, h.some_slab) in
        rw some (rw contained (rw return_object_lem refl))

    free_from_caches_found :
        (fuel left : ℕ)
        → free_from_caches alloc_pages free_pages kalloc_below kfree_below
            (suc fuel)
            (suc left)
            order
            object
            s
          ≡ ok tt fuller
    unfolding free_from_caches get_cache
    free_from_caches_found fuel left =
        let cached : ltb (order - 4) 7 ≡ true = ground (arith, h.hi) in
        rw cached (rw h.at_head (rw (free_from_slab_list_lem fuel) refl))

-- The slabs of the list, none of which has the address among its objects, linked from `start` on.
abbrev pub Elsewhere : {X : Type 0} → ℕ → ℕ → List ℕ → ℕ → Heap X → Type 0
Elsewhere ptr index [] start s = start ≡ 0
Elsewhere ptr index (a ∷ l) start s =
    (start ≡ a)
    × (a ≢ 0)
    × (range_contains ptr (s.slabs a).mem (s.size_caches index).mem_size ≡ false)
    × Elsewhere ptr index l (s.slabs a).next s

-- No slab of the cache of the order has the address, and the lists are shorter than the fuel.
abbrev pub Passed : {X : Type 0} → ℕ → Heap X → ℕ → ℕ → Type 0
Passed ptr s fuel order =
    (part : List ℕ) × (full : List ℕ) × (length part < fuel)
    × (length full < fuel)
    × Elsewhere ptr (order - 4) part (s.part (order - 4)) s
    × Elsewhere ptr (order - 4) full (s.full (order - 4)) s

module _ {X : Type 0} (alloc_pages : ℕ → ℕ → Cmd X ℕ) (free_pages : ℕ → ℕ → Cmd X (Unit {0}))
    (kalloc_below : ℕ → Cmd (Heap X) ℕ) (kfree_below : ℕ → Cmd (Heap X) (Unit {0})) (ptr : ℕ)
    (s : Heap X) where
  free_from_slab_list_misses :
      (fuel index : ℕ) (l : List ℕ) (start : ℕ)
      → length l < fuel
      → Elsewhere ptr index l start s
      → free_from_slab_list alloc_pages free_pages kalloc_below kfree_below fuel ptr index start s
        ≡ ok false s
  unfolding free_from_slab_list
  free_from_slab_list_misses zero index l start enough away = absurd (omega arith)
  free_from_slab_list_misses (suc fuel) index [] start enough away =
      let none : (start == 0) ≡ true = ground (arith, away) in rw none refl
  free_from_slab_list_misses (suc fuel) index (a ∷ l) start enough away =
      let some : (start == 0) ≡ false = ground (arith, away.0, away.1) in
      rw some (
        rw away.0 (
          rw away.2
            (free_from_slab_list_misses fuel index l (s.slabs a).next (omega arith) away.3)))

  abbrev from_caches : ℕ → ℕ → ℕ → Run (Heap X) (Unit {0})
  from_caches fuel left order =
      free_from_caches alloc_pages free_pages kalloc_below kfree_below fuel left order ptr s

  free_from_caches_step :
      (fuel left order : ℕ)
      → order ≤ 10
      → Passed ptr s fuel order
      → from_caches fuel (suc left) order ≡ from_caches fuel left (order + 1)
  unfolding free_from_caches get_cache
  free_from_caches_step fuel left order hi (part, full, short_part, short_full, in_part, in_full) =
      let cached : ltb (order - 4) 7 ≡ true = ground arith in
      rw cached (
        rw (free_from_slab_list_misses fuel (order - 4) part _ short_part in_part)
          (rw (free_from_slab_list_misses fuel (order - 4) full _ short_full in_full) refl))

  -- The caches before the one with the object are passed.
  free_from_caches_pass :
      (fuel m left total order last : ℕ)
      → total ≡ m + left
      → last ≡ order + m
      → last ≤ 10
      → ((k : ℕ) → order ≤ k → k < last → Passed ptr s fuel k)
      → from_caches fuel total order ≡ from_caches fuel left last
  free_from_caches_pass fuel zero left total order last e f hi away =
      let same : total ≡ left = omega arith in
      let there : last ≡ order = omega arith in rw same (rw there refl)
  free_from_caches_pass fuel (suc m) left zero order last e f hi away = absurd (omega arith)
  free_from_caches_pass fuel (suc m) left (suc total) order last e f hi away =
      free_from_caches_step fuel total order (omega arith) (away order (omega arith) (omega arith))
      ∙ free_from_caches_pass fuel m left total (order + 1) last (omega arith) (omega arith) hi
          (λ k above below. away k (omega arith) below)

module _ {X : Type 0} (alloc_pages : ℕ → ℕ → Cmd X ℕ) (free_pages : ℕ → ℕ → Cmd X (Unit {0})) where
  -- kfree of an object that is in use, of a slab at the head of the partial list of its cache, of
  -- order 4 to 10, in which at least one object is free and two are in use, where no slab of the
  -- smaller caches has the address among its objects: it returns, the object is then the first
  -- free one, the others are free as before, and the slab stays where it is. The lists of the
  -- smaller caches may be as long as the fuel that is left.
  pub kfree_lem :
      (depth fuel order slab i : ℕ) (l : List ℕ) (s : Heap X)
      → HasFree order slab l s
      → i < (s.size_caches (order - 4)).count
      → All (λ j. j ≢ i) l
      → 0 < length l
      → 2 ≤ (s.slabs slab).allocated
      → (ptr : ℕ) → ptr ≡ (s.slabs slab).mem + i * (s.size_caches (order - 4)).size
      → ((k : ℕ) → 4 ≤ k → k < order → Passed ptr s (suc fuel) k)
      → (t : Heap X) × (kfree alloc_pages free_pages (suc depth) (suc fuel) ptr s ≡ ok tt t)
        × HasFree order slab (i ∷ l) t
  unfolding kfree kfree_step
  kfree_lem depth fuel order slab i l s h low used not_full not_last ptr e away = (
    fuller order slab i l s h low used not_full not_last,
    free_from_caches_pass alloc_pages free_pages (λ size. halt out_of_fuel)
          (λ p. kfree alloc_pages free_pages depth (suc fuel) p) ptr s (suc fuel) (order - 4)
          (suc (11 - order)) 8 4 order (omega (arith, h.lo, h.hi)) (omega (arith, h.lo)) h.hi away
        ∙ rw e (
            free_from_caches_found order slab i l s h low used not_full not_last alloc_pages
              free_pages (λ size. halt out_of_fuel)
              (λ p. kfree alloc_pages free_pages depth (suc fuel) p) fuel (11 - order)),
    fuller-HasFree order slab i l s h low used not_full not_last,
  )
