-- ===== src/Memory/Slab/Heap/Taken.antt =====
-- kalloc of an object of a slab that has free ones.
use Prim.Native.Nat.{min}
use plusplus_os.Base.{
  ℕ, zero, suc, ◌+◌, ◌-◌, ◌*◌, ◌%◌, ◌^◌, ◌<◌, ◌≤◌, ◌≡◌, ◌≢◌, refl, ap, subst, arith, ◌∙◌, true,
  false, ◌==◌, List, [], ◌∷◌, length, update_same, ltb, if◌then◌else◌, add64, u32,
}
use plusplus_os.Machine.{Cmd, ok, pure, halt, out_of_fuel}
use plusplus_os.Memory.Slab.{max_align, Cache, Slab, take_object, get_cache, get_min_cache_order}
use plusplus_os.Memory.Slab.Layout.{IsLaidOut, IsMinOrder, get_min_cache_order-IsMinOrder}
use plusplus_os.Memory.Slab.Addresses.{
  step_le, size_lem, le_product, multiple_aligned, object_address,
}
use plusplus_os.Memory.Slab.Objects.{Holds, take_object-Holds}
use plusplus_os.Memory.Slab.Heap.{
  LinkedSlab, Heap, free_slot, set_slab, move_to_full, take_from_slab,
}
use plusplus_os.Memory.Slab.Heap.Calls.{take_unless_null, kalloc_step, kalloc}
use plusplus_os.Memory.Slab.Heap.Moved.{objects_of, objects_of-kept, move_to_full_lem}

-- A slab at the head of the partial list of a cache of an order, with the free objects `l`.
pub record HasFree {X : Type 0} (order slab : ℕ) (l : List ℕ) (s : Heap X) : Type 0 where
  pub lo : 4 ≤ order
  pub hi : order ≤ 10
  pub laid_out : IsLaidOut order (s.size_caches (order - 4))
  pub at_head : s.part (order - 4) ≡ slab
  pub some_slab : slab ≢ 0
  pub aligned : (s.slabs slab).mem % 16 ≡ 0
  pub in_memory : (s.slabs slab).mem + (s.size_caches (order - 4)).mem_size < 2 ^ 64
  pub small : (s.size_caches (order - 4)).mem_size < 2 ^ 32
  pub objects :
      Holds
        (s.size_caches (order - 4)).count
        (objects_of (s.size_caches (order - 4)) (s.slabs slab) s.words)
        l

-- Where the slab is after that: with free objects it stays at the head of the partial list.
abbrev pub IsListed : {X : Type 0} → ℕ → ℕ → ℕ → List ℕ → Heap X → Type 0
IsListed order slab next [] t = (t.full (order - 4) ≡ slab) × (t.part (order - 4) ≡ next)
IsListed order slab next (i ∷ l) t = HasFree order slab (i ∷ l) t

module _ {X : Type 0} (order slab i : ℕ) (l : List ℕ) (s : Heap X)
    (h : HasFree order slab (i ∷ l) s) where
  abbrev cache : Cache
  cache = s.size_caches (order - 4)

  abbrev slab_before : LinkedSlab
  slab_before = s.slabs slab

  abbrev taken : ℕ × Slab
  taken = take_object (objects_of cache slab_before s.words)

  abbrev slab_after : LinkedSlab
  slab_after = record slab_before {
    next_free = s.words (free_slot cache slab_before slab_before.next_free);
    allocated = u32 (slab_before.allocated + 1);
  }

  sizes : (cache.size ≡ 16 * 2 ^ (order - 4)) × (16 ≤ cache.size)
  sizes = size_lem cache.size order h.lo h.laid_out.size

  abbrev emptier : Heap X
  emptier = set_slab slab slab_after s

  taken-Holds : Holds cache.count (objects_of cache slab_after s.words) l
  unfolding take_object
  taken-Holds =
      (take_object-Holds cache.count (objects_of cache slab_before s.words) i l
        (omega (arith, le_product cache.count cache.size sizes.1, h.laid_out.objects, h.small))
        h.objects).2

  address :
      add64 slab_before.mem (u32 (slab_before.next_free * cache.size))
      ≡ slab_before.mem + i * cache.size
  address =
      object_address slab_before.mem i slab_before.next_free cache.size cache.count cache.mem_size
        h.objects.chain.0 h.laid_out.objects h.in_memory h.small (omega (arith, sizes.1))
        h.objects.chain.1

  object_aligned : (slab_before.mem + i * cache.size) % 16 ≡ 0
  object_aligned = multiple_aligned slab_before.mem i cache.size (2 ^ (order - 4)) h.aligned sizes.0

  assertion_holds : ((slab_before.mem + i * cache.size) % min max_align cache.size == 0) ≡ true
  assertion_holds =
      let alignment : min max_align cache.size ≡ 16 = omega (arith, sizes.1) in
      rw alignment (ground (arith, object_aligned))

  object_inside : slab_before.mem + i * cache.size + 2 ^ order ≤ slab_before.mem + cache.mem_size
  object_inside = omega (
    arith,
    step_le i cache.count cache.size h.objects.chain.1,
    h.laid_out.objects,
    h.laid_out.size,
  )

  take_from_slab_run :
      (t : Heap X)
      → (if slab_after.allocated == cache.count then move_to_full (order - 4) slab else pure tt)
          emptier
        ≡ ok tt t
      → take_from_slab (order - 4) slab s ≡ ok (slab_before.mem + i * cache.size) t
  unfolding take_from_slab
  take_from_slab_run t run =
      let some : (slab == 0) ≡ false = ground (arith, h.some_slab) in
      rw some (rw run (rw address (rw assertion_holds refl)))

  emptier_slab : (emptier.slabs slab) ≡ slab_after
  emptier_slab = update_same s.slabs slab slab_after

  -- What taking the object leaves: the address of the object is the result.
  abbrev Result : (Heap X → Type 0) → Cmd (Heap X) ℕ → Type 0
  Result Listed run =
      (t : Heap X) × (run s ≡ ok (slab_before.mem + i * cache.size) t)
      × Holds cache.count (objects_of cache (t.slabs slab) t.words) l
      × Listed t

  -- The last free object: the slab goes to the full list.
  take_last :
      length l ≡ 0
      → Result
          (λ t. (t.full (order - 4) ≡ slab) × (t.part (order - 4) ≡ slab_before.next))
          (take_from_slab (order - 4) slab)
  take_last none =
      let (t, run, kept, part, full) = move_to_full_lem (order - 4) slab emptier h.some_slab in
      let last : (slab_after.allocated == cache.count) ≡ true =
        ground (arith, taken-Holds.counted) in
      (
        t,
        take_from_slab_run t (rw last run),
        rw (objects_of-kept cache kept) (rw emptier_slab taken-Holds),
        (full, part ∙ ap (λ a. a.next) emptier_slab),
      )

  take_other : 0 < length l → Result (HasFree order slab l) (take_from_slab (order - 4) slab)
  take_other some =
      let more : (slab_after.allocated == cache.count) ≡ false =
        ground (arith, taken-Holds.counted) in
      let held : Holds cache.count (objects_of cache (emptier.slabs slab) s.words) l =
        rw emptier_slab taken-Holds in
      (
        emptier,
        take_from_slab_run emptier (rw more refl),
        held,
        record {
          lo = h.lo;
          hi = h.hi;
          laid_out = h.laid_out;
          at_head = h.at_head;
          some_slab = h.some_slab;
          aligned = rw emptier_slab h.aligned;
          in_memory = rw emptier_slab h.in_memory;
          small = h.small;
          objects = held;
        },
      )

module _ {X : Type 0} where
  take_from_slab_lem :
      (order slab i : ℕ) (l : List ℕ) (s : Heap X) (h : HasFree order slab (i ∷ l) s)
      → Result order slab i l s h
          (IsListed order slab (s.slabs slab).next l)
          (take_from_slab (order - 4) slab)
  take_from_slab_lem order slab i [] s h = take_last order slab i [] s h refl
  take_from_slab_lem order slab i (j ∷ l) s h = take_other order slab i (j ∷ l) s h (omega arith)

-- kalloc.
module _ {X : Type 0} (alloc_pages : ℕ → ℕ → Cmd X ℕ) (free_pages : ℕ → ℕ → Cmd X (Unit {0})) where
  take_unless_null_lem :
      (kalloc_below : ℕ → Cmd (Heap X) ℕ) (kfree_below : ℕ → Cmd (Heap X) (Unit {0}))
      (index slab : ℕ) (s : Heap X)
      → slab ≢ 0
      → take_unless_null alloc_pages free_pages kalloc_below kfree_below index slab s
        ≡ take_from_slab index slab s
  take_unless_null_lem kalloc_below kfree_below index zero s some = absurd (some refl)
  take_unless_null_lem kalloc_below kfree_below index (suc n) s some = refl

  kalloc_in_slab :
      (depth size order slab i : ℕ) (l : List ℕ) (s : Heap X)
      → get_min_cache_order size ≡ order
      → HasFree order slab (i ∷ l) s
      → kalloc alloc_pages free_pages (suc depth) size s ≡ take_from_slab (order - 4) slab s
  unfolding kalloc kalloc_step get_cache
  kalloc_in_slab depth size order slab i l s e h =
      let fits : ltb 11 (get_min_cache_order size) ≡ false = ground (arith, e, h.hi) in
      let cached : ltb (order - 4) 7 ≡ true = ground (arith, h.hi) in
      let some : (s.part (order - 4) == 0) ≡ false = ground (arith, h.at_head, h.some_slab) in
      rw fits (
        rw e (
          rw cached (
            rw some (
              rw h.at_head (
                take_unless_null_lem (λ n. kalloc alloc_pages free_pages depth n)
                  (λ ptr. halt out_of_fuel) (order - 4) slab s h.some_slab)))))

  -- If the smallest cache whose objects hold `size` bytes, of order 4 to 10 and laid out as
  -- initialize_slab_allocator does, has a slab with free objects at the head of its partial list,
  -- in memory that starts at a multiple of 16, kalloc of the size returns the address of the first
  -- free one. It is a multiple of 16, and that many bytes from it lie in the slab's memory. The
  -- object is then not free any more, the others still are, and the slab stays at the head of the
  -- partial list, or goes to the full list if that was its last free object.
  pub kalloc_lem :
      (depth size order slab i : ℕ) (l : List ℕ) (s : Heap X)
      → get_min_cache_order size ≡ order
      → HasFree order slab (i ∷ l) s
      → (object : ℕ) × (t : Heap X) × (kalloc alloc_pages free_pages (suc depth) size s
          ≡ ok object t)
        × (object ≡ (s.slabs slab).mem + i * 2 ^ order)
        × (object % 16 ≡ 0)
        × (size ≤ 2 ^ order)
        × (object + 2 ^ order ≤ (s.slabs slab).mem + (s.size_caches (order - 4)).mem_size)
        × Holds
            (s.size_caches (order - 4)).count
            (objects_of (s.size_caches (order - 4)) (t.slabs slab) t.words)
            l
        × IsListed order slab (s.slabs slab).next l t
  kalloc_lem depth size order slab i l s e h =
      let large : IsMinOrder size order =
        subst (IsMinOrder size) e (get_min_cache_order-IsMinOrder size) in
      let (t, run, held, listed) = take_from_slab_lem order slab i l s h in
      (
        (s.slabs slab).mem + i * (s.size_caches (order - 4)).size,
        t,
        kalloc_in_slab depth size order slab i l s e h ∙ run,
        ap (λ n. (s.slabs slab).mem + i * n) h.laid_out.size,
        object_aligned order slab i l s h,
        large.holds (omega (arith, h.hi)),
        object_inside order slab i l s h,
        held,
        listed,
      )
