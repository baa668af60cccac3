-- ===== src/Memory/Slab/Heap/Moved.antt =====
-- A slab that is linked into another list keeps its objects.
use plusplus_os.Base.{
  ℕ, ◌≡◌, ◌≢◌, refl, ap, arith, ◌∙◌, false, ◌==◌, inl, inr, Bool-cases, update_same, update_field,
}
use plusplus_os.Machine.{ok}
use plusplus_os.Memory.Slab.{Cache, Slab}
use plusplus_os.Memory.Slab.Heap.{
  LinkedSlab, Heap, free_slot, set_slab, set_prev, set_part, set_full, move_to_full,
}

-- The objects of a slab, with the free array from memory.
abbrev pub objects_of : Cache → LinkedSlab → (ℕ → ℕ) → Slab
objects_of cache a words = record {
  allocated = a.allocated;
  next_free = a.next_free;
  free = λ i. words (free_slot cache a i);
}

module _ {X : Type 0} where
  -- Only the lists and the links change, and the objects of `slab` stay.
  pub record KeepsObjects (slab : ℕ) (s t : Heap X) : Type 0 where
    pub size_caches : t.size_caches ≡ s.size_caches
    pub words : t.words ≡ s.words
    pub mem : (t.slabs slab).mem ≡ (s.slabs slab).mem
    pub allocated : (t.slabs slab).allocated ≡ (s.slabs slab).allocated
    pub next_free : (t.slabs slab).next_free ≡ (s.slabs slab).next_free

  KeepsObjects-trans :
      {slab : ℕ} {s t u : Heap X}
      → KeepsObjects slab s t
      → KeepsObjects slab t u
      → KeepsObjects slab s u
  KeepsObjects-trans h k = record {
    size_caches = k.size_caches ∙ h.size_caches;
    words = k.words ∙ h.words;
    mem = k.mem ∙ h.mem;
    allocated = k.allocated ∙ h.allocated;
    next_free = k.next_free ∙ h.next_free;
  }

  pub objects_of-kept :
      {slab : ℕ} {s t : Heap X} (c : Cache)
      → KeepsObjects slab s t
      → objects_of c (t.slabs slab) t.words ≡ objects_of c (s.slabs slab) s.words
  objects_of-kept c h = rw h.words (rw h.mem (rw h.allocated (rw h.next_free refl)))

  -- A write of links to any slab.
  set_slab-KeepsObjects :
      (slab other : ℕ) (a : LinkedSlab) (s : Heap X)
      → a.mem ≡ (s.slabs other).mem
      → a.allocated ≡ (s.slabs other).allocated
      → a.next_free ≡ (s.slabs other).next_free
      → KeepsObjects slab s (set_slab other a s)
  set_slab-KeepsObjects slab other a s mem allocated next_free = record {
    size_caches = refl;
    words = refl;
    mem = update_field (λ b. b.mem) s.slabs other a slab mem;
    allocated = update_field (λ b. b.allocated) s.slabs other a slab allocated;
    next_free = update_field (λ b. b.next_free) s.slabs other a slab next_free;
  }

  set_prev-KeepsObjects :
      (slab other prev : ℕ) (s : Heap X)
      → KeepsObjects slab s (set_prev other prev s)
        × ((set_prev other prev s).part ≡ s.part)
        × ((set_prev other prev s).full ≡ s.full)
  set_prev-KeepsObjects slab other prev s = elim (Bool-cases (other == 0)) [
    | inl e ↦ rw e (
      record { size_caches = refl; words = refl; mem = refl; allocated = refl; next_free = refl },
      refl,
      refl,
    )
    | inr e ↦ rw e (set_slab-KeepsObjects slab other _ s refl refl refl, refl, refl)
  ]

  -- A slab that goes from the partial list to the full list keeps its objects.
  pub move_to_full_lem :
      (index slab : ℕ) (s : Heap X)
      → slab ≢ 0
      → (t : Heap X) × (move_to_full index slab s ≡ ok tt t)
        × KeepsObjects slab s t
        × (t.part index ≡ (s.slabs slab).next)
        × (t.full index ≡ slab)
  unfolding move_to_full
  move_to_full_lem index slab s some_slab =
      let cut = set_part index (s.slabs slab).next s in
      let head = set_prev-KeepsObjects slab (cut.part index) 0 cut in
      let rest = set_prev (cut.part index) 0 cut in
      let linked = set_slab slab (record (rest.slabs slab) { next = rest.full index }) rest in
      let link = set_slab-KeepsObjects slab slab _ rest refl refl refl in
      let back = set_prev-KeepsObjects slab (rest.full index) slab linked in
      let some : (slab == 0) ≡ false = ground arith in
      (
        set_full index slab (set_prev (rest.full index) slab linked),
        rw some refl,
        KeepsObjects-trans
            (record {
              size_caches = head.0.size_caches;
              words = head.0.words;
              mem = head.0.mem;
              allocated = head.0.allocated;
              next_free = head.0.next_free;
            })
            (KeepsObjects-trans link (record {
              size_caches = back.0.size_caches;
              words = back.0.words;
              mem = back.0.mem;
              allocated = back.0.allocated;
              next_free = back.0.next_free;
            })),
        ap (λ f. f index) (back.1 ∙ head.1) ∙ update_same s.part index (s.slabs slab).next,
        update_same _ index slab,
      )
