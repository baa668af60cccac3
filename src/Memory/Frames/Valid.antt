-- ===== src/Memory/Frames/Valid.antt =====
-- Changes of one free list that keep the free lists well formed.
use plusplus_os.Base.{
  ℕ, ◌+◌, ◌%◌, ◌≤◌, ◌<◌, ◌≡◌, ap, sym, arith, ◌==◌, false, List, one_if, update, tally, All,
  Bool-cases, ==_iff, ==-refl, inl, inr, ◌∙◌, subst,
}
use plusplus_os.Memory.{ListEntry, FreeLists, set_head}
use plusplus_os.Memory.Buddy.Bit.{pair_of, pair_bit, toggled, toggled-head, pair_bit-toggled}
use plusplus_os.Memory.Frames.View.{in_pair, free_at, IsEntry, IsValid}

pub free_at-toggled :
    (k addr : ℕ) (f : FreeLists) (x : ℕ) → free_at (toggled k addr f) x ≡ free_at f x
unfolding free_at
free_at-toggled k addr f x = rw (toggled-head k addr f)

module _ (f : FreeLists) (v : IsValid f) (k : ℕ) (low : k < 8) (l : List ListEntry)
    (blocks : All (IsEntry k) l) where
  blocks-set_head : (j : ℕ) → j < 8 → All (IsEntry j) (update f.head k l j)
  unfolding update
  blocks-set_head j h = elim (Bool-cases (j == k)) [
    | inl e ↦ rw e (subst (λ n. All (IsEntry n) l) (sym ((==_iff _ _).0 e)) blocks)
    | inr e ↦ rw e (v.blocks j h)
  ]

  -- The list of order `k` changes by both blocks of a pair, or not at all.
  pub set_head-IsValid :
      ((i : ℕ) → k < 7 → tally (in_pair k i) l % 2 ≡ tally (in_pair k i) (f.head k) % 2)
      → ((x : ℕ) → free_at (set_head k l f) x ≤ 1)
      → IsValid (set_head k l f)
  unfolding pair_bit update
  set_head-IsValid even once = record {
    blocks = blocks-set_head;
    parity = λ j i h. elim (Bool-cases (j == k)) [
      | inl e ↦
          let same : j ≡ k = (==_iff _ _).0 e in
          rw (e, same) (rw same at (v.parity j i h) ∙ sym (even i (rw (← same) h)))
      | inr e ↦ rw e (v.parity j i h)
    ];
    once = once;
  }

  module _ (addr : ℕ)
      (odd : (i : ℕ)
        → k < 7
        → tally (in_pair k i) l % 2
          ≡ (tally (in_pair k i) (f.head k) + one_if (pair_of k addr == i)) % 2) where
    toggled_parity :
        (j i : ℕ)
        → j < 7
        → pair_bit (toggled k addr (set_head k l f)) j i
          ≡ tally (in_pair j i) (update f.head k l j) % 2
    unfolding pair_bit update
    toggled_parity j i h =
        pair_bit-toggled k addr (set_head k l f) j i h ∙ elim (Bool-cases (j == k)) [
          | inl e ↦
              let same : j ≡ k = (==_iff _ _).0 e in
              rw (e, same, ==-refl k)
                (omega (arith, rw same at (v.parity j i h), odd i (rw (← same) h)))
          | inr e ↦
              let apart : (k == j) ≡ false = ground arith in
              rw (e, apart) (omega (arith, v.parity j i h))
        ]

    -- The list of order `k` changes by the block at `addr`, whose bit is toggled.
    pub toggled-IsValid :
        ((x : ℕ) → free_at (set_head k l f) x ≤ 1) → IsValid (toggled k addr (set_head k l f))
    toggled-IsValid once = record {
      blocks = rw (toggled-head k addr (set_head k l f)) blocks-set_head;
      parity = λ j i h.
          toggled_parity j i h
          ∙ ap (λ (heads : ℕ → List ListEntry). tally (in_pair j i) (heads j) % 2)
              (sym (toggled-head k addr (set_head k l f)));
      once = λ x. rw (free_at-toggled k addr (set_head k l f) x) (once x);
    }
