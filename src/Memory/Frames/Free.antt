-- ===== src/Memory/Frames/Free.antt =====
-- free_frames: it returns, frees exactly what is given to it, and keeps the free lists well formed.
use native.Mathlib.Numerals.{add-one}
use plusplus_os.Base.{
  ℕ, zero, suc, ◌+◌, ◌*◌, ◌≤◌, ◌<◌, ◌≡◌, refl, ap, sym, arith, ◌==◌, true, false, List, ◌∷◌, [],
  inl, inr, one_if, update, ◌∙◌, subst, All, length, Bool-cases, ==-refl, ltb,
}
use plusplus_os.Machine
use plusplus_os.Machine.{Run, Stop, ok, Ends, returns}
use plusplus_os.Memory.{
  ListEntry, list_entry, PageFrameAllocation, FreeLists, Mem, set_lists, set_head,
}
use plusplus_os.Memory.Orders.{order_size, range_contains}
use plusplus_os.Memory.Buddy.Bit.{
  pair_of, pair_bit, pair_bit-lt, toggled, toggled-head, toggle_buddy_bit_lem, get_buddy_bit_lem,
}
use plusplus_os.Memory.Frames.{merge_blocks, free_block, free_frames}
use plusplus_os.Memory.Frames.View.{covers, free_at, allocated_at, IsBlock, IsValid}
use plusplus_os.Memory.Frames.Effects.{given-IsValid}
use plusplus_os.Memory.Frames.Supply.{Supply, weaken_by}
use plusplus_os.Memory.Frames.Merge.Once.{merge_once-Merged}

-- A block of an order that exists.
pub record IsAllocation (a : PageFrameAllocation) : Type 0 where
  pub low : a.order < 8
  pub block : IsBlock a.order a.addr

set_head-toggled :
    (k addr : ℕ) (l : List ListEntry) (f : FreeLists)
    → set_head k l (toggled k addr f) ≡ toggled k addr (set_head k l f)
unfolding toggled
set_head-toggled k addr l f = elim (Bool-cases (k == 7)) [ inl e ↦ rw e | inr e ↦ rw e ]

push-toggled :
    (k addr : ℕ) (e : ListEntry) (f : FreeLists)
    → set_head k (e ∷ (toggled k addr f).head k) (toggled k addr f)
      ≡ toggled k addr (set_head k (e ∷ f.head k) f)
push-toggled k addr e f =
    ap (λ (h : ℕ → List ListEntry). set_head k (e ∷ h k) (toggled k addr f)) (toggled-head k addr f)
    ∙ set_head-toggled k addr (e ∷ f.head k) f

module _ {X : Type 0} (u : Supply X) (E : Stop → Type 0) (n : ℕ) where
  open u use {Stock, free_law}

  -- The addresses that are free in `t` are those of `s` and `added`.
  pub record Released (s : Mem X) (added : ℕ → ℕ) (t : Mem X) : Type 0 where
    pub stock : Stock n t.pool
    pub valid : IsValid t.lists
    pub free : (x : ℕ) → free_at t.lists x ≡ free_at s.lists x + added x
    pub rest : t.rest ≡ s.rest

  pub Released-refl : (s : Mem X) → Stock n s.pool → IsValid s.lists → Released s (λ x. 0) s
  Released-refl s stock v = record {
    stock = stock;
    valid = v;
    free = λ x. omega arith;
    rest = refl;
  }

  merge_blocks-Released :
      (fuel d k : ℕ) (e : ListEntry) (next : List ListEntry) (s : Mem X)
      → k < 8
      → 8 ≤ k + fuel
      → 7 ≤ k + d
      → Stock (d + n) s.pool
      → IsValid s.lists
      → s.lists.head k ≡ e ∷ next
      → IsBlock k e.addr
      → Ends E (λ _. Released s (λ x. 0)) (merge_blocks fuel k e s)
  unfolding merge_blocks
  merge_blocks-Released zero d k e next s low h g stock v first b = absurd (omega arith)
  merge_blocks-Released (suc fuel) zero k e next s low h g stock v first b =
      let top : ltb k 7 ≡ false = ground arith in
      rw top (returns (Released-refl s (weaken_by u 0 n s.pool stock) v))
  merge_blocks-Released (suc fuel) (suc d) k e next s low h g stock v first b =
      elim (Bool-cases (ltb k 7)) [
        | inr top ↦ rw top (returns (Released-refl s (weaken_by u (suc d) n s.pool stock) v))
        | inl below ↦
            let k_lt : k < 7 = ground arith in
            rw (below, get_buddy_bit_lem k e.addr s k_lt (omega (arith, b.fits)))
              (elim (Bool-cases (pair_bit s.lists k (pair_of k e.addr) == 1)) [
                | inl one_free ↦
                    rw one_free (returns (Released-refl s (weaken_by u (suc d) n s.pool stock) v))
                | inr both_free ↦
                    let both : pair_bit s.lists k (pair_of k e.addr) ≡ 0 =
                      ground (arith, pair_bit-lt s.lists k (pair_of k e.addr)) in
                    let (m, t, run, step) = merge_once-Merged s v k k_lt e next first both in
                    let more : suc d + n ≡ suc (d + n) = omega arith in
                    let stock' : Stock (d + n) t.pool =
                      rw step.pool (free_law (d + n) s.pool step.node (rw more at stock)) in
                    rw (both_free, run, add-one k)
                      (Machine.mono
                        (merge_blocks-Released fuel d (suc k) m step.others t (omega arith)
                          (omega arith) (omega arith) stock' step.valid step.first step.block)
                        λ _ r next'. record {
                          stock = next'.stock;
                          valid = next'.valid;
                          free = λ x. omega (arith, next'.free x, step.free x);
                          rest = next'.rest ∙ step.rest;
                        })
              ])
      ]

  abbrev block_at : PageFrameAllocation → ℕ → ℕ
  block_at a x = one_if (range_contains x a.addr (order_size a.order))

  free_block-Released :
      (a : PageFrameAllocation) (s : Mem X)
      → IsAllocation a
      → Stock (7 + n) s.pool
      → IsValid s.lists
      → ((x : ℕ) → free_at s.lists x + block_at a x ≤ 1)
      → Ends E (λ _. Released s (block_at a)) (free_block a s)
  unfolding free_block covers update
  free_block-Released a s ia stock v fresh =
      let k = a.order in
      let e = list_entry a.node a.addr in
      let in_range : ltb k 8 ≡ true = ground (arith, ia.low) in
      let back = given-IsValid s.lists v k ia.low e ia.block fresh in
      let first = toggled-head k a.addr (set_head k (e ∷ s.lists.head k) s.lists) in
      let t = set_lists (toggled k a.addr (set_head k (e ∷ s.lists.head k) s.lists)) s in
      rw (in_range, toggle_buddy_bit_lem k a.addr s ia.low (omega (arith, ia.block.fits)))
        (subst (λ f. Ends E (λ _. Released s (block_at a)) (merge_blocks 8 k e (set_lists f s)))
          (sym (push-toggled k a.addr e s.lists))
          (Machine.mono
            (merge_blocks-Released 8 7 k e (s.lists.head k) t ia.low (omega arith) (omega arith)
              stock back.valid (ap (λ (h : ℕ → List ListEntry). h k) first ∙ rw (==-refl k))
              ia.block)
            λ _ r next. record {
              stock = next.stock;
              valid = next.valid;
              free = λ x. omega (arith, next.free x, back.free x);
              rest = next.rest;
            }))

module _ {X : Type 0} (u : Supply X) (E : Stop → Type 0) where
  open u use {Stock}

  -- free_frames returns: the assertion on the buddy holds. It frees the blocks of the allocation,
  -- if none of their addresses is free already and no two of them overlap.
  pub free_frames-Released :
      (n : ℕ) (l : List PageFrameAllocation) (s : Mem X)
      → All IsAllocation l
      → Stock (7 * length l + n) s.pool
      → IsValid s.lists
      → ((x : ℕ) → free_at s.lists x + allocated_at l x ≤ 1)
      → Ends E (λ _. Released u E n s (allocated_at l)) (free_frames l s)
  unfolding free_frames allocated_at
  free_frames-Released n [] s all stock v fresh =
      returns (Released-refl u E n s (weaken_by u 0 n s.pool stock) v)
  free_frames-Released n (a ∷ l) s all stock v fresh =
      let m = 7 * length l + n in
      let split : 7 * suc (length l) + n ≡ 7 + m = omega arith in
      Machine.bind
        (free_block-Released u E m a s all.0 (rw split at stock) v (λ x. omega (arith, fresh x)))
        λ _ t one.
          Machine.mono
            (free_frames-Released n l t all.1 one.stock one.valid
              (λ x. omega (arith, fresh x, one.free x)))
            λ _ r others. record {
              stock = others.stock;
              valid = others.valid;
              free = λ x. omega (arith, others.free x, one.free x);
              rest = others.rest ∙ one.rest;
            }
