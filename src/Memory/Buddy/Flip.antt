-- ===== src/Memory/Buddy/Flip.antt =====
-- get_buddy_bit reads what toggle_buddy_bit flipped.
use plusplus_os.Base.{
  ℕ, ◌^◌, ◌<◌, ◌≡◌, refl, sym, ap, arith, ◌∙◌, ◌==◌, ◌&&◌, Bool, not, if◌then◌else◌,
}
use plusplus_os.Machine.{ok, and_then, result_or}
use plusplus_os.Memory.{Mem, FreeLists, set_lists}
use plusplus_os.Memory.Buddy.{get_buddy_bit, toggle_buddy_bit}
use plusplus_os.Memory.Buddy.Bit.{
  pair_of, pair_bit, toggled, toggle_buddy_bit_lem, get_buddy_bit_lem, pair_bit-toggled,
  pair_bit-lt,
}

flipped_bit :
    (k a : ℕ) (f : FreeLists) (j b : ℕ)
    → j < 7
    → (pair_bit (toggled k a f) j (pair_of j b) == 1) ≡ (
        if k == j && pair_of k a == pair_of j b
        then not (pair_bit f j (pair_of j b) == 1)
        else pair_bit f j (pair_of j b) == 1)
flipped_bit k a f j b low =
    ground (arith, pair_bit-toggled k a f j (pair_of j b) low, pair_bit-lt f j (pair_of j b))

module _ {X : Type 0} where
  -- After toggle_buddy_bit the bit of a block is the other one if the block is of the same order
  -- and one of the same pair of buddies, and is what it was for all other blocks, on 64-bit
  -- addresses. Nothing but the buddy map of the order changes.
  pub get_buddy_bit-toggle_buddy_bit :
      (k a j b : ℕ) (s : Mem X) (old : Bool)
      → k < 8
      → j < 7
      → a < 2 ^ 64
      → b < 2 ^ 64
      → get_buddy_bit b j s ≡ ok old s
      → and_then (toggle_buddy_bit a k s) (λ _. get_buddy_bit b j)
        ≡ ok
            (if k == j && pair_of k a == pair_of j b then not old else old)
            (set_lists (toggled k a s.lists) s)
  get_buddy_bit-toggle_buddy_bit k a j b s old hk hj ha hb before =
      let same : (pair_bit s.lists j (pair_of j b) == 1) ≡ old =
        ap (result_or old) (sym (get_buddy_bit_lem j b s hj hb) ∙ before) in
      rw
        (
          toggle_buddy_bit_lem k a s hk ha,
          get_buddy_bit_lem j b _ hj hb,
          flipped_bit k a s.lists j b hj,
          same,
        )
        refl
