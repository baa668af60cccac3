-- ===== src/Memory/Frames/Blocks.antt =====
-- Aligned blocks: their halves, their buddies, and the block that two buddies make.
use native.Mathlib.Nat.{
  mul-div_cancel, mul-mod_left, add-mul-mod_self_right, mod-eq_of_lt, mod-add-div',
}
use native.Mathlib.Numerals.{add-one}
use plusplus_os.Base.{
  ℕ, suc, ◌+◌, ◌*◌, ◌/◌, ◌%◌, ◌^◌, ◌≤◌, ◌<◌, ◌≡◌, ◌≢◌, ap, sym, arith, ◌==◌, false, one_if, inl,
  inr, Bool-cases, ◌∙◌, ◌⊎◌, add64, sub64,
}
use plusplus_os.Memory.Orders.{order_size, range_contains}
use plusplus_os.Memory.Orders.Sizes.{Sizes, order_size-Sizes, range_contains_lem}
use plusplus_os.Memory.Buddy.Bit.{pair_of}
use plusplus_os.Memory.Frames.{buddy_addr}
use plusplus_os.Memory.Frames.View.{IsBlock}

module _ (k : ℕ) (low : k < 8) where
  abbrev size : ℕ
  size = order_size k

  sizes : Sizes k
  sizes = order_size-Sizes k low

  positive : 0 < order_size k
  positive = omega (arith, sizes.lower)

  -- A multiple of the size is a block.
  multiple-IsBlock :
      (q addr : ℕ) → addr ≡ q * order_size k → addr + order_size k ≤ 2 ^ 57 → IsBlock k addr
  multiple-IsBlock q addr e fits = record {
    aligned = rw (e, mul-div_cancel q {n = order_size k} positive);
    fits = fits;
  }

  -- A block is the left or the right one of its pair.
  pub pair-cases :
      (addr : ℕ)
      → IsBlock k addr
      → (addr ≡ pair_of k addr * order_size k * 2)
        ⊎ (addr ≡ pair_of k addr * order_size k * 2 + order_size k)
  unfolding pair_of
  pair-cases addr b =
      let m = addr / order_size k in
      elim (dec_even m) [
        | inl e ↦ inl (omega (arith, b.aligned, ap (λ (t : ℕ). t * order_size k) e))
        | inr e ↦ inr (omega (arith, b.aligned, ap (λ (t : ℕ). t * order_size k) e))
      ]
    where
      dec_even : (n : ℕ) → (n ≡ n / 2 * 2) ⊎ (n ≡ n / 2 * 2 + 1)
      dec_even n = omega arith

  pub pair_of_left : (p addr : ℕ) → addr ≡ p * order_size k * 2 → pair_of k addr ≡ p
  unfolding pair_of
  pair_of_left p addr e =
      let twice : addr ≡ (p * 2) * order_size k = omega arith in
      rw (twice, mul-div_cancel (p * 2) {n = order_size k} positive) (omega arith)

  pub pair_of_right : (p addr : ℕ) → addr ≡ p * order_size k * 2 + order_size k → pair_of k addr ≡ p
  unfolding pair_of
  pair_of_right p addr e =
      let twice : addr ≡ (p * 2 + 1) * order_size k = omega arith in
      rw (twice, mul-div_cancel (p * 2 + 1) {n = order_size k} positive) (omega arith)

  pub mod_left : (p addr : ℕ) → addr ≡ p * order_size k * 2 → addr % order_size (suc k) ≡ 0
  mod_left p addr e =
      let twice : addr ≡ p * order_size (suc k) =
        omega (arith, ap (λ (t : ℕ). p * t) sizes.twice) in
      rw (twice, mul-mod_left p (order_size (suc k)))

  pub mod_right :
      (p addr : ℕ)
      → addr ≡ p * order_size k * 2 + order_size k
      → addr % order_size (suc k) ≡ order_size k
  mod_right p addr e =
      let twice : addr ≡ order_size k + p * order_size (suc k) =
        omega (arith, ap (λ (t : ℕ). p * t) sizes.twice) in
      rw (twice, add-mul-mod_self_right (order_size k) p (order_size (suc k)))
        (mod-eq_of_lt (omega (arith, sizes.twice, sizes.lower)))

  -- The code's other_addr is the other block of the pair.
  pub buddy_addr_lem :
      (a b : ℕ) → IsBlock k a → IsBlock k b → pair_of k a ≡ pair_of k b → a ≢ b → b ≡ buddy_addr a k
  unfolding buddy_addr
  buddy_addr_lem a b ba bb same ne = rw (add-one k) (elim (pair-cases a ba) [
    | inl left ↦ elim (pair-cases b bb) [
      | inl e ↦ absurd (ne (omega (arith, ap (λ (t : ℕ). t * order_size k) same)))
      | inr e ↦
          rw (mod_left (pair_of k a) a left)
            (omega (arith, ap (λ (t : ℕ). t * order_size k) same, sizes.upper))
    ]
    | inr right ↦ elim (pair-cases b bb) [
      | inl e ↦
          rw (mod_right (pair_of k a) a right)
            (ground (arith, ap (λ (t : ℕ). t * order_size k) same, sizes.lower, sizes.upper))
      | inr e ↦ absurd (ne (omega (arith, ap (λ (t : ℕ). t * order_size k) same)))
    ]
  ])

  pub pair_of-buddy_addr : (a : ℕ) → IsBlock k a → pair_of k (buddy_addr a k) ≡ pair_of k a
  unfolding buddy_addr
  pair_of-buddy_addr a b = rw (add-one k) (elim (pair-cases a b) [
    | inl left ↦
        rw (mod_left (pair_of k a) a left) (
          pair_of_right (pair_of k a) (add64 a (order_size k)) (omega (arith, b.fits, sizes.upper)))
    | inr right ↦
        let odd : (order_size k == 0) ≡ false = ground (arith, sizes.lower) in
        rw (mod_right (pair_of k a) a right) (
          rw odd (
            pair_of_left (pair_of k a) (sub64 a (order_size k))
              (omega (arith, b.fits, sizes.upper))))
  ])

  pub buddy_addr-ne : (a : ℕ) → IsBlock k a → a ≢ buddy_addr a k
  unfolding buddy_addr
  buddy_addr-ne a b = rw (add-one k) (elim (Bool-cases (a % order_size (suc k) == 0)) [
    | inl even ↦ rw even (omega (arith, b.fits, sizes.lower, sizes.upper))
    | inr odd ↦ elim (pair-cases a b) [
      | inl left ↦ absurd (ground (arith, mod_left (pair_of k a) a left))
      | inr right ↦ rw odd (omega (arith, b.fits, sizes.lower, sizes.upper))
    ]
  ])

  -- The left one of two buddies is where the block of twice the size begins.
  pub merged-IsBlock :
      (left right : ℕ)
      → IsBlock k left
      → IsBlock k right
      → pair_of k left ≡ pair_of k right
      → left < right
      → IsBlock (suc k) left × (right ≡ left + order_size k)
  merged-IsBlock left right bl br same lt = elim (pair-cases left bl) [
    | inl e ↦ elim (pair-cases right br) [
      | inl e' ↦ absurd (omega (arith, ap (λ (t : ℕ). t * order_size k) same))
      | inr e' ↦ (
        record {
          aligned =
              omega
                (arith, mod-add-div' left (order_size (suc k)), mod_left (pair_of k left) left e);
          fits = omega (arith, br.fits, sizes.twice, ap (λ (t : ℕ). t * order_size k) same);
        },
        omega (arith, ap (λ (t : ℕ). t * order_size k) same),
      )
    ]
    | inr e ↦ elim (pair-cases right br) [
      | inl e' ↦ absurd (omega (arith, ap (λ (t : ℕ). t * order_size k) same))
      | inr e' ↦ absurd (omega (arith, ap (λ (t : ℕ). t * order_size k) same))
    ]
  ]

  -- The halves of a block of twice the size.
  pub record Halves (addr : ℕ) : Type 0 where
    pub left : IsBlock k addr
    pub right : IsBlock k (addr + order_size k)
    pub same : pair_of k addr ≡ pair_of k (addr + order_size k)

  pub IsBlock-Halves : (addr : ℕ) → IsBlock (suc k) addr → Halves addr
  IsBlock-Halves addr b =
      let q = addr / order_size (suc k) in
      let twice : q * order_size (suc k) ≡ q * order_size k * 2 =
        omega (arith, ap (λ (t : ℕ). q * t) sizes.twice) in
      let e : addr ≡ q * order_size k * 2 = omega (arith, b.aligned) in
      record {
        left = multiple-IsBlock (q * 2) addr (omega arith) (omega (arith, b.fits, sizes.twice));
        right =
            multiple-IsBlock (q * 2 + 1) (addr + order_size k) (omega arith)
              (omega (arith, b.fits, sizes.twice));
        same = pair_of_left q addr e ∙ sym (pair_of_right q (addr + order_size k) (omega arith));
      }

  -- An address is in a block if and only if it is in one of its halves, and never in both.
  pub halves_cover :
      (x addr : ℕ)
      → addr + order_size k + order_size k ≤ 2 ^ 57
      → one_if (range_contains x addr (order_size k))
          + one_if (range_contains x (addr + order_size k) (order_size k))
        ≡ one_if (range_contains x addr (order_size (suc k)))
  halves_cover x addr fits = ground (
    arith,
    range_contains_lem x addr (order_size k) (omega arith),
    range_contains_lem x (addr + order_size k) (order_size k) (omega arith),
    range_contains_lem x addr (order_size (suc k)) (omega (arith, sizes.twice)),
    sizes.twice,
  )
