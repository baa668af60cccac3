-- ===== src/Memory/Orders/Fit.antt =====
-- get_min_size_frame_order finds the smallest block that is big enough.
use Prim.Native.Nat.{min}
use native.Mathlib.Nat.{pow-suc, pow-le-pow_right}
use plusplus_os.Base.{
  ℕ, zero, suc, ◌-◌, ◌*◌, ◌/◌, ◌^◌, ◌≤◌, ◌<◌, ◌≡◌, ◌≢◌, refl, ap, arith, ◌==◌, true, false, ◌⊎◌,
  inl, inr, ◌∙◌, Bool-cases, ltb, sub64, u8,
}
use plusplus_os.Machine.{ok, Ends, Never, returns, returned}
use plusplus_os.Memory.Orders.{order_size, clz, get_min_size_frame_order}
use plusplus_os.Memory.Orders.Sizes.{order_size-Sizes}

-- The `clz` highest of the bits of `n` are zero, and no more are.
pub record Leading (width n : ℕ) : Type 0 where
  pub bound : clz width n ≤ width
  pub above : n < 2 ^ (width - clz width n)
  pub below : n ≢ 0 → 2 ^ (width - clz width n) ≤ 2 * n

clz_zero : (width n : ℕ) → (n == 0) ≡ true → clz (suc width) n ≡ suc width
unfolding clz
clz_zero width n e = rw e refl

clz_next : (width n : ℕ) → (n == 0) ≡ false → clz (suc width) n ≡ clz width (n / 2)
unfolding clz
clz_next width n e = rw e refl

no_bits : (width n c : ℕ) → n ≡ 0 → c ≡ width → n < 2 ^ (width - c)
no_bits width n c e same = let none_left : width - c ≡ 0 = omega arith in rw none_left (omega arith)

clz_none : (width n : ℕ) → n ≡ 0 → clz width n ≡ width
unfolding clz
clz_none zero n e = refl
clz_none (suc width) n e = let none_set : (n == 0) ≡ true = ground arith in rw none_set refl

pub clz-Leading : (width n : ℕ) → n < 2 ^ width → Leading width n
unfolding clz
clz-Leading zero n h = record {
  bound = omega arith;
  above = h;
  below = λ ne. absurd (ne (omega arith));
}
clz-Leading (suc width) n h = elim (Bool-cases (n == 0)) [
  | inl e ↦
      let none_set : n ≡ 0 = ground arith in
      record {
        bound = omega (arith, clz_zero width n e);
        above = no_bits (suc width) n (clz (suc width) n) none_set (clz_zero width n e);
        below = λ ne. absurd (ne none_set);
      }
  | inr e ↦
      let half = clz-Leading width (n / 2) (omega (arith, pow-suc 2 width)) in
      let longer : 2 ^ (suc width - clz (suc width) n) ≡ 2 ^ (width - clz width (n / 2)) * 2 =
        ap (λ (c : ℕ). 2 ^ c)
          (let d : suc width - clz (suc width) n ≡ suc (width - clz width (n / 2)) =
              omega (arith, clz_next width n e, half.bound) in
            d)
        ∙ pow-suc 2 (width - clz width (n / 2)) in
      record {
        bound = omega (arith, half.bound, clz_next width n e);
        above = omega (arith, half.above, longer);
        below = λ ne. elim (Bool-cases (n / 2 == 0)) [
          | inl one ↦
              let all : 2 ^ (width - clz width (n / 2)) ≡ 1 =
                ap (λ (c : ℕ). 2 ^ c)
                  (let d : width - clz width (n / 2) ≡ 0 =
                      omega (arith, clz_none width (n / 2) (ground arith)) in
                    d) in
              omega (arith, longer, all)
          | inr more ↦ omega (arith, longer, half.below (ground arith))
        ];
      }
]

-- An order is the one of a number of pages when it is the smallest with blocks that hold them.
pub record IsSmallest (pages k : ℕ) : Type 0 where
  pub holds : pages * 4096 ≤ order_size k
  pub smallest : (j : ℕ) → j < k → order_size j < pages * 4096

grow : (a b : ℕ) → a ≤ b → 2 ^ a ≤ 2 ^ b
grow a b h = pow-le-pow_right (let two : 0 < 2 = omega arith in two) h

-- The order of more than one page, by the bits of the number of pages less one.
fitting :
    (pages bits : ℕ)
    → pages ≢ 0
    → pages - 1 < 2 ^ bits
    → 2 ^ bits ≤ 2 * (pages - 1)
    → ((min bits 8 < 8) × IsSmallest pages (min bits 8))
      ⊎ ((min bits 8 ≡ 8) × (order_size 7 < pages * 4096))
fitting pages bits ne above below = elim (Bool-cases (ltb bits 8)) [
  | inl low ↦
      let same : min bits 8 ≡ bits = ground arith in
      rw same (
        inl (
          ground arith,
          record {
            holds = omega (arith, above, (order_size-Sizes bits (ground arith)).pages);
            smallest = λ j lt. omega (
              arith,
              below,
              (order_size-Sizes j (ground arith)).pages,
              pow-suc 2 j,
              grow (suc j) bits (omega arith),
            );
          },
        ))
  | inr high ↦ inr (
    ground arith,
    omega (arith, below, (order_size-Sizes 7 (omega arith)).pages, grow 8 bits (ground arith)),
  )
]

module _ {S : Type 0} where
  pub get_min_size_frame_order-IsSmallest :
      (pages : ℕ) (s : S)
      → pages ≢ 0
      → pages < 2 ^ 64
      → Ends Never
          (λ k t.
            (t ≡ s) × (((k < 8) × IsSmallest pages k) ⊎ ((k ≡ 8) × (order_size 7 < pages * 4096))))
          (get_min_size_frame_order pages s)
  unfolding get_min_size_frame_order
  get_min_size_frame_order-IsSmallest pages s ne h =
      let first = order_size-Sizes 0 (omega arith) in
      let some_pages : (pages == 0) ≡ false = ground arith in
      rw some_pages (elim (Bool-cases (pages == 1)) [
        | inl one ↦
            let single : pages ≡ 1 = ground arith in
            rw one (
              returns (
                refl,
                inl (
                  omega arith,
                  record {
                    holds = omega (arith, first.pages);
                    smallest = λ j lt. absurd (omega arith);
                  },
                ),
              ))
        | inr more ↦
            let less : sub64 pages 1 ≡ pages - 1 = omega arith in
            let bits = clz-Leading 64 (pages - 1) (omega arith) in
            let fit =
              fitting pages (64 - clz 64 (pages - 1)) ne bits.above (bits.below (ground arith)) in
            let byte : u8 (min (64 - clz 64 (pages - 1)) 8) ≡ min (64 - clz 64 (pages - 1)) 8 =
              ground arith in
            rw (more, less, byte) (returns (refl, fit))
      ])

pub IsSmallest-unique : (pages j k : ℕ) → IsSmallest pages j → IsSmallest pages k → j ≡ k
IsSmallest-unique pages j k p q = elim (Bool-cases (ltb j k)) [
  | inl lt ↦ absurd (omega (arith, q.smallest j (ground arith), p.holds))
  | inr ge ↦ elim (Bool-cases (ltb k j)) [
    | inl gt ↦ absurd (omega (arith, p.smallest k (ground arith), q.holds))
    | inr le ↦ ground arith
  ]
]

module _ {S : Type 0} where
  -- Up to 128 pages fit into a block.
  pub min_order :
      (pages : ℕ) (s : S)
      → pages ≢ 0
      → pages ≤ 128
      → (k : ℕ) × (k < 8) × IsSmallest pages k × (get_min_size_frame_order pages s ≡ ok k s)
  min_order pages s ne few =
      let (k, t, run, (same, fit)) =
        returned (get_min_size_frame_order-IsSmallest pages s ne (omega arith)) in
      let back : get_min_size_frame_order pages s ≡ ok k s = run ∙ ap (λ r. ok k r) same in
      elim fit [
        | inl (low, is) ↦ (k, low, is, back)
        | inr (e, too_small) ↦
            absurd (omega (arith, too_small, (order_size-Sizes 7 (omega arith)).pages))
      ]
