-- ===== src/Memory/Frames/Find/Up.antt =====
-- The search goes up through the orders, and falls back to smaller blocks from the last one.
use plusplus_os.Base.{
  ℕ, zero, suc, ◌+◌, ◌-◌, ◌≤◌, ◌<◌, ◌≡◌, refl, arith, ◌==◌, true, false, [], inl, inr, subst,
  Option, Bool-cases, ltb,
}
use plusplus_os.Machine
use plusplus_os.Machine.{Run, Cmd, Stop, ok, stop, out_of_bounds, Ends, returns, stops}
use plusplus_os.Memory.{Mem}
use plusplus_os.Memory.Frames.{find_block, find_round, smaller_order}
use plusplus_os.Memory.Frames.View.{IsValid}
use plusplus_os.Memory.Frames.Supply.{Supply, weaken_by}
use plusplus_os.Memory.Frames.Chains.{chain-cases, Keeps-refl, smaller_order-cases}
use plusplus_os.Memory.Frames.Find.{FindResult, OnlyFound-FindResult, find_here, find_down}

module _ {X : Type 0} (u : Supply X) (n target : ℕ) where
  open u use {alloc_page, held, Admits, Stock}

  find_past :
      (fuel order : ℕ) (s : Mem X) {Q : Option ℕ → Mem X → Type 0}
      → order ≡ 8
      → s.lists.head target ≡ []
      → Admits out_of_bounds
      → Ends Admits Q (find_block alloc_page (suc fuel) target order s)
  unfolding find_block
  find_past fuel order s e gone past =
      let out_of_range : ltb order 8 ≡ false = ground arith in
      rw (gone, find_block) (rw out_of_range (stops past))

  -- The free list of `order` is empty too.
  find_next :
      (fuel order : ℕ) (s : Mem X) {Q : Option ℕ → Mem X → Type 0}
      → order < 8
      → s.lists.head target ≡ []
      → s.lists.head order ≡ []
      → (order + 1 < 8 → Ends Admits Q (find_block alloc_page fuel target (order + 1) s))
      → (order ≡ 7 → Ends Admits Q (ok (smaller_order s.lists.head target) s))
      → Ends Admits Q (find_block alloc_page (suc fuel) target order s)
  unfolding find_block find_round
  find_next fuel order s low gone none_here next last =
      let in_range : ltb order 8 ≡ true = ground arith in
      rw (gone, find_block)
        (rw in_range (
          rw (none_here, find_round)
            (elim (Bool-cases (ltb (order + 1) 8)) [
              | inl more ↦ rw more (next (ground arith))
              | inr end ↦ rw end (last (ground arith))
            ])))

  -- No order from `target` on has a block.
  find_smaller :
      (s : Mem X)
      → IsValid s.lists
      → Stock (7 + n) s.pool
      → ((j : ℕ) → target ≤ j → j < 8 → s.lists.head j ≡ [])
      → Ends Admits (FindResult u n s target) (ok (smaller_order s.lists.head target) s)
  find_smaller s v stock empty = elim (smaller_order-cases s.lists.head target) [
    | inl (no_k, below) ↦ rw no_k (
        returns (record {
          stock = weaken_by u 7 n s.pool stock;
          same = refl;
          empty = λ j h. elim (Bool-cases (ltb j target)) [
            | inl lt ↦ below j (ground arith)
            | inr ge ↦ empty j (ground arith) h
          ];
        }))
    | inr (k, is_k, lt, starts) ↦ rw is_k (
        returns (
          omega arith,
          record { stock = weaken_by u 7 n s.pool stock; keeps = Keeps-refl s v; starts = starts },
        ))
  ]

  -- On the way up nothing is changed.
  pub find_block-FindResult :
      (r fuel order : ℕ) (s : Mem X)
      → order + r ≡ 8
      → target < order
      → r + 9 ≤ fuel
      → IsValid s.lists
      → Stock (7 + n) s.pool
      → ((j : ℕ) → target < j → j < order → s.lists.head j ≡ [])
      → (order ≡ 8 → Admits out_of_bounds)
      → Ends Admits (FindResult u n s target) (find_block alloc_page fuel target order s)
  find_block-FindResult r zero order s e up h v stock empty past = absurd (omega arith)
  find_block-FindResult zero (suc fuel) order s e up h v stock empty past =
      elim (chain-cases (s.lists.head target)) [
        | inr here ↦
            Machine.mono (find_here u n target fuel order 7 s v stock here)
              (OnlyFound-FindResult u n target s)
        | inl gone ↦ find_past fuel order s (omega arith) gone (past (omega arith))
      ]
  find_block-FindResult (suc r) (suc fuel) order s e up h v stock empty past =
      elim (chain-cases (s.lists.head target)) [
        | inr here ↦
            Machine.mono (find_here u n target fuel order 7 s v stock here)
              (OnlyFound-FindResult u n target s)
        | inl gone ↦ elim (chain-cases (s.lists.head order)) [
          | inr there ↦
              let d = order - target in
              Machine.mono
                (find_down u n target d (suc fuel) order s (omega arith) (omega arith) (omega arith)
                  v
                  (weaken_by u (7 - d) (d + n) s.pool (
                    subst (λ (m : ℕ). Stock m s.pool)
                      (let e' : 7 + n ≡ 7 - d + (d + n) = omega arith in e') stock))
                  there)
                (OnlyFound-FindResult u n target s)
          | inl none_here ↦
              find_next fuel order s (omega arith) gone none_here
                (λ more.
                  find_block-FindResult r fuel (order + 1) s (omega arith) (omega arith)
                    (omega arith) v stock
                    (λ j lt le. elim (Bool-cases (j == order)) [
                      | inl here ↦ let same : j ≡ order = ground arith in rw same none_here
                      | inr other ↦ empty j lt (ground arith)
                    ])
                    (λ e'. absurd (omega arith)))
                (λ last. find_smaller s v stock λ j ge le. elim (Bool-cases (j == order)) [
                  | inl here ↦ let same : j ≡ order = ground arith in rw same none_here
                  | inr other ↦ elim (Bool-cases (j == target)) [
                    | inl here ↦ let same : j ≡ target = ground arith in rw same gone
                    | inr above ↦ empty j (ground arith) (ground arith)
                  ]
                ])
        ]
      ]
