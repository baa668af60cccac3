-- ===== src/Memory/Frames/Find.antt =====
-- The search for a block in alloc_frames: it ends, it finds a block unless there is none of any
-- order, and it reads past the last free list only when the last order is wanted and empty.
pub mod Up
use native.Mathlib.Numerals.{add-one}
use native.Mathlib.Nat.{add-suc}
use plusplus_os.Base.{
  ℕ, zero, suc, ◌+◌, ◌-◌, ◌≤◌, ◌<◌, ◌≡◌, ◌≢◌, refl, ap, sym, arith, ◌==◌, Bool, true, false, List,
  ◌∷◌, [], ◌⊎◌, inl, inr, if◌then◌else◌, ◌∙◌, subst, Option, none, some, Bool-cases, ltb,
}
use plusplus_os.Machine
use plusplus_os.Machine.{Run, Cmd, Stop, ok, stop, out_of_bounds, Ends, returns, stops}
use plusplus_os.Memory.{ListEntry, FreeLists, MemoryEntryPool, Mem}
use plusplus_os.Memory.Frames.{find_block, find_round, smaller_order, split_block}
use plusplus_os.Memory.Frames.View.{IsValid}
use plusplus_os.Memory.Frames.Supply.{Keeps, Supply, weaken_by}
use plusplus_os.Memory.Frames.Take.{IsSplit, split_block-IsSplit}
use plusplus_os.Memory.Frames.Chains.{
  Starts, chain-cases, Keeps-refl, Keeps-trans, smaller_order-cases,
}

module _ {X : Type 0} (u : Supply X) where
  open u use {alloc_page, held, Admits, Stock}

  -- A block of order `k` is there, and nothing was lost.
  pub record Found (n : ℕ) (s : Mem X) (k : ℕ) (t : Mem X) : Type 0 where
    pub stock : Stock n t.pool
    pub keeps : Keeps held s t
    pub starts : Starts (t.lists.head k)

  -- Nothing was changed, and there is no block at all.
  pub record Exhausted (n : ℕ) (s t : Mem X) : Type 0 where
    pub stock : Stock n t.pool
    pub same : t ≡ s
    pub empty : (j : ℕ) → j < 8 → s.lists.head j ≡ []

  abbrev pub FindResult : ℕ → Mem X → ℕ → Option ℕ → Mem X → Type 0
  FindResult n s target (some k) t = (k ≤ target) × Found n s k t
  FindResult n s target none t = Exhausted n s t

  abbrev OnlyFound : ℕ → Mem X → ℕ → Option ℕ → Mem X → Type 0
  OnlyFound n s target (some k) t = (k ≤ target) × Found n s k t
  OnlyFound n s target none t = ⊥

  pub OnlyFound-FindResult :
      (n target : ℕ) (s : Mem X) (o : Option ℕ) (t : Mem X)
      → OnlyFound n s target o t
      → FindResult n s target o t
  OnlyFound-FindResult n target s none t h = absurd h
  OnlyFound-FindResult n target s (some k) t h = h

  OnlyFound-after :
      (n target : ℕ) {s t : Mem X}
      → Keeps held s t
      → (o : Option ℕ) (r : Mem X) → OnlyFound n t target o r
      → OnlyFound n s target o r
  OnlyFound-after n target keeps none r h = h
  OnlyFound-after n target keeps (some k) r (le, f) =
      (le, record { stock = f.stock; keeps = Keeps-trans keeps f.keeps; starts = f.starts })

  module _ (n target : ℕ) where
    pub find_here :
        (fuel order d : ℕ) (s : Mem X)
        → IsValid s.lists
        → Stock (d + n) s.pool
        → Starts (s.lists.head target)
        → Ends Admits (OnlyFound n s target) (find_block alloc_page (suc fuel) target order s)
    unfolding find_block
    find_here fuel order d s v stock here =
        rw (here.eq, find_block)
          (returns (
            omega arith,
            record { stock = weaken_by u d n s.pool stock; keeps = Keeps-refl s v; starts = here },
          ))

    -- A block of order `j + 1` is split, and the search goes on at order `j`.
    find_split :
        (m fuel j : ℕ) (s : Mem X) {Q : Option ℕ → Mem X → Type 0}
        → j < 7
        → IsValid s.lists
        → Stock (suc m) s.pool
        → s.lists.head target ≡ []
        → Starts (s.lists.head (suc j))
        → ((t : Mem X) → IsSplit u m j s t → Ends Admits Q (find_block alloc_page fuel target j t))
        → Ends Admits Q (find_block alloc_page (suc fuel) target (suc j) s)
    unfolding find_block find_round
    find_split m fuel j s low v stock gone there next =
        let in_range : ltb (suc j) 8 ≡ true = ground arith in
        let below : suc j - 1 ≡ j = omega arith in
        rw (gone, find_block)
          (rw in_range (
            rw (there.eq, find_round)
              (Machine.bind
                (split_block-IsSplit u s v j low there.first there.next there.eq m stock)
                λ _ t split. rw below (next t split))))

    -- On the way down each block is split, down to the order that is wanted.
    pub find_down :
        (d fuel order : ℕ) (s : Mem X)
        → order ≡ d + target
        → order < 8
        → d < fuel
        → IsValid s.lists
        → Stock (d + n) s.pool
        → Starts (s.lists.head order)
        → Ends Admits (OnlyFound n s target) (find_block alloc_page fuel target order s)
    find_down d zero order s e low h v stock there = absurd (omega arith)
    find_down zero (suc fuel) order s e low h v stock there =
        let same : order ≡ target = omega arith in
        find_here fuel order zero s v stock (rw same at there)
    find_down (suc d) (suc fuel) order s e low h v stock there =
        let up : order ≡ suc (d + target) = omega arith in
        let more : suc d + n ≡ suc (d + n) = omega arith in
        elim (chain-cases (s.lists.head target)) [
          | inr here ↦ find_here fuel order (suc d) s v stock here
          | inl gone ↦ rw up (
              find_split (d + n) fuel (d + target) s (omega arith) v (rw more at stock) gone
                (rw up at there)
                λ t split.
                  Machine.mono
                    (find_down d fuel (d + target) t refl (omega arith) (omega arith)
                      split.keeps.valid split.stock
                      (record { first = split.left; next = split.others; eq = split.present }))
                    (OnlyFound-after n target split.keeps))
        ]
