-- ===== src/Memory/Frames/Chains.antt =====
-- Chains that have an entry, and the search for one in smaller orders.
use plusplus_os.Base.{
  ℕ, zero, suc, ◌<◌, ◌≡◌, refl, arith, ◌==◌, List, ◌∷◌, [], ◌⊎◌, inl, inr, none, some, Bool-cases,
}
use plusplus_os.Memory.{ListEntry, Mem}
use plusplus_os.Memory.Frames.{smaller_order}
use plusplus_os.Memory.Frames.View.{IsValid}
use plusplus_os.Memory.Frames.Supply.{Keeps}

-- The chain has a first entry.
pub record Starts (l : List ListEntry) : Type 0 where
  pub first : ListEntry
  pub next : List ListEntry
  pub eq : l ≡ first ∷ next

pub chain-cases : (l : List ListEntry) → (l ≡ []) ⊎ Starts l
chain-cases [] = inl refl
chain-cases (e ∷ next) = inr (record { first = e; next = next; eq = refl })

pub Keeps-refl : {X : Type 0} {held : X → ℕ → ℕ} (s : Mem X) → IsValid s.lists → Keeps held s s
Keeps-refl s v = record { valid = v; conserved = λ x. refl; less = λ x. omega arith }

pub Keeps-trans :
    {X : Type 0} {held : X → ℕ → ℕ} {s t r : Mem X}
    → Keeps held s t
    → Keeps held t r
    → Keeps held s r
Keeps-trans p q = record {
  valid = q.valid;
  conserved = λ x. omega (arith, p.conserved x, q.conserved x);
  less = λ x. omega (arith, p.less x, q.less x);
}

-- The biggest order below `order` with a block, if there is one.
pub smaller_order-cases :
    (head : ℕ → List ListEntry) (order : ℕ)
    → ((smaller_order head order ≡ none) × ((j : ℕ) → j < order → head j ≡ []))
      ⊎ ((k : ℕ) × (smaller_order head order ≡ some k) × (k < order) × Starts (head k))
unfolding smaller_order
smaller_order-cases head zero = inl (refl, λ j h. absurd (omega arith))
smaller_order-cases head (suc order) = elim (chain-cases (head order)) [
  | inr here ↦ inr (order, rw (here.eq, smaller_order), omega arith, here)
  | inl gone ↦ elim (smaller_order-cases head order) [
    | inl (no_k, empty) ↦ inl (
      rw (gone, smaller_order) no_k,
      λ j h. elim (Bool-cases (j == order)) [
        | inl e ↦ let same : j ≡ order = ground arith in rw same gone
        | inr e ↦ empty j (ground arith)
      ],
    )
    | inr (k, is_k, lt, starts) ↦ inr (k, rw (gone, smaller_order) is_k, omega arith, starts)
  ]
]
