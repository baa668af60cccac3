-- ===== src/Base/Lists.antt =====
-- Lists measured and indexed by native numbers, arrays as functions, and how often a test holds
-- in a list.
use Prim.Native.Nat.{ℕ, suc, ◌+◌, ◌≤◌}
use mathlib.Core.Path.{◌≡◌, refl, ap, sym, ◌∙◌}
use mathlib.Core.Bool.{Bool, true, false}
use mathlib.Core.List.{List, [], ◌∷◌}
use native.Mathlib.Omega.{arith}
use plusplus_os.Base.Tests.{◌==◌, if◌then◌else◌, one_if, Bool-cases}
use mathlib.Core.Logic.{◌≢◌, inl, inr}

module _ {ℓ} {A : Type ℓ} where
  abbrev pub length : List A → ℕ
  length [] = 0
  length (x ∷ xs) = suc (length xs)

  -- An array whose cell `k` is written.
  unfoldable pub update : (ℕ → A) → ℕ → A → ℕ → A
  update f k v j = if j == k then v else f j

  -- How many elements pass the test.
  unfoldable pub tally : (A → Bool) → List A → ℕ
  tally t [] = 0
  tally t (x ∷ xs) = one_if (t x) + tally t xs

  abbrev pub All {κ} : (A → Type κ) → List A → Type κ
  All P [] = Unit
  All P (x ∷ xs) = P x × All P xs

  -- Where a test that passes makes one of two others pass, it passes no more often than they do.
  pub tally-le :
      (t u w : A → Bool) (P : A → Type 0)
      → ((x : A) → P x → one_if (t x) ≤ one_if (u x) + one_if (w x))
      → (xs : List A) → All P xs
      → tally t xs ≤ tally u xs + tally w xs
  unfolding tally
  tally-le t u w P h [] all = omega arith
  tally-le t u w P h (x ∷ xs) all = omega (arith, h x all.0, tally-le t u w P h xs all.1)

  pub update_same : (f : ℕ → A) (k : ℕ) (v : A) → update f k v k ≡ v
  unfolding update
  update_same f k v = let same : (k == k) ≡ true = ground arith in rw same refl

  pub update_other : (f : ℕ → A) (k j : ℕ) (v : A) → j ≢ k → update f k v j ≡ f j
  unfolding update
  update_other f k j v ne = let other : (j == k) ≡ false = ground arith in rw other refl

  -- A write that keeps a field of the cell keeps it in all cells.
  pub update_field {κ} :
      {B : Type κ} (F : A → B) (f : ℕ → A) (k : ℕ) (v : A) (j : ℕ)
      → F v ≡ F (f k)
      → F (update f k v j) ≡ F (f j)
  unfolding update
  update_field F f k v j h = elim (Bool-cases (j == k)) [
    | inl e ↦ let same : j ≡ k = ground arith in rw e (h ∙ ap (λ (i : ℕ). F (f i)) (sym same))
    | inr e ↦ rw e refl
  ]

-- No element is there twice.
abbrev pub Distinct : List ℕ → Type 0
Distinct [] = Unit
Distinct (i ∷ l) = All (λ j. j ≢ i) l × Distinct l
