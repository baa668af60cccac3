-- ===== src/Libc/Compares.antt =====
-- memcmp and strcmp.
use plusplus_os.Base.{
  ℕ, zero, suc, ◌+◌, ◌^◌, ◌≤◌, ◌<◌, ◌≡◌, ◌≢◌, ◌↔◌, refl, ap, arith, Bool, true, false, inl, inr,
  List, [], ◌∷◌, All, leb, ◌==◌, ==-refl, Bool-cases, subst,
}
use plusplus_os.Libc.{ℤ, pos, negsuc, difference, char_value, compare_from, memcmp, strcmp}

abbrev is_zero : ℤ → Bool
is_zero (pos n) = n == 0
is_zero (negsuc n) = false

is_zero-difference : (m n : ℕ) → m ≢ n → is_zero (difference m n) ≡ false
is_zero-difference m n ne = elim (Bool-cases (leb n m)) [
  | inl le ↦ rw le (ground arith)
  | inr gt ↦ rw gt refl
]

char_value-injective : (b c : ℕ) → b < 2 ^ 8 → c < 2 ^ 8 → char_value b ≡ char_value c → b ≡ c
unfolding char_value
char_value-injective b c hb hc e = omega arith

-- Two different bytes are told apart.
different :
    (b c : ℕ) → b < 2 ^ 8 → c < 2 ^ 8 → b ≢ c → difference (char_value b) (char_value c) ≢ pos 0
different b c hb hc ne e =
    let no : is_zero (difference (char_value b) (char_value c)) ≡ false =
      is_zero-difference (char_value b) (char_value c)
        λ same. ne (char_value-injective b c hb hc same) in
    let yes : is_zero (difference (char_value b) (char_value c)) ≡ true = ap is_zero e in
    absurd (cc)

module _ (str1 str2 : ℕ) (memory : ℕ → ℕ) (bytes : (x : ℕ) → memory x < 2 ^ 8) where
  unequal :
      (i : ℕ)
      → (char_value (memory (str1 + i)) == char_value (memory (str2 + i))) ≡ false
      → memory (str1 + i) ≢ memory (str2 + i)
  unequal i other same =
      let equal : char_value (memory (str1 + i)) ≡ char_value (memory (str2 + i)) =
        ap char_value same in
      ground arith

  compare_from-zero :
      (n i : ℕ)
      → compare_from n i str1 str2 memory ≡ pos 0
      → (j : ℕ) → i ≤ j
      → j < i + n
      → memory (str1 + j) ≡ memory (str2 + j)
  unfolding compare_from
  compare_from-zero zero i e j ge lt = absurd (omega arith)
  compare_from-zero (suc n) i e j ge lt =
      elim (Bool-cases (char_value (memory (str1 + i)) == char_value (memory (str2 + i)))) [
        | inl same ↦ elim (Bool-cases (j == i)) [
          | inl here ↦
              let at : j ≡ i = ground arith in
              rw at (char_value-injective _ _ (bytes _) (bytes _) (ground arith))
          | inr there ↦ compare_from-zero n (i + 1) (rw same at e) j (ground arith) (omega arith)
        ]
        | inr other ↦ absurd (
            different _ _ (bytes (str1 + i)) (bytes (str2 + i)) (λ same. unequal i other same)
              (rw other at e))
      ]

  zero-compare_from :
      (n i : ℕ)
      → ((j : ℕ) → i ≤ j → j < i + n → memory (str1 + j) ≡ memory (str2 + j))
      → compare_from n i str1 str2 memory ≡ pos 0
  unfolding compare_from
  zero-compare_from zero i h = refl
  zero-compare_from (suc n) i h =
      let same : (char_value (memory (str1 + i)) == char_value (memory (str2 + i))) ≡ true =
        rw (h i (omega arith) (omega arith)) (ground arith) in
      rw same (zero-compare_from n (i + 1) λ j ge lt. h j (omega arith) (omega arith))

  -- memcmp gives 0 when all bytes of the two areas are the same, and only then.
  memcmp_zero :
      (n : ℕ)
      → (memcmp str1 str2 n memory ≡ pos 0)
        ↔ ((j : ℕ) → j < n → memory (str1 + j) ≡ memory (str2 + j))
  unfolding memcmp
  memcmp_zero n = (
    λ e j lt. compare_from-zero n 0 e j (omega arith) (omega arith),
    λ h. zero-compare_from n 0 λ j ge lt. h j (omega arith),
  )

-- A character of a string is a byte that is not its end.
abbrev pub IsChar : ℕ → Type 0
IsChar c = (0 < c) × (c < 2 ^ 8)

strcmp-same : (str : List ℕ) → strcmp str str ≡ pos 0
unfolding strcmp char_value
strcmp-same [] = refl
strcmp-same (c ∷ str) = rw (==-refl c) (strcmp-same str)

strcmp-equal :
    (str1 str2 : List ℕ)
    → All IsChar str1
    → All IsChar str2
    → strcmp str1 str2 ≡ pos 0
    → str1 ≡ str2
unfolding strcmp
strcmp-equal [] [] h1 h2 e = refl
strcmp-equal [] (d ∷ str2) h1 h2 e =
    absurd (different 0 d (omega arith) h2.0.1 (omega (arith, h2.0.0)) e)
strcmp-equal (c ∷ str1) [] h1 h2 e =
    absurd (different c 0 h1.0.1 (omega arith) (omega (arith, h1.0.0)) e)
strcmp-equal (c ∷ str1) (d ∷ str2) h1 h2 e = elim (Bool-cases (c == d)) [
  | inl same ↦
      let first : c ≡ d = ground arith in
      let rest = strcmp-equal str1 str2 h1.1 h2.1 (rw same at e) in rw (first, rest) refl
  | inr other ↦ absurd (different c d h1.0.1 h2.0.1 (ground arith) (rw other at e))
]

-- strcmp gives 0 for equal strings, and only for them.
strcmp_zero :
    (str1 str2 : List ℕ)
    → All IsChar str1
    → All IsChar str2
    → (strcmp str1 str2 ≡ pos 0) ↔ (str1 ≡ str2)
strcmp_zero str1 str2 h1 h2 = (
  strcmp-equal str1 str2 h1 h2,
  λ e. subst (λ (s : List ℕ). strcmp str1 s ≡ pos 0) e (strcmp-same str1),
)

-- memcmp gives 0 when all bytes of the two areas are the same, and only then; strcmp gives 0 for
-- equal strings, and only for them.
pub comparisons_zero :
    (area1 area2 n : ℕ) (memory : ℕ → ℕ) (str1 str2 : List ℕ)
    → ((x : ℕ) → memory x < 2 ^ 8)
    → All IsChar str1
    → All IsChar str2
    → ((memcmp area1 area2 n memory ≡ pos 0)
        ↔ ((j : ℕ) → j < n → memory (area1 + j) ≡ memory (area2 + j)))
      × ((strcmp str1 str2 ≡ pos 0) ↔ (str1 ≡ str2))
comparisons_zero area1 area2 n memory str1 str2 bytes h1 h2 =
    (memcmp_zero area1 area2 memory bytes n, strcmp_zero str1 str2 h1 h2)
