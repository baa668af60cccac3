-- ===== src/Libc/Tests.antt =====
-- The theorems of libc at concrete values.
use plusplus_os.Base.{
  ℕ, ◌+◌, ◌%◌, ◌^◌, ◌<◌, ◌≡◌, ◌↔◌, refl, arith, inr, some, List, [], ◌∷◌, leb, ltb, ◌&&◌,
  if◌then◌else◌,
}
use plusplus_os.Libc.{
  pos, memcpy, memmove, memset, memcmp, strcmp, atoi, skip_spaces, read_signed, read_digits,
}
use plusplus_os.Libc.Copies.{Copied, memmove_lem, memcpy-memmove, memset_lem}
use plusplus_os.Libc.Compares.{comparisons_zero}

abbrev bytes : ℕ → ℕ
bytes a = a % 2 ^ 8

-- The areas overlap, and the first one is the lower one.
memmove_lem_example : Copied 0 10 103 100 bytes (memmove 103 100 10 bytes)
memmove_lem_example = memmove_lem 103 100 10 bytes

memcpy-memmove_example : memcpy 200 100 10 bytes 205 ≡ memmove 200 100 10 bytes 205
memcpy-memmove_example = memcpy-memmove 200 100 10 bytes (inr (omega arith)) 205

memset_lem_example :
    memset 100 300 8 bytes 104
    ≡ (if leb 100 104 && ltb 104 (100 + 8) then 300 % 2 ^ 8 else bytes 104)
memset_lem_example = memset_lem 100 300 8 bytes 104

abbrev ab : List ℕ
ab = 97 ∷ 98 ∷ []

abbrev ac : List ℕ
ac = 97 ∷ 99 ∷ []

comparisons_zero_example :
    ((memcmp 100 356 4 bytes ≡ pos 0) ↔ ((j : ℕ) → j < 4 → bytes (100 + j) ≡ bytes (356 + j)))
    × ((strcmp ab ac ≡ pos 0) ↔ (ab ≡ ac))
comparisons_zero_example =
    comparisons_zero 100 356 4 bytes ab ac (λ x. omega arith)
      ((omega arith, omega arith), ((omega arith, omega arith), tt))
      ((omega arith, omega arith), ((omega arith, omega arith), tt))

-- "  -9999999999x" is too big for an int.
abbrev ten_nines : List ℕ
ten_nines = 57 ∷ 57 ∷ 57 ∷ 57 ∷ 57 ∷ 57 ∷ 57 ∷ 57 ∷ 57 ∷ 57 ∷ 120 ∷ []

-- "105" is read up to the 0.
atoi_105 : atoi (49 ∷ 48 ∷ 53 ∷ []) ≡ some (pos 1)
unfolding atoi skip_spaces read_signed read_digits
atoi_105 = refl
