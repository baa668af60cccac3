-- ===== src/Libc/Numbers.antt =====
-- atoi, atol and atoll.
use plusplus_os.Base.{
  ℕ, zero, suc, ◌+◌, ◌-◌, ◌*◌, ◌^◌, ◌<◌, ltb, if◌then◌else◌, Option, none, some, List, [], ◌∷◌,
  length,
}
use plusplus_os.Libc.{ℤ, pos, negated}

-- The decimal value of digits.
unfoldable pub decimal : List ℕ → ℕ
decimal [] = 0
decimal (c ∷ digits) = (c - 0x30) * 10 ^ length digits + decimal digits

-- '1' to '9'
abbrev pub IsNonzeroDigit : ℕ → Type 0
IsNonzeroDigit c = (0x30 < c) × (c < 0x3a)

abbrev pub spaces : ℕ → List ℕ
spaces zero = []
spaces (suc n) = 0x20 ∷ spaces n

-- A sign, or none.
pub data Sign : Type 0 where
  no_sign : Sign
  plus : Sign
  minus : Sign

abbrev pub sign_text : Sign → List ℕ
sign_text no_sign = []
sign_text plus = 0x2b ∷ []
sign_text minus = 0x2d ∷ []

abbrev pub with_sign : Sign → ℕ → ℤ
with_sign no_sign n = pos n
with_sign plus n = pos n
with_sign minus n = negated n

-- The number, if it is below the limit.
abbrev pub limited : ℕ → ℕ → Option ℕ
limited limit n = if ltb n limit then some n else none

-- The number with its sign, if its size is below the limit.
abbrev pub number : ℕ → Sign → ℕ → Option ℤ
number limit sign n = if ltb n limit then some (with_sign sign n) else none
