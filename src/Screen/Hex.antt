-- ===== src/Screen/Hex.antt =====
-- kernel/src/rendering.c: put_hex draws the hexadecimal number.
use plusplus_os.Base.{
  ℕ, zero, suc, ◌+◌, ◌-◌, ◌*◌, ◌/◌, ◌%◌, ◌^◌, ◌<◌, ◌≤◌, ◌≡◌, ◌⊎◌, All, inl, inr, ap, sym, ◌∙◌, refl,
  true, List, [], ◌∷◌, length, arith, ltb, leb, ◌&&◌, ◌==◌, Bool-cases, if◌then◌else◌, bit_and,
  ◌<<<◌, ◌>>>◌,
}
use native.Mathlib.Nat.{pow-suc, one-le-pow, mod-lt, mod-eq_of_lt, zero-div}
use plusplus_os.Base.Digits.{mod-mul}
use plusplus_os.Base.Masks.{bit_and_field}
use plusplus_os.Machine.{Cmd, Run, ok, stop, and_then, ◌>>◌}
use plusplus_os.Screen.{
  Screen, hex_digit, largest_nibble, put_fg, put_from, put_string, put_nibbles, put_hex_len,
  put_hex,
}
use plusplus_os.Screen.Decimal.{Draws}

-- The last `n` hexadecimal digits of a number, the highest one first.
unfoldable pub hexadecimal : ℕ → ℕ → List ℕ
hexadecimal zero value = []
hexadecimal (suc n) value = hex_digit (value / 2 ^ (n * 4) % 16) ∷ hexadecimal n value

-- The value of a hexadecimal digit, 0 to 9 and A to F.
abbrev pub digit_value : ℕ → ℕ
digit_value c = if leb c b'9' then c - b'0' else c - b'A' + 10

-- '0' to '9' or 'A' to 'F'
abbrev pub IsHexDigit : ℕ → Type 0
IsHexDigit c = (0x30 ≤ c) × (c ≤ 0x39) ⊎ (0x41 ≤ c) × (c ≤ 0x46)

hex_digit-IsHexDigit : (num : ℕ) → num < 16 → IsHexDigit (hex_digit num)
unfolding hex_digit
hex_digit-IsHexDigit num h = ground arith

hexadecimal-IsHexDigit : (n value : ℕ) → All IsHexDigit (hexadecimal n value)
unfolding hexadecimal
hexadecimal-IsHexDigit zero value = tt
hexadecimal-IsHexDigit (suc n) value =
    (hex_digit-IsHexDigit (value / 2 ^ (n * 4) % 16) (omega arith), hexadecimal-IsHexDigit n value)

-- The number that digits write, after what was read already.
unfoldable pub read_hexadecimal : ℕ → List ℕ → ℕ
read_hexadecimal acc [] = acc
read_hexadecimal acc (c ∷ text) = read_hexadecimal (acc * 16 + digit_value c) text

digit_value-hex_digit : (num : ℕ) → num < 16 → digit_value (hex_digit num) ≡ num
unfolding hex_digit
digit_value-hex_digit num h = ground arith

-- A hexadecimal digit is drawn as it is.
hex_digit-visible :
    (num : ℕ) → num < 16 → (leb b'!' (hex_digit num) && ltb (hex_digit num) b'~') ≡ true
unfolding hex_digit
hex_digit-visible num h = ground arith

nibble : (value n : ℕ) → bit_and value (0xf <<< (n * 4)) >>> (n * 4) ≡ value / 2 ^ (n * 4) % 16
nibble value n = bit_and_field 4 (n * 4) value

length-hexadecimal : (n value : ℕ) → length (hexadecimal n value) ≡ n
unfolding hexadecimal
length-hexadecimal zero value = refl
length-hexadecimal (suc n) value = ap suc (length-hexadecimal n value)

pow_sixteen : (n : ℕ) → 2 ^ (suc n * 4) ≡ 2 ^ (n * 4) * 16
pow_sixteen n =
    ap (λ (k : ℕ). 2 ^ k) (let e : suc n * 4 ≡ suc (suc (suc (suc (n * 4)))) = omega arith in e)
    ∙ omega (
      arith,
      pow-suc 2 (suc (suc (suc (n * 4)))),
      pow-suc 2 (suc (suc (n * 4))),
      pow-suc 2 (suc (n * 4)),
      pow-suc 2 (n * 4),
    )

split_nibble :
    (n value : ℕ)
    → value % 2 ^ (suc n * 4) ≡ value / 2 ^ (n * 4) % 16 * 2 ^ (n * 4) + value % 2 ^ (n * 4)
split_nibble n value =
    ap (λ (t : ℕ). value % t) (pow_sixteen n)
    ∙ mod-mul value (2 ^ (n * 4)) 16 (one-le-pow (n * 4) 2 (omega arith)) (omega arith)

read_hexadecimal-hexadecimal :
    (n value acc : ℕ)
    → read_hexadecimal acc (hexadecimal n value) ≡ acc * 2 ^ (n * 4) + value % 2 ^ (n * 4)
unfolding read_hexadecimal hexadecimal
read_hexadecimal-hexadecimal zero value acc = omega arith
read_hexadecimal-hexadecimal (suc n) value acc = omega (
  arith,
  ap (λ (t : ℕ). read_hexadecimal (acc * 16 + t) (hexadecimal n value))
      (digit_value-hex_digit (value / 2 ^ (n * 4) % 16) (omega arith)),
  read_hexadecimal-hexadecimal n value (acc * 16 + value / 2 ^ (n * 4) % 16),
  split_nibble n value,
  ap (λ (t : ℕ). acc * t) (pow_sixteen n),
)

-- A step before both sides of an equation.
chain :
    {A B : Type 0} (r : Run Screen (Unit {0})) (f : Cmd Screen B) (g : Cmd Screen A)
    (k : A → Cmd Screen B)
    → ((t : Screen) → f t ≡ and_then (g t) k)
    → and_then r (λ u. f) ≡ and_then (and_then r (λ u. g)) k
chain (ok u t) f g k h = h t
chain (stop e) f g k h = refl

put_nibbles-put_from :
    (font : ℕ → ℕ) (value x y i left : ℕ) (s : Screen)
    → put_nibbles font value x y i left s
      ≡ and_then (put_from font (hexadecimal left value) (2 + i) x y s) (λ n t. ok tt t)
unfolding put_nibbles put_from hexadecimal
put_nibbles-put_from font value x y i zero s = refl
put_nibbles-put_from font value x y i (suc left) s =
    let num : ℕ = value / 2 ^ (left * 4) % 16 in
    let place : x + 2 + i ≡ x + (2 + i) = omega arith in
    let next : 2 + i + 1 ≡ 2 + (i + 1) = omega arith in
    rw (nibble value left, hex_digit-visible num (omega arith), place, next)
      (chain (put_fg font (hex_digit num) (x + (2 + i)) y s)
        (put_nibbles font value x y (i + 1) left)
        (put_from font (hexadecimal left value) (2 + (i + 1)) x y) (λ n t. ok tt t)
        (λ t. put_nibbles-put_from font value x y (i + 1) left t))

-- A nibble that is zero, the highest one.
empty_nibble :
    (n value : ℕ)
    → value < 2 ^ (suc n * 4)
    → bit_and value (0xf <<< (4 * n)) ≡ 0
    → value < 2 ^ (n * 4)
empty_nibble n value small empty =
    let p : ℕ = 2 ^ (n * 4) in
    let none_set : bit_and value (0xf <<< (n * 4)) ≡ 0 =
      ap (λ (k : ℕ). bit_and value (0xf <<< k)) (let e : n * 4 ≡ 4 * n = omega arith in e)
      ∙ empty in
    let zero_digit : value / p % 16 ≡ 0 =
      sym (nibble value n) ∙ ap (λ (t : ℕ). t / p) none_set ∙ zero-div p in
    let some : 0 < p = one-le-pow (n * 4) 2 (omega arith) in
    let low : value % p < p = mod-lt value some in
    let whole : value % (p * 16) ≡ value = mod-eq_of_lt (omega (arith, pow_sixteen n)) in
    omega (arith, mod-mul value p 16 some (omega arith), ap (λ (t : ℕ). t * p) zero_digit)

-- The nibble that put_hex finds: all above it are zero.
largest_nibble-lt :
    (n value : ℕ)
    → 2 ≤ n
    → value < 2 ^ (n * 4)
    → (2 ≤ largest_nibble n value) × (value < 2 ^ (suc (largest_nibble n value) * 4))
unfolding largest_nibble
largest_nibble-lt zero value some small = absurd (omega arith)
largest_nibble-lt (suc n) value some small = elim (Bool-cases (ltb 2 (suc n))) [
  | inl more ↦ elim (Bool-cases (bit_and value (0xf <<< (4 * n)) == 0)) [
    | inl empty ↦
        let below =
          largest_nibble-lt n value (ground arith) (empty_nibble n value small (ground arith)) in
        rw (more, empty) below
    | inr filled ↦ rw (more, filled) (ground arith, small)
  ]
  | inr last ↦ rw last (some, omega (arith, small, pow_sixteen (suc n)))
]

largest_nibble-le : (n value : ℕ) → largest_nibble n value ≤ n
unfolding largest_nibble
largest_nibble-le zero value = omega arith
largest_nibble-le (suc n) value = ground (arith, largest_nibble-le n value)

largest_nibble_below : (n value : ℕ) → 2 ≤ n → largest_nibble (suc n) value ≤ n
unfolding largest_nibble
largest_nibble_below n value some = ground (arith, largest_nibble-le n value)

last_steps :
    (r : Run Screen ℕ) (n : ℕ)
    → and_then {B = ℕ} (and_then {B = Unit {0}} r (λ i t. ok tt t)) (λ u t. ok n t)
      ≡ and_then {B = ℕ} r (λ i t. ok n t)
last_steps (ok i t) n = refl
last_steps (stop e) n = refl

-- Two commands that do the same and give `n` do so behind another command.
module _ (nibbles : Cmd Screen (Unit {0})) (rest : Cmd Screen ℕ) (n : ℕ)
    (same : (t : Screen) → nibbles t ≡ and_then (rest t) (λ i u. ok tt u)) where
  behind_one :
      (r : Run Screen (Unit {0}))
      → and_then {B = ℕ} (and_then {B = Unit {0}} r (λ u. nibbles)) (λ u t. ok n t)
        ≡ and_then {B = ℕ} (and_then {B = ℕ} r (λ u. rest)) (λ i t. ok n t)
  behind_one (ok u t) = rw (same t) (last_steps (rest t) n)
  behind_one (stop e) = refl

  behind_two :
      (r : Run Screen (Unit {0})) (second : Cmd Screen (Unit {0}))
      → and_then {B = ℕ} (and_then {B = Unit {0}} r (λ u. second >> nibbles)) (λ u t. ok n t)
        ≡ and_then {B = ℕ} (and_then {B = ℕ} r (λ u. second >> rest)) (λ i t. ok n t)
  behind_two (ok u t) second = behind_one (second t)
  behind_two (stop e) second = refl

-- put_hex of a 64-bit value draws 0x and then 3 to 16 digits, 0 to 9 and A to F, that read as the
-- value, and returns the number of characters drawn.
pub put_hex_lem :
    (font : ℕ → ℕ) (value x y : ℕ)
    → value < 2 ^ 64
    → (digits : List ℕ) × Draws font (b'0' ∷ b'x' ∷ digits) x y (put_hex font value x y)
      × All IsHexDigit digits
      × (read_hexadecimal 0 digits ≡ value)
      × (3 ≤ length digits)
      × (length digits ≤ 16)
unfolding put_hex put_hex_len put_string put_from
put_hex_lem font value x y small =
    let m : ℕ = largest_nibble 16 value in
    let found = largest_nibble-lt 16 value (omega arith) small in
    let long = length-hexadecimal (suc m) value in
    (
      hexadecimal (suc m) value,
      (λ s.
          let first : x + 0 ≡ x = omega arith in
          let count : suc (suc (length (hexadecimal (suc m) value))) ≡ suc m + 2 =
            omega (arith, long) in
          rw (first, count)
            (behind_two (put_nibbles font value x y 0 (suc m))
              (put_from font (hexadecimal (suc m) value) 2 x y) (suc m + 2)
              (put_nibbles-put_from font value x y 0 (suc m)) (put_fg font b'0' x y s)
              (put_fg font b'x' (x + 1) y))),
      hexadecimal-IsHexDigit (suc m) value,
      read_hexadecimal-hexadecimal (suc m) value 0 ∙ omega (arith, mod-eq_of_lt found.1),
      omega (arith, long, found.0),
      omega (arith, long, largest_nibble_below 15 value (omega arith)),
    )
