-- ===== src/Screen/Decimal.antt =====
-- kernel/src/rendering.c: put_uint draws the decimal number.
use plusplus_os.Base.{
  ℕ, zero, suc, ◌+◌, ◌-◌, ◌*◌, ◌/◌, ◌%◌, ◌^◌, ◌<◌, ◌≤◌, ◌≡◌, ◌⊎◌, inl, inr, ap, ◌∙◌, refl, false,
  List, [], ◌∷◌, length, All, arith, ◌==◌, Bool-cases, update, update_same, update_other,
}
use native.Mathlib.Nat.{pow-suc, one-le-pow, mod-eq_of_lt}
use plusplus_os.Base.Digits.{mod-mul}
use plusplus_os.Machine.{Cmd, Run, ok, stop, and_then, ◌>>◌, pure}
use plusplus_os.Screen.{
  Screen, put_char, write_digits, reverse_string, string_at, put_fg, put_from, put_string,
  put_digits, put_uint,
}
use plusplus_os.Screen.Digits.{
  Digits, write_digits-Digits, reverse_string_outside, reverse_string_inside,
}

-- The last `n` decimal digits of a number, as characters, the highest one first.
unfoldable pub decimal : ℕ → ℕ → List ℕ
decimal zero value = []
decimal (suc n) value = (b'0' + value / 10 ^ n % 10) ∷ decimal n value

-- The number that digits write, after what was read already.
unfoldable pub read_decimal : ℕ → List ℕ → ℕ
read_decimal acc [] = acc
read_decimal acc (c ∷ text) = read_decimal (acc * 10 + (c - b'0')) text

-- A decimal digit, as a character.
abbrev pub IsDigit : ℕ → Type 0
IsDigit c = (b'0' ≤ c) × (c ≤ b'9')

decimal-digits : (n value : ℕ) → All IsDigit (decimal n value)
unfolding decimal
decimal-digits zero value = tt
decimal-digits (suc n) value = ((omega arith, omega arith), decimal-digits n value)

length-decimal : (n value : ℕ) → length (decimal n value) ≡ n
unfolding decimal
length-decimal zero value = refl
length-decimal (suc n) value = ap suc (length-decimal n value)

-- The digit of 10 ^ n and what is below it.
split_digit : (n value : ℕ) → value % 10 ^ suc n ≡ value / 10 ^ n % 10 * 10 ^ n + value % 10 ^ n
split_digit n value =
    ap (λ (t : ℕ). value % t) (pow-suc 10 n)
    ∙ mod-mul value (10 ^ n) 10 (one-le-pow n 10 (omega arith)) (omega arith)

read_decimal-decimal :
    (n value acc : ℕ) → read_decimal acc (decimal n value) ≡ acc * 10 ^ n + value % 10 ^ n
unfolding read_decimal decimal
read_decimal-decimal zero value acc = omega arith
read_decimal-decimal (suc n) value acc = omega (
  arith,
  ap (λ (t : ℕ). read_decimal t (decimal n value))
      (let e : acc * 10 + (b'0' + value / 10 ^ n % 10 - b'0') ≡ acc * 10 + value / 10 ^ n % 10 =
          omega arith in
        e),
  read_decimal-decimal n value (acc * 10 + value / 10 ^ n % 10),
  split_digit n value,
  ap (λ (t : ℕ). acc * t) (pow-suc 10 n),
)

string_at-decimal :
    (size n value ptr : ℕ) (buf : ℕ → ℕ)
    → n < size
    → ((i : ℕ) → i < n → buf (ptr + i) ≡ b'0' + value / 10 ^ (n - 1 - i) % 10)
    → buf (ptr + n) ≡ 0
    → string_at size ptr buf ≡ decimal n value
unfolding string_at decimal
string_at-decimal zero n value ptr buf room digits zero_at = absurd (omega arith)
string_at-decimal (suc size) zero value ptr buf room digits zero_at =
    ground (arith, ap buf (let e : ptr + 0 ≡ ptr = omega arith in e))
string_at-decimal (suc size) (suc n) value ptr buf room digits zero_at =
    let first : buf ptr ≡ b'0' + value / 10 ^ n % 10 =
      ap buf (let e : ptr ≡ ptr + 0 = omega arith in e)
      ∙ digits 0 (omega arith)
      ∙ ap (λ (k : ℕ). b'0' + value / 10 ^ k % 10) (omega arith) in
    let more : (buf ptr == 0) ≡ false = ground arith in
    rw (more, first)
      (ap (λ (t : List ℕ). (b'0' + value / 10 ^ n % 10) ∷ t)
        (string_at-decimal size n value (ptr + 1) buf (omega arith)
          (λ i h.
            ap buf (let e : ptr + 1 + i ≡ ptr + suc i = omega arith in e)
            ∙ digits (suc i) (omega arith)
            ∙ ap (λ (k : ℕ). b'0' + value / 10 ^ k % 10) (omega arith))
          (ap buf (let e : ptr + 1 + n ≡ ptr + suc n = omega arith in e) ∙ zero_at)))

buffer_text :
    (value n : ℕ) (buf after : ℕ → ℕ)
    → 0 < n
    → n ≤ 20
    → Digits value 0 n buf after
    → string_at 21 0 (reverse_string 21 0 (n - 1) (update after n 0)) ≡ decimal n value
buffer_text value n buf after some few d =
    string_at-decimal 21 n value 0 (reverse_string 21 0 (n - 1) (update after n 0)) (omega arith)
      (λ i h.
        reverse_string_inside 21 0 (n - 1) (update after n 0) (0 + i) (omega arith) (omega arith)
          (omega arith)
        ∙ ap (update after n 0) (let e : 0 + (n - 1) - (0 + i) ≡ 0 + (n - 1 - i) = omega arith in e)
        ∙ update_other after n (0 + (n - 1 - i)) 0 (λ e. omega arith)
        ∙ d.digit (n - 1 - i) (omega arith))
      (reverse_string_outside 21 0 (n - 1) (update after n 0) (0 + n) (inr (omega arith))
        ∙ ap (update after n 0) (let e : 0 + n ≡ n = omega arith in e)
        ∙ update_same after n 0)

-- The text is drawn and its length returned.
abbrev pub Draws : (ℕ → ℕ) → List ℕ → ℕ → ℕ → Cmd Screen ℕ → Type 0
Draws font text x y draw =
    (s : Screen) → draw s ≡ and_then (put_string font text x y s) (λ i t. ok (length text) t)

draw_buffer :
    (font : ℕ → ℕ) (value n x y : ℕ) (buf : ℕ → ℕ) (r : ℕ × (ℕ → ℕ))
    → 0 < n
    → n ≤ 20
    → r.0 ≡ 0 + n
    → Digits value 0 n buf r.1
    → Draws font (decimal n value) x y (put_digits font r x y)
draw_buffer font value n x y buf (place, after) some few at d s =
    let here : place ≡ n = omega arith in
    rw (here, buffer_text value n buf after some few d, length-decimal n value) refl

one_result :
    (r : Run Screen (Unit {0}))
    → and_then {B = ℕ} r (λ u t. ok 1 t)
      ≡ and_then {B = ℕ} (and_then {B = ℕ} r (λ u t. ok 1 t)) (λ i t. ok 1 t)
one_result (ok u t) = refl
one_result (stop e) = refl

draw_zero : (font : ℕ → ℕ) (x y : ℕ) → Draws font (b'0' ∷ []) x y (put_fg font b'0' x y >> pure 1)
unfolding put_string put_from
draw_zero font x y s =
    let e : x + 0 ≡ x = omega arith in
    rw e (one_result (put_char font b'0' x y s.fg_color s.bg_color s))

zero_read : (value : ℕ) → value ≡ 0 → read_decimal 0 (b'0' ∷ []) ≡ value
unfolding read_decimal
zero_read value e = omega arith

digits_some : (value n : ℕ) → 0 < value → value < 10 ^ n → 0 < n
digits_some value zero some bound = absurd (omega arith)
digits_some value (suc n) some bound = omega arith

-- put_uint of a 64-bit value draws a text of decimal digits that reads as the value, without a zero
-- in front except for the value 0 itself, and returns the number of its characters; whatever the
-- buffer on the stack held.
pub put_uint_lem :
    (font buf : ℕ → ℕ) (value x y : ℕ)
    → value < 2 ^ 64
    → (text : List ℕ) × Draws font text x y (put_uint font buf value x y)
      × All IsDigit text
      × (read_decimal 0 text ≡ value)
      × ((length text ≡ 1) ⊎ (10 ^ length text ≤ value * 10))
unfolding put_uint
put_uint_lem font buf value x y small = elim (Bool-cases (value == 0)) [
  | inl nothing ↦ (
    b'0' ∷ [],
    rw nothing (draw_zero font x y),
    ((omega arith, omega arith), tt),
    zero_read value (ground arith),
    inl refl,
  )
  | inr something ↦ rw something (
      let (n, few, at, d) = write_digits-Digits 21 20 value 0 buf (omega arith) (omega arith) in
      let some : 0 < n = digits_some value n (ground arith) d.bound in
      (
        decimal n value,
        draw_buffer font value n x y buf (write_digits 21 value 0 buf) some few at d,
        decimal-digits n value,
        read_decimal-decimal n value 0 ∙ omega (arith, mod-eq_of_lt d.bound),
        inr (rw (length-decimal n value) (d.top some)),
      ))
]
