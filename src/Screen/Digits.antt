-- ===== src/Screen/Digits.antt =====
-- kernel/src/rendering.c: what the two loops of put_uint leave in the buffer.
use plusplus_os.Base.{
  ℕ, zero, suc, ◌+◌, ◌-◌, ◌*◌, ◌/◌, ◌%◌, ◌^◌, ◌<◌, ◌≤◌, ◌≡◌, ◌≢◌, ◌⊎◌, inl, inr, ap, sym, ◌∙◌, refl,
  true, false, arith, ltb, ◌==◌, Bool-cases, update, update_same, update_other,
}
use native.Mathlib.Nat.{pow-suc, div-div-eq-div-mul}
use plusplus_os.Screen.{write_digits, swapped, reverse_string}

-- What the loop over the digits leaves in the buffer.
pub record Digits (value ptr n : ℕ) (buf after : ℕ → ℕ) : Type 0 where
  pub digit : (i : ℕ) → i < n → after (ptr + i) ≡ b'0' + value / 10 ^ i % 10
  pub below : (j : ℕ) → j < ptr → after j ≡ buf j
  pub bound : value < 10 ^ n
  pub top : 0 < n → 10 ^ n ≤ value * 10

nothing_written :
    (k value ptr : ℕ) (buf : ℕ → ℕ)
    → value ≡ 0
    → (n : ℕ) × (n ≤ k) × (ptr ≡ ptr + n) × Digits value ptr n buf buf
nothing_written k value ptr buf none_left = (
  0,
  omega arith,
  omega arith,
  record {
    digit = λ i h. absurd (omega arith);
    below = λ j h. refl;
    bound = omega arith;
    top = λ h. absurd (omega arith);
  },
)

-- One digit more.
one_digit :
    (value ptr n : ℕ) (buf after : ℕ → ℕ)
    → value ≢ 0
    → Digits (value / 10) (ptr + 1) n (update buf ptr (b'0' + value % 10)) after
    → Digits value ptr (suc n) buf after
one_digit value ptr n buf after some_left d = record {
  digit = digit;
  below = λ j h.
      d.below j (omega arith) ∙ update_other buf ptr j (b'0' + value % 10) (λ e. omega arith);
  bound = omega (arith, d.bound, pow-suc 10 n);
  top = λ h. elim (Bool-cases (n == 0)) [
    | inl last ↦ omega (arith, ap (λ (t : ℕ). 10 ^ suc t) (let e : n ≡ 0 = ground arith in e))
    | inr more ↦ omega (arith, d.top (ground arith), pow-suc 10 n)
  ];
}
  where
    digit : (i : ℕ) → i < suc n → after (ptr + i) ≡ b'0' + value / 10 ^ i % 10
    digit zero h =
        ap after (let e : ptr + 0 ≡ ptr = omega arith in e)
        ∙ d.below ptr (omega arith)
        ∙ update_same buf ptr (b'0' + value % 10)
        ∙ omega arith
    digit (suc i) h =
        ap after (let e : ptr + suc i ≡ ptr + 1 + i = omega arith in e)
        ∙ d.digit i (omega arith)
        ∙ ap (λ (t : ℕ). b'0' + t % 10)
            (div-div-eq-div-mul value 10 (10 ^ i)
              ∙ ap (λ (t : ℕ). value / t) (omega (arith, pow-suc 10 i)))

after_a_digit :
    (k value ptr : ℕ) (buf : ℕ → ℕ)
    → value ≢ 0
    → (rest : ℕ × (ℕ → ℕ))
    → ((n : ℕ) × (n ≤ k)
        × (rest.0 ≡ ptr + 1 + n)
        × Digits (value / 10) (ptr + 1) n (update buf ptr (b'0' + value % 10)) rest.1)
    → (n : ℕ) × (n ≤ suc k) × (rest.0 ≡ ptr + n) × Digits value ptr n buf rest.1
after_a_digit k value ptr buf some_left (place, after) (n, le, at, d) =
    (suc n, omega arith, omega arith, one_digit value ptr n buf after some_left d)

pub write_digits-Digits :
    (fuel k value ptr : ℕ) (buf : ℕ → ℕ)
    → value < 10 ^ k
    → k < fuel
    → (n : ℕ) × (n ≤ k)
      × ((write_digits fuel value ptr buf).0 ≡ ptr + n)
      × Digits value ptr n buf (write_digits fuel value ptr buf).1
unfolding write_digits
write_digits-Digits zero k value ptr buf small enough = absurd (omega arith)
write_digits-Digits (suc fuel) zero value ptr buf small enough =
    let none_left : (value == 0) ≡ true = ground arith in
    rw none_left (nothing_written zero value ptr buf (omega arith))
write_digits-Digits (suc fuel) (suc k) value ptr buf small enough = elim (Bool-cases (value == 0)) [
  | inl none_left ↦ rw none_left (nothing_written (suc k) value ptr buf (ground arith))
  | inr some_left ↦ rw some_left (
      after_a_digit k value ptr buf (λ e. ground arith)
        (write_digits fuel (value / 10) (ptr + 1) (update buf ptr (b'0' + value % 10)))
        (write_digits-Digits fuel k (value / 10) (ptr + 1) (update buf ptr (b'0' + value % 10))
          (omega (arith, pow-suc 10 k)) (omega arith)))
]

pub reverse_string_outside :
    (fuel begin end : ℕ) (buf : ℕ → ℕ) (i : ℕ)
    → (i < begin) ⊎ (end < i)
    → reverse_string fuel begin end buf i ≡ buf i
unfolding reverse_string
reverse_string_outside zero begin end buf i out = refl
reverse_string_outside (suc fuel) begin end buf i out = elim (Bool-cases (ltb begin end)) [
  | inl more ↦ rw more (
      reverse_string_outside fuel (begin + 1) (end - 1) (swapped buf begin end) i (ground arith)
      ∙ update_other (update buf begin (buf end)) end i (buf begin) (λ e. ground arith)
      ∙ update_other buf begin i (buf end) (λ e. ground arith))
  | inr done ↦ rw done refl
]

swapped_step :
    (fuel begin end : ℕ) (buf : ℕ → ℕ) (i : ℕ)
    → ltb begin end ≡ true
    → begin ≤ i
    → i ≤ end
    → ((i == begin) ≡ true) ⊎ ((i == begin) ≡ false)
    → ((i == end) ≡ true) ⊎ ((i == end) ≡ false)
    → (begin + 1 ≤ i
        → i ≤ end - 1
        → reverse_string fuel (begin + 1) (end - 1) (swapped buf begin end) i
          ≡ swapped buf begin end (begin + 1 + (end - 1) - i))
    → reverse_string fuel (begin + 1) (end - 1) (swapped buf begin end) i ≡ buf (begin + end - i)
swapped_step fuel begin end buf i more low high (inl first) last inner =
    let at : begin ≡ i = ground arith in
    reverse_string_outside fuel (begin + 1) (end - 1) (swapped buf begin end) i (inl (omega arith))
    ∙ update_other (update buf begin (buf end)) end i (buf begin) (λ e. ground arith)
    ∙ ap (update buf begin (buf end)) (sym at)
    ∙ update_same buf begin (buf end)
    ∙ ap buf (omega arith)
swapped_step fuel begin end buf i more low high (inr later) (inl last) inner =
    let at : end ≡ i = ground arith in
    reverse_string_outside fuel (begin + 1) (end - 1) (swapped buf begin end) i (inr (ground arith))
    ∙ ap (swapped buf begin end) (sym at)
    ∙ update_same (update buf begin (buf end)) end (buf begin)
    ∙ ap buf (omega arith)
swapped_step fuel begin end buf i more low high (inr later) (inr earlier) inner =
    inner (ground arith) (ground arith)
    ∙ update_other (update buf begin (buf end)) end (begin + 1 + (end - 1) - i) (buf begin)
        (λ e. ground arith)
    ∙ update_other buf begin (begin + 1 + (end - 1) - i) (buf end) (λ e. ground arith)
    ∙ ap buf (ground arith)

-- The characters from `begin` to `end` are in the other order.
pub reverse_string_inside :
    (fuel begin end : ℕ) (buf : ℕ → ℕ) (i : ℕ)
    → end < begin + 2 * fuel
    → begin ≤ i
    → i ≤ end
    → reverse_string fuel begin end buf i ≡ buf (begin + end - i)
unfolding reverse_string
reverse_string_inside zero begin end buf i enough low high = absurd (omega arith)
reverse_string_inside (suc fuel) begin end buf i enough low high =
    elim (Bool-cases (ltb begin end)) [
      | inl more ↦ rw more (
          swapped_step fuel begin end buf i more low high (Bool-cases (i == begin))
            (Bool-cases (i == end))
            (reverse_string_inside fuel (begin + 1) (end - 1) (swapped buf begin end) i
              (ground arith)))
      | inr done ↦ rw done (ap buf (ground arith))
    ]
