-- ===== src/Base/Bits.antt =====
-- `bit_and`, `bit_or` and `bit_xor` as arithmetic, and single bits of a word.
use Prim.Native.Nat.{ℕ, zero, suc, ◌+◌, ◌-◌, ◌*◌, ◌/◌, ◌%◌, ◌^◌, ◌≤◌, ◌<◌, min, differ}
use Prim.Native.Nat.{digits, bitwise, bit_and, bit_xor}
use Prim.Native.Nat.{bit_and-bitwise, bit_xor-bitwise}
use mathlib.Core.Path.{◌≡◌, refl, ap, ◌∙◌}
use native.Mathlib.Nat.{le_refl, pow-suc, one-le-pow, div-div-eq-div-mul}
use native.Mathlib.Omega.{arith}
use plusplus_os.Base.Tests.{◌==◌, one_if}

-- The native operations mean a recursion on binary digits with fuel; enough fuel is any.
module _ (z : ℕ → ℕ) (f : ℕ → ℕ → ℕ) where
  digits_enough : (n m a b : ℕ) → a ≤ n → a ≤ m → digits z f n a b ≡ digits z f m a b
  digits_enough zero zero a b p q = refl
  digits_enough zero (suc m) zero b p q = refl
  digits_enough zero (suc m) (suc a) b p q = absurd (omega arith)
  digits_enough (suc n) zero zero b p q = refl
  digits_enough (suc n) zero (suc a) b p q = absurd (omega arith)
  digits_enough (suc n) (suc m) zero b p q = refl
  digits_enough (suc n) (suc m) (suc a) b p q =
      rw (digits_enough n m (suc a / 2) (b / 2) (omega arith) (omega arith))

  pub bitwise_low :
      (a b : ℕ)
      → bitwise z f (suc a) b ≡ bitwise z f (suc a / 2) (b / 2) * 2 + f (suc a % 2) (b % 2)
  bitwise_low a b =
      omega (arith, digits_enough a (suc a / 2) (suc a / 2) (b / 2) (omega arith) (le_refl _))

-- One equation for the lowest digit of each operation.
pub bit_and_low : (a b : ℕ) → bit_and a b ≡ bit_and (a / 2) (b / 2) * 2 + min (a % 2) (b % 2)
bit_and_low zero b = simp bit_and-bitwise (omega arith)
bit_and_low (suc a) b = simp bit_and-bitwise (bitwise_low (λ y. 0) min a b)

pub bit_xor_low : (a b : ℕ) → bit_xor a b ≡ bit_xor (a / 2) (b / 2) * 2 + differ (a % 2) (b % 2)
bit_xor_low zero b = simp bit_xor-bitwise (omega arith)
bit_xor_low (suc a) b = simp bit_xor-bitwise (bitwise_low (λ y. y) differ a b)

differ_mod : (a b : ℕ) → a < 2 → b < 2 → differ a b ≡ (a + b) % 2
differ_mod zero b p q = omega arith
differ_mod (suc zero) zero p q = refl
differ_mod (suc zero) (suc zero) p q = refl
differ_mod (suc zero) (suc (suc b)) p q = absurd (omega arith)
differ_mod (suc (suc a)) b p q = absurd (omega arith)

-- Bit `c` of a word.
unfoldable pub bit_at : ℕ → ℕ → ℕ
bit_at zero w = w % 2
bit_at (suc c) w = bit_at c (w / 2)

pub bit_at-shift : (c w : ℕ) → bit_at c w ≡ w / 2 ^ c % 2
unfolding bit_at
bit_at-shift zero w = omega arith
bit_at-shift (suc c) w =
    bit_at-shift c (w / 2)
    ∙ ap (λ (t : ℕ). t % 2)
        (div-div-eq-div-mul w 2 (2 ^ c) ∙ ap (λ (t : ℕ). w / t) (omega (arith, pow-suc 2 c)))

pub bit_at-zero : (c : ℕ) → bit_at c 0 ≡ 0
unfolding bit_at
bit_at-zero zero = refl
bit_at-zero (suc c) = bit_at-zero c

pub bit_at-lt : (c w : ℕ) → bit_at c w < 2
unfolding bit_at
bit_at-lt zero w = omega arith
bit_at-lt (suc c) w = bit_at-lt c (w / 2)

bit_xor-zero_below : (n a : ℕ) → a ≤ n → bit_xor a 0 ≡ a
bit_xor-zero_below n zero h = refl
bit_xor-zero_below zero (suc a) h = absurd (omega arith)
bit_xor-zero_below (suc n) (suc a) h = omega (
  arith,
  bit_xor_low (suc a) 0,
  differ_mod (suc a % 2) 0 (omega arith) (omega arith),
  bit_xor-zero_below n (suc a / 2) (omega arith),
)

pub bit_xor-zero : (a : ℕ) → bit_xor a 0 ≡ a
bit_xor-zero a = bit_xor-zero_below a a (le_refl a)

bit_and-zero_below : (n a : ℕ) → a ≤ n → bit_and a 0 ≡ 0
bit_and-zero_below n zero h = refl
bit_and-zero_below zero (suc a) h = absurd (omega arith)
bit_and-zero_below (suc n) (suc a) h =
    omega (arith, bit_and_low (suc a) 0, bit_and-zero_below n (suc a / 2) (omega arith))

pub bit_and-zero : (a : ℕ) → bit_and a 0 ≡ 0
bit_and-zero a = bit_and-zero_below a a (le_refl a)

pub bit_and-one : (a : ℕ) → bit_and a 1 ≡ a % 2
bit_and-one a = omega (arith, bit_and_low a 1, bit_and-zero (a / 2))

bit_and_ones : (k q r : ℕ) → r < 2 ^ k → bit_and (q * 2 ^ k + r) (2 ^ k - 1) ≡ r
bit_and_ones zero q r fits = omega (arith, bit_and-zero (q * 1 + r))
bit_and_ones (suc k) q r fits = ground (
  arith,
  bit_and_low (q * 2 ^ suc k + r) (2 ^ suc k - 1),
  ap (λ (t : ℕ). q * t) (pow-suc 2 k),
  pow-suc 2 k,
  bit_and_ones k q (r / 2) (omega (arith, pow-suc 2 k)),
)

-- A mask of the `k` lowest bits is the remainder by `2 ^ k`.
pub bit_and_mask : (k a : ℕ) → bit_and a (2 ^ k - 1) ≡ a % 2 ^ k
bit_and_mask k a = ground (arith, one-le-pow k 2, bit_and_ones k (a / 2 ^ k) (a % 2 ^ k))

double-xor : (w b : ℕ) → bit_xor w (2 ^ suc b) ≡ bit_xor (w / 2) (2 ^ b) * 2 + w % 2
double-xor w b = omega (
  arith,
  bit_xor_low w (2 ^ suc b),
  pow-suc 2 b,
  ap (λ (t : ℕ). bit_xor (w / 2) t)
      (let e : 2 ^ suc b / 2 ≡ 2 ^ b = omega (arith, pow-suc 2 b) in e),
  ap (λ (t : ℕ). differ (w % 2) t) (let e : 2 ^ suc b % 2 ≡ 0 = omega (arith, pow-suc 2 b) in e),
  differ_mod (w % 2) 0 (omega arith) (omega arith),
)

one-xor : (w : ℕ) → bit_xor w 1 ≡ w / 2 * 2 + (w % 2 + 1) % 2
one-xor w =
    omega (
      arith,
      bit_xor_low w 1,
      bit_xor-zero (w / 2),
      differ_mod (w % 2) 1 (omega arith) (omega arith),
    )

-- An exclusive or with `1 << b` flips bit `b` and no other.
pub bit_at-xor : (b c w : ℕ) → bit_at c (bit_xor w (2 ^ b)) ≡ (bit_at c w + one_if (b == c)) % 2
unfolding bit_at
bit_at-xor zero zero w = ground (arith, one-xor w)
bit_at-xor zero (suc c) w =
    ap (bit_at c) (let e : bit_xor w 1 / 2 ≡ w / 2 = omega (arith, one-xor w) in e)
    ∙ ground (arith, bit_at-lt c (w / 2))
bit_at-xor (suc b) zero w = ground (arith, double-xor w b)
bit_at-xor (suc b) (suc c) w =
    ap (bit_at c) (
      let e : bit_xor w (2 ^ suc b) / 2 ≡ bit_xor (w / 2) (2 ^ b) = omega (arith, double-xor w b) in
      e)
    ∙ bit_at-xor b c (w / 2)
    ∙ ground arith
