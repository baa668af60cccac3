-- ===== src/Base/Masks.antt =====
-- Masks that do not start at bit 0, and numbers put together from disjoint bits.
use Prim.Native.Nat.{ℕ, zero, suc, ◌+◌, ◌-◌, ◌*◌, ◌/◌, ◌%◌, ◌^◌, ◌≤◌, ◌<◌, min, max}
use Prim.Native.Nat.{bit_and, bit_or, bit_or-bitwise}
use mathlib.Core.Path.{◌≡◌, refl, ap, sym, ◌∙◌}
use native.Mathlib.Nat.{
  le_refl, pow-suc, one-le-pow, div-div-eq-div-mul, mul_assoc, mul-div_cancel, min-zero, zero-max,
  max-zero,
}
use native.Mathlib.Omega.{arith}
use plusplus_os.Base.Bits.{bitwise_low, bit_and_low, bit_and_mask}

double : (m n : ℕ) → m * 2 ^ suc n ≡ m * 2 ^ n * 2
double m n = ap (λ (t : ℕ). m * t) (pow-suc 2 n) ∙ sym (mul_assoc m (2 ^ n) 2)

half_pow : (a n : ℕ) → a / 2 / 2 ^ n ≡ a / 2 ^ suc n
half_pow a n = div-div-eq-div-mul a 2 (2 ^ n) ∙ ap (λ (t : ℕ). a / t) (omega (arith, pow-suc 2 n))

pub bit_and_scaled : (n m a : ℕ) → bit_and a (m * 2 ^ n) ≡ bit_and (a / 2 ^ n) m * 2 ^ n
bit_and_scaled zero m a =
    ap (bit_and a) (let e : m * 2 ^ 0 ≡ m = omega arith in e)
    ∙ omega (arith, ap (λ (t : ℕ). bit_and t m) (let e : a / 2 ^ 0 ≡ a = omega arith in e))
bit_and_scaled (suc n) m a = rw (double m n) (
    omega (
      arith,
      bit_and_low a (m * 2 ^ n * 2),
      ap (bit_and (a / 2)) (let e : m * 2 ^ n * 2 / 2 ≡ m * 2 ^ n = omega arith in e),
      ap (min (a % 2)) (let e : m * 2 ^ n * 2 % 2 ≡ 0 = omega arith in e),
      min-zero (a % 2),
      bit_and_scaled n m (a / 2),
      ap (λ (t : ℕ). bit_and t m * 2 ^ n) (half_pow a n),
      double (bit_and (a / 2 ^ suc n) m) n,
    ))

-- A mask of `k` bits from bit `n` on.
pub bit_and_field : (k n a : ℕ) → bit_and a ((2 ^ k - 1) * 2 ^ n) / 2 ^ n ≡ a / 2 ^ n % 2 ^ k
bit_and_field k n a =
    ap (λ (t : ℕ). t / 2 ^ n) (bit_and_scaled n (2 ^ k - 1) a)
    ∙ mul-div_cancel (bit_and (a / 2 ^ n) (2 ^ k - 1)) (one-le-pow n 2 (omega arith))
    ∙ bit_and_mask k (a / 2 ^ n)

pub bit_or_low : (a b : ℕ) → bit_or a b ≡ bit_or (a / 2) (b / 2) * 2 + max (a % 2) (b % 2)
bit_or_low zero b = simp bit_or-bitwise (omega (arith, zero-max (b % 2)))
bit_or_low (suc a) b = simp bit_or-bitwise (bitwise_low (λ y. y) max a b)

bit_or-zero_below : (n a : ℕ) → a ≤ n → bit_or a 0 ≡ a
bit_or-zero_below n zero h = refl
bit_or-zero_below zero (suc a) h = absurd (omega arith)
bit_or-zero_below (suc n) (suc a) h = omega (
  arith,
  bit_or_low (suc a) 0,
  max-zero (suc a % 2),
  bit_or-zero_below n (suc a / 2) (omega arith),
)

-- Numbers that have no bit in common are added.
pub bit_or_disjoint : (n a b : ℕ) → b < 2 ^ n → bit_or (a * 2 ^ n) b ≡ a * 2 ^ n + b
bit_or_disjoint zero a b fits = omega (
  arith,
  ap (bit_or (a * 2 ^ 0)) (let e : b ≡ 0 = omega arith in e),
  bit_or-zero_below (a * 2 ^ 0) (a * 2 ^ 0) (le_refl _),
)
bit_or_disjoint (suc n) a b fits = rw (double a n) (
    omega (
      arith,
      bit_or_low (a * 2 ^ n * 2) b,
      ap (λ (t : ℕ). bit_or t (b / 2)) (let e : a * 2 ^ n * 2 / 2 ≡ a * 2 ^ n = omega arith in e),
      ap (λ (t : ℕ). max t (b % 2)) (let e : a * 2 ^ n * 2 % 2 ≡ 0 = omega arith in e),
      zero-max (b % 2),
      bit_or_disjoint n a (b / 2) (omega (arith, pow-suc 2 n)),
    ))
