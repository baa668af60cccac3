-- ===== src/Base/Digits.antt =====
-- The digit of a number at a place, in any base.
use Prim.Native.Nat.{ℕ, ◌+◌, ◌*◌, ◌/◌, ◌%◌, ◌≤◌, ◌<◌}
use mathlib.Core.Path.{◌≡◌, ap, ◌∙◌}
use native.Mathlib.Nat.{div-add-mod, mod-lt, add-mul-mod_self_right, mod-eq_of_lt, mul-le-mul_right}
use native.Mathlib.Omega.{arith}

-- The remainder by `p * b` is a digit below `b`, `p` times, and the remainder by `p`.
pub mod-mul : (value p b : ℕ) → 0 < p → 0 < b → value % (p * b) ≡ value / p % b * p + value % p
mod-mul value p b some base =
    let q : ℕ = value / p in
    let low : value % p < p = mod-lt value some in
    let digit : q % b < b = mod-lt q base in
    let split : value ≡ q % b * p + value % p + q / b * (p * b) =
      omega (arith, div-add-mod value p, ap (λ (t : ℕ). p * t) (div-add-mod q b)) in
    let fits : q % b * p + value % p < p * b =
      omega (arith, mul-le-mul_right p (let e : q % b + 1 ≤ b = omega arith in e)) in
    ap (λ (t : ℕ). t % (p * b)) split
    ∙ add-mul-mod_self_right (q % b * p + value % p) (q / b) (p * b)
    ∙ mod-eq_of_lt fits
