-- ===== src/Memory/Orders/Sizes.antt =====
-- The block sizes are powers of two times the page size.
use plusplus_os.Base.{ℕ, zero, suc, ◌+◌, ◌*◌, ◌^◌, ◌≤◌, ◌<◌, ◌≡◌, arith, ltb, leb, ◌&&◌}
use plusplus_os.Memory.Orders.{order_size, bound_contains, range_contains}

pub record Sizes (k : ℕ) : Type 0 where
  pub twice : order_size (suc k) ≡ order_size k * 2
  pub lower : 4096 ≤ order_size k
  pub upper : order_size k ≤ 2 ^ 19
  pub pages : order_size k ≡ 4096 * 2 ^ k

pub order_size-Sizes : (k : ℕ) → k < 8 → Sizes k
unfolding order_size
order_size-Sizes zero h = omega arith
order_size-Sizes (suc zero) h = omega arith
order_size-Sizes (suc (suc zero)) h = omega arith
order_size-Sizes (suc (suc (suc zero))) h = omega arith
order_size-Sizes (suc (suc (suc (suc zero)))) h = omega arith
order_size-Sizes (suc (suc (suc (suc (suc zero))))) h = omega arith
order_size-Sizes (suc (suc (suc (suc (suc (suc zero)))))) h = omega arith
order_size-Sizes (suc (suc (suc (suc (suc (suc (suc zero))))))) h = omega arith
order_size-Sizes (suc (suc (suc (suc (suc (suc (suc (suc k)))))))) h = absurd (omega arith)

-- A block that ends below the last address.
pub range_contains_lem :
    (x lower size : ℕ)
    → lower + size < 2 ^ 64
    → range_contains x lower size ≡ (leb lower x && ltb x (lower + size))
unfolding range_contains bound_contains
range_contains_lem x lower size h = ground arith
