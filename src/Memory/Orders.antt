-- ===== src/Memory/Orders.antt =====
-- The block sizes of kernel/src/memory/frame_allocator.c, and kernel/src/util.c.
pub mod Fit
pub mod Sizes
use Prim.Native.Nat.{min}
use plusplus_os.Base.{
  ℕ, zero, suc, ◌-◌, ◌/◌, Bool, not, ◌&&◌, ltb, leb, ◌==◌, if◌then◌else◌, add64, sub64, mul64, u8,
}
use plusplus_os.Machine.{Cmd, not_an_order, zero_sized, pure, kernel_assert, ◌>>◌}
use plusplus_os.Memory.EntryPool.{page_size}

-- FRAME_ORDERS
abbrev pub frame_orders : ℕ
frame_orders = 8

-- g_frame_order_sizes, as the loop of alloc_frame_allocator_memory fills it.
unfoldable pub order_size : ℕ → ℕ
order_size zero = page_size
order_size (suc i) = mul64 (order_size i) 2

module _ {S : Type 0} where
  unfoldable pub get_frame_order_size : ℕ → Cmd S ℕ
  get_frame_order_size order = do
    kernel_assert (ltb order frame_orders) not_an_order
    pure (order_size order)

-- __builtin_clzll: the zero bits above the highest one, of `width` bits.
unfoldable pub clz : ℕ → ℕ → ℕ
clz zero n = 0
clz (suc width) n = if n == 0 then suc width else clz width (n / 2)

module _ {S : Type 0} where
  unfoldable pub get_min_size_frame_order : ℕ → Cmd S ℕ
  get_min_size_frame_order pages = do
    kernel_assert (not (pages == 0)) zero_sized
    pure (if pages == 1 then 0 else u8 (min (64 - clz 64 (sub64 pages 1)) frame_orders))

-- util.c
unfoldable pub round_up_to_multiple : ℕ → ℕ → ℕ
round_up_to_multiple n m = mul64 (sub64 (add64 n m) 1 / m) m

unfoldable pub bound_contains : ℕ → ℕ → ℕ → Bool
bound_contains x lower upper = leb lower x && ltb x upper

unfoldable pub range_contains : ℕ → ℕ → ℕ → Bool
range_contains x lower size = bound_contains x lower (add64 lower size)
