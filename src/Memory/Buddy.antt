-- ===== src/Memory/Buddy.antt =====
-- The buddy maps of kernel/src/memory/frame_allocator.c.
pub mod Bit
pub mod Flip
use plusplus_os.Base.{
  ℕ, ◌-◌, ◌/◌, ◌%◌, ◌^◌, Bool, ltb, ◌==◌, if◌then◌else◌, bit_and, bit_xor, ◌<<<◌, ◌>>>◌, update, u8,
}
use plusplus_os.Machine.{Cmd, no_buddy_map, ok, pure, kernel_assert, ◌>>=◌, ◌>>◌}
use plusplus_os.Memory.{Mem, set_lists}
use plusplus_os.Memory.Orders.{frame_orders, order_size}

pub record BuddyIndex : Type 0 where
  pub arr_index : ℕ
  pub bit_index : ℕ

-- ~0b111111 on 64 bits
abbrev pub not_low_six : ℕ
not_low_six = 2 ^ 64 - 64

-- The arithmetic of calc_buddy_index.
unfoldable pub buddy_index : ℕ → ℕ → BuddyIndex
buddy_index addr order =
    let block = addr / order_size order in
    let pair = (block - block % 2) / 2 in
    record { arr_index = bit_and pair not_low_six / 64; bit_index = u8 (bit_and pair 0b111111) }

unfoldable pub toggle_word : BuddyIndex → (ℕ → ℕ) → ℕ → ℕ
toggle_word i words = update words i.arr_index (bit_xor (words i.arr_index) (1 <<< i.bit_index))

module _ {X : Type 0} where
  unfoldable pub calc_buddy_index : ℕ → ℕ → Cmd (Mem X) BuddyIndex
  calc_buddy_index addr order = do
    kernel_assert (ltb order (frame_orders - 1)) no_buddy_map
    pure (buddy_index addr order)

  unfoldable pub get_buddy_bit : ℕ → ℕ → Cmd (Mem X) Bool
  get_buddy_bit addr order = do
    i ← calc_buddy_index addr order
    (λ s. ok (bit_and (s.lists.buddy_map order i.arr_index >>> i.bit_index) 1 == 1) s)

  unfoldable pub toggle_buddy_bit : ℕ → ℕ → Cmd (Mem X) (Unit {0})
  toggle_buddy_bit addr order = if order == frame_orders - 1 then pure tt else do
    i ← calc_buddy_index addr order
    (λ s.
        let f = s.lists in
        let words = toggle_word i (f.buddy_map order) in
        ok tt (set_lists (record f { buddy_map = update f.buddy_map order words }) s))
