-- ===== src/Memory/Frames/Allocations.antt =====
-- kernel/src/memory/frame_allocator.c: calculate_allocation_pages, free_frame_allocation_entries
-- and remove_range.
pub mod Pages
use plusplus_os.Base.{
  ℕ, zero, suc, ◌+◌, ◌-◌, ◌/◌, ◌%◌, Bool, true, false, not, ◌&&◌, Option, none, some, List, [], ◌∷◌,
  leb, ◌==◌, if◌then◌else◌, add64, sub64, mul64,
}
use plusplus_os.Machine.{
  Cmd, ok, stop, halt, out_of_fuel, split_order_zero, pure, kernel_assert, ◌>>=◌, ◌>>◌,
}
use plusplus_os.Memory.{ListEntry, PageFrameAllocation, Mem, set_lists, set_head}
use plusplus_os.Memory.EntryPool.{page_size, free_memory_entry}
use plusplus_os.Memory.Orders.{frame_orders, order_size, get_frame_order_size, range_contains}
use plusplus_os.Memory.Buddy.{toggle_buddy_bit}
use plusplus_os.Memory.Frames.{Unlinked, unlink, split_entry}

module _ {X : Type 0} where
  -- The loop over the chain, from the size so far on.
  unfoldable pub add_sizes : List PageFrameAllocation → ℕ → Cmd (Mem X) ℕ
  add_sizes [] size = pure size
  add_sizes (a ∷ next) size = do
    order_bytes ← get_frame_order_size a.order
    add_sizes next (add64 size order_bytes)

  unfoldable pub calculate_allocation_pages : List PageFrameAllocation → Cmd (Mem X) ℕ
  calculate_allocation_pages allocation = do size ← add_sizes allocation 0; pure (size / page_size)

  unfoldable pub free_frame_allocation_entries : List PageFrameAllocation → Cmd (Mem X) (Unit {0})
  free_frame_allocation_entries [] = pure tt
  free_frame_allocation_entries (a ∷ next) = do
    free_memory_entry a.node
    free_frame_allocation_entries next

-- The largest order that the address is aligned to and the size is big enough for, plus one:
-- `order` is the next one that is tried.
unfoldable pub range_order : ℕ → ℕ → ℕ → ℕ → ℕ
range_order zero order addr size = order
range_order (suc left) order addr size =
    let rest = range_order left (order + 1) addr size in
    if addr % order_size order == 0 && leb (order_size order) size then rest else order

module _ {X : Type 0} (alloc_page : Cmd (Mem X) ℕ) where
  -- An entry that holds the address is taken out of the free list of `order`: it is the block that
  -- is removed, or it is split.
  unfoldable pub remove_entry :
      (Cmd (Mem X) Bool) → (target order : ℕ) → Option Unlinked → Cmd (Mem X) Bool
  remove_entry lower target order none = if order == target then pure false else lower
  remove_entry lower target order (some u) =
      let removed = (do
        toggle_buddy_bit u.entry.addr order
        free_memory_entry u.entry.node
        pure true) in
      let split = (do
        kernel_assert (not (order == 0)) split_order_zero
        split_entry alloc_page u.entry order
        lower) in
      (λ s. ok tt (set_lists (set_head order u.chain s.lists) s))
      >> (if order == target then removed else split)

  -- The loop over the orders below `orders`, from the biggest one on.
  unfoldable pub remove_block : ℕ → ℕ → ℕ → Cmd (Mem X) Bool
  remove_block zero target addr s = ok true s
  remove_block (suc order) target addr s =
      remove_entry (remove_block order target addr) target order
        (unlink (λ e. range_contains addr e.addr (order_size order)) (s.lists.head order)) s

  -- The loop of remove_range.
  unfoldable pub remove_blocks : ℕ → ℕ → ℕ → Cmd (Mem X) Bool
  remove_blocks zero addr size = halt out_of_fuel
  remove_blocks (suc fuel) addr size =
      let order = range_order 7 1 addr size - 1 in
      let next =
        remove_blocks fuel (add64 addr (order_size order)) (sub64 size (order_size order)) in
      if size == 0
      then pure true
      else (do removed ← remove_block frame_orders order addr; if removed then next else pure false)

  unfoldable pub remove_range : ℕ → ℕ → Cmd (Mem X) Bool
  remove_range addr pages = remove_blocks (pages + 1) addr (mul64 pages page_size)
