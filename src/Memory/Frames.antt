-- ===== src/Memory/Frames.antt =====
-- kernel/src/memory/frame_allocator.c: allocation and release of page frames.
-- `alloc_page` is the call of alloc_pages(1, PAGING_WRITABLE) by which an exhausted entry pool is
-- filled again; it may come back into this allocator.
pub mod Blocks
pub mod Contiguos
pub mod Contract
pub mod Effects
pub mod Chains
pub mod Find
pub mod Free
pub mod Merge
pub mod Progress
pub mod Alloc
pub mod Allocations
pub mod Sources
pub mod Supply
pub mod Take
pub mod Valid
pub mod Tests
pub mod View
use plusplus_os.Base.{
  ℕ, zero, suc, ◌+◌, ◌-◌, ◌*◌, ◌/◌, ◌%◌, ◌^◌, ◌≡◌, Bool, not, true, false, ◌&&◌, Option, none, some,
  List, [], ◌∷◌, ◌++◌, ltb, leb, ◌==◌, if◌then◌else◌, add64, sub64, mul64,
}
use plusplus_os.Machine.{
  Run, Cmd, ok, stop, assert_failed, buddy_missing, not_an_order, null_pointer, out_of_bounds,
  out_of_fuel, pure, halt, kernel_assert, ◌>>=◌, ◌>>◌,
}
use plusplus_os.Memory.{
  ListEntry, list_entry, PageFrameAllocation, frame_allocation, FreeLists, Mem, set_lists, set_head,
  write_head,
}
use plusplus_os.Memory.EntryPool.{page_size, get_memory_entry, free_memory_entry}
use plusplus_os.Memory.Orders.{
  frame_orders, order_size, get_frame_order_size, get_min_size_frame_order, range_contains,
}
use plusplus_os.Memory.Buddy.{get_buddy_bit, toggle_buddy_bit}

-- entry->next of the first entry of a chain
abbrev pub tail : List ListEntry → List ListEntry
tail [] = []
tail (e ∷ next) = next

pub record Unlinked : Type 0 where
  pub entry : ListEntry
  pub chain : List ListEntry

abbrev pub keep_before : ListEntry → Option Unlinked → Option Unlinked
keep_before e none = none
keep_before e (some u) = some (record u { chain = e ∷ u.chain })

-- The walk along a chain to the first entry that passes the test, which is taken out: by the
-- head if it is the first entry, else by the `next` of the entry before it.
unfoldable pub unlink : (ListEntry → Bool) → List ListEntry → Option Unlinked
unlink found [] = none
unlink found (e ∷ next) =
    if found e then some (record { entry = e; chain = next }) else keep_before e (unlink found next)

-- The address of the other half of the block of twice the size.
unfoldable pub buddy_addr : ℕ → ℕ → ℕ
buddy_addr addr order =
    if addr % order_size (order + 1) == 0
    then add64 addr (order_size order)
    else sub64 addr (order_size order)

-- The left one of two entries, and the right one.
unfoldable pub left_half : ListEntry → ListEntry → ListEntry × ListEntry
left_half entry buddy = if ltb buddy.addr entry.addr then (buddy, entry) else (entry, buddy)

-- The biggest order below `order` whose free list has an entry.
unfoldable pub smaller_order : (ℕ → List ListEntry) → ℕ → Option ℕ
smaller_order head zero = none
smaller_order head (suc order) = elim (head order) [
  | [] ↦ smaller_order head order
  | _ ∷ _ ↦ some order
]

module _ {X : Type 0} where
  -- Takes the buddy at `other` from its free list.
  -- It should always be there: a search that fails is a failed assertion.
  unfoldable pub take_buddy : ℕ → ℕ → Cmd (Mem X) ListEntry
  take_buddy other order s = elim (unlink (λ e. e.addr == other) (s.lists.head order)) [
    | none ↦ stop (assert_failed buddy_missing)
    | some u ↦ ok u.entry (set_lists (set_head order u.chain s.lists) s)
  ]

  -- Puts an entry in front of the free list.
  abbrev pub push_entry : ℕ → ListEntry → Cmd (Mem X) (Unit {0})
  push_entry order e s = write_head order (e ∷ s.lists.head order) s

  -- One round of the merge loop of free_frames: `entry` is the first of its free list and its
  -- buddy is free. Returns the merged entry, which is the first of the free list above.
  unfoldable pub merge_once : ℕ → ListEntry → Cmd (Mem X) ListEntry
  merge_once order entry = do
    (λ s. write_head order (tail (s.lists.head order)) s)
    buddy ← take_buddy (buddy_addr entry.addr order) order
    let halves = left_half entry buddy
    free_memory_entry halves.1.node
    push_entry (order + 1) halves.0
    toggle_buddy_bit halves.0.addr (order + 1)
    pure halves.0

  -- The merge loop. Each round goes up one order.
  unfoldable pub merge_blocks : ℕ → ℕ → ListEntry → Cmd (Mem X) (Unit {0})
  merge_blocks zero order entry = halt out_of_fuel
  merge_blocks (suc fuel) order entry =
      let rest = (do merged ← merge_once order entry; merge_blocks fuel (order + 1) merged) in
      if ltb order (frame_orders - 1)
      then (do allocated ← get_buddy_bit entry.addr order; if allocated then pure tt else rest)
      else pure tt

  -- One round of free_frames.
  unfoldable pub free_block : PageFrameAllocation → Cmd (Mem X) (Unit {0})
  free_block a = do
    kernel_assert (ltb a.order frame_orders) not_an_order
    let entry = list_entry a.node a.addr
    toggle_buddy_bit entry.addr a.order
    push_entry a.order entry
    merge_blocks frame_orders a.order entry

  unfoldable pub free_frames : List PageFrameAllocation → Cmd (Mem X) (Unit {0})
  free_frames [] = pure tt
  free_frames (a ∷ next) = do free_block a; free_frames next

  -- Removes the first block of a free list, and marks it as allocated.
  unfoldable pub take_first : ℕ → List ListEntry → Cmd (Mem X) ListEntry
  take_first order [] = halt null_pointer
  take_first order (entry ∷ next) = do
    write_head order next
    toggle_buddy_bit entry.addr order
    pure entry

  unfoldable pub take_block : ℕ → Cmd (Mem X) ListEntry
  take_block order s = take_first order (s.lists.head order) s

-- The order that alloc_frames looks for, plus one: the sizes from `order` on that fit into `size`.
unfoldable pub fitting_orders : ℕ → ℕ → ℕ → ℕ
fitting_orders zero order size = order
fitting_orders (suc left) order size =
    if ltb size (order_size order) then order else fitting_orders left (order + 1) size

module _ {X : Type 0} (alloc_page : Cmd (Mem X) ℕ) where
  unfoldable pub split_entry : ListEntry → ℕ → Cmd (Mem X) (Unit {0})
  split_entry left order = do
    toggle_buddy_bit left.addr order
    node ← get_memory_entry alloc_page
    let right = list_entry node (add64 left.addr (order_size (order - 1)))
    (λ s. write_head (order - 1) (left ∷ right ∷ s.lists.head (order - 1)) s)

  -- A block of order `order` is there: split it.
  unfoldable pub split_first : ℕ → List ListEntry → Cmd (Mem X) (Unit {0})
  split_first order [] = halt null_pointer
  split_first order (entry ∷ next) = do write_head order next; split_entry entry order

  unfoldable pub split_block : ℕ → Cmd (Mem X) (Unit {0})
  split_block order s = split_first order (s.lists.head order) s

  -- In the loop that looks for a block of order `target`, which is not there: `current` is the
  -- free list of `order`, and `again` the next round. `none`: there is no block of any order.
  unfoldable pub find_round :
      (ℕ → Cmd (Mem X) (Option ℕ)) → (target order : ℕ) → List ListEntry → Cmd (Mem X) (Option ℕ)
  find_round again target order (_ ∷ _) = do split_block order; again (order - 1)
  find_round again target order [] =
      if ltb (order + 1) frame_orders
      then again (order + 1)
      else (λ s. ok (smaller_order s.lists.head target) s)

  -- That loop, which ends when there is a block of order `target`. A free list past the last one
  -- is read when `order` is FRAME_ORDERS.
  unfoldable pub find_block : ℕ → ℕ → ℕ → Cmd (Mem X) (Option ℕ)
  find_block zero target order s = stop out_of_fuel
  find_block (suc fuel) target order s = elim (s.lists.head target) [
    | _ ∷ _ ↦ ok (some target) s
    | [] ↦
        if ltb order frame_orders
        then find_round (find_block fuel target) target order (s.lists.head order) s
        else stop out_of_bounds
  ]

  -- `fits` is the order to look for, plus one; 0 would be an order of -1.
  unfoldable pub alloc_order : ℕ → Cmd (Mem X) (Option ℕ)
  alloc_order zero = halt out_of_bounds
  alloc_order (suc target) = find_block 16 target (target + 1)

  -- Takes a block of the order found, or gives back what is allocated if there is none.
  unfoldable pub alloc_found :
      (ℕ → PageFrameAllocation → Cmd (Mem X) (Option (List PageFrameAllocation)))
      → List PageFrameAllocation
      → Option ℕ
      → Cmd (Mem X) (Option (List PageFrameAllocation))
  alloc_found next front none = do free_frames front; pure none
  alloc_found next front (some order) = do
    entry ← take_block order
    next order (frame_allocation entry.node (entry.addr % 2 ^ 57) (order % 2 ^ 7))

  -- The loop of alloc_frames; `front` is the allocation so far, in the order of its chain.
  unfoldable pub alloc_loop :
      ℕ → ℕ → List PageFrameAllocation → Cmd (Mem X) (Option (List PageFrameAllocation))
  alloc_loop zero size front = halt out_of_fuel
  alloc_loop (suc fuel) size front =
      let next = λ (order : ℕ) (a : PageFrameAllocation).
        alloc_loop fuel (sub64 size (order_size order)) (front ++ a ∷ []) in
      let round = (do
        found ← alloc_order (fitting_orders frame_orders 0 size)
        alloc_found next front found) in
      if size == 0 then pure (some front) else round

  unfoldable pub alloc_frames : ℕ → Cmd (Mem X) (Option (List PageFrameAllocation))
  alloc_frames pages = alloc_loop (pages + 1) (mul64 pages page_size) []

  -- As find_round, in alloc_frames_contiguos. When the free list of `order` is empty the one above
  -- is split in the same round, whether or not it has an entry.
  unfoldable pub contiguos_round : (ℕ → Cmd (Mem X) Bool) → ℕ → List ListEntry → Cmd (Mem X) Bool
  contiguos_round again order (_ ∷ _) = do split_block order; again (order - 1)
  contiguos_round again order [] =
      if leb frame_orders (order + 1) then pure false else (do split_block (order + 1); again order)

  unfoldable pub find_contiguos : ℕ → ℕ → ℕ → Cmd (Mem X) Bool
  find_contiguos zero target order s = stop out_of_fuel
  find_contiguos (suc fuel) target order s = elim (s.lists.head target) [
    | _ ∷ _ ↦ ok true s
    | [] ↦
        if ltb order frame_orders
        then contiguos_round (find_contiguos fuel target) order (s.lists.head order) s
        else stop out_of_bounds
  ]

  unfoldable pub give_address : ℕ → Bool → Cmd (Mem X) (Option ℕ)
  give_address order false = pure none
  give_address order true = do
    entry ← take_block order
    free_memory_entry entry.node
    pure (some entry.addr)

  -- `some addr`: the call returns true and stores `addr` to *out_addr.
  unfoldable pub alloc_frames_contiguos : ℕ → Cmd (Mem X) (Option ℕ)
  alloc_frames_contiguos pages = do
    order ← get_min_size_frame_order pages
    kernel_assert (ltb order frame_orders) not_an_order
    found ← find_contiguos 16 order (order + 1)
    give_address order found

  unfoldable pub free_frames_contiguos : ℕ → ℕ → Cmd (Mem X) (Unit {0})
  free_frames_contiguos addr pages = do
    node ← get_memory_entry alloc_page
    order ← get_min_size_frame_order pages
    free_frames (frame_allocation node (addr % 2 ^ 57) (order % 2 ^ 7) ∷ [])
