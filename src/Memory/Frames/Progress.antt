-- ===== src/Memory/Frames/Progress.antt =====
-- The blocks that alloc_frames has collected, and the biggest order that fits.
use native.Mathlib.Numerals.{add-one}
use plusplus_os.Base.{
  ℕ, zero, suc, ◌+◌, ◌-◌, ◌*◌, ◌%◌, ◌^◌, ◌≤◌, ◌<◌, ◌≡◌, refl, arith, false, List, ◌∷◌, [], ◌++◌,
  inl, inr, All, length, Bool-cases, ltb,
}
use plusplus_os.Memory.{ListEntry, PageFrameAllocation, frame_allocation, Mem}
use plusplus_os.Memory.Orders.{order_size}
use plusplus_os.Memory.Orders.Sizes.{order_size-Sizes}
use plusplus_os.Memory.Frames.{fitting_orders}
use plusplus_os.Memory.Frames.View.{free_at, allocated_at, IsBlock, IsValid}
use plusplus_os.Memory.Frames.Free.{IsAllocation}

-- The bytes of an allocation.
unfoldable pub total : List PageFrameAllocation → ℕ
total [] = 0
total (a ∷ next) = order_size a.order + total next

pub total-append : (l r : List PageFrameAllocation) → total (l ++ r) ≡ total l + total r
unfolding total
total-append [] r = omega arith
total-append (a ∷ l) r = omega (arith, total-append l r)

pub allocated_at-append :
    (l r : List PageFrameAllocation) (x : ℕ)
    → allocated_at (l ++ r) x ≡ allocated_at l x + allocated_at r x
unfolding allocated_at
allocated_at-append [] r x = omega arith
allocated_at-append (a ∷ l) r x = omega (arith, allocated_at-append l r x)

pub All-append :
    (l : List PageFrameAllocation) (a : PageFrameAllocation)
    → All IsAllocation l
    → IsAllocation a
    → All IsAllocation (l ++ a ∷ [])
All-append [] a all h = (h, tt)
All-append (b ∷ l) a all h = (all.0, All-append l a all.1 h)

order_size-le : (d k : ℕ) → k + d < 8 → order_size k ≤ order_size (k + d)
order_size-le zero k h = let e : k + 0 ≡ k = omega arith in rw e (omega arith)
order_size-le (suc d) k h =
    let e : k + suc d ≡ suc (k + d) = omega arith in
    rw e (
      omega
        (arith, order_size-le d k (omega arith), (order_size-Sizes (k + d) (omega arith)).twice))

pub order_size_seven : order_size 7 ≡ 2 ^ 19
unfolding order_size
order_size_seven = refl

pub order_size_mono : (k j : ℕ) → k ≤ j → j < 8 → order_size k ≤ order_size j
order_size_mono k j le h =
    let e : k + (j - k) ≡ j = omega arith in rw e at (order_size-le (j - k) k (omega arith))

-- The order that the search stops at, plus one.
pub record Fits (size fits : ℕ) : Type 0 where
  pub target : ℕ
  pub eq : fits ≡ suc target
  pub low : target < 8
  pub fit : order_size target ≤ size

Fits-from :
    (left order size : ℕ)
    → suc order + left ≡ 8
    → order_size order ≤ size
    → Fits size (fitting_orders left (suc order) size)
unfolding fitting_orders
Fits-from zero order size e h = record { target = order; eq = refl; low = omega arith; fit = h }
Fits-from (suc left) order size e h = elim (Bool-cases (ltb size (order_size (suc order)))) [
  | inl small ↦ rw small (record { target = order; eq = refl; low = omega arith; fit = h })
  | inr big ↦
      rw (big, add-one (suc order)) (Fits-from left (suc order) size (omega arith) (ground arith))
]

pub fitting_orders-Fits : (size : ℕ) → 4096 ≤ size → Fits size (fitting_orders 8 0 size)
unfolding fitting_orders order_size
fitting_orders-Fits size h =
    let big : ltb size 4096 ≡ false = ground arith in rw big (Fits-from 7 0 size (omega arith) h)

pub length-le-total :
    (l : List PageFrameAllocation) → All IsAllocation l → length l * 4096 ≤ total l
unfolding total
length-le-total [] all = omega arith
length-le-total (a ∷ l) all =
    omega (arith, length-le-total l all.1, (order_size-Sizes a.order all.0.low).lower)

-- The entry that a block has as an allocation: nothing is cut off.
pub allocation_of_entry :
    (k : ℕ) (e : ListEntry)
    → k < 8
    → IsBlock k e.addr
    → frame_allocation e.node (e.addr % 2 ^ 57) (k % 2 ^ 7) ≡ frame_allocation e.node e.addr k
allocation_of_entry k e low b =
    let z = order_size-Sizes k low in
    let addr : e.addr % 2 ^ 57 ≡ e.addr = omega (arith, b.fits, z.lower) in
    let order : k % 2 ^ 7 ≡ k = omega arith in rw (addr, order)

-- The loop of alloc_frames has collected `front` since the state `s`, and `size` bytes of `whole`
-- are to be found.
pub record Progress {X : Type 0} (held : X → ℕ → ℕ) (s : Mem X) (whole : ℕ)
    (front : List PageFrameAllocation) (size : ℕ) (t : Mem X) : Type 0 where
  pub valid : IsValid t.lists
  pub blocks : All IsAllocation front
  pub sum : total front + size ≡ whole
  pub conserved :
      (x : ℕ)
      → free_at t.lists x + held t.rest x + allocated_at front x ≡ free_at s.lists x + held s.rest x
  pub less : (x : ℕ) → free_at t.lists x + allocated_at front x ≤ free_at s.lists x
