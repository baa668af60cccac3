-- ===== src/Memory/Frames/Allocations/Pages.antt =====
-- The number of pages of an allocation is that of the blocks that alloc_frames gave.
use plusplus_os.Base.{
  ℕ, ◌+◌, ◌*◌, ◌/◌, ◌^◌, ◌<◌, ◌≡◌, refl, ap, arith, ◌⊎◌, inl, inr, true, List, [], ◌∷◌, Option,
  none, some, All, ltb, add64,
}
use plusplus_os.Machine
use plusplus_os.Machine.{Cmd, ok, Ends, Never, returns, and_then, pure, ◌>>=◌}
use plusplus_os.Memory.{PageFrameAllocation, Mem}
use plusplus_os.Memory.Orders.{order_size, get_frame_order_size}
use plusplus_os.Memory.Frames.{alloc_frames}
use plusplus_os.Memory.Frames.View.{IsValid}
use plusplus_os.Memory.Frames.Free.{IsAllocation}
use plusplus_os.Memory.Frames.Progress.{total}
use plusplus_os.Memory.Frames.Alloc.{AllocResult}
use plusplus_os.Memory.Frames.Sources.{IsStocked}
use plusplus_os.Memory.Frames.Contract.{stocked, alloc_frames_total}
use plusplus_os.Memory.Frames.Allocations.{add_sizes, calculate_allocation_pages}

module _ {X : Type 0} where
  add_sizes_lem :
      (l : List PageFrameAllocation) (size : ℕ) (s : Mem X)
      → All IsAllocation l
      → size + total l < 2 ^ 64
      → add_sizes l size s ≡ ok (size + total l) s
  unfolding add_sizes total get_frame_order_size
  add_sizes_lem [] size s all small = let same : size + 0 ≡ size = omega arith in rw same refl
  add_sizes_lem (a ∷ l) size s all small =
      let in_range : ltb a.order 8 ≡ true = ground (arith, all.0.low) in
      let sum : add64 size (order_size a.order) ≡ size + order_size a.order = omega arith in
      let assoc : size + (order_size a.order + total l) ≡ size + order_size a.order + total l =
        omega arith in
      rw in_range
        (rw (sum, assoc) (add_sizes_lem l (size + order_size a.order) s all.1 (omega arith)))

  -- The pages of what alloc_frames gave, if it gave anything.
  abbrev pub measure : Option (List PageFrameAllocation) → Cmd (Mem X) (Option ℕ)
  measure none = pure none
  measure (some l) = do pages ← calculate_allocation_pages l; pure (some pages)

  measured :
      (alloc_page : Cmd (Mem X) ℕ) (pages : ℕ) (s : Mem X)
      → pages < 128
      → (o : Option (List PageFrameAllocation)) (t : Mem X)
      → AllocResult (stocked alloc_page) s (pages * 4096) (7 * pages) o t
      → Ends Never (λ n r. (n ≡ none) ⊎ (n ≡ some pages)) (measure o t)
  unfolding calculate_allocation_pages
  measured alloc_page pages s few none t h = returns (inl refl)
  measured alloc_page pages s few (some l) t (p, stock) =
      let whole : total l ≡ pages * 4096 = omega (arith, p.sum) in
      let all_pages : (0 + total l) / 4096 ≡ pages = omega (arith, whole) in
      rw (add_sizes_lem l 0 t p.blocks (omega (arith, whole)))
        (returns (inr (ap (λ (n : ℕ). some n) all_pages)))

  -- What alloc_frames gives has as many pages, by calculate_allocation_pages, as were asked for,
  -- under the conditions of alloc_frames_total.
  pub calculate_allocation_pages-alloc_frames :
      (alloc_page : Cmd (Mem X) ℕ) (pages : ℕ) (s : Mem X)
      → IsValid s.lists
      → pages < 128
      → IsStocked (14 * pages) s.pool
      → Ends Never
          (λ n r. (n ≡ none) ⊎ (n ≡ some pages))
          (and_then (alloc_frames alloc_page pages s) measure)
  calculate_allocation_pages-alloc_frames alloc_page pages s v few stock =
      Machine.bind (alloc_frames_total alloc_page pages s v few stock)
        (measured alloc_page pages s few)
