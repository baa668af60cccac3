-- ===== src/Memory/Frames/Contiguos/Contract.antt =====
-- What alloc_frames_contiguos promises, and where it crashes.
use plusplus_os.Base.{
  ℕ, ◌+◌, ◌≤◌, ◌<◌, ◌≡◌, ◌≢◌, refl, arith, Bool, true, false, [], one_if, Option, none, some, ltb,
  leb,
}
use plusplus_os.Machine
use plusplus_os.Machine.{
  Run, Cmd, Stop, ok, stop, null_pointer, Ends, Never, returns, stops, returned,
}
use plusplus_os.Memory.{Mem}
use plusplus_os.Memory.EntryPool.{free_memory_entry}
use plusplus_os.Memory.Orders.{order_size, range_contains}
use plusplus_os.Memory.Orders.Fit.{IsSmallest, IsSmallest-unique, min_order}
use plusplus_os.Memory.Orders.Sizes.{order_size-Sizes}
use plusplus_os.Memory.Frames.{
  alloc_frames_contiguos, find_contiguos, contiguos_round, split_block, split_first, give_address,
}
use plusplus_os.Memory.Frames.View.{covers, free_at, IsBlock, IsValid}
use plusplus_os.Memory.Frames.Effects.{taken-IsValid, first-IsBlock}
use plusplus_os.Memory.Frames.Take.{take_block_lem}
use plusplus_os.Memory.Frames.Sources.{IsStocked, stocked_supply}
use plusplus_os.Memory.Frames.Contract.{nothing_held}
use plusplus_os.Memory.Frames.Contiguos.{Crash, Search, find_contiguos-Search}

-- One block of order `k` that was free and is not any more, or nothing and no change, because the
-- last two free lists are empty.
abbrev pub Given : {X : Type 0} → ℕ → Mem X → Option ℕ → Mem X → Type 0
Given k s none t = (t ≡ s) × (s.lists.head 6 ≡ []) × (s.lists.head 7 ≡ [])
Given k s (some addr) t =
    IsBlock k addr
    × IsValid t.lists
    × ((x : ℕ)
        → free_at t.lists x + one_if (range_contains x addr (order_size k)) ≡ free_at s.lists x)

module _ {X : Type 0} (alloc_page : Cmd (Mem X) ℕ) (pages : ℕ) where
  -- A crash at the order that fits the pages.
  abbrev pub Crashes : Mem X → Stop → Type 0
  Crashes s e = (k : ℕ) × IsSmallest pages k × Crash s.lists k e

  give_address-Given :
      (k : ℕ) (s t : Mem X) {E : Stop → Type 0}
      → k < 8
      → (b : Bool) → Search (stocked_supply alloc_page nothing_held E) k s b t
      → Ends E (Given k s) (give_address alloc_page k b t)
  unfolding give_address free_memory_entry covers
  give_address-Given k s t low false (same, six, empty, last) = returns (same, empty, last)
  give_address-Given k s t low true (keeps, here, stock) =
      let taken = taken-IsValid t.lists keeps.valid k low here.first here.next here.eq in
      rw (take_block_lem t keeps.valid k low here.first here.next here.eq) (
        returns (
          first-IsBlock t.lists keeps.valid k low here.first here.next here.eq,
          taken.0.valid,
          λ x. omega (arith, taken.0.free x, taken.1 x, keeps.conserved x),
        ))

  -- alloc_frames_contiguos, for at most 128 pages and a pool with entries to spare: it gives the
  -- address of a free, aligned block of the smallest size that holds the pages, whose addresses
  -- are then not free any more and all others as before; or it changes nothing and says that there
  -- is none, with the two biggest orders empty. Else it crashes: the free lists of the order and
  -- of the two above are empty, or the order is the last one and its free list is empty.
  pub alloc_frames_contiguos_total :
      (s : Mem X)
      → IsValid s.lists
      → pages ≢ 0
      → pages ≤ 128
      → IsStocked 3 s.pool
      → Ends
          (Crashes s)
          (λ o t. (k : ℕ) × IsSmallest pages k × Given k s o t)
          (alloc_frames_contiguos alloc_page pages s)
  unfolding alloc_frames_contiguos
  alloc_frames_contiguos_total s v ne few stock =
      let (k, low, is, run) = min_order pages s ne few in
      let in_range : ltb k 8 ≡ true = ground arith in
      rw run (
        rw in_range (
          Machine.bind
            (find_contiguos-Search (stocked_supply alloc_page nothing_held (Crashes s)) k s low v
              stock λ e crash. (k, is, crash))
            λ b t found.
              Machine.mono (give_address-Given k s t low b found) λ o r given. (k, is, given)))

  null_found :
      (k : ℕ) (s : Mem X)
      → k + 2 < 8
      → Crash s.lists k null_pointer
      → find_contiguos alloc_page 16 k (k + 1) s ≡ stop null_pointer
  unfolding find_contiguos contiguos_round split_block split_first
  null_found k s low (first, second, third) =
      let in_range : ltb (k + 1) 8 ≡ true = ground arith in
      let more : leb 8 (k + 1 + 1) ≡ false = ground arith in
      let up : k + 1 + 1 ≡ k + 2 = omega arith in
      rw (first, find_contiguos)
        (rw in_range (rw (second, contiguos_round) (rw (more, up) (rw (third, split_first) refl))))

  -- When the free lists of the smallest order that holds the pages and of the two above are empty,
  -- alloc_frames_contiguos reads through the null pointer, also if a bigger block is free.
  pub alloc_frames_contiguos_null :
      (k : ℕ) (s : Mem X)
      → pages ≢ 0
      → IsSmallest pages k
      → k + 2 < 8
      → s.lists.head k ≡ []
      → s.lists.head (k + 1) ≡ []
      → s.lists.head (k + 2) ≡ []
      → alloc_frames_contiguos alloc_page pages s ≡ stop null_pointer
  unfolding alloc_frames_contiguos
  alloc_frames_contiguos_null k s ne is low first second third =
      let few : pages ≤ 128 = omega (arith, is.holds, (order_size-Sizes k (omega arith)).upper) in
      let (j, j_low, j_is, run) = min_order pages s ne few in
      let same : j ≡ k = IsSmallest-unique pages j k j_is is in
      let in_range : ltb k 8 ≡ true = ground arith in
      rw run (rw (same, in_range) (rw (null_found k s low (first, second, third)) refl))
