-- ===== src/Memory/Frames/Contract.antt =====
-- What alloc_frames and free_frames promise.
use plusplus_os.Base.{
  ℕ, ◌+◌, ◌-◌, ◌*◌, ◌≤◌, ◌<◌, ◌≡◌, refl, arith, Option, none, some, List, All, length,
}
use plusplus_os.Machine
use plusplus_os.Machine.{Cmd, Stop, Ends, Never, returns, pure}
use plusplus_os.Memory.{PageFrameAllocation, Mem}
use plusplus_os.Memory.Frames.{alloc_frames, free_frames}
use plusplus_os.Memory.Frames.View.{free_at, allocated_at, IsValid}
use plusplus_os.Memory.Frames.Free.{IsAllocation, free_frames-Released}
use plusplus_os.Memory.Frames.Progress.{length-le-total}
use plusplus_os.Memory.Frames.Alloc.{AllocResult, alloc_frames-AllocResult}
use plusplus_os.Memory.Frames.Supply.{Supply, weaken_by}
use plusplus_os.Memory.Frames.Sources.{IsStocked, stocked_supply}

abbrev pub nothing_held : {X : Type 0} → X → ℕ → ℕ
nothing_held _ x = 0

module _ {X : Type 0} where
  -- Gives an allocation back, if there is one.
  abbrev pub release : Option (List PageFrameAllocation) → Cmd (Mem X) (Unit {0})
  release none = pure tt
  release (some l) = free_frames l

module _ {X : Type 0} (alloc_page : Cmd (Mem X) ℕ) where
  abbrev pub stocked : Supply X
  stocked = stocked_supply alloc_page nothing_held Never

  -- With well-formed free lists, fewer than 128 pages and a pool with entries to spare,
  -- alloc_frames returns. Either it gives blocks of existing orders, aligned to their sizes, of
  -- exactly `pages` pages in all, whose addresses were free and are not free any more, while every
  -- other address is as free as before; or it gives nothing, every address is as free as before,
  -- and the free addresses are those of blocks that are together smaller than what was asked for.
  -- The free lists stay well formed.
  pub alloc_frames_total :
      (pages : ℕ) (s : Mem X)
      → IsValid s.lists
      → pages < 128
      → IsStocked (14 * pages) s.pool
      → Ends Never
          (AllocResult stocked s (pages * 4096) (7 * pages))
          (alloc_frames alloc_page pages s)
  alloc_frames_total pages s v few stock =
      let split : 14 * pages ≡ 7 * pages + 7 * pages = omega arith in
      alloc_frames-AllocResult stocked s (pages * 4096) (7 * pages) v pages refl (omega arith)
        (omega arith) (rw split at stock) (λ many. absurd (omega arith))

  release-restores :
      (pages : ℕ) (s : Mem X)
      → IsValid s.lists
      → (o : Option (List PageFrameAllocation)) (t : Mem X)
      → AllocResult stocked s (pages * 4096) (7 * pages) o t
      → Ends Never
          (λ _ r. IsValid r.lists × ((x : ℕ) → free_at r.lists x ≡ free_at s.lists x))
          (release o t)
  release-restores pages s v none t back =
      returns (back.valid, λ x. omega (arith, back.conserved x))
  release-restores pages s v (some l) t (p, stock) =
      let short : 7 * pages ≡ (7 * pages - 7 * length l) + (7 * length l + 0) =
        omega (arith, length-le-total l p.blocks, p.sum) in
      Machine.mono
        (free_frames-Released stocked Never 0 l t p.blocks
          (weaken_by stocked (7 * pages - 7 * length l) (7 * length l + 0) t.pool
            (rw short at stock))
          p.valid (λ x. omega (arith, p.less x, v.once x)))
        λ _ r back. (back.valid, λ x. omega (arith, back.free x, p.conserved x))

  -- Freeing what alloc_frames gave makes every address as free as it was before the allocation,
  -- and leaves the free lists well formed: nothing is lost, and nothing is free twice. Both calls
  -- return, under the conditions of alloc_frames_total.
  pub free_frames-alloc_frames :
      (pages : ℕ) (s : Mem X)
      → IsValid s.lists
      → pages < 128
      → IsStocked (14 * pages) s.pool
      → Ends Never
          (λ _ t. IsValid t.lists × ((x : ℕ) → free_at t.lists x ≡ free_at s.lists x))
          (Machine.and_then (alloc_frames alloc_page pages s) release)
  free_frames-alloc_frames pages s v few stock =
      Machine.bind (alloc_frames_total pages s v few stock) (release-restores pages s v)

  -- free_frames returns when its blocks are of existing orders and aligned, none of their
  -- addresses is free and no two of them overlap: in particular the buddy of a block that it
  -- merges is always in the free list. Exactly the addresses of the blocks become free, and the
  -- free lists stay well formed.
  pub free_frames_total :
      (l : List PageFrameAllocation) (s : Mem X)
      → IsValid s.lists
      → All IsAllocation l
      → ((x : ℕ) → free_at s.lists x + allocated_at l x ≤ 1)
      → IsStocked (7 * length l) s.pool
      → Ends Never
          (λ _ t.
            IsValid t.lists × ((x : ℕ) → free_at t.lists x ≡ free_at s.lists x + allocated_at l x))
          (free_frames l s)
  free_frames_total l s v all fresh stock =
      let more : 7 * length l ≡ 7 * length l + 0 = omega arith in
      Machine.mono (free_frames-Released stocked Never 0 l s all (rw more at stock) v fresh)
        λ _ t r. (r.valid, r.free)
