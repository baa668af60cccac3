-- ===== src/Memory/Frames/Alloc.antt =====
-- alloc_frames: it returns what was asked for out of blocks that were free, or nothing.
use native.Mathlib.Nat.{le_trans}
use plusplus_os.Base.{
  ℕ, zero, suc, ◌+◌, ◌-◌, ◌*◌, ◌^◌, ◌≤◌, ◌<◌, ◌≡◌, arith, ◌==◌, false, List, ◌∷◌, [], ◌++◌, subst,
  Option, none, some, length, sub64, mul64,
}
use plusplus_os.Machine
use plusplus_os.Machine.{Run, Cmd, Stop, ok, out_of_bounds, Ends, returns}
use plusplus_os.Memory.{ListEntry, PageFrameAllocation, frame_allocation, Mem}
use plusplus_os.Memory.EntryPool.{page_size}
use plusplus_os.Memory.Orders.{order_size}
use plusplus_os.Memory.Orders.Sizes.{order_size-Sizes}
use plusplus_os.Memory.Frames.{alloc_loop, alloc_order, alloc_found, alloc_frames}
use plusplus_os.Memory.Frames.View.{covers, free_at, free_at-empty, allocated_at, IsValid}
use plusplus_os.Memory.Frames.Effects.{taken-IsValid, first-IsBlock}
use plusplus_os.Memory.Frames.Supply.{Keeps, Supply, weaken_by}
use plusplus_os.Memory.Frames.Take.{take_block_lem, without}
use plusplus_os.Memory.Frames.Find.{FindResult}
use plusplus_os.Memory.Frames.Find.Up.{find_block-FindResult}
use plusplus_os.Memory.Frames.Free.{free_frames-Released}
use plusplus_os.Memory.Frames.Progress.{
  total, total-append, allocated_at-append, All-append, order_size_mono, order_size_seven,
  length-le-total, fitting_orders-Fits, allocation_of_entry, Progress,
}

module _ {X : Type 0} (u : Supply X) (s : Mem X) (whole spare : ℕ) where
  open u use {alloc_page, held, Admits, Stock}

  abbrev Collected : List PageFrameAllocation → ℕ → Mem X → Type 0
  Collected = Progress held s whole

  -- The block that is taken is collected.
  module _ (t : Mem X) (front : List PageFrameAllocation) (size : ℕ) (p : Collected front size t)
      (k : ℕ) (low : k < 8) (fit : order_size k ≤ size) (e : ListEntry) (next : List ListEntry)
      (first : t.lists.head k ≡ e ∷ next) where
    abbrev block : PageFrameAllocation
    block = frame_allocation e.node e.addr k

    Progress-take :
        Collected (front ++ block ∷ []) (size - order_size k) (without t p.valid k low e next first)
    unfolding total allocated_at covers
    Progress-take =
        let taken = taken-IsValid t.lists p.valid k low e next first in
        let b = first-IsBlock t.lists p.valid k low e next first in
        record {
          valid = taken.0.valid;
          blocks = All-append front block p.blocks (record { low = low; block = b });
          sum = omega (arith, p.sum, total-append front (block ∷ []));
          conserved = λ x. omega (
            arith,
            p.conserved x,
            taken.0.free x,
            taken.1 x,
            allocated_at-append front (block ∷ []) x,
          );
          less = λ x. omega (
            arith,
            p.less x,
            taken.0.free x,
            taken.1 x,
            allocated_at-append front (block ∷ []) x,
          );
        }

  -- get_memory_entry may have taken blocks away while the search ran.
  Progress-Keeps :
      (front : List PageFrameAllocation) (size : ℕ) (t r : Mem X)
      → Collected front size t
      → Keeps held t r
      → Collected front size r
  Progress-Keeps front size t r p k = record {
    valid = k.valid;
    blocks = p.blocks;
    sum = p.sum;
    conserved = λ x. omega (arith, p.conserved x, k.conserved x);
    less = λ x. omega (arith, p.less x, k.less x);
  }

  -- Everything that was collected is free again. There was no free block left, so the addresses
  -- that are free now are those of some blocks that are together smaller than what was asked for.
  pub record Restored (t : Mem X) : Type 0 where
    pub valid : IsValid t.lists
    pub conserved : (x : ℕ) → free_at t.lists x + held t.rest x ≡ free_at s.lists x + held s.rest x
    pub blocks : List PageFrameAllocation
    pub too_few : total blocks < whole
    pub all_free : (x : ℕ) → free_at t.lists x ≡ allocated_at blocks x

  abbrev pub AllocResult : Option (List PageFrameAllocation) → Mem X → Type 0
  AllocResult (some l) t = Progress held s whole l 0 t × Stock spare t.pool
  AllocResult none t = Restored t

  module _ (v : IsValid s.lists) where
    exhausted-Restored :
        (n : ℕ) (t : Mem X) (front : List PageFrameAllocation) (size : ℕ)
        → Collected front size t
        → 0 < size
        → 7 * length front ≤ n
        → Stock n t.pool
        → ((j : ℕ) → j < 8 → t.lists.head j ≡ [])
        → (next : ℕ → PageFrameAllocation → Cmd (Mem X) (Option (List PageFrameAllocation)))
        → Ends Admits AllocResult (alloc_found alloc_page next front none t)
    unfolding alloc_found
    exhausted-Restored n t front size p pos room stock empty next =
        let split : n ≡ 7 * length front + (n - 7 * length front) = omega arith in
        Machine.bind
          (free_frames-Released u Admits (n - 7 * length front) front t p.blocks
            (subst (λ (m : ℕ). Stock m t.pool) split stock) p.valid
            (λ x. omega (arith, p.less x, v.once x)))
          λ _ r back. returns (record {
            valid = back.valid;
            conserved = λ x. rw back.rest (omega (arith, back.free x, p.conserved x));
            blocks = front;
            too_few = omega (arith, p.sum);
            all_free = λ x. omega (arith, back.free x, free_at-empty t.lists x empty);
          })

    -- `next` goes on from what is collected with the block that was found.
    abbrev GoesOn :
        ℕ
        → List PageFrameAllocation
        → ℕ
        → (ℕ → PageFrameAllocation → Cmd (Mem X) (Option (List PageFrameAllocation)))
        → Type 0
    GoesOn n front size next =
        (k : ℕ) (a : PageFrameAllocation) (r : Mem X)
        → k < 8
        → order_size k ≤ size
        → Stock n r.pool
        → Collected (front ++ a ∷ []) (size - order_size k) r
        → Ends Admits AllocResult (next k a r)

    found-Ends :
        (n target size : ℕ) (front : List PageFrameAllocation) (t : Mem X)
        → target < 8
        → order_size target ≤ size
        → Collected front size t
        → 7 * length front ≤ n
        → (next : ℕ → PageFrameAllocation → Cmd (Mem X) (Option (List PageFrameAllocation)))
        → GoesOn n front size next
        → (o : Option ℕ) (r : Mem X) → FindResult u n t target o r
        → Ends Admits AllocResult (alloc_found alloc_page next front o r)
    unfolding alloc_found
    found-Ends n target size front t low fit p room next go none r ex = rw ex.same (
        exhausted-Restored n t front size p
          (omega (arith, fit, (order_size-Sizes target low).lower)) room
          (subst (λ (q : Mem X). Stock n q.pool) ex.same ex.stock) ex.empty next)
    found-Ends n target size front t low fit p room next go (some k) r (le, f) =
        let e = f.starts.first in
        let p' = Progress-Keeps front size t r p f.keeps in
        let k_lt : k < 8 = omega arith in
        let fits : order_size k ≤ size = le_trans (order_size_mono k target le low) fit in
        let b = first-IsBlock r.lists f.keeps.valid k k_lt e f.starts.next f.starts.eq in
        rw (take_block_lem r f.keeps.valid k k_lt e f.starts.next f.starts.eq) (
          rw (allocation_of_entry k e k_lt b) (
            go k (frame_allocation e.node e.addr k) _ k_lt fits f.stock
              (Progress-take r front size p' k k_lt fits e f.starts.next f.starts.eq)))

    -- The search, and what follows from its result.
    find-Ends :
        (n target size : ℕ) (front : List PageFrameAllocation) (t : Mem X)
        → target < 8
        → order_size target ≤ size
        → Stock (7 + n) t.pool
        → Collected front size t
        → 7 * length front ≤ n
        → (target ≡ 7 → Admits out_of_bounds)
        → (next : ℕ → PageFrameAllocation → Cmd (Mem X) (Option (List PageFrameAllocation)))
        → GoesOn n front size next
        → Ends Admits AllocResult (
            Machine.and_then
              (alloc_order alloc_page (suc target) t)
              (alloc_found alloc_page next front))
    unfolding alloc_order
    find-Ends n target size front t low fit stock p room past next go =
        Machine.bind
          (find_block-FindResult u n target (7 - target) 16 (target + 1) t (omega arith)
            (omega arith) (omega arith) p.valid stock (λ j lt le. absurd (omega arith))
            (λ e. past (omega arith)))
          (found-Ends n target size front t low fit p room next go)

    alloc_loop-AllocResult :
        (asked : ℕ)
        → asked * 4096 ≡ whole
        → 7 * asked ≤ spare
        → (fuel pages : ℕ) (front : List PageFrameAllocation) (t : Mem X) → pages < fuel
        → pages * 4096 < 2 ^ 64
        → Stock (7 * pages + spare) t.pool
        → Collected front (pages * 4096) t
        → (128 ≤ pages → Admits out_of_bounds)
        → Ends Admits AllocResult (alloc_loop alloc_page fuel (pages * 4096) front t)
    unfolding alloc_loop
    alloc_loop-AllocResult asked all kept zero pages front t enough small stock p past =
        absurd (omega arith)
    alloc_loop-AllocResult asked all kept (suc fuel) zero front t enough small stock p past =
        returns (p, weaken_by u (7 * 0) spare t.pool stock)
    alloc_loop-AllocResult asked all kept (suc fuel) (suc pages) front t enough small stock p past =
        let size = suc pages * 4096 in
        let more : (size == 0) ≡ false = ground arith in
        let f = fitting_orders-Fits size (omega arith) in
        let more_stock : 7 * suc pages + spare ≡ 7 + (7 * pages + spare) = omega arith in
        let room : 7 * length front ≤ 7 * pages + spare =
          omega (arith, length-le-total front p.blocks, p.sum) in
        rw more (
          rw f.eq (
            find-Ends (7 * pages + spare) f.target size front t f.low f.fit (rw more_stock at stock)
              p room (λ e. past (omega (arith, order_size_seven, rw e at f.fit))) _
              λ k a r k_lt fit stock' c.
                let z = order_size-Sizes k k_lt in
                let left = suc pages - 2 ^ k in
                let same : sub64 size (order_size k) ≡ left * 4096 = omega (arith, z.pages) in
                let same' : size - order_size k ≡ left * 4096 = omega (arith, z.pages) in
                let lt : left ≤ pages = omega (arith, z.pages, z.lower) in
                let split : 7 * pages + spare ≡ 7 * (pages - left) + (7 * left + spare) =
                  omega arith in
                rw same (
                  alloc_loop-AllocResult asked all kept fuel left (front ++ a ∷ []) r (omega arith)
                    (omega arith)
                    (weaken_by u (7 * (pages - left)) (7 * left + spare) r.pool
                      (rw split at stock'))
                    (rw same' at c) (λ h. past (omega arith)))))

    -- alloc_frames ends, either with blocks that are together as big as what was asked for, were
    -- all free and no longer are, or with nothing when there is too little memory.
    pub alloc_frames-AllocResult :
        (pages : ℕ)
        → pages * 4096 ≡ whole
        → whole < 2 ^ 64
        → 7 * pages ≤ spare
        → Stock (7 * pages + spare) s.pool
        → (128 ≤ pages → Admits out_of_bounds)
        → Ends Admits AllocResult (alloc_frames alloc_page pages s)
    unfolding alloc_frames total allocated_at
    alloc_frames-AllocResult pages e small kept stock past =
        let size : mul64 pages page_size ≡ pages * 4096 = omega arith in
        rw size (
          alloc_loop-AllocResult pages e kept (pages + 1) pages [] s (omega arith) (omega arith)
            stock
            (record {
              valid = v;
              blocks = tt;
              sum = omega arith;
              conserved = λ x. omega arith;
              less = λ x. omega arith;
            })
            past)
