-- ===== src/Memory/Frames/Tests.antt =====
-- The theorems of the frame allocator at concrete states.
use plusplus_os.Base.{
  none, some, true, false, suc, zero, ◌⊎◌, ℕ, ◌+◌, ◌*◌, ◌/◌, ◌%◌, ◌∙◌, false, All, tally,
  Bool-cases, ==_iff, inl, inr, ◌≤◌, ◌<◌, ◌≡◌, refl, arith, ◌==◌, if◌then◌else◌, List, [], ◌∷◌,
}
use plusplus_os.Base.Bits.{bit_at, bit_at-zero}
use plusplus_os.Machine.{ok, stop, null_pointer, Cmd, Ends, Never, pure, and_then}
use plusplus_os.Memory.{
  set_lists, list_entry, frame_allocation, FreeLists, MemoryEntryPool, PageFrameAllocation, Mem,
}
use plusplus_os.Memory.EntryPool.{push_entries}
use plusplus_os.Memory.Orders.{get_min_size_frame_order, order_size, range_contains, bound_contains}
use plusplus_os.Memory.Buddy.{toggle_buddy_bit, get_buddy_bit}
use plusplus_os.Memory.Buddy.Bit.{pair_bit, toggled, pair_of, get_buddy_bit_lem}
use plusplus_os.Memory.Buddy.Flip.{get_buddy_bit-toggle_buddy_bit}
use plusplus_os.Memory.Orders.Fit.{IsSmallest, get_min_size_frame_order-IsSmallest}
use plusplus_os.Memory.Frames.Contiguos.Contract.{
  Crashes, Given, alloc_frames_contiguos_total, alloc_frames_contiguos_null,
}
use plusplus_os.Memory.Frames.{alloc_frames, free_frames, alloc_frames_contiguos}
use plusplus_os.Memory.Frames.View.{
  free_at, allocated_at, IsEntry, IsValid, in_pair, free_at-empty, sum_below,
}
use plusplus_os.Memory.Frames.Alloc.{AllocResult}
use plusplus_os.Memory.Frames.Free.{IsAllocation}
use plusplus_os.Memory.Frames.Sources.{IsStocked}
use plusplus_os.Memory.Frames.Allocations.Pages.{measure, calculate_allocation_pages-alloc_frames}
use plusplus_os.Memory.Frames.Contract.{
  stocked, release, alloc_frames_total, free_frames-alloc_frames, free_frames_total,
}

-- No block is free.
abbrev pub no_blocks : FreeLists
no_blocks = record { head = λ k. []; buddy_map = λ k i. 0 }

-- One block of the last order, at address 0.
abbrev one_block : FreeLists
one_block = record { head = λ k. if k == 7 then list_entry 16 0 ∷ [] else []; buddy_map = λ k i. 0 }

abbrev pub hundred_entries : MemoryEntryPool
hundred_entries = record { count = 100; head = push_entries 100 1600 [] }

abbrev few_entries : MemoryEntryPool
few_entries = record { count = 2; head = 1600 ∷ 1616 ∷ [] }

abbrev kernel : FreeLists → MemoryEntryPool → Mem (Unit {0})
kernel f p = record { lists = f; pool = p; rest = tt }

-- alloc_pages that always maps the same page.
abbrev same_page : Cmd (Mem (Unit {0})) ℕ
same_page = pure 0x200000

pub hundred_entries-IsStocked : (n : ℕ) → n ≤ 80 → IsStocked n hundred_entries
unfolding push_entries
hundred_entries-IsStocked n h = record {
  counted = refl;
  enough = omega arith;
  bounded = omega arith;
}

zero_map-pair_bit : (f : FreeLists) (k i : ℕ) → f.buddy_map k (i / 64) ≡ 0 → pair_bit f k i ≡ 0
unfolding pair_bit
zero_map-pair_bit f k i h = rw h (bit_at-zero (i % 64))

no_blocks-IsValid : IsValid no_blocks
unfolding tally
no_blocks-IsValid = record {
  blocks = λ k h. tt;
  parity = λ k i h. zero_map-pair_bit no_blocks k i refl;
  once = λ x. omega (arith, free_at-empty no_blocks x λ j h. refl);
}

one_block-blocks : (k : ℕ) → k < 8 → All (IsEntry k) (one_block.head k)
unfolding order_size
one_block-blocks k h = elim (Bool-cases (k == 7)) [
  | inl e ↦
      let same : k ≡ 7 = (==_iff k 7).0 e in
      rw same (record { block = record { aligned = refl; fits = omega arith } }, tt)
  | inr e ↦ rw e tt
]

one_block-parity :
    (k i : ℕ) → k < 7 → pair_bit one_block k i ≡ tally (in_pair k i) (one_block.head k) % 2
unfolding tally
one_block-parity k i h =
    let low : (k == 7) ≡ false = ground arith in zero_map-pair_bit one_block k i refl ∙ rw low refl

one_block-once : (x : ℕ) → free_at one_block x ≤ 1
unfolding free_at sum_below tally
one_block-once x = ground arith

one_block-IsValid : IsValid one_block
one_block-IsValid = record {
  blocks = one_block-blocks;
  parity = one_block-parity;
  once = one_block-once;
}

alloc_frames_total_example :
    Ends Never
      (AllocResult (stocked same_page) (kernel one_block hundred_entries) (5 * 4096) (7 * 5))
      (alloc_frames same_page 5 (kernel one_block hundred_entries))
alloc_frames_total_example =
    alloc_frames_total same_page 5 (kernel one_block hundred_entries) one_block-IsValid
      (omega arith) (hundred_entries-IsStocked 70 (omega arith))

free_frames-alloc_frames_example :
    Ends Never
      (λ _ t. IsValid t.lists × ((x : ℕ) → free_at t.lists x ≡ free_at one_block x))
      (and_then (alloc_frames same_page 5 (kernel one_block hundred_entries)) release)
free_frames-alloc_frames_example =
    free_frames-alloc_frames same_page 5 (kernel one_block hundred_entries) one_block-IsValid
      (omega arith) (hundred_entries-IsStocked 70 (omega arith))

-- Two buddies of order 6, which are merged.
abbrev two_halves : List PageFrameAllocation
two_halves = frame_allocation 16 0 6 ∷ frame_allocation 32 262144 6 ∷ []

two_halves-IsAllocation : All IsAllocation two_halves
unfolding order_size
two_halves-IsAllocation = (
  record { low = omega arith; block = record { aligned = refl; fits = omega arith } },
  (record { low = omega arith; block = record { aligned = refl; fits = omega arith } }, tt),
)

two_halves-fresh : (x : ℕ) → free_at no_blocks x + allocated_at two_halves x ≤ 1
unfolding allocated_at order_size range_contains bound_contains
two_halves-fresh x = ground (arith, free_at-empty no_blocks x (λ j h. refl))

free_frames_total_example :
    Ends Never
      (λ _ t.
        IsValid t.lists
        × ((x : ℕ) → free_at t.lists x ≡ free_at no_blocks x + allocated_at two_halves x))
      (free_frames two_halves (kernel no_blocks hundred_entries))
free_frames_total_example =
    free_frames_total same_page two_halves (kernel no_blocks hundred_entries) no_blocks-IsValid
      two_halves-IsAllocation two_halves-fresh (hundred_entries-IsStocked 14 (omega arith))

three_pages_smaller : (j : ℕ) → j < 2 → order_size j < 3 * 4096
unfolding order_size
three_pages_smaller zero h = omega arith
three_pages_smaller (suc zero) h = omega arith
three_pages_smaller (suc (suc j)) h = absurd (omega arith)

-- Three pages need a block of order 2.
three_pages-IsSmallest : IsSmallest 3 2
unfolding order_size
three_pages-IsSmallest = record { holds = omega arith; smallest = three_pages_smaller }

get_min_size_frame_order-IsSmallest_example :
    Ends Never
      (λ k t.
        (t ≡ kernel one_block few_entries)
        × (((k < 8) × IsSmallest 100 k) ⊎ ((k ≡ 8) × (order_size 7 < 100 * 4096))))
      (get_min_size_frame_order 100 (kernel one_block few_entries))
get_min_size_frame_order-IsSmallest_example =
    get_min_size_frame_order-IsSmallest 100 (kernel one_block few_entries) (omega arith)
      (omega arith)

alloc_frames_contiguos_total_example :
    Ends
      (Crashes same_page 64 (kernel one_block hundred_entries))
      (λ o t. (k : ℕ) × IsSmallest 64 k × Given k (kernel one_block hundred_entries) o t)
      (alloc_frames_contiguos same_page 64 (kernel one_block hundred_entries))
alloc_frames_contiguos_total_example =
    alloc_frames_contiguos_total same_page 64 (kernel one_block hundred_entries) one_block-IsValid
      (omega arith) (omega arith) (hundred_entries-IsStocked 3 (omega arith))

alloc_frames_contiguos_null_example :
    alloc_frames_contiguos same_page 3 (kernel one_block hundred_entries) ≡ stop null_pointer
alloc_frames_contiguos_null_example =
    alloc_frames_contiguos_null same_page 3 2 (kernel one_block hundred_entries) (omega arith)
      three_pages-IsSmallest (omega arith) refl refl refl

-- The blocks of order 0 at 0x5000 and 0x4000 are buddies.
get_buddy_bit-toggle_buddy_bit_example :
    and_then
      (toggle_buddy_bit 0x5000 0 (kernel one_block few_entries))
      (λ _. get_buddy_bit 0x4000 0)
    ≡ ok true (set_lists (toggled 0 0x5000 one_block) (kernel one_block few_entries))
unfolding pair_bit bit_at pair_of order_size
get_buddy_bit-toggle_buddy_bit_example =
    get_buddy_bit-toggle_buddy_bit 0 0x5000 0 0x4000 (kernel one_block few_entries) false
      (omega arith) (omega arith) (omega arith) (omega arith)
      (get_buddy_bit_lem 0 0x4000 (kernel one_block few_entries) (omega arith) (omega arith))

calculate_allocation_pages-alloc_frames_example :
    Ends Never
      (λ n r. (n ≡ none) ⊎ (n ≡ some 5))
      (and_then (alloc_frames same_page 5 (kernel one_block hundred_entries)) measure)
calculate_allocation_pages-alloc_frames_example =
    calculate_allocation_pages-alloc_frames same_page 5 (kernel one_block hundred_entries)
      one_block-IsValid (omega arith) (hundred_entries-IsStocked 70 (omega arith))
