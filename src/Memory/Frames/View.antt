-- ===== src/Memory/Frames/View.antt =====
-- What the free lists of the frame allocator stand for, and when they are well formed.
use plusplus_os.Base.{
  ℕ, zero, suc, ◌+◌, ◌*◌, ◌/◌, ◌%◌, ◌^◌, ◌≤◌, ◌<◌, ◌≡◌, ◌≢◌, refl, arith, ◌==◌, Bool, List, ◌∷◌, [],
  one_if, update, tally, All, Bool-cases, ==_iff, ==-refl, inl, inr, ◌∙◌,
}
use plusplus_os.Memory.{ListEntry, PageFrameAllocation, FreeLists, set_head}
use plusplus_os.Memory.Orders.{order_size, range_contains}
use plusplus_os.Memory.Buddy.Bit.{pair_of, pair_bit}

-- The address `x` is in the block of order `k` at `e`.
unfoldable pub covers : ℕ → ℕ → ListEntry → Bool
covers x k e = range_contains x e.addr (order_size k)

unfoldable pub in_pair : ℕ → ℕ → ListEntry → Bool
in_pair k i e = pair_of k e.addr == i

-- The sum of the values below `n`.
unfoldable pub sum_below : ℕ → (ℕ → ℕ) → ℕ
sum_below zero f = 0
sum_below (suc n) f = f n + sum_below n f

-- How many free blocks an address is in.
unfoldable pub free_at : FreeLists → ℕ → ℕ
free_at f x = sum_below 8 (λ k. tally (covers x k) (f.head k))

-- How many blocks of an allocation an address is in.
unfoldable pub allocated_at : List PageFrameAllocation → ℕ → ℕ
allocated_at [] x = 0
allocated_at (a ∷ next) x =
    one_if (range_contains x a.addr (order_size a.order)) + allocated_at next x

-- A block is aligned to its size, and its addresses have at most 57 bits.
pub record IsBlock (k addr : ℕ) : Type 0 where
  pub aligned : addr / order_size k * order_size k ≡ addr
  pub fits : addr + order_size k ≤ 2 ^ 57

pub record IsEntry (k : ℕ) (e : ListEntry) : Type 0 where
  pub block : IsBlock k e.addr

-- Every free block is a block of its order, the buddy bit of a pair tells whether exactly one of
-- the two blocks is free, and no address is free twice.
pub record IsValid (f : FreeLists) : Type 0 where
  pub blocks : (k : ℕ) → k < 8 → All (IsEntry k) (f.head k)
  pub parity : (k i : ℕ) → k < 7 → pair_bit f k i ≡ tally (in_pair k i) (f.head k) % 2
  pub once : (x : ℕ) → free_at f x ≤ 1

sum_below-ext :
    (n : ℕ) (f g : ℕ → ℕ) → ((j : ℕ) → j < n → f j ≡ g j) → sum_below n f ≡ sum_below n g
unfolding sum_below
sum_below-ext zero f g h = refl
sum_below-ext (suc n) f g h =
    omega (arith, h n (omega arith), sum_below-ext n f g (λ j p. h j (omega arith)))

-- Two families that agree but at `k` have sums that differ as the families do at `k`.
sum_below_change :
    (n k : ℕ) (f g : ℕ → ℕ)
    → k < n
    → ((j : ℕ) → j ≢ k → f j ≡ g j)
    → sum_below n f + g k ≡ sum_below n g + f k
unfolding sum_below
sum_below_change zero k f g p h = absurd (omega arith)
sum_below_change (suc n) k f g p h = elim (Bool-cases (n == k)) [
  | inl e ↦
      let same : n ≡ k = (==_iff _ _).0 e in
      rw same (omega (arith, sum_below-ext k f g (λ j q. h j (omega arith))))
  | inr e ↦ omega (arith, h n (ground arith), sum_below_change n k f g (ground arith) h)
]

-- The first free list that is changed changes the free addresses by the difference.
pub free_at-set_head :
    (f : FreeLists) (k : ℕ) (l : List ListEntry) (x : ℕ)
    → k < 8
    → free_at (set_head k l f) x + tally (covers x k) (f.head k)
      ≡ free_at f x + tally (covers x k) l
unfolding free_at update
free_at-set_head f k l x h =
    sum_below_change 8 k (λ j. tally (covers x j) (update f.head k l j))
      (λ j. tally (covers x j) (f.head j)) h (λ j ne. ground arith)
    ∙ rw (==-refl k)

le-sum_below : (n k : ℕ) (g : ℕ → ℕ) → k < n → g k ≤ sum_below n g
unfolding sum_below
le-sum_below zero k g h = absurd (omega arith)
le-sum_below (suc n) k g h = elim (Bool-cases (n == k)) [
  | inl e ↦ let same : n ≡ k = ground arith in rw same (omega arith)
  | inr e ↦ omega (arith, le-sum_below n k g (ground arith))
]

pub tally-le-free_at :
    (f : FreeLists) (k x : ℕ) → k < 8 → tally (covers x k) (f.head k) ≤ free_at f x
unfolding free_at
tally-le-free_at f k x h = le-sum_below 8 k (λ j. tally (covers x j) (f.head j)) h

pub free_at-empty : (f : FreeLists) (x : ℕ) → ((j : ℕ) → j < 8 → f.head j ≡ []) → free_at f x ≡ 0
unfolding free_at sum_below tally
free_at-empty f x empty =
    sum_below-ext 8 (λ j. tally (covers x j) (f.head j)) (λ j. 0) (λ j h. rw (empty j h))
