-- ===== src/Memory/Buddy/Bit.antt =====
-- What calc_buddy_index, get_buddy_bit and toggle_buddy_bit compute: one bit for each pair of
-- buddies of an order.
use native.Mathlib.Nat.{div-le_self, one-mul}
use plusplus_os.Base.{
  ℕ, ◌+◌, ◌-◌, ◌*◌, ◌/◌, ◌%◌, ◌^◌, ◌<◌, ◌≡◌, ap, sym, ◌∙◌, arith, ltb, ◌==◌, ◌&&◌, true,
  if◌then◌else◌, one_if, bit_and, update, Bool-cases, ==_iff, inl, inr,
}
use plusplus_os.Base.Bits.{
  bit_and_low, bit_and_mask, bit_and-one, bit_at, bit_at-lt, bit_at-shift, bit_at-xor,
}
use plusplus_os.Machine.{ok}
use plusplus_os.Memory.{FreeLists, Mem, set_lists}
use plusplus_os.Memory.Orders.{order_size}
use plusplus_os.Memory.Buddy.{
  BuddyIndex, buddy_index, calc_buddy_index, toggle_word, get_buddy_bit, toggle_buddy_bit,
}

-- The number of the pair that a block is in.
unfoldable pub pair_of : ℕ → ℕ → ℕ
pair_of k addr = addr / order_size k / 2

-- The bit of pair `i` of order `k`.
unfoldable pub pair_bit : FreeLists → ℕ → ℕ → ℕ
pair_bit f k i = bit_at (i % 64) (f.buddy_map k (i / 64))

pub bit_and_high : (x : ℕ) → x < 2 ^ 64 → bit_and x (2 ^ 64 - 64) ≡ x / 64 * 64
bit_and_high x h = omega (
  arith,
  bit_and_low x (2 ^ 64 - 64),
  bit_and_low (x / 2) (2 ^ 63 - 32),
  bit_and_low (x / 2 / 2) (2 ^ 62 - 16),
  bit_and_low (x / 2 / 2 / 2) (2 ^ 61 - 8),
  bit_and_low (x / 2 / 2 / 2 / 2) (2 ^ 60 - 4),
  bit_and_low (x / 2 / 2 / 2 / 2 / 2) (2 ^ 59 - 2),
  bit_and_mask 58 (x / 2 / 2 / 2 / 2 / 2 / 2),
)

index_of : ℕ → BuddyIndex
index_of i = record { arr_index = i / 64; bit_index = i % 64 }

buddy_index_lem : (k addr : ℕ) → addr < 2 ^ 64 → buddy_index addr k ≡ index_of (pair_of k addr)
unfolding buddy_index pair_of index_of
buddy_index_lem k addr h =
    let block = addr / order_size k in
    let small : block < 2 ^ 64 = omega (arith, div-le_self addr (order_size k)) in
    let half : (block - block % 2) / 2 ≡ block / 2 = omega arith in
    rw half (ground (arith, bit_and_high (block / 2) (omega arith), bit_and_mask 6 (block / 2)))

-- The effect of toggle_buddy_bit on the free lists: none for the last order.
unfoldable pub toggled : ℕ → ℕ → FreeLists → FreeLists
unfolding toggle_word index_of
toggled k addr f = if k == 7 then f else record f {
  buddy_map = update f.buddy_map k (toggle_word (index_of (pair_of k addr)) (f.buddy_map k));
}

pub toggled-head : (k addr : ℕ) (f : FreeLists) → (toggled k addr f).head ≡ f.head
unfolding toggled
toggled-head k addr f = ground arith

module _ {X : Type 0} where
  pub toggle_buddy_bit_lem :
      (k addr : ℕ) (s : Mem X)
      → k < 8
      → addr < 2 ^ 64
      → toggle_buddy_bit addr k s ≡ ok tt (set_lists (toggled k addr s.lists) s)
  unfolding toggle_buddy_bit calc_buddy_index toggled
  toggle_buddy_bit_lem k addr s hk h = elim (Bool-cases (k == 7)) [
    | inl e ↦ rw e
    | inr e ↦ let low : ltb k 7 ≡ true = ground arith in rw (e, low, buddy_index_lem k addr h)
  ]

  pub get_buddy_bit_lem :
      (k addr : ℕ) (s : Mem X)
      → k < 7
      → addr < 2 ^ 64
      → get_buddy_bit addr k s ≡ ok (pair_bit s.lists k (pair_of k addr) == 1) s
  unfolding get_buddy_bit calc_buddy_index pair_bit index_of
  get_buddy_bit_lem k addr s hk h =
      let low : ltb k 7 ≡ true = ground arith in
      rw (low, buddy_index_lem k addr h)
        (ap (λ (t : ℕ). ok (t == 1) s) (bit_and-one _ ∙ sym (bit_at-shift (pair_of k addr % 64) _)))

toggle_word-bit :
    (p i : ℕ) (words : ℕ → ℕ)
    → bit_at (i % 64) (toggle_word (index_of p) words (i / 64))
      ≡ (bit_at (i % 64) (words (i / 64)) + one_if (p == i)) % 2
unfolding toggle_word update index_of
toggle_word-bit p i words = elim (Bool-cases (i / 64 == p / 64)) [
  | inl e ↦
      let same : i / 64 ≡ p / 64 = (==_iff _ _).0 e in
      rw (e, ← same, one-mul, bit_at-xor) (ground arith)
  | inr e ↦ rw e (ground (arith, bit_at-lt (i % 64) (words (i / 64))))
]

-- A toggle flips the bit of its own pair and no other.
pub pair_bit-toggled :
    (k addr : ℕ) (f : FreeLists) (j i : ℕ)
    → j < 7
    → pair_bit (toggled k addr f) j i
      ≡ (pair_bit f j i + one_if (k == j && pair_of k addr == i)) % 2
unfolding pair_bit toggled update
pair_bit-toggled k addr f j i hj = ground (
  arith,
  toggle_word-bit (pair_of k addr) i (f.buddy_map k),
  bit_at-lt (i % 64) (f.buddy_map j (i / 64)),
)

pub pair_bit-lt : (f : FreeLists) (k i : ℕ) → pair_bit f k i < 2
unfolding pair_bit
pair_bit-lt f k i = bit_at-lt (i % 64) (f.buddy_map k (i / 64))
