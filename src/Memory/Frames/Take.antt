-- ===== src/Memory/Frames/Take.antt =====
-- Taking the first block of a free list, and splitting it.
use plusplus_os.Base.{ℕ, suc, ◌+◌, ◌-◌, ◌<◌, ◌≡◌, arith, List, ◌∷◌, update, add64}
use plusplus_os.Machine
use plusplus_os.Machine.{Run, Cmd, Stop, ok, stop, Ends, returns, stops}
use plusplus_os.Memory.{ListEntry, list_entry, Mem, set_lists, set_head}
use plusplus_os.Memory.Orders.{order_size}
use plusplus_os.Memory.Orders.Sizes.{order_size-Sizes}
use plusplus_os.Memory.Buddy.Bit.{toggled, toggle_buddy_bit_lem}
use plusplus_os.Memory.Frames.{take_block, take_first, split_entry, split_first, split_block}
use plusplus_os.Memory.Frames.View.{covers, IsBlock, IsValid}
use plusplus_os.Memory.Frames.Effects.{taken-IsValid, first-IsBlock, halved-IsValid}
use plusplus_os.Memory.Frames.Supply.{Keeps, Supply}

-- After a split there is a block of the order below.
pub record IsSplit {X : Type 0} (u : Supply X) (n j : ℕ) (s t : Mem X) : Type 0 where
  pub stock : u.Stock n t.pool
  pub keeps : Keeps u.held s t
  pub left : ListEntry
  pub others : List ListEntry
  pub present : t.lists.head j ≡ left ∷ others

module _ {X : Type 0} (s : Mem X) (v : IsValid s.lists) (k : ℕ) (low : k < 8) (e : ListEntry)
    (next : List ListEntry) (first : s.lists.head k ≡ e ∷ next) where
  -- The state without the first block of order `k`.
  abbrev pub without : Mem X
  without = set_lists (toggled k e.addr (set_head k next s.lists)) s

  pub take_block_lem : take_block k s ≡ ok e without
  unfolding take_block take_first
  take_block_lem =
      let b = first-IsBlock s.lists v k low e next first in
      rw (
        first,
        toggle_buddy_bit_lem k e.addr (set_lists (set_head k next s.lists) s) low
            (omega (arith, b.fits)),
      )

module _ {X : Type 0} (u : Supply X) (s : Mem X) (v : IsValid s.lists) (j : ℕ) (low : j < 7)
    (e : ListEntry) (next : List ListEntry) (first : s.lists.head (suc j) ≡ e ∷ next) where
  open u use {alloc_page, held, Admits, Stock, get_law}

  fits : IsBlock (suc j) e.addr
  fits = first-IsBlock s.lists v (suc j) (omega arith) e next first

  -- The block is gone, and `t` is the state after get_memory_entry.
  halves-IsSplit :
      (n node : ℕ) (t : Mem X)
      → Stock n t.pool
      → Keeps held (without s v (suc j) (omega arith) e next first) t
      → IsSplit u n j s (
          set_lists
            (set_head j (e ∷ list_entry node (e.addr + order_size j) ∷ t.lists.head j) t.lists)
            t)
  unfolding update covers
  halves-IsSplit n node t stock keeps =
      let taken = taken-IsValid s.lists v (suc j) (omega arith) e next first in
      let half =
        halved-IsValid t.lists keeps.valid j low e.node node e.addr fits
          (λ x. omega (arith, keeps.less x, taken.0.free x, taken.1 x, v.once x)) in
      record {
        stock = stock;
        keeps = record {
          valid = half.valid;
          conserved = λ x. omega (arith, keeps.conserved x, taken.0.free x, taken.1 x, half.free x);
          less = λ x. omega (arith, keeps.less x, taken.0.free x, taken.1 x, half.free x);
        };
        left = e;
        others = list_entry node (e.addr + order_size j) ∷ t.lists.head j;
        present = ground arith;
      }

  pub split_block-IsSplit :
      (n : ℕ)
      → Stock (suc n) s.pool
      → Ends Admits (λ _. IsSplit u n j s) (split_block alloc_page (suc j) s)
  unfolding split_block split_first split_entry
  split_block-IsSplit n stock =
      let lists = set_head (suc j) next s.lists in
      let taken = taken-IsValid s.lists v (suc j) (omega arith) e next first in
      let below : suc j - 1 ≡ j = omega arith in
      let sum : add64 e.addr (order_size j) ≡ e.addr + order_size j =
        omega (arith, fits.fits, (order_size-Sizes j (omega arith)).twice) in
      rw
        (
          first,
          toggle_buddy_bit_lem (suc j) e.addr (set_lists lists s) (omega arith)
              (omega (arith, fits.fits)),
        )
        (Machine.bind (get_law n _ stock taken.0.valid)
          λ node t got. returns (rw (below, sum) (halves-IsSplit n node t got.0 got.1)))
