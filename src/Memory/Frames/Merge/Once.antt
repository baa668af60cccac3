-- ===== src/Memory/Frames/Merge/Once.antt =====
-- One round of the merge loop.
use native.Mathlib.Numerals.{add-one}
use plusplus_os.Base.{
  ℕ, suc, ◌+◌, ◌<◌, ◌≡◌, ◌≢◌, refl, sym, arith, ◌==◌, List, ◌∷◌, inl, inr, one_if, update, some,
  fun_ext, Bool-cases, ==-refl, ltb,
}
use plusplus_os.Machine.{ok}
use plusplus_os.Memory.{ListEntry, FreeLists, Mem, set_lists, set_head, set_pool}
use plusplus_os.Memory.EntryPool.{free_memory_entry, freed_entry}
use plusplus_os.Memory.Buddy.Bit.{pair_of, pair_bit, toggled, toggled-head, toggle_buddy_bit_lem}
use plusplus_os.Memory.Frames.{Unlinked, unlink, buddy_addr, left_half, take_buddy, merge_once}
use plusplus_os.Memory.Frames.Blocks.{merged-IsBlock, halves_cover}
use plusplus_os.Memory.Frames.View.{covers, free_at, IsBlock, IsValid}
use plusplus_os.Memory.Frames.Effects.{dropped-IsValid, given-IsValid}
use plusplus_os.Memory.Frames.Merge.{Buddy, buddy}

update_self : {A : Type 0} (k : ℕ) (v : A) (f : ℕ → A) → update f k v k ≡ v
unfolding update
update_self k v f = rw (==-refl k)

update_twice : {A : Type 0} (k : ℕ) (v w : A) (f : ℕ → A) → update (update f k v) k w ≡ update f k w
unfolding update
update_twice k v w f = fun_ext λ j. ground arith

-- `m` is the merged block, and `d` the entry that is given back to the pool.
record Joined (k : ℕ) (e b m d : ListEntry) : Type 0 where
  halves : left_half e b ≡ (m, d)
  block : IsBlock (suc k) m.addr
  cover : (x : ℕ) → one_if (covers x k e) + one_if (covers x k b) ≡ one_if (covers x (suc k) m)

module _ (k : ℕ) (low : k < 8) where
  join :
      (m d : ListEntry)
      → IsBlock k m.addr
      → IsBlock k d.addr
      → pair_of k m.addr ≡ pair_of k d.addr
      → m.addr < d.addr
      → IsBlock (suc k) m.addr
        × ((x : ℕ) → one_if (covers x k m) + one_if (covers x k d) ≡ one_if (covers x (suc k) m))
  unfolding covers
  join m d bm bd same lt =
      let one = merged-IsBlock k low m.addr d.addr bm bd same lt in
      (one.0, λ x. rw one.1 (halves_cover k low x m.addr (omega (arith, one.1, bd.fits))))

  joined :
      (e b : ListEntry)
      → IsBlock k e.addr
      → IsBlock k b.addr
      → pair_of k e.addr ≡ pair_of k b.addr
      → e.addr ≢ b.addr
      → (m : ListEntry) × (d : ListEntry) × Joined k e b m d
  unfolding left_half
  joined e b be bb same ne = elim (Bool-cases (ltb b.addr e.addr)) [
    | inl lt ↦
        let one = join b e bb be (sym same) (ground arith) in
        (b, e, record { halves = rw lt; block = one.0; cover = λ x. omega (arith, one.1 x) })
    | inr ge ↦
        let one = join e b be bb same (ground arith) in
        (e, b, record { halves = rw ge; block = one.0; cover = one.1 })
  ]

-- After a round `m` is the first free block of the order above, and the same addresses are free.
pub record Merged {X : Type 0} (k : ℕ) (s : Mem X) (m : ListEntry) (t : Mem X) : Type 0 where
  pub valid : IsValid t.lists
  pub free : (x : ℕ) → free_at t.lists x ≡ free_at s.lists x
  pub node : ℕ
  pub pool : t.pool ≡ freed_entry node s.pool
  pub rest : t.rest ≡ s.rest
  pub others : List ListEntry
  pub first : t.lists.head (suc k) ≡ m ∷ others
  pub block : IsBlock (suc k) m.addr

take_buddy_lem :
    {X : Type 0} (other k : ℕ) (s : Mem X) (u : Unlinked)
    → unlink (λ c. c.addr == other) (s.lists.head k) ≡ some u
    → take_buddy other k s ≡ ok u.entry (set_lists (set_head k u.chain s.lists) s)
unfolding take_buddy
take_buddy_lem other k s u h = rw (h, take_buddy)

module _ {X : Type 0} (s : Mem X) (v : IsValid s.lists) (k : ℕ) (low : k < 7) (e : ListEntry)
    (next : List ListEntry) (first : s.lists.head k ≡ e ∷ next)
    (both : pair_bit s.lists k (pair_of k e.addr) ≡ 0) where
  first_block : IsBlock k e.addr
  first_block = (rw first at (v.blocks k (omega arith))).0.block

  module _ (u : Unlinked) (b : Buddy s.lists v k low e next first both u) (m d : ListEntry)
      (j : Joined k e u.entry m d) where
    abbrev dropped : FreeLists
    dropped = set_head k u.chain s.lists

    abbrev merged : Mem X
    merged = record {
      lists = toggled (suc k) m.addr (set_head (suc k) (m ∷ dropped.head (suc k)) dropped);
      pool = freed_entry d.node s.pool;
      rest = s.rest;
    }

    merge_run : merge_once k e s ≡ ok m merged
    unfolding merge_once free_memory_entry
    merge_run =
        let here : unlink (λ c. c.addr == buddy_addr e.addr k) (update s.lists.head k next k)
            ≡ some u =
          rw (update_self k next s.lists.head) b.found in
        rw (first, add-one k)
          (rw
            (take_buddy_lem (buddy_addr e.addr k) k (set_lists (set_head k next s.lists) s) u here)
            (rw (update_twice k next u.chain s.lists.head, j.halves)
              (rw (
                toggle_buddy_bit_lem (suc k) m.addr
                  (set_pool merged.pool
                    (set_lists (set_head (suc k) (m ∷ dropped.head (suc k)) dropped) s))
                  (omega arith) (omega (arith, j.block.fits))))))

    merge-Merged : Merged k s m merged
    unfolding update
    merge-Merged =
        let out =
          dropped-IsValid s.lists v k low e next u.entry u.chain first b.others b.count b.same in
        let back =
          given-IsValid dropped out.0.valid (suc k) (omega arith) m j.block
            (λ x. omega (arith, out.0.free x, out.1 x, j.cover x, v.once x)) in
        record {
          valid = back.valid;
          free = λ x. omega (arith, back.free x, out.0.free x, out.1 x, j.cover x);
          node = d.node;
          pool = refl;
          rest = refl;
          others = dropped.head (suc k);
          first =
              rw (toggled-head (suc k) m.addr (set_head (suc k) (m ∷ dropped.head (suc k)) dropped))
                (ground arith);
          block = j.block;
        }

  -- A round ends, and merges the two blocks.
  pub merge_once-Merged :
      (m : ListEntry) × (t : Mem X) × (merge_once k e s ≡ ok m t) × Merged k s m t
  merge_once-Merged =
      let (u, b) = buddy s.lists v k low e next first both in
      let (m, d, j) = joined k (omega arith) e u.entry first_block b.block b.same b.apart in
      (m, merged u b m d j, merge_run u b m d j, merge-Merged u b m d j)
