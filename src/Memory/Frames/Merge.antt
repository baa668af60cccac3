-- ===== src/Memory/Frames/Merge.antt =====
-- The merge of free_frames: the buddy is where the code looks for it.
pub mod Once
use native.Mathlib.Numerals.{add-one}
use plusplus_os.Base.{
  ℕ, zero, suc, ◌+◌, ◌-◌, ◌*◌, ◌/◌, ◌%◌, ◌^◌, ◌≤◌, ◌<◌, ◌≡◌, ◌≢◌, refl, ap, sym, arith, ◌==◌, Bool,
  true, false, List, ◌∷◌, [], ◌⊎◌, inl, inr, if◌then◌else◌, one_if, update, ◌∙◌, subst, Option,
  none, some, fun_ext, tally, tally-le, All, Bool-cases, ==-refl, leb, ltb, ◌&&◌,
}
use plusplus_os.Machine.{Run, ok}
use plusplus_os.Memory.{ListEntry, list_entry, FreeLists, Mem, set_lists, set_head, set_pool}
use plusplus_os.Memory.EntryPool.{free_memory_entry, freed_entry}
use plusplus_os.Memory.Orders.{order_size, range_contains}
use plusplus_os.Memory.Orders.Sizes.{order_size-Sizes, range_contains_lem}
use plusplus_os.Memory.Buddy.Bit.{pair_of, pair_bit, toggled, toggled-head, toggle_buddy_bit_lem}
use plusplus_os.Memory.Frames.{Unlinked, unlink, buddy_addr, left_half, take_buddy, merge_once}
use plusplus_os.Memory.Frames.Blocks.{
  buddy_addr_lem, buddy_addr-ne, pair_of-buddy_addr, merged-IsBlock, halves_cover,
}
use plusplus_os.Memory.Frames.View.{
  covers, in_pair, free_at, IsBlock, IsEntry, IsValid, tally-le-free_at,
}
use plusplus_os.Memory.Frames.Effects.{Lists, Unlinks, unlink-cases, dropped-IsValid, given-IsValid}
use plusplus_os.Memory.Frames.Chains.{Starts}

pub covers_start : (k : ℕ) (e : ListEntry) → k < 8 → IsBlock k e.addr → covers e.addr k e ≡ true
unfolding covers
covers_start k e low b =
    let z = order_size-Sizes k low in
    ground (
      arith,
      range_contains_lem e.addr e.addr (order_size k) (omega (arith, b.fits, z.lower)),
      z.lower,
    )

module _ (f : FreeLists) (v : IsValid f) (k : ℕ) (low : k < 7) (e : ListEntry)
    (next : List ListEntry) (first : f.head k ≡ e ∷ next)
    (both : pair_bit f k (pair_of k e.addr) ≡ 0) where
  abbrev other : ℕ
  other = buddy_addr e.addr k

  abbrev is_other : ListEntry → Bool
  is_other c = c.addr == other

  blocks : IsEntry k e × All (IsEntry k) next
  blocks = rw first at (v.blocks k (omega arith))

  -- Another entry of the pair is the buddy, or the same block again.
  pair_entry :
      (c : ListEntry)
      → IsEntry k c
      → one_if (in_pair k (pair_of k e.addr) c) ≤ one_if (is_other c) + one_if (covers e.addr k c)
  unfolding in_pair
  pair_entry c ic = elim (Bool-cases (pair_of k c.addr == pair_of k e.addr)) [
    | inr apart ↦ rw apart (omega arith)
    | inl same ↦ elim (Bool-cases (c.addr == e.addr)) [
      | inl again ↦
          let twice : e.addr ≡ c.addr = ground arith in
          rw (twice, covers_start k c (omega arith) ic.block) (ground arith)
      | inr ne ↦
          let is : c.addr ≡ other =
            buddy_addr_lem k (omega arith) e.addr c.addr blocks.0.block ic.block (ground arith)
              (ground arith) in
          ground arith
    ]
  ]

  -- The buddy is in the rest of the chain.
  buddy_present : 0 < tally is_other next
  unfolding tally in_pair
  buddy_present =
      let p = pair_of k e.addr in
      let even : tally (in_pair k p) (f.head k) % 2 ≡ 0 = sym (v.parity k p low) ∙ both in
      let once : tally (covers e.addr k) (f.head k) ≤ 1 =
        omega (arith, tally-le-free_at f k e.addr (omega arith), v.once e.addr) in
      omega (
        arith,
        rw (first, ==-refl p) at even,
        rw (first, covers_start k e (omega arith) blocks.0.block) at once,
        tally-le (in_pair k p) is_other (covers e.addr k) (IsEntry k) pair_entry next blocks.1,
      )

  -- The entry that take_buddy returns, and the chain that it leaves.
  pub record Buddy (u : Unlinked) : Type 0 where
    pub found : unlink is_other next ≡ some u
    pub is : u.entry.addr ≡ other
    pub block : IsBlock k u.entry.addr
    pub apart : e.addr ≢ u.entry.addr
    pub same : pair_of k e.addr ≡ pair_of k u.entry.addr
    pub others : All (IsEntry k) u.chain
    pub count : (t : ListEntry → Bool) → tally t next ≡ one_if (t u.entry) + tally t u.chain

  pub buddy : (u : Unlinked) × Buddy u
  buddy = elim (unlink-cases is_other next blocks.1) [
    | inl (gone, zero_left) ↦ absurd (omega (arith, buddy_present))
    | inr (u, here, un) ↦
        let is : u.entry.addr ≡ other = ground (arith, un.passes) in
        (
          u,
          record {
            found = here;
            is = is;
            block = un.entry.block;
            apart = rw is (buddy_addr-ne k (omega arith) e.addr blocks.0.block);
            same =
                sym (pair_of-buddy_addr k (omega arith) e.addr blocks.0.block)
                ∙ ap (pair_of k) (sym is);
            others = un.others;
            count = un.count;
          },
        )
  ]
