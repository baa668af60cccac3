-- ===== src/Memory/AddressSpace/Contract.antt =====
-- What alloc_addr_space, add_range_to_free_list and claim_virt_range do to an address space.
use plusplus_os.Base.{
  ℕ, suc, ◌+◌, ◌*◌, ◌/◌, ◌%◌, ◌^◌, ◌≤◌, ◌<◌, ◌≡◌, ap, refl, arith, ◌∙◌, true, false, ◌⊎◌, inl, inr,
  List, ◌∷◌, ltb, ◌==◌, one_if, tally, All, Bool-cases, ◌<<<◌, add64, mul64,
}
use plusplus_os.Machine
use plusplus_os.Machine.{
  Cmd, Run, Stop, ok, stop, assert_failed, out_of_address_space, general_protection, Ends, Never,
  returns, stops, and_then,
}
use plusplus_os.Memory.{Mem}
use plusplus_os.Memory.EntryPool.{free_memory_entry}
use plusplus_os.Memory.Frames.Sources.{IsStocked, get_memory_entry_stocked}
use plusplus_os.Memory.AddressSpace.{
  FreeListEntry, whole, AddressSpace, Pointer, sign_ext_addr, pdp_mem_range, cut_pointer,
  reuse_range, list_after, entries_of, space_of, extend_space, take_range, alloc_from,
  alloc_addr_space, add_range_to_free_list,
}
use plusplus_os.Memory.AddressSpace.Ranges.{
  page_in, in_range, free_ranges, AtMost, reuse_range-cases, entries_of-list_after, front_taken_lem,
}

-- What is stored through the pointer is loaded through it.
abbrev pub IsPointer : {X : Type 0} → Pointer X → Type 0
IsPointer {X} space = (a : AddressSpace) (x : X) → space.load (space.store a x) ≡ a

-- A free range of exactly the size is given, and is not free any more.
pub record Reuses (pages : ℕ) (a : AddressSpace) (addr : ℕ) (b : AddressSpace) : Type 0 where
  pub entry : FreeListEntry
  pub size : entry.pages ≡ pages
  pub start : addr ≡ sign_ext_addr (entry.addr <<< 12)
  pub taken :
      (x : ℕ)
      → free_ranges (entries_of b.free_list) x + one_if (in_range x entry)
        ≡ free_ranges (entries_of a.free_list) x
  pub unmoved : b.current_address ≡ a.current_address

-- The pages from current_address on are given.
pub record Extends (pages : ℕ) (a : AddressSpace) (addr : ℕ) (b : AddressSpace) : Type 0 where
  pub start : addr ≡ sign_ext_addr a.current_address
  pub moved : b.current_address ≡ a.current_address + pages * 4096
  pub within : b.current_address < (a.pdp_index + 1) * pdp_mem_range
  pub same : b.free_list ≡ a.free_list

module _ {X : Type 0} (space : Pointer X) (law : IsPointer space) where
  -- The space is full.
  abbrev pub Full : ℕ → AddressSpace → Stop → Type 0
  Full pages a e =
      (e ≡ assert_failed out_of_address_space)
      × ((a.pdp_index + 1) * pdp_mem_range ≤ a.current_address + pages * 4096)

  extend_space-Extends :
      (pages : ℕ) (s : Mem X)
      → (space_of space s).current_address + pages * 4096 < 2 ^ 64
      → Ends
          (Full pages (space_of space s))
          (λ addr t. Extends pages (space_of space s) addr (space_of space t))
          (extend_space space pages s)
  unfolding extend_space
  extend_space-Extends pages s fits =
      let a = space_of space s in
      let end : add64 a.current_address (mul64 pages 4096) ≡ a.current_address + pages * 4096 =
        omega arith in
      elim (Bool-cases
        (ltb (a.current_address + pages * 4096) ((a.pdp_index + 1) * pdp_mem_range))) [
          | inl room ↦
              rw (end, room)
                (returns (record {
                  start = refl;
                  moved = ap (λ (b : AddressSpace). b.current_address) (law _ s.rest);
                  within = rw law (ground arith);
                  same = ap (λ (b : AddressSpace). b.free_list) (law _ s.rest);
                }))
          | inr no_room ↦ rw (end, no_room) (stops (refl, ground arith))
        ]

  -- alloc_addr_space, where no free range is bigger than what is wanted and the walk does not meet
  -- a pointer that lost its upper bits: it gives a free range of exactly that size, whose pages
  -- are then not free, or the pages from current_address on, which moves behind them; and it stops
  -- when the space is full, and only then.
  pub alloc_addr_space_total :
      (pages : ℕ) (s : Mem X) (entries : List FreeListEntry)
      → (space_of space s).free_list ≡ whole entries
      → All (AtMost pages) entries
      → (space_of space s).current_address + pages * 4096 < 2 ^ 64
      → Ends
          (Full pages (space_of space s))
          (λ addr t.
            Reuses pages (space_of space s) addr (space_of space t)
            ⊎ Extends pages (space_of space s) addr (space_of space t))
          (alloc_addr_space space pages s)
  unfolding alloc_addr_space alloc_from take_range free_memory_entry
  alloc_addr_space_total pages s entries eq all fits = elim (reuse_range-cases pages entries all) [
    | inl gone ↦ rw (eq, gone) (Machine.mono (extend_space-Extends pages s fits) λ addr t h. inr h)
    | inr (r, found, exact) ↦
        rw (eq, found, exact.freed)
          (returns (
            inl (record {
              entry = exact.entry;
              size = exact.size;
              start = ap sign_ext_addr exact.addr;
              taken = λ x. rw (law, entries_of-list_after, eq) (exact.taken x);
              unmoved = ap (λ (b : AddressSpace). b.current_address) (law _ s.rest);
            })))
  ]

  -- When the first free range is bigger than what is wanted its front is given, but the entry that
  -- stays is made longer, not shorter: twice the pages behind the old end of the range become free
  -- as well, although nobody gave them back.
  pub alloc_addr_space_overlap :
      (pages : ℕ) (s : Mem X) (e : FreeListEntry) (next : List FreeListEntry)
      → (space_of space s).free_list ≡ whole (e ∷ next)
      → pages < e.pages
      → e.addr + e.pages + 2 * pages < 2 ^ 36
      → Ends Never
          (λ addr t.
            (addr ≡ sign_ext_addr (e.addr <<< 12))
            × ((x : ℕ)
                → free_ranges (entries_of (space_of space t).free_list) x
                    + one_if (page_in e.addr pages x)
                  ≡ free_ranges (e ∷ next) x + one_if (page_in (e.addr + e.pages) (2 * pages) x)))
          (alloc_addr_space space pages s)
  unfolding alloc_addr_space alloc_from take_range reuse_range list_after free_ranges tally
  alloc_addr_space_overlap pages s e next eq small fits =
      let bigger : ltb pages e.pages ≡ true = ground arith in
      rw eq (
        rw bigger
          (returns (refl, λ x. rw law (omega (arith, front_taken_lem pages e x small fits)))))

  -- When the first free range is given whole and there is another one behind it, the pointer to
  -- that one is stored without its upper bits, and the next call faults on it.
  pub alloc_addr_space_dangling :
      (pages more : ℕ) (s : Mem X) (e f : FreeListEntry) (next : List FreeListEntry)
      → (space_of space s).free_list ≡ whole (e ∷ f ∷ next)
      → e.pages ≡ pages
      → and_then (alloc_addr_space space pages s) (λ _. alloc_addr_space space more)
        ≡ stop general_protection
  unfolding alloc_addr_space alloc_from take_range reuse_range list_after cut_pointer
      free_memory_entry
  alloc_addr_space_dangling pages more s e f next eq same =
      let no_bigger : ltb pages e.pages ≡ false = ground arith in
      let exact : (e.pages == pages) ≡ true = ground arith in
      rw eq (rw (no_bigger, exact) (rw law refl))

  -- A range that add_range_to_free_list gave back is the one that alloc_addr_space gives next for
  -- the same number of pages. The ranges that were free before stay free.
  pub add_range_to_free_list-alloc_addr_space :
      (alloc_page : Cmd (Mem X) ℕ) (n virt_addr pages : ℕ) (s : Mem X)
      → virt_addr / 4096 * 4096 ≡ virt_addr
      → virt_addr < 2 ^ 48
      → pages < 2 ^ 44
      → IsStocked (suc n) s.pool
      → Ends Never
          (λ addr t.
            (addr ≡ sign_ext_addr virt_addr)
            × (entries_of (space_of space t).free_list ≡ entries_of (space_of space s).free_list)
            × ((space_of space t).current_address ≡ (space_of space s).current_address))
          (and_then
            (add_range_to_free_list space alloc_page virt_addr pages s)
            λ _. alloc_addr_space space pages)
  unfolding add_range_to_free_list alloc_addr_space alloc_from take_range reuse_range
      free_memory_entry
  add_range_to_free_list-alloc_addr_space alloc_page n virt_addr pages s aligned low few stock =
      let (node, next, e, run) = get_memory_entry_stocked alloc_page n s stock in
      let page : virt_addr / 2 ^ 12 % 2 ^ 36 * 2 ^ 12 ≡ virt_addr = omega arith in
      let count : pages % 2 ^ 44 ≡ pages = omega arith in
      let no_bigger : ltb pages pages ≡ false = ground arith in
      let exact : (pages == pages) ≡ true = ground arith in
      rw run (
        rw law (
          rw (count, no_bigger, exact)
            (returns (
              ap sign_ext_addr page,
              ap (λ (b : AddressSpace). entries_of b.free_list) (law _ _) ∙ entries_of-list_after _,
              ap (λ (b : AddressSpace). b.current_address) (law _ _)
                  ∙ ap (λ (b : AddressSpace). b.current_address) (law _ s.rest),
            ))))
