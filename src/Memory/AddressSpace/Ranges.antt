-- ===== src/Memory/AddressSpace/Ranges.antt =====
-- The pages that the free ranges of an address space cover, and the walk along them.
use plusplus_os.Base.{
  ℕ, ◌+◌, ◌*◌, ◌^◌, ◌≤◌, ◌<◌, ◌≡◌, ap, refl, arith, ◌&&◌, Bool, true, false, ◌⊎◌, inl, inr, none,
  some, List, [], ◌∷◌, ltb, leb, ◌==◌, one_if, tally, All, Bool-cases, ◌<<<◌, ◌/◌, ◌%◌,
}
use plusplus_os.Memory.AddressSpace.{
  FreeListEntry, Reused, cut_pointer, behind, reuse_range, list_after, entries_of, front_taken,
}

-- The page is in the range of `count` pages from `first` on.
abbrev pub page_in : ℕ → ℕ → ℕ → Bool
page_in first count x = leb first x && ltb x (first + count)

abbrev pub in_range : ℕ → FreeListEntry → Bool
in_range x e = page_in e.addr e.pages x

-- How many free ranges a page is in.
unfoldable pub free_ranges : List FreeListEntry → ℕ → ℕ
free_ranges entries x = tally (in_range x) entries

abbrev pub AtMost : ℕ → FreeListEntry → Type 0
AtMost pages e = e.pages ≤ pages

-- A range of the size that is wanted is taken out.
pub record Exact (pages : ℕ) (entries : List FreeListEntry) (r : Reused) : Type 0 where
  pub entry : FreeListEntry
  pub size : entry.pages ≡ pages
  pub addr : r.addr ≡ entry.addr <<< 12
  pub freed : r.freed ≡ some entry.node
  pub taken : (x : ℕ) → free_ranges r.entries x + one_if (in_range x entry) ≡ free_ranges entries x

abbrev pub first_range : FreeListEntry → List FreeListEntry → Reused
first_range e next = record {
  addr = e.addr <<< 12;
  freed = some e.node;
  entries = next;
  at_head = true;
}

Exact-first :
    (pages : ℕ) (e : FreeListEntry) (next : List FreeListEntry)
    → e.pages ≡ pages
    → Exact pages (e ∷ next) (first_range e next)
unfolding free_ranges tally
Exact-first pages e next h = record {
  entry = e;
  size = h;
  addr = refl;
  freed = refl;
  taken = λ x. omega arith;
}

Exact-behind :
    (pages : ℕ) (e : FreeListEntry) (next : List FreeListEntry) (r : Reused)
    → Exact pages next r
    → Exact pages (e ∷ next) (record r { entries = e ∷ r.entries; at_head = false })
unfolding free_ranges tally
Exact-behind pages e next r h = record {
  entry = h.entry;
  size = h.size;
  addr = h.addr;
  freed = h.freed;
  taken = λ x. omega (arith, h.taken x);
}

-- Where no range is bigger than what is wanted, the walk finds one of that size or none.
pub reuse_range-cases :
    (pages : ℕ) (entries : List FreeListEntry)
    → All (AtMost pages) entries
    → (reuse_range pages entries ≡ none)
      ⊎ ((r : Reused) × (reuse_range pages entries ≡ some r) × Exact pages entries r)
unfolding reuse_range
reuse_range-cases pages [] all = inl refl
reuse_range-cases pages (e ∷ next) all =
    let no_bigger : ltb pages e.pages ≡ false = ground (arith, all.0) in
    elim (Bool-cases (e.pages == pages)) [
      | inl same ↦
          inr
            (first_range e next, rw (no_bigger, same) refl, Exact-first pages e next (ground arith))
      | inr other ↦ elim (reuse_range-cases pages next all.1) [
        | inl gone ↦ inl (rw (no_bigger, other) (ap (behind e) gone))
        | inr (r, eq, exact) ↦
            inr (_, rw (no_bigger, other) (ap (behind e) eq), Exact-behind pages e next r exact)
      ]
    ]

entries_of-cut_pointer : (l : List FreeListEntry) → entries_of (cut_pointer l) ≡ l
unfolding cut_pointer
entries_of-cut_pointer [] = refl
entries_of-cut_pointer (e ∷ next) = refl

-- The entries that a free list has once its pointer is restored.
pub entries_of-list_after : (r : Reused) → entries_of (list_after r) ≡ r.entries
unfolding list_after
entries_of-list_after r = elim (Bool-cases r.at_head) [
  | inl first ↦ rw first (entries_of-cut_pointer r.entries)
  | inr later ↦ rw later refl
]

-- The entry whose front is taken covers that much less, and twice as much more at its end.
pub front_taken_lem :
    (pages : ℕ) (e : FreeListEntry) (x : ℕ)
    → pages < e.pages
    → e.addr + e.pages + 2 * pages < 2 ^ 36
    → one_if (in_range x (front_taken pages e)) + one_if (page_in e.addr pages x)
      ≡ one_if (in_range x e) + one_if (page_in (e.addr + e.pages) (2 * pages) x)
unfolding front_taken
front_taken_lem pages e x small fits =
    let shifted : (e.addr * 2 ^ 12 + pages * 4096 % 2 ^ 64) % 2 ^ 64 / 2 ^ 12 % 2 ^ 36
        ≡ e.addr + pages =
      omega arith in
    let longer : (e.pages + pages) % 2 ^ 44 ≡ e.pages + pages = omega arith in
    rw (shifted, longer) (ground arith)
