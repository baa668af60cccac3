-- ===== src/Memory/Paging/Range.antt =====
-- kernel/src/memory/paging.c: the rounds of map_range_helper where the page tables are in place.
use plusplus_os.Base.{
  ℕ, zero, suc, ◌+◌, ◌*◌, ◌/◌, ◌^◌, ◌<◌, ◌≤◌, ◌≡◌, ◌≢◌, ap, sym, subst, ◌∙◌, refl, Bool, true,
  false, List, arith, ◌==◌, Bool-cases, inl, inr, add64,
}
use plusplus_os.Machine.{Cmd, ok}
use plusplus_os.Memory.{PageFrameAllocation, Mem}
use plusplus_os.Memory.EntryPool.{page_size}
use plusplus_os.Memory.AddressSpace.{AddressSpace}
use plusplus_os.Memory.Paging.{
  PageEntry, Paging, Space, level_pt, level_pd, write_entry, set_flags, get_page_entries,
}
use plusplus_os.Memory.Paging.Entries.{get_or_alloc_page_entries}
use plusplus_os.Memory.Paging.Mapping.{
  Location, mapped_entry, populate_page_table_location, next_pd, next_pt,
  page_table_traversal_helper, map_range_helper,
}
use plusplus_os.Memory.Paging.Walk.{
  Walks, pdp_index, pd_index, pt_index, index_carry, table_of, entry_at, location_of,
  write_entry-Walks, entry_at-write, entry_at-write_other,
}

module _ (alloc_page : Cmd (Mem Paging) ℕ)
    (kmap_allocation : List PageFrameAllocation → Cmd (Mem Paging) ℕ)
    (kmap_phys_range : ℕ → ℕ → Cmd (Mem Paging) ℕ) (space : Space) (a : AddressSpace)
    (R : ℕ → Type 0) (pd : ℕ → ℕ) (pt : ℕ → ℕ → ℕ) where
  abbrev pub Tables : Mem Paging → Type 0
  Tables = Walks space a R pd pt

  abbrev pub at : ℕ → Location
  at = location_of space a R pd pt

  pd_of :
      (s : Mem Paging) (v : ℕ)
      → Tables s
      → R v
      → get_or_alloc_page_entries alloc_page kmap_allocation kmap_phys_range space a.pdp
          (pdp_index v)
          level_pd
          s
        ≡ ok (pd (pdp_index v)) s
  unfolding get_or_alloc_page_entries get_page_entries
  pd_of s v k r =
      let there : (a.pdp == 0) ≡ false = let h = k.pdp_some in ground arith in
      rw (there, k.pd_present v r, there, k.loaded, k.pd_found v r) refl

  pt_of :
      (s : Mem Paging) (v : ℕ)
      → Tables s
      → R v
      → get_or_alloc_page_entries alloc_page kmap_allocation kmap_phys_range space
          (pd (pdp_index v))
          (pd_index v)
          level_pt
          s
        ≡ ok (pt (pdp_index v) (pd_index v)) s
  unfolding get_or_alloc_page_entries get_page_entries
  pt_of s v k r =
      let there : (pd (pdp_index v) == 0) ≡ false = let h = k.pd_some v r in ground arith in
      rw (there, k.pt_present v r, there, k.loaded, k.pt_found v r) refl

  pub populated :
      (s : Mem Paging) (v : ℕ)
      → Tables s
      → R v
      → populate_page_table_location alloc_page kmap_allocation kmap_phys_range space v true s
        ≡ ok (at v) s
  unfolding populate_page_table_location
  populated s v k r = rw (k.loaded, pd_of s v k r, pt_of s v k r) refl

  location_eq : (v w : ℕ) → pdp_index v ≡ pdp_index w → pd_index v ≡ pd_index w → at w ≡ at v
  location_eq v w two one = λ i. record {
    pd_index = sym two i;
    pd = pd (sym two i);
    pt_index = sym one i;
    pt = pt (sym two i) (sym one i);
  }

  -- From the page before, or on the same page.
  traversed :
      (s : Mem Paging) (v w : ℕ)
      → Tables s
      → R v
      → (pdp_index v ≢ pdp_index w → pd_index v ≡ 0)
      → page_table_traversal_helper alloc_page kmap_allocation kmap_phys_range space v (at w) true s
        ≡ ok (at v) s
  unfolding page_table_traversal_helper next_pd next_pt
  traversed s v w k r carry =
      let pt_there : (pt (pdp_index v) (pd_index v) == 0) ≡ false =
        let h = k.pt_some v r in ground arith in
      elim (Bool-cases (pdp_index v == pdp_index w)) [
        | inl same ↦
            let two : pdp_index v ≡ pdp_index w = ground arith in
            elim (Bool-cases (pd_index v == pd_index w)) [
              | inl here ↦
                  let one : pd_index v ≡ pd_index w = ground arith in
                  rw (same, here) (ap (λ (l : Location). ok l s) (location_eq v w two one))
              | inr next ↦ rw (same, next, ← two, pt_of s v k r, pt_there) refl
            ]
        | inr away ↦
            let first : pd_index v ≡ 0 = carry (λ e. ground arith) in
            let pd_there : (pd (pdp_index v) == 0) ≡ false =
              let h = k.pd_some v r in ground arith in
            rw
              (
                away,
                k.loaded,
                pd_of s v k r,
                pd_there,
                first,
                (rw first at (pt_of s v k r)),
                (rw first at pt_there),
              )
              refl
      ]

  abbrev pub entry : ℕ → Mem Paging → PageEntry
  entry = entry_at space a R pd pt

  abbrev table : ℕ → ℕ
  table = table_of space a R pd pt

  -- The state after one page is mapped.
  abbrev mapped : Mem Paging → ℕ → ℕ → ℕ → Mem Paging
  mapped s v phys flags = record s {
    rest =
        write_entry (table v) (pt_index v)
          (mapped_entry s.rest.paging_execute_disable flags a.prot phys (entry v s)) s.rest;
  }

  -- The entry leads to the page at `phys`.
  abbrev pub MapsTo : ℕ → PageEntry → Type 0
  MapsTo phys e = (e.present ≡ true) × (e.phys_addr ≡ phys / 2 ^ 12)

  mapped_entry-MapsTo :
      (x : Bool) (flags prot phys : ℕ) (e : PageEntry)
      → phys < 2 ^ 52
      → MapsTo phys (mapped_entry x flags prot phys e)
  unfolding set_flags
  mapped_entry-MapsTo x flags prot phys e small = (refl, omega arith)

  one_page :
      (s : Mem Paging) (v w phys pages flags : ℕ)
      → Tables s
      → R v
      → (pdp_index v ≢ pdp_index w → pd_index v ≡ 0)
      → v + page_size < 2 ^ 64
      → phys + page_size < 2 ^ 64
      → map_range_helper alloc_page kmap_allocation kmap_phys_range space v phys
          (suc pages)
          flags
          (at w)
          s
        ≡ map_range_helper alloc_page kmap_allocation kmap_phys_range space
            (v + page_size)
            (phys + page_size)
            pages
            flags
            (at v)
            (mapped s v phys flags)
  unfolding map_range_helper
  one_page s v w phys pages flags k r carry high high_phys =
      let there : (table v == 0) ≡ false = let h = k.pt_some v r in ground arith in
      let next : add64 v page_size ≡ v + page_size = omega arith in
      let next_phys : add64 phys page_size ≡ phys + page_size = omega arith in
      rw (traversed s v w k r carry, there, k.loaded, next, next_phys) refl

  -- What `pages` rounds of map_range_helper leave.
  pub record Mapped (v phys pages : ℕ) (s t : Mem Paging) : Type 0 where
    pub tables : Tables t
    pub leads : (i : ℕ) → i < pages → MapsTo (phys + i * page_size) (entry (v + i * page_size) t)
    pub others :
        (u : ℕ)
        → R u
        → ((i : ℕ) → i < pages → (v + i * page_size) / 2 ^ 12 ≢ u / 2 ^ 12)
        → entry u t ≡ entry u s

  -- The first page and the ones behind it.
  Mapped-leads :
      (pages : ℕ) (s t : Mem Paging) (v phys flags : ℕ)
      → R v
      → phys < 2 ^ 52
      → Mapped (v + page_size) (phys + page_size) pages (mapped s v phys flags) t
      → (i : ℕ) → i < suc pages
      → MapsTo (phys + i * page_size) (entry (v + i * page_size) t)
  Mapped-leads pages s t v phys flags r small m zero h =
      let e : PageEntry =
        mapped_entry s.rest.paging_execute_disable flags a.prot phys (entry v s) in
      let stays : entry v t ≡ e =
        m.others v r (λ i lt same. omega arith) ∙ entry_at-write space a R pd pt s v e in
      let v0 : v + 0 * page_size ≡ v = omega arith in
      let phys0 : phys + 0 * page_size ≡ phys = omega arith in
      rw (v0, phys0, stays)
        (mapped_entry-MapsTo s.rest.paging_execute_disable flags a.prot phys (entry v s) small)
  Mapped-leads pages s t v phys flags r small m (suc i) h =
      let v1 : v + suc i * page_size ≡ v + page_size + i * page_size = omega arith in
      let phys1 : phys + suc i * page_size ≡ phys + page_size + i * page_size = omega arith in
      rw (v1, phys1) (m.leads i (omega arith))

  Mapped-suc :
      (pages : ℕ) (s t : Mem Paging) (v phys flags : ℕ)
      → Tables s
      → R v
      → phys < 2 ^ 52
      → Mapped (v + page_size) (phys + page_size) pages (mapped s v phys flags) t
      → Mapped v phys (suc pages) s t
  Mapped-suc pages s t v phys flags k r small m = record {
    tables = m.tables;
    leads = Mapped-leads pages s t v phys flags r small m;
    others = λ u q apart.
        m.others u q (λ i h same. apart (suc i) (omega arith) (omega (arith, same)))
        ∙ entry_at-write_other space a R pd pt s v u
            (mapped_entry s.rest.paging_execute_disable flags a.prot phys (entry v s)) k r q
            (λ same. apart 0 (omega arith) (omega (arith, same)));
  }

  pub map_range_helper-Mapped :
      (pages : ℕ) (s : Mem Paging) (v w phys flags : ℕ)
      → Tables s
      → ((i : ℕ) → i < pages → R (v + i * page_size))
      → (pdp_index v ≢ pdp_index w → pd_index v ≡ 0)
      → v + pages * page_size < 2 ^ 64
      → phys + pages * page_size ≤ 2 ^ 52
      → (l : Location) × (t : Mem Paging) × (map_range_helper alloc_page kmap_allocation
            kmap_phys_range space v phys pages flags
            (at w)
            s
          ≡ ok l t)
        × Mapped v phys pages s t
  unfolding map_range_helper
  map_range_helper-Mapped zero s v w phys flags k all carry high high_phys = (
    at w,
    s,
    refl,
    record { tables = k; leads = λ i h. absurd (omega arith); others = λ u r h. refl },
  )
  map_range_helper-Mapped (suc pages) s v w phys flags k all carry high high_phys =
      let here : v + 0 * page_size ≡ v = omega arith in
      let r : R v = subst R here (all 0 (omega arith)) in
      let s1 : Mem Paging = mapped s v phys flags in
      let e : PageEntry =
        mapped_entry s.rest.paging_execute_disable flags a.prot phys (entry v s) in
      let k1 : Tables s1 = write_entry-Walks space a R pd pt s v (pt_index v) e k r in
      let (l, t, run, m) =
        map_range_helper-Mapped pages s1 (v + page_size) v (phys + page_size) flags k1
          (λ i h. subst R (omega arith) (all (suc i) (omega arith))) (index_carry v) (omega arith)
          (omega arith) in
      (
        l,
        t,
        one_page s v w phys pages flags k r carry (omega arith) (omega arith) ∙ run,
        Mapped-suc pages s t v phys flags k r (omega arith) m,
      )
