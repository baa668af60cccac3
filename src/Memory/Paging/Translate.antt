-- ===== src/Memory/Paging/Translate.antt =====
-- kernel/src/memory/paging.c: what virt_to_phys_addr gives after a range is mapped.
use plusplus_os.Base.{
  ℕ, ◌+◌, ◌*◌, ◌/◌, ◌%◌, ◌^◌, ◌<◌, ◌≤◌, ◌≡◌, ◌≢◌, ◌⊎◌, inl, inr, ap, subst, ◌∙◌, refl, true, Option,
  some, List, arith, bit_and, bit_or,
}
use plusplus_os.Base.Bits.{bit_and_mask}
use plusplus_os.Base.Masks.{bit_or_disjoint}
use plusplus_os.Machine.{Cmd, ok}
use plusplus_os.Memory.{PageFrameAllocation, Mem}
use plusplus_os.Memory.EntryPool.{page_size}
use plusplus_os.Memory.AddressSpace.{AddressSpace}
use plusplus_os.Memory.Paging.{PageEntry, Paging, Space}
use plusplus_os.Memory.Paging.Mapping.{map_claimed_range, phys_of, virt_to_phys_addr}
use plusplus_os.Memory.Paging.Walk.{
  Walks, get_level_index_lem, pdp_index, pd_index, pt_index, virt_to_phys_addr-walk,
}
use plusplus_os.Memory.Paging.Range.{entry, populated, map_range_helper-Mapped}

-- The indices of an address are those of its page.
same_indices :
    (x off : ℕ)
    → x % 2 ^ 12 ≡ 0
    → off < 2 ^ 12
    → (pdp_index (x + off) ≡ pdp_index x)
      × (pd_index (x + off) ≡ pd_index x)
      × (pt_index (x + off) ≡ pt_index x)
same_indices x off aligned small = (
  omega (arith, get_level_index_lem (x + off) 2, get_level_index_lem x 2),
  omega (arith, get_level_index_lem (x + off) 1, get_level_index_lem x 1),
  omega (arith, get_level_index_lem (x + off) 0, get_level_index_lem x 0),
)

-- An address outside of the range is on none of its pages.
apart :
    (v pages u i : ℕ)
    → v % 2 ^ 12 ≡ 0
    → (u < v) ⊎ (v + pages * 2 ^ 12 ≤ u)
    → i < pages
    → (v + i * 2 ^ 12) / 2 ^ 12 ≢ u / 2 ^ 12
apart v pages u i aligned (inl below) h same = omega arith
apart v pages u i aligned (inr above) h same = omega arith

module _ (alloc_page : Cmd (Mem Paging) ℕ)
    (kmap_allocation : List PageFrameAllocation → Cmd (Mem Paging) ℕ)
    (kmap_phys_range : ℕ → ℕ → Cmd (Mem Paging) ℕ) (space : Space) (a : AddressSpace)
    (R : ℕ → Type 0) (pd : ℕ → ℕ) (pt : ℕ → ℕ → ℕ) where
  phys_of-MapsTo :
      (x off phys : ℕ) (e : PageEntry)
      → x % 2 ^ 12 ≡ 0
      → off < 2 ^ 12
      → phys % 2 ^ 12 ≡ 0
      → (e.present ≡ true) × (e.phys_addr ≡ phys / 2 ^ 12)
      → phys_of (x + off) e ≡ some (phys + off)
  phys_of-MapsTo x off phys e aligned small whole leads =
      let low : bit_and (x + off) 0xfff ≡ off = omega (arith, bit_and_mask 12 (x + off)) in
      let sum : bit_or (phys / 2 ^ 12 * 2 ^ 12) off ≡ phys + off =
        omega (arith, bit_or_disjoint 12 (phys / 2 ^ 12) off small) in
      rw (leads.0, leads.1, low, sum) refl

  -- A page-aligned range of page-aligned physical memory below 2 ^ 52 that map_to_range maps after it
  -- claimed it, or that is mapped again, where the page tables of all its addresses are in place:
  -- map_claimed_range returns true, after it each address of the range translates to the one as far
  -- into the physical range, and each other address with tables in place translates as before.
  pub map_claimed_range-translates :
      (s : Mem Paging) (v phys pages flags : ℕ)
      → Walks space a R pd pt s
      → ((i off : ℕ) → i < pages → off < page_size → R (v + i * page_size + off))
      → 0 < pages
      → v % page_size ≡ 0
      → phys % page_size ≡ 0
      → v + pages * page_size < 2 ^ 64
      → phys + pages * page_size ≤ 2 ^ 52
      → (t : Mem Paging) × (map_claimed_range alloc_page kmap_allocation kmap_phys_range space phys
            v pages flags s
          ≡ ok true t)
        × ((i off : ℕ)
            → i < pages
            → off < page_size
            → virt_to_phys_addr space (v + i * page_size + off) t
              ≡ ok (some (phys + i * page_size + off)) t)
        × ((u : ℕ)
            → R u
            → (u < v) ⊎ (v + pages * page_size ≤ u)
            → (r : Option ℕ) × (virt_to_phys_addr space u s ≡ ok r s)
              × (virt_to_phys_addr space u t ≡ ok r t))
  unfolding map_claimed_range
  map_claimed_range-translates s v phys pages flags k all pages_some aligned whole high high_phys =
      let base : (i : ℕ) → i < pages → R (v + i * page_size) =
        λ i h. subst R (omega arith) (all i 0 h (omega arith)) in
      let r : R v = subst R (omega arith) (base 0 pages_some) in
      let (l, t, run, m) =
        map_range_helper-Mapped alloc_page kmap_allocation kmap_phys_range space a R pd pt pages s v
          v phys flags k base (λ moved. absurd (moved refl)) high high_phys in
      (
        t,
        rw (populated alloc_page kmap_allocation kmap_phys_range space a R pd pt s v k r, run) refl,
        (λ i off h small.
            let x : ℕ = v + i * page_size in
            let same = same_indices x off (omega arith) small in
            let entries : entry alloc_page kmap_allocation kmap_phys_range space a R pd pt (x + off)
                  t
                ≡ entry alloc_page kmap_allocation kmap_phys_range space a R pd pt x t =
              λ j. t.rest.tables (pt (same.0 j) (same.1 j)) (same.2 j) in
            virt_to_phys_addr-walk space a R pd pt t (x + off) m.tables (all i off h small)
            ∙ ap (λ (e : PageEntry). ok (phys_of (x + off) e) t) entries
            ∙ ap (λ (o : Option ℕ). ok o t)
                (phys_of-MapsTo x off (phys + i * page_size)
                  (entry alloc_page kmap_allocation kmap_phys_range space a R pd pt x t)
                  (omega arith) small (omega arith) (m.leads i h))),
        (λ u q outside. (
          phys_of u (entry alloc_page kmap_allocation kmap_phys_range space a R pd pt u s),
          virt_to_phys_addr-walk space a R pd pt s u k q,
          virt_to_phys_addr-walk space a R pd pt t u m.tables q
              ∙ ap (λ (e : PageEntry). ok (phys_of u e) t)
                  (m.others u q (λ i h same. apart v pages u i aligned outside h same)),
        )),
      )
