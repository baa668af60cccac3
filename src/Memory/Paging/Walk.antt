-- ===== src/Memory/Paging/Walk.antt =====
-- kernel/src/memory/paging.c: page tables that are in place, and the walk through them.
use plusplus_os.Base.{
  ℕ, ◌+◌, ◌*◌, ◌/◌, ◌%◌, ◌^◌, ◌≡◌, ◌≢◌, ap, sym, ◌∙◌, refl, true, false, arith, ◌==◌, Bool-cases,
  inl, inr, update, update_same, update_other,
}
use plusplus_os.Base.Masks.{bit_and_field}
use plusplus_os.Machine.{ok}
use plusplus_os.Memory.{Mem}
use plusplus_os.Memory.AddressSpace.{AddressSpace}
use plusplus_os.Memory.Paging.{
  PageEntry, Paging, Space, kernel_space, user_space, level_pt, level_pd, level_pdp, load_space,
  write_entry, get_level_index, find_mapping, get_page_entries,
}
use plusplus_os.Memory.Paging.Mapping.{
  Location, phys_of, translate_pt, translate_pd, virt_to_phys_addr,
}

pub get_level_index_lem : (v l : ℕ) → get_level_index v l ≡ v / 2 ^ (12 + 9 * l) % 2 ^ 9
unfolding get_level_index
get_level_index_lem v l = bit_and_field 9 (12 + 9 * l) v

-- The indices of an address in the three tables.
abbrev pub pdp_index : ℕ → ℕ
pdp_index v = get_level_index v level_pdp

abbrev pub pd_index : ℕ → ℕ
pd_index v = get_level_index v level_pd

abbrev pub pt_index : ℕ → ℕ
pt_index v = get_level_index v level_pt

-- Addresses of one address space with the same indices are on the same page.
pub page_eq :
    (v w : ℕ)
    → v / 2 ^ 39 ≡ w / 2 ^ 39
    → pdp_index v ≡ pdp_index w
    → pd_index v ≡ pd_index w
    → pt_index v ≡ pt_index w
    → v / 2 ^ 12 ≡ w / 2 ^ 12
page_eq v w top two one zero_th = omega (
  arith,
  get_level_index_lem v 0,
  get_level_index_lem v 1,
  get_level_index_lem v 2,
  get_level_index_lem w 0,
  get_level_index_lem w 1,
  get_level_index_lem w 2,
)

-- Where the next page is behind another page directory, it is in the directory's first table.
pub index_carry : (v : ℕ) → pdp_index (v + 4096) ≢ pdp_index v → pd_index (v + 4096) ≡ 0
index_carry v moved = omega (
  arith,
  get_level_index_lem v 2,
  get_level_index_lem (v + 4096) 1,
  get_level_index_lem (v + 4096) 2,
)

-- The tables for the addresses in `R`, which belong to one address space, are there: `pd i` is the
-- page directory behind entry `i` of the page directory pointer table, and `pt i j` the page table
-- behind its entry `j`. A page table is none of the other tables, and two page tables that are the
-- same are at the same place.
pub record Walks (space : Space) (a : AddressSpace) (R : ℕ → Type 0) (pd : ℕ → ℕ) (pt : ℕ → ℕ → ℕ)
    (s : Mem Paging) : Type 0 where
  pub loaded : load_space space s ≡ a
  pub top : (v w : ℕ) → R v → R w → v / 2 ^ 39 ≡ w / 2 ^ 39
  pub pdp_some : a.pdp ≢ 0
  pub pd_present : (v : ℕ) → R v → (s.rest.tables a.pdp (pdp_index v)).present ≡ true
  pub pd_found :
      (v : ℕ)
      → R v
      → find_mapping (s.rest.tables a.pdp (pdp_index v)).phys_addr (a.entry_maps level_pd)
        ≡ pd (pdp_index v)
  pub pd_some : (v : ℕ) → R v → pd (pdp_index v) ≢ 0
  pub pt_present : (v : ℕ) → R v → (s.rest.tables (pd (pdp_index v)) (pd_index v)).present ≡ true
  pub pt_found :
      (v : ℕ)
      → R v
      → find_mapping
          (s.rest.tables (pd (pdp_index v)) (pd_index v)).phys_addr
          (a.entry_maps level_pt)
        ≡ pt (pdp_index v) (pd_index v)
  pub pt_some : (v : ℕ) → R v → pt (pdp_index v) (pd_index v) ≢ 0
  pub pt_not_pdp : (v : ℕ) → R v → pt (pdp_index v) (pd_index v) ≢ a.pdp
  pub pt_not_pd : (v w : ℕ) → R v → R w → pt (pdp_index v) (pd_index v) ≢ pd (pdp_index w)
  pub pt_apart :
      (v w : ℕ)
      → R v
      → R w
      → pt (pdp_index v) (pd_index v) ≡ pt (pdp_index w) (pd_index w)
      → (pdp_index v ≡ pdp_index w) × (pd_index v ≡ pd_index w)

pub load_space-write_entry :
    (space : Space) (s : Mem Paging) (table index : ℕ) (e : PageEntry)
    → load_space space (record s { rest = write_entry table index e s.rest }) ≡ load_space space s
load_space-write_entry kernel_space s table index e = refl
load_space-write_entry (user_space n) s table index e = refl

module _ (space : Space) (a : AddressSpace) (R : ℕ → Type 0) (pd : ℕ → ℕ) (pt : ℕ → ℕ → ℕ) where
  -- The page table of an address, and its entry there.
  abbrev pub table_of : ℕ → ℕ
  table_of v = pt (pdp_index v) (pd_index v)

  abbrev pub entry_at : ℕ → Mem Paging → PageEntry
  entry_at v s = s.rest.tables (table_of v) (pt_index v)

  -- Where the tables of `v` are.
  abbrev pub location_of : ℕ → Location
  location_of v = record {
    pd_index = pdp_index v;
    pd = pd (pdp_index v);
    pt_index = pd_index v;
    pt = table_of v;
  }

  -- virt_to_phys_addr gives what the entry says, and changes nothing.
  pub virt_to_phys_addr-walk :
      (s : Mem Paging) (v : ℕ)
      → Walks space a R pd pt s
      → R v
      → virt_to_phys_addr space v s ≡ ok (phys_of v (entry_at v s)) s
  unfolding virt_to_phys_addr translate_pd translate_pt get_page_entries
  virt_to_phys_addr-walk s v k r =
      let pdp_there : (a.pdp == 0) ≡ false = let h = k.pdp_some in ground arith in
      let pd_there : (pd (pdp_index v) == 0) ≡ false = let h = k.pd_some v r in ground arith in
      let pt_there : (table_of v == 0) ≡ false = let h = k.pt_some v r in ground arith in
      rw
        (
          k.loaded,
          pdp_there,
          k.pd_found v r,
          pd_there,
          pd_there,
          k.loaded,
          k.pt_found v r,
          pt_there,
        )
        refl

  -- A write to a page table leaves the tables in place.
  pub write_entry-Walks :
      (s : Mem Paging) (v index : ℕ) (e : PageEntry)
      → Walks space a R pd pt s
      → R v
      → Walks space a R pd pt (record s { rest = write_entry (table_of v) index e s.rest })
  write_entry-Walks s v index e k r =
      let kept : (t : ℕ)
          → table_of v ≢ t
          → (write_entry (table_of v) index e s.rest).tables t ≡ s.rest.tables t =
        λ t ne.
          update_other s.rest.tables (table_of v) t (update (s.rest.tables (table_of v)) index e)
            (λ same. ne (sym same)) in
      record {
        loaded = load_space-write_entry space s (table_of v) index e ∙ k.loaded;
        top = k.top;
        pdp_some = k.pdp_some;
        pd_present = λ w q.
            ap (λ (f : ℕ → PageEntry). (f (pdp_index w)).present) (kept a.pdp (k.pt_not_pdp v r))
            ∙ k.pd_present w q;
        pd_found = λ w q.
            ap
              (λ (f : ℕ → PageEntry).
                find_mapping (f (pdp_index w)).phys_addr (a.entry_maps level_pd))
              (kept a.pdp (k.pt_not_pdp v r))
            ∙ k.pd_found w q;
        pd_some = k.pd_some;
        pt_present = λ w q.
            ap (λ (f : ℕ → PageEntry). (f (pd_index w)).present)
              (kept (pd (pdp_index w)) (k.pt_not_pd v w r q))
            ∙ k.pt_present w q;
        pt_found = λ w q.
            ap
              (λ (f : ℕ → PageEntry).
                find_mapping (f (pd_index w)).phys_addr (a.entry_maps level_pt))
              (kept (pd (pdp_index w)) (k.pt_not_pd v w r q))
            ∙ k.pt_found w q;
        pt_some = k.pt_some;
        pt_not_pdp = k.pt_not_pdp;
        pt_not_pd = k.pt_not_pd;
        pt_apart = k.pt_apart;
      }

  -- The entry that is written, and those of all other pages.
  pub entry_at-write :
      (s : Mem Paging) (v : ℕ) (e : PageEntry)
      → entry_at v (record s { rest = write_entry (table_of v) (pt_index v) e s.rest }) ≡ e
  entry_at-write s v e =
      ap (λ (f : ℕ → PageEntry). f (pt_index v))
        (update_same s.rest.tables (table_of v)
          (update (s.rest.tables (table_of v)) (pt_index v) e))
      ∙ update_same (s.rest.tables (table_of v)) (pt_index v) e

  pub entry_at-write_other :
      (s : Mem Paging) (v w : ℕ) (e : PageEntry)
      → Walks space a R pd pt s
      → R v
      → R w
      → v / 2 ^ 12 ≢ w / 2 ^ 12
      → entry_at w (record s { rest = write_entry (table_of v) (pt_index v) e s.rest })
        ≡ entry_at w s
  entry_at-write_other s v w e k rv rw_ apart = elim (Bool-cases (table_of w == table_of v)) [
    | inl same ↦
        let at : table_of w ≡ table_of v = ground arith in
        let places = k.pt_apart v w rv rw_ (sym at) in
        let other : pt_index w ≢ pt_index v = λ (i : pt_index w ≡ pt_index v).
          apart (page_eq v w (k.top v w rv rw_) places.0 places.1 (sym i)) in
        ap
          (λ (t : ℕ).
            update s.rest.tables (table_of v) (update (s.rest.tables (table_of v)) (pt_index v) e) t
              (pt_index w))
          at
        ∙ ap (λ (f : ℕ → PageEntry). f (pt_index w))
            (update_same s.rest.tables (table_of v)
              (update (s.rest.tables (table_of v)) (pt_index v) e))
        ∙ update_other (s.rest.tables (table_of v)) (pt_index v) (pt_index w) e other
        ∙ ap (λ (t : ℕ). s.rest.tables t (pt_index w)) (sym at)
    | inr differ ↦
        ap (λ (f : ℕ → PageEntry). f (pt_index w))
          (update_other s.rest.tables (table_of v) (table_of w)
            (update (s.rest.tables (table_of v)) (pt_index v) e) (λ same. ground arith))
  ]
