-- ===== src/Memory/AddressSpace/Claim.antt =====
-- What claim_virt_range does to an address space.
use plusplus_os.Base.{
  ℕ, suc, ◌+◌, ◌-◌, ◌*◌, ◌/◌, ◌%◌, ◌^◌, ◌≤◌, ◌<◌, ◌≡◌, ap, refl, arith, ◌∙◌, ◌&&◌, Bool, true,
  false, ◌⊎◌, inl, inr, ltb, leb, one_if, tally, Bool-cases, add64, sub64, mul64, bit_and,
}
use plusplus_os.Base.Bits.{bit_and_mask}
use plusplus_os.Machine.{Cmd, Ends, Never, returns}
use plusplus_os.Memory.{Mem}
use plusplus_os.Memory.Frames.Sources.{IsStocked, get_memory_entry_stocked}
use plusplus_os.Memory.AddressSpace.{
  AddressSpace, Pointer, pdp_mem_range, entries_of, space_of, claim_virt_range, claim_above,
}
use plusplus_os.Memory.AddressSpace.Ranges.{page_in, free_ranges}
use plusplus_os.Memory.AddressSpace.Contract.{IsPointer}

-- The range is claimed: current_address moves behind it, and what lies between the old
-- current_address and the range is free.
pub record Claims (virt_addr pages : ℕ) (a b : AddressSpace) : Type 0 where
  pub above : a.current_address ≤ virt_addr
  pub within : virt_addr + pages * 4096 ≤ (a.pdp_index + 1) * pdp_mem_range
  pub moved : b.current_address ≡ virt_addr + pages * 4096
  pub hole :
      (x : ℕ)
      → free_ranges (entries_of b.free_list) x
        ≡ free_ranges (entries_of a.free_list) x
          + one_if (leb (a.current_address / 4096) x && ltb x (virt_addr / 4096))

abbrev pub ClaimResult : {X : Type 0} → Pointer X → ℕ → ℕ → Mem X → Bool → Mem X → Type 0
ClaimResult space virt_addr pages s true t =
    Claims virt_addr pages (space_of space s) (space_of space t)
ClaimResult space virt_addr pages s false t =
    (t ≡ s)
    × ((virt_addr < (space_of space s).current_address)
        ⊎ ((((space_of space s).pdp_index + 1) * pdp_mem_range) < virt_addr + pages * 4096))

abbrev free_in : ℕ → AddressSpace → ℕ
free_in x b = free_ranges (entries_of b.free_list) x

-- The new entry is the hole.
hole_lem :
    (current virt_addr x old : ℕ)
    → virt_addr / 4096 * 4096 ≡ virt_addr
    → current / 4096 * 4096 ≡ current
    → current ≤ virt_addr
    → virt_addr < 2 ^ 47
    → one_if (page_in (current / 2 ^ 12 % 2 ^ 36) (sub64 virt_addr current / 4096 % 2 ^ 44) x) + old
      ≡ old + one_if (leb (current / 4096) x && ltb x (virt_addr / 4096))
hole_lem current virt_addr x old aligned start below low =
    let first : current / 2 ^ 12 % 2 ^ 36 ≡ current / 4096 = omega arith in
    let gap : sub64 virt_addr current / 4096 % 2 ^ 44 ≡ virt_addr / 4096 - current / 4096 =
      omega arith in
    let last : current / 4096 + (virt_addr / 4096 - current / 4096) ≡ virt_addr / 4096 =
      omega arith in
    rw (first, gap, last) (omega arith)

module _ {X : Type 0} (space : Pointer X) (law : IsPointer space) (alloc_page : Cmd (Mem X) ℕ) where
  -- claim_virt_range of a page-aligned range of the lower half: it returns true and claims the
  -- range if it lies above current_address and in the space, and else returns false and changes
  -- nothing.
  pub claim_virt_range_total :
      (n virt_addr pages : ℕ) (s : Mem X)
      → virt_addr / 4096 * 4096 ≡ virt_addr
      → (space_of space s).current_address / 4096 * 4096 ≡ (space_of space s).current_address
      → virt_addr + pages * 4096 < 2 ^ 47
      → IsStocked (suc n) s.pool
      → Ends Never
          (ClaimResult space virt_addr pages s)
          (claim_virt_range space alloc_page virt_addr pages s)
  unfolding claim_virt_range claim_above free_ranges tally
  claim_virt_range_total n virt_addr pages s aligned start low stock =
      let a = space_of space s in
      let (node, next, e, run) = get_memory_entry_stocked alloc_page n s stock in
      let masked : bit_and virt_addr (2 ^ 48 - 1) ≡ virt_addr =
        omega (arith, bit_and_mask 48 virt_addr) in
      let end : add64 virt_addr (mul64 pages 4096) ≡ virt_addr + pages * 4096 = omega arith in
      let end_masked : bit_and (virt_addr + pages * 4096) (2 ^ 48 - 1) ≡ virt_addr + pages * 4096 =
        omega (arith, bit_and_mask 48 (virt_addr + pages * 4096)) in
      elim (Bool-cases (leb a.current_address virt_addr)) [
        | inr below ↦ rw (masked, below) (returns (refl, inl (ground arith)))
        | inl above ↦
            elim (Bool-cases (ltb ((a.pdp_index + 1) * pdp_mem_range) (virt_addr + pages * 4096))) [
              | inl outside ↦ rw (masked, above, end, outside) (returns (refl, inr (ground arith)))
              | inr inside ↦
                  rw (masked, above, end, inside)
                    (rw run (
                      returns (record {
                        above = ground arith;
                        within = ground arith;
                        moved = ap (λ (b : AddressSpace). b.current_address) (law _ _) ∙ end_masked;
                        hole = λ x.
                            ap (free_in x) (law _ _)
                            ∙ ap (free_in x) (law _ s.rest)
                            ∙ hole_lem a.current_address virt_addr x _ aligned start (ground arith)
                                (omega arith);
                      })))
            ]
      ]
