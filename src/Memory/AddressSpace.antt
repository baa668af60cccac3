-- ===== src/Memory/AddressSpace.antt =====
-- The virtual address ranges of an address space, in kernel/src/memory/paging.c.
-- The nodes of the free list come from the entry pool, which lies in the upper half of the
-- address space; a chain keeps 48 bits of an address, and SIGN_EXT_ADDR restores the others.
pub mod Ranges
mod Tests
pub mod Contract
pub mod Claim
use plusplus_os.Base.{
  ℕ, ◌+◌, ◌-◌, ◌*◌, ◌/◌, ◌%◌, ◌^◌, Bool, true, false, Option, none, some, List, [], ◌∷◌, ltb, leb,
  ◌==◌, if◌then◌else◌, add64, sub64, mul64, ◌<<<◌, ◌>>>◌, bit_and, bit_or,
}
use plusplus_os.Machine.{
  Cmd, ok, halt, general_protection, out_of_address_space, pure, kernel_assert, ◌>>=◌, ◌>>◌,
}
use plusplus_os.Memory.{Mem}
use plusplus_os.Memory.EntryPool.{page_size, get_memory_entry, free_memory_entry}

-- PDP_MEM_RANGE, NON_EXT_ADDR_MASK
abbrev pub pdp_mem_range : ℕ
pdp_mem_range = 2 ^ 39

abbrev pub non_ext_addr_mask : ℕ
non_ext_addr_mask = 2 ^ 48 - 1

-- SIGN_EXT_ADDR
unfoldable pub sign_ext_addr : ℕ → ℕ
sign_ext_addr addr = bit_or addr (mul64 (bit_and (addr >>> 47) 1) 0xffff <<< 48)

-- FreeListEntry: `addr`, a page number, has 36 bits and `pages` 44.
pub record FreeListEntry : Type 0 where
  pub node : ℕ
  pub addr : ℕ
  pub pages : ℕ

-- The pointer to the first entry of a free list: it is null or whole, or it is the first 48 bits
-- of a pointer, which the processor refuses when it is used.
pub data FreeList : Type 0 where
  whole : List FreeListEntry → FreeList
  cut : List FreeListEntry → FreeList

-- MappingEntry: where the page table with the physical page `phys_addr` (38 bits) is mapped, the
-- virtual page `virt_addr` (36 bits).
pub record MappingEntry : Type 0 where
  pub node : ℕ
  pub virt_addr : ℕ
  pub phys_addr : ℕ

-- AddressSpace. `pdp` is a pointer to a page table, `entry_maps` has two chains.
pub record AddressSpace : Type 0 where
  pub current_address : ℕ
  pub pdp_index : ℕ
  pub pdp : ℕ
  pub prot : ℕ
  pub free_list : FreeList
  pub entry_maps : ℕ → List MappingEntry

-- An `AddressSpace*`: where in the kernel's state it points to.
pub record Pointer (X : Type 0) : Type 0 where
  pub load : X → AddressSpace
  pub store : AddressSpace → X → X

-- A free range that is found: its address, the entry that is freed, if any, and the entries that
-- stay. `at_head`: space->free_list is set to the next pointer of the entry that is freed.
pub record Reused : Type 0 where
  pub addr : ℕ
  pub freed : Option ℕ
  pub entries : List FreeListEntry
  pub at_head : Bool

-- The chain as the 48 bits of its first entry's pointer, which null fits into.
unfoldable pub cut_pointer : List FreeListEntry → FreeList
cut_pointer [] = whole []
cut_pointer (e ∷ next) = cut (e ∷ next)

-- `next` of an entry that is walked over stays a pointer that SIGN_EXT_ADDR restores.
abbrev pub behind : FreeListEntry → Option Reused → Option Reused
behind e none = none
behind e (some r) = some (record r { entries = e ∷ r.entries; at_head = false })

-- The entry after alloc_addr_space took `pages` pages from its front.
unfoldable pub front_taken : ℕ → FreeListEntry → FreeListEntry
front_taken pages e = record {
  node = e.node;
  addr = (add64 (e.addr <<< 12) (mul64 pages page_size) >>> 12) % 2 ^ 36;
  pages = (e.pages + pages) % 2 ^ 44;
}

-- The walk along the free list in alloc_addr_space.
unfoldable pub reuse_range : ℕ → List FreeListEntry → Option Reused
reuse_range pages [] = none
reuse_range pages (e ∷ next) =
    if ltb pages e.pages
    then some (record {
      addr = e.addr <<< 12;
      freed = none;
      entries = front_taken pages e ∷ next;
      at_head = false;
    })
    else if e.pages == pages
    then some (record { addr = e.addr <<< 12; freed = some e.node; entries = next; at_head = true })
    else behind e (reuse_range pages next)

-- space->free_list after the walk.
unfoldable pub list_after : Reused → FreeList
list_after r = if r.at_head then cut_pointer r.entries else whole r.entries

-- entry->next keeps 48 bits of space->free_list, so that the chain behind the new entry is whole.
abbrev pub entries_of : FreeList → List FreeListEntry
entries_of (whole entries) = entries
entries_of (cut entries) = entries

abbrev pub push_range : FreeListEntry → AddressSpace → AddressSpace
push_range e a = record a { free_list = whole (e ∷ entries_of a.free_list) }

module _ {X : Type 0} (space : Pointer X) where
  abbrev pub space_of : Mem X → AddressSpace
  space_of s = space.load s.rest

  abbrev pub change : (AddressSpace → AddressSpace) → Cmd (Mem X) (Unit {0})
  change f s = ok tt (record s { rest = space.store (f (space.load s.rest)) s.rest })

  abbrev pub free_entry : Option ℕ → Cmd (Mem X) (Unit {0})
  free_entry none = pure tt
  free_entry (some node) = free_memory_entry node

  -- No free range is big enough: the range starts at current_address.
  unfoldable pub extend_space : ℕ → Cmd (Mem X) ℕ
  extend_space pages s =
      let a = space_of s in
      let end = add64 a.current_address (mul64 pages page_size) in
      (do
        change (λ b. record b { current_address = end })
        kernel_assert (ltb end ((a.pdp_index + 1) * pdp_mem_range)) out_of_address_space
        pure (sign_ext_addr a.current_address))
        s

  unfoldable pub take_range : ℕ → Option Reused → Cmd (Mem X) ℕ
  take_range pages none = extend_space pages
  take_range pages (some r) = do
    change (λ b. record b { free_list = list_after r })
    free_entry r.freed
    pure (sign_ext_addr r.addr)

  unfoldable pub alloc_from : ℕ → FreeList → Cmd (Mem X) ℕ
  alloc_from pages (cut entries) = halt general_protection
  alloc_from pages (whole entries) = take_range pages (reuse_range pages entries)

  unfoldable pub alloc_addr_space : ℕ → Cmd (Mem X) ℕ
  alloc_addr_space pages s = alloc_from pages (space_of s).free_list s

  module _ (alloc_page : Cmd (Mem X) ℕ) where
    unfoldable pub add_range_to_free_list : ℕ → ℕ → Cmd (Mem X) (Unit {0})
    add_range_to_free_list virt_addr pages = do
      node ← get_memory_entry alloc_page
      change (
          push_range
            (record { node = node; addr = (virt_addr >>> 12) % 2 ^ 36; pages = pages % 2 ^ 44 }))

    -- The range below the one that is claimed becomes free.
    unfoldable pub claim_above : ℕ → ℕ → Cmd (Mem X) Bool
    claim_above virt_addr pages = do
      node ← get_memory_entry alloc_page
      change (λ a.
          push_range
            (record {
              node = node;
              addr = (a.current_address >>> 12) % 2 ^ 36;
              pages = (sub64 virt_addr a.current_address / page_size) % 2 ^ 44;
            })
            a)
      change (λ a. record a {
        current_address = bit_and (add64 virt_addr (mul64 pages page_size)) non_ext_addr_mask;
      })
      pure true

    unfoldable pub claim_virt_range : ℕ → ℕ → Cmd (Mem X) Bool
    claim_virt_range virt_addr pages s =
        let a = space_of s in
        if leb a.current_address (bit_and virt_addr non_ext_addr_mask)
        then if ltb ((a.pdp_index + 1) * pdp_mem_range) (add64 virt_addr (mul64 pages page_size))
          then ok false s
          else claim_above virt_addr pages s
        else ok false s
