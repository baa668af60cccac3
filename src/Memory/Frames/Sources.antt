-- ===== src/Memory/Frames/Sources.antt =====
-- How get_memory_entry serves the frame allocator out of a pool that is well stocked.
use plusplus_os.Base.{
  ℕ, suc, ◌+◌, ◌^◌, ◌≤◌, ◌<◌, ◌≡◌, refl, ap, arith, false, List, ◌∷◌, [], ltb, length, sub64,
}
use plusplus_os.Machine.{Cmd, Stop, ok, Ends, returns}
use plusplus_os.Memory.{MemoryEntryPool, Mem, set_pool}
use plusplus_os.Memory.EntryPool.{get_memory_entry, freed_entry, pop_entry, pop_chain}
use plusplus_os.Memory.Frames.View.{IsValid}
use plusplus_os.Memory.Frames.Supply.{Keeps, Supply}

-- The pool counts its entries, and has `n` more than the number below which it is filled again.
pub record IsStocked (n : ℕ) (p : MemoryEntryPool) : Type 0 where
  pub counted : p.count ≡ length p.head
  pub enough : 20 + n ≤ p.count
  pub bounded : p.count + n < 2 ^ 64

pop_chain_lem :
    {X : Type 0} (chain : List ℕ) (s : Mem X)
    → s.pool.count ≡ length chain
    → 0 < length chain
    → s.pool.count < 2 ^ 64
    → (node : ℕ) × (next : List ℕ) × (chain ≡ node ∷ next)
      × (pop_chain chain s ≡ ok node (set_pool (record { count = length next; head = next }) s))
unfolding pop_chain
pop_chain_lem [] s e pos small = absurd (omega arith)
pop_chain_lem (node ∷ next) s e pos small =
    let left : sub64 s.pool.count 1 ≡ length next = omega arith in (node, next, refl, rw left)

module _ {X : Type 0} (alloc_page : Cmd (Mem X) ℕ) where
  -- A well-stocked pool gives its first entry, whatever alloc_pages would do.
  pub get_memory_entry_stocked :
      (n : ℕ) (s : Mem X)
      → IsStocked (suc n) s.pool
      → (node : ℕ) × (next : List ℕ) × (s.pool.head ≡ node ∷ next)
        × (get_memory_entry alloc_page s
            ≡ ok node (set_pool (record { count = length next; head = next }) s))
  unfolding get_memory_entry pop_entry
  get_memory_entry_stocked n s h =
      let full : ltb s.pool.count 20 ≡ false = ground (arith, h.enough) in
      rw full (pop_chain_lem s.pool.head s h.counted (omega arith) (omega arith))

  pub IsStocked-get_memory_entry :
      (held : X → ℕ → ℕ) (E : Stop → Type 0) (n : ℕ) (s : Mem X)
      → IsStocked (suc n) s.pool
      → IsValid s.lists
      → Ends E (λ _ t. IsStocked n t.pool × Keeps held s t) (get_memory_entry alloc_page s)
  IsStocked-get_memory_entry held E n s h v =
      let (node, next, e, run) = get_memory_entry_stocked n s h in
      let longer : length s.pool.head ≡ suc (length next) = ap length e in
      rw run (
        returns (
          record {
            counted = refl;
            enough = omega (arith, h.enough, h.counted);
            bounded = omega (arith, h.bounded, h.counted);
          },
          record { valid = v; conserved = λ x. refl; less = λ x. omega arith },
        ))

  pub IsStocked-freed_entry :
      (n : ℕ) (p : MemoryEntryPool) (node : ℕ)
      → IsStocked (suc n) p
      → IsStocked n (freed_entry node p)
  IsStocked-freed_entry n p node h = omega (arith, h.counted, h.enough, h.bounded)

  pub IsStocked-weaken : (n : ℕ) (p : MemoryEntryPool) → IsStocked (suc n) p → IsStocked n p
  IsStocked-weaken n p h = omega (arith, h.counted, h.enough, h.bounded)

  -- The supply of a well-stocked pool. Nothing but what `E` admits stops it.
  abbrev pub stocked_supply : (X → ℕ → ℕ) → (Stop → Type 0) → Supply X
  stocked_supply held E = record {
    alloc_page = alloc_page;
    held = held;
    Admits = E;
    Stock = IsStocked;
    get_law = IsStocked-get_memory_entry held E;
    free_law = IsStocked-freed_entry;
    weaken = IsStocked-weaken;
  }
