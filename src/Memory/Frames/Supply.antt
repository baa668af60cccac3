-- ===== src/Memory/Frames/Supply.antt =====
-- What the frame allocator takes from the entry pool: get_memory_entry, which may call
-- alloc_pages, which may come back into the frame allocator.
use plusplus_os.Base.{ℕ, zero, suc, ◌+◌, ◌≤◌, ◌≡◌, arith, subst}
use plusplus_os.Machine.{Cmd, Stop, Ends}
use plusplus_os.Memory.{MemoryEntryPool, Mem}
use plusplus_os.Memory.EntryPool.{get_memory_entry, freed_entry}
use plusplus_os.Memory.Frames.View.{free_at, IsValid}

-- From `s` to `t` no address is freed or lost: what is no longer free is held by the rest of the
-- kernel.
pub record Keeps {X : Type 0} (held : X → ℕ → ℕ) (s t : Mem X) : Type 0 where
  pub valid : IsValid t.lists
  pub conserved : (x : ℕ) → free_at t.lists x + held t.rest x ≡ free_at s.lists x + held s.rest x
  pub less : (x : ℕ) → free_at t.lists x ≤ free_at s.lists x

-- The interface: `Stock n p` says that the pool `p` is good for `n` more calls of
-- get_memory_entry and free_memory_entry, `Admits` why a call may stop, and `held` which addresses the rest of the kernel holds.
pub record Supply (X : Type 0) : Type 1 where
  pub alloc_page : Cmd (Mem X) ℕ
  pub held : X → ℕ → ℕ
  pub Admits : Stop → Type 0
  pub Stock : ℕ → MemoryEntryPool → Type 0
  pub get_law :
      (n : ℕ) (s : Mem X)
      → Stock (suc n) s.pool
      → IsValid s.lists
      → Ends Admits (λ _ t. Stock n t.pool × Keeps held s t) (get_memory_entry alloc_page s)
  pub free_law :
      (n : ℕ) (p : MemoryEntryPool) (node : ℕ) → Stock (suc n) p → Stock n (freed_entry node p)
  pub weaken : (n : ℕ) (p : MemoryEntryPool) → Stock (suc n) p → Stock n p

module _ {X : Type 0} (u : Supply X) where
  open u use {Stock, weaken}

  pub weaken_by : (d n : ℕ) (p : MemoryEntryPool) → Stock (d + n) p → Stock n p
  weaken_by zero n p h = subst (λ (m : ℕ). Stock m p) (let e : 0 + n ≡ n = omega arith in e) h
  weaken_by (suc d) n p h = weaken_by d n p (
      weaken (d + n) p
        (subst (λ (m : ℕ). Stock m p) (let e : suc d + n ≡ suc (d + n) = omega arith in e) h))
