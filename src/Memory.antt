-- ===== src/Memory.antt =====
-- The state that the memory components share: kernel/src/memory/entry_pool.c and
-- kernel/src/memory/frame_allocator.c.
-- A chain of nodes that lead from one to the next by `next` is the list of its nodes, first to
-- last; `node` is the address of the 16 bytes that hold the node, which go from the pool to a free
-- list, to an allocation and back.
pub mod EntryPool
pub mod Orders
pub mod Buddy
pub mod Frames
pub mod AddressSpace
pub mod Slab
pub mod Paging
pub mod Pages
pub mod Setup
use plusplus_os.Base.{ℕ, List, update}
use plusplus_os.Machine.{Cmd, ok}

-- ListEntry
pub record ListEntry : Type 0 where
  pub node : ℕ
  pub addr : ℕ

abbrev pub list_entry : ℕ → ℕ → ListEntry
list_entry n a = record { node = n; addr = a }

-- PageFrameAllocation: `addr` has 57 bits and `order` 7.
pub record PageFrameAllocation : Type 0 where
  pub node : ℕ
  pub addr : ℕ
  pub order : ℕ

abbrev pub frame_allocation : ℕ → ℕ → ℕ → PageFrameAllocation
frame_allocation n a k = record { node = n; addr = a; order = k }

-- g_free_lists: the chain and the words of the buddy map of each order.
pub record FreeLists : Type 0 where
  pub head : ℕ → List ListEntry
  pub buddy_map : ℕ → ℕ → ℕ

-- g_memory_entry_pool: the nodes of the chain.
pub record MemoryEntryPool : Type 0 where
  pub count : ℕ
  pub head : List ℕ

-- `rest` is the state of the other components.
pub record Mem (X : Type 0) : Type 0 where
  pub lists : FreeLists
  pub pool : MemoryEntryPool
  pub rest : X

module _ {X : Type 0} where
  abbrev pub set_lists : FreeLists → Mem X → Mem X
  set_lists f s = record s { lists = f }

  abbrev pub set_pool : MemoryEntryPool → Mem X → Mem X
  set_pool p s = record s { pool = p }

abbrev pub set_head : ℕ → List ListEntry → FreeLists → FreeLists
set_head k l f = record f { head = update f.head k l }

module _ {X : Type 0} where
  -- g_free_lists[order].head = l
  abbrev pub write_head : ℕ → List ListEntry → Cmd (Mem X) (Unit {0})
  write_head k l s = ok tt (set_lists (set_head k l s.lists) s)
