-- ===== src/Memory/Paging.antt =====
-- kernel/src/memory/paging.c: page tables. What the processor keeps of them in its TLB is not
-- modelled, and a page table is known by the virtual address at which the kernel reaches it.
pub mod Entries
pub mod Mapping
pub mod Walk
pub mod Range
pub mod Translate
mod Tests
use plusplus_os.Base.{
  ℕ, ◌+◌, ◌-◌, ◌*◌, ◌/◌, ◌%◌, ◌^◌, Bool, true, false, not, ◌&&◌, List, [], ◌∷◌, ◌==◌, if◌then◌else◌,
  update, ◌<<<◌, ◌>>>◌, bit_and,
}
use plusplus_os.Machine.{Cmd, ok, stop, null_pointer}
use plusplus_os.Memory.{Mem}
use plusplus_os.Memory.AddressSpace.{MappingEntry, AddressSpace, Pointer, sign_ext_addr}

-- PT, PD, PDP
abbrev pub level_pt : ℕ
level_pt = 0

abbrev pub level_pd : ℕ
level_pd = 1

abbrev pub level_pdp : ℕ
level_pdp = 2

-- PAGE_POOL_THRESHOLD
abbrev pub page_pool_threshold : ℕ
page_pool_threshold = 10

-- PAGING_WRITABLE, PAGING_EXECUTABLE, PAGING_CACHE_DISABLE, PAGING_WRITE_THROUGH
abbrev pub paging_writable : ℕ
paging_writable = 1

abbrev pub paging_executable : ℕ
paging_executable = 2

abbrev pub paging_cache_disable : ℕ
paging_cache_disable = 4

abbrev pub paging_write_through : ℕ
paging_write_through = 8

-- GET_LEVEL_INDEX
unfoldable pub get_level_index : ℕ → ℕ → ℕ
get_level_index addr level = bit_and addr (0x1ff <<< (12 + 9 * level)) >>> (12 + 9 * level)

-- PageEntry, without the bits that the kernel leaves to the processor. `phys_addr` has 40 bits and
-- `prot` 4.
pub record PageEntry : Type 0 where
  pub present : Bool
  pub write : Bool
  pub user : Bool
  pub write_through : Bool
  pub cache_disable : Bool
  pub phys_addr : ℕ
  pub prot : ℕ
  pub execute_disable : Bool

-- value = 0
abbrev pub zero_entry : PageEntry
zero_entry = record {
  present = false;
  write = false;
  user = false;
  write_through = false;
  cache_disable = false;
  phys_addr = 0;
  prot = 0;
  execute_disable = false;
}

-- g_page_pool: PagePoolEntry is MappingEntry.
pub record PagePool : Type 0 where
  pub count : ℕ
  pub head : List MappingEntry

-- g_kernel_space, the other address spaces by their addresses, the page tables, g_pml4,
-- g_page_pool and g_paging_execute_disable.
pub record Paging : Type 0 where
  pub kernel_space : AddressSpace
  pub user_spaces : ℕ → AddressSpace
  pub tables : ℕ → ℕ → PageEntry
  pub pml4 : ℕ → PageEntry
  pub page_pool : PagePool
  pub paging_execute_disable : Bool

-- An `AddressSpace*`: &g_kernel_space, or another one.
pub data Space : Type 0 where
  kernel_space : Space
  user_space : ℕ → Space

-- What the pointer points to.
abbrev pub pointer : Space → Pointer Paging
pointer kernel_space = record {
  load = λ p. p.kernel_space;
  store = λ a p. record p { kernel_space = a };
}
pointer (user_space n) = record {
  load = λ p. p.user_spaces n;
  store = λ a p. record p { user_spaces = update p.user_spaces n a };
}

abbrev pub load_space : Space → Mem Paging → AddressSpace
load_space space s = (pointer space).load s.rest

abbrev pub change_space : Space → (AddressSpace → AddressSpace) → Cmd (Mem Paging) (Unit {0})
change_space space f s =
    ok tt (record s { rest = (pointer space).store (f (load_space space s)) s.rest })

abbrev pub change_paging : (Paging → Paging) → Cmd (Mem Paging) (Unit {0})
change_paging f s = ok tt (record s { rest = f s.rest })

-- table[index]
abbrev pub read_entry : ℕ → ℕ → Cmd (Mem Paging) PageEntry
read_entry table index s =
    if table == 0 then stop null_pointer else ok (s.rest.tables table index) s

abbrev pub write_entry : ℕ → ℕ → PageEntry → Paging → Paging
write_entry table index e p = record p {
  tables = update p.tables table (update (p.tables table) index e);
}

abbrev pub change_entry : ℕ → ℕ → (PageEntry → PageEntry) → Cmd (Mem Paging) (Unit {0})
change_entry table index f s =
    if table == 0
    then stop null_pointer
    else change_paging (write_entry table index (f (s.rest.tables table index))) s

-- memset of a page table to 0
abbrev pub clear_table : ℕ → Cmd (Mem Paging) (Unit {0})
clear_table table s =
    if table == 0
    then stop null_pointer
    else change_paging (λ p. record p { tables = update p.tables table (λ i. zero_entry) }) s

-- The bits of `flags` are tested by `&` with one of the powers of two above.
unfoldable pub set_flags : Bool → ℕ → PageEntry → PageEntry
set_flags execute_disable flags e = record e {
  write = not (bit_and flags paging_writable == 0);
  cache_disable = not (bit_and flags paging_cache_disable == 0);
  write_through = not (bit_and flags paging_write_through == 0);
  execute_disable = bit_and flags paging_executable == 0 && execute_disable;
}

-- The walk along a chain of mappings: 0 if the page is not in it.
unfoldable pub find_mapping : ℕ → List MappingEntry → ℕ
find_mapping phys [] = 0
find_mapping phys (m ∷ next) =
    if m.phys_addr == phys then sign_ext_addr (m.virt_addr <<< 12) else find_mapping phys next

-- get_page_entries(space, &table[index], level)
unfoldable pub get_page_entries : Space → ℕ → ℕ → ℕ → Cmd (Mem Paging) ℕ
get_page_entries space table index level s =
    if table == 0
    then stop null_pointer
    else ok
        (find_mapping (s.rest.tables table index).phys_addr ((load_space space s).entry_maps level))
        s
