-- ===== src/Scheduler.antt =====
-- kernel/src/process_system.c: the queue of processes and the switch from one to the next.
-- Memory is a table of 64-bit words for each address space.
pub mod Queue
pub mod Stack
pub mod Switch
mod Tests
use plusplus_os.Base.{
  ℕ, zero, suc, ◌+◌, ◌-◌, ◌*◌, ◌/◌, ◌^◌, ◌%◌, Bool, not, ◌&&◌, ◌==◌, leb, ltb, if◌then◌else◌,
  update, add64, sub64,
}
use plusplus_os.Machine.{
  Run, Cmd, ok, stop, null_pointer, page_fault, general_protection, kernel_memory, assert_failed,
  no_physical_address, pure, ◌>>=◌, ◌>>◌,
}

-- Process: `next`, `addr_space` and `context_stack_ptr` are pointers.
pub record Process : Type 0 where
  pub next : ℕ
  pub addr_space : ℕ
  pub pid : ℕ
  pub context_stack_ptr : ℕ

-- What an AddressSpace is to the switch: its index in g_pml4, whether kvirt_to_phys_addr finds its
-- page directory pointer table, and which pages it has mapped, with read and write access, by the
-- numbers of the pages.
pub record UserSpace : Type 0 where
  pub pdp_index : ℕ
  pub pdp_found : Bool
  pub pages : ℕ → Bool

-- `head` and `tail` are those of g_process_queue, `pml4` the address space that each entry of
-- g_pml4 below KERNEL_PML4_OFFSET leads to, 0 if none, and `frame` what context_switch_handler
-- pushed at rsp: the registers and the return state, of which word 18 is the process's rsp.
pub record Kernel : Type 0 where
  pub processes : ℕ → Process
  pub head : ℕ
  pub tail : ℕ
  pub pml4 : ℕ → ℕ
  pub user_spaces : ℕ → UserSpace
  pub memory : ℕ → ℕ → ℕ
  pub frame : ℕ → ℕ

-- USER_STACK_SAVE_SIZE and its number of words
abbrev pub user_stack_save_size : ℕ
user_stack_save_size = 160

abbrev pub saved_words : ℕ
saved_words = 20

-- A pointer to a process is followed.
abbrev pub at : ℕ → Cmd Kernel Process
at p s = if p == 0 then stop null_pointer else ok (s.processes p) s

abbrev pub set_process : ℕ → (Process → Process) → Cmd Kernel (Unit {0})
set_process p f s =
    if p == 0
    then stop null_pointer
    else ok tt (record s { processes = update s.processes p (f (s.processes p)) })

-- Both pages of a word at an address are mapped in the space, 0 if there is none.
abbrev pub in_space : (ℕ → UserSpace) → ℕ → ℕ → Run (Unit {0}) ℕ
in_space user_spaces addr space =
    if space == 0
    then stop page_fault
    else if (user_spaces space).pages (addr / 4096) && (user_spaces space).pages ((addr + 7) / 4096)
    then ok space tt
    else stop page_fault

-- The address space that a process's word at an address lies in.
unfoldable pub place : (ℕ → ℕ) → (ℕ → UserSpace) → ℕ → Run (Unit {0}) ℕ
place pml4 user_spaces addr =
    if leb (2 ^ 47) addr && ltb addr (2 ^ 64 - 2 ^ 47)
    then stop general_protection
    else if leb 480 (addr / 2 ^ 39 % 512)
    then stop kernel_memory
    else in_space user_spaces addr (pml4 (addr / 2 ^ 39 % 512))

abbrev pub placed : Run (Unit {0}) ℕ → Cmd Kernel ℕ
placed (ok space u) s = ok space s
placed (stop e) s = stop e

abbrev pub space_at : ℕ → Cmd Kernel ℕ
space_at addr s = placed (place s.pml4 s.user_spaces addr) s

-- memmove of `n` words to `base`.
unfoldable pub write_words : ℕ → ℕ → (ℕ → ℕ) → Cmd Kernel (Unit {0})
write_words zero base words = pure tt
write_words (suc n) base words = do
  write_words n base words
  space ← space_at (add64 base (8 * n))
  (λ s. ok tt (record s {
    memory = update s.memory space (update (s.memory space) (add64 base (8 * n)) (words n));
  }))

-- memmove of `n` words from `base` to `frame`.
unfoldable pub read_words : ℕ → ℕ → (ℕ → ℕ) → Cmd Kernel (ℕ → ℕ)
read_words zero base frame = pure frame
read_words (suc n) base frame = do
  words ← read_words n base frame
  space ← space_at (add64 base (8 * n))
  (λ s. ok (update words n (s.memory space (add64 base (8 * n)))) s)

-- Registers and return state are saved on the stack of the process.
unfoldable pub save_context : Cmd Kernel (Unit {0})
save_context s =
    let process_stack = sub64 (s.frame 18) user_stack_save_size in
    (do
      write_words saved_words process_stack s.frame
      set_process s.head (λ p. record p { context_stack_ptr = process_stack }))
      s

unfoldable pub unmap_address_space : ℕ → Cmd Kernel (Unit {0})
unmap_address_space space s =
    if space == 0
    then stop null_pointer
    else ok tt (record s { pml4 = update s.pml4 (s.user_spaces space).pdp_index 0 })

unfoldable pub map_address_space : ℕ → Cmd Kernel (Unit {0})
map_address_space space s =
    if space == 0
    then stop null_pointer
    else if (s.user_spaces space).pdp_found
    then ok tt (record s { pml4 = update s.pml4 (s.user_spaces space).pdp_index space })
    else stop (assert_failed no_physical_address)

-- The first process of the queue becomes the last.
unfoldable pub move_to_back : ℕ → ℕ → Cmd Kernel (Unit {0})
move_to_back tmp next = do
  (λ s. ok tt (record s { head = next }))
  set_process tmp (λ p. record p { next = 0 })
  (λ s. set_process s.tail (λ p. record p { next = tmp }) s)
  (λ s. ok tt (record s { tail = tmp }))

unfoldable pub rotate_queue : Cmd Kernel (Unit {0})
rotate_queue s =
    (do tmp ← at s.head; if tmp.next == 0 then pure tt else move_to_back s.head tmp.next) s

-- The registers and return state of the process are put where the handler restores them from.
unfoldable pub load_context : Cmd Kernel (Unit {0})
load_context s =
    (do
      process ← at s.head
      frame ← read_words saved_words process.context_stack_ptr s.frame
      (λ r. ok tt (record r { frame = frame })))
      s

unfoldable pub context_switch : Cmd Kernel (Unit {0})
context_switch = do
  save_context
  (λ s. (do old ← at s.head; unmap_address_space old.addr_space) s)
  rotate_queue
  (λ s. (do new ← at s.head; map_address_space new.addr_space) s)
  load_context

unfoldable pub get_current_process_pid : Cmd Kernel ℕ
get_current_process_pid s = (do p ← at s.head; pure p.pid) s

unfoldable pub get_current_process_addr_space : Cmd Kernel ℕ
get_current_process_addr_space s = (do p ← at s.head; pure p.addr_space) s
