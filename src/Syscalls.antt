-- ===== src/Syscalls.antt =====
-- kernel/src/syscalls.c: the dispatcher and the system calls. `userspace` is
-- get_current_process_addr_space(). syscall_halt loops for ever; syscall_getch is ps2_getch.
pub mod Dispatch
mod Tests
use plusplus_os.Base.{
  ℕ, ◌+◌, ◌-◌, ◌*◌, ◌/◌, ◌%◌, ◌^◌, Bool, true, false, ◌&&◌, Option, none, some, List, ltb, leb,
  ◌==◌, if◌then◌else◌, update, u64, add64, mul64, ◌<<<◌, ◌>>>◌, bit_and, bit_or,
}
use plusplus_os.Machine.{Cmd, ok, pure, ◌>>=◌, ◌>>◌}
use plusplus_os.Memory.{PageFrameAllocation, Mem}
use plusplus_os.Memory.EntryPool.{page_size}
use plusplus_os.Memory.Orders.{round_up_to_multiple}
use plusplus_os.Memory.Frames.{alloc_frames}
use plusplus_os.Memory.Frames.Allocations.{free_frame_allocation_entries}
use plusplus_os.Memory.Paging.{Paging, Space, kernel_space, paging_writable}
use plusplus_os.Memory.Paging.Mapping.{map_allocation, map_phys_range, virt_to_phys_addr}
use plusplus_os.Memory.Pages.{Calls}
use plusplus_os.Descriptors.{gdt_kernel_code_segment}

abbrev pub num_syscalls : ℕ
num_syscalls = 5

abbrev pub gdt_user_code_segment : ℕ
gdt_user_code_segment = 0x28

-- `jge` after `cmp n, rax`: the comparison of int64_t, for an `n` that is not negative.
unfoldable pub is_ge : ℕ → ℕ → Bool
is_ge rax n = ltb rax (2 ^ 63) && leb n rax

-- What syscall_dispatcher calls: the word at the table's address plus 8 * rax, or nothing.
-- `words` holds the 64-bit words of memory by their addresses.
unfoldable pub syscall_dispatcher : (ℕ → ℕ) → ℕ → ℕ → Option ℕ
syscall_dispatcher words table rax =
    let entry = words (add64 (u64 (rax <<< 3)) table) in
    if is_ge rax num_syscalls then none else if entry == 0 then none else some entry

-- `kbstatus` is g_kbstatus.
unfoldable pub syscall_get_keystate : (ℕ → Bool) → ℕ → Bool
syscall_get_keystate kbstatus keycode = if leb 0x80 keycode then false else kbstatus keycode

-- g_frame_buffer without its format.
pub record Framebuffer : Type 0 where
  pub address : ℕ
  pub width : ℕ
  pub height : ℕ
  pub pixels_per_scanline : ℕ

unfoldable pub framebuffer_pages : Framebuffer → ℕ
framebuffer_pages fb =
    round_up_to_multiple (mul64 (mul64 fb.width fb.height) 4) page_size / page_size

-- The value that phys_addr keeps when the translation fails.
abbrev pub translated : ℕ → Option ℕ → ℕ
translated phys_addr none = phys_addr
translated phys_addr (some p) = p

module _ (below : Calls) (userspace : Space) where
  open below use {alloc_page, kmap_writable, kmap_range_writable}

  -- The result is *fb. `uninitialized` is what phys_addr is at first.
  unfoldable pub syscall_get_framebuffer : ℕ → Framebuffer → Cmd (Mem Paging) Framebuffer
  syscall_get_framebuffer uninitialized frame_buffer = do
    phys_addr ← virt_to_phys_addr kernel_space frame_buffer.address
    address ←
        map_phys_range alloc_page kmap_writable kmap_range_writable userspace
          (translated uninitialized phys_addr) (framebuffer_pages frame_buffer) paging_writable
    pure (record frame_buffer { address = address })

  abbrev pub mapped_frames : Option (List PageFrameAllocation) → Cmd (Mem Paging) ℕ
  mapped_frames none = pure 0
  mapped_frames (some allocation) = do
    ptr ←
        map_allocation alloc_page kmap_writable kmap_range_writable userspace allocation
          paging_writable
    free_frame_allocation_entries allocation
    pure ptr

  unfoldable pub syscall_alloc_pages : ℕ → Cmd (Mem Paging) ℕ
  syscall_alloc_pages pages = do
    allocation ← alloc_frames alloc_page pages
    mapped_frames allocation

-- What prepare_syscalls writes to the model-specific registers, and g_syscall_table.
pub record SyscallSetup : Type 0 where
  pub addr_low : ℕ
  pub addr_high : ℕ
  pub star_high : ℕ
  pub syscall_table : ℕ → ℕ

-- SYSCALL_HALT is 0, SYSCALL_ALLOC_PAGES 1, SYSCALL_GET_FRAMEBUFFER 2, SYSCALL_GETCH 3 and
-- SYSCALL_GET_KEYSTATE 4.
unfoldable pub prepare_syscalls : ℕ → (ℕ → ℕ) → ℕ → ℕ → ℕ → ℕ → ℕ → SyscallSetup
prepare_syscalls syscall_addr table halt alloc_pages get_framebuffer getch get_keystate = record {
  addr_low = bit_and syscall_addr 0xffffffff;
  addr_high = bit_and (syscall_addr >>> 32) 0xffffffff;
  star_high = bit_or gdt_kernel_code_segment ((bit_or gdt_user_code_segment 3 - 0x10) <<< 16);
  syscall_table =
      update
        (update (update (update (update table 0 halt) 1 alloc_pages) 2 get_framebuffer) 3 getch) 4
        get_keystate;
}
