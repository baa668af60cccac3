-- ===== src/Loader.antt =====
-- kernel/src/elf_loader.c: an ELF file in memory is loaded into an address space, which is mapped.
-- Memory is a table of bytes by virtual addresses.
mod Tests
use plusplus_os.Base.{
  ℕ, zero, suc, ◌+◌, ◌-◌, ◌*◌, ◌/◌, ◌%◌, ◌^◌, Bool, true, false, not, ◌&&◌, ◌||◌, Option, none,
  some, List, [], ◌∷◌, ◌==◌, if◌then◌else◌, add64, sub64, mul64, bit_and, bit_or,
}
use plusplus_os.Machine.{
  Run, Cmd, ok, stop, and_then, flags_not_changed, pure, kernel_assert, ◌>>=◌, ◌>>◌,
}
use plusplus_os.Libc.{memcpy, memset}
use plusplus_os.Acpi.{read_le}
use plusplus_os.Memory.{PageFrameAllocation, Mem}
use plusplus_os.Memory.EntryPool.{page_size}
use plusplus_os.Memory.Frames.{alloc_frames}
use plusplus_os.Memory.Frames.Allocations.{free_frame_allocation_entries}
use plusplus_os.Memory.Paging.{Paging, Space, paging_writable, paging_executable}
use plusplus_os.Memory.Paging.Mapping.{map_allocation_to_range, range_set_flags}
use plusplus_os.Memory.Pages.{Calls}

-- ELFCLASS64, ELFDATA2MSB, PT_LOAD, PF_X, PF_W
abbrev pub elf_class_64 : ℕ
elf_class_64 = 2

abbrev pub elf_data_2msb : ℕ
elf_data_2msb = 2

abbrev pub pt_load : ℕ
pt_load = 1

abbrev pub pf_x : ℕ
pf_x = 1

abbrev pub pf_w : ℕ
pf_w = 2

-- The kernel's state and memory.
pub record Loader : Type 0 where
  pub kernel : Mem Paging
  pub bytes : ℕ → ℕ

-- Elf64Phdr, the fields that are used.
pub record ProgramHeader : Type 0 where
  pub p_type : ℕ
  pub p_flags : ℕ
  pub p_offset : ℕ
  pub p_vaddr : ℕ
  pub p_filesz : ℕ
  pub p_memsz : ℕ

unfoldable pub program_header : (ℕ → ℕ) → ℕ → ProgramHeader
program_header bytes ptr = record {
  p_type = read_le bytes 4 ptr;
  p_flags = read_le bytes 4 (ptr + 4);
  p_offset = read_le bytes 8 (ptr + 8);
  p_vaddr = read_le bytes 8 (ptr + 16);
  p_filesz = read_le bytes 8 (ptr + 32);
  p_memsz = read_le bytes 8 (ptr + 40);
}

-- The checks of e_ident.
unfoldable pub header_is_valid : (ℕ → ℕ) → ℕ → Bool
header_is_valid bytes file =
    bytes file == 0x7f
    && bytes (file + 1) == b'E'
    && bytes (file + 2) == b'L'
    && bytes (file + 3) == b'F'
    && bytes (file + 4) == elf_class_64
    && not (bytes (file + 5) == elf_data_2msb)

unfoldable pub paging_flags : ℕ → ℕ
paging_flags p_flags =
    bit_or (if bit_and p_flags pf_x == 0 then 0 else paging_executable)
      (if bit_and p_flags pf_w == 0 then 0 else paging_writable)

-- The pages of a segment.
unfoldable pub segment_pages : ProgramHeader → ℕ
segment_pages header = sub64 (add64 header.p_memsz page_size) 1 / page_size

abbrev pub with_kernel : {A : Type 0} → (ℕ → ℕ) → Run (Mem Paging) A → Run Loader A
with_kernel bytes (ok a k) = ok a (record { kernel = k; bytes = bytes })
with_kernel bytes (stop e) = stop e

-- A call of the memory management.
abbrev pub on_kernel : {A : Type 0} → Cmd (Mem Paging) A → Cmd Loader A
on_kernel m s = with_kernel s.bytes (m s.kernel)

abbrev pub change_bytes : ((ℕ → ℕ) → ℕ → ℕ) → Cmd Loader (Unit {0})
change_bytes f s = ok tt (record s { bytes = f s.bytes })

module _ (below : Calls) (space : Space) (file : ℕ) where
  open below use {alloc_page, kmap_writable, kmap_range_writable}

  -- The segment is mapped: its bytes are written and its flags set.
  unfoldable pub fill_segment : ProgramHeader → Cmd Loader Bool
  fill_segment header = do
    change_bytes (memset header.p_vaddr 0 (mul64 (segment_pages header) page_size))
    change_bytes (memcpy header.p_vaddr (add64 file header.p_offset) header.p_filesz)
    success ← on_kernel (
        range_set_flags alloc_page kmap_writable kmap_range_writable space header.p_vaddr
          (segment_pages header) (paging_flags header.p_flags))
    kernel_assert success flags_not_changed
    pure true

  unfoldable pub map_segment : ProgramHeader → Option (List PageFrameAllocation) → Cmd Loader Bool
  map_segment header none = pure false
  map_segment header (some allocation) = do
    success ← on_kernel (
        map_allocation_to_range alloc_page kmap_writable kmap_range_writable space allocation
          header.p_vaddr paging_writable)
    on_kernel (free_frame_allocation_entries allocation)
    if success then fill_segment header else pure false

  unfoldable pub load_segment : ProgramHeader → Cmd Loader Bool
  load_segment header =
      if not (header.p_type == pt_load)
      then pure true
      else if not (header.p_vaddr % page_size == 0)
      then pure false
      else (do
        allocation ← on_kernel (alloc_frames alloc_page (segment_pages header))
        map_segment header allocation)

  -- The program headers from `ptr` on, `left` of them.
  unfoldable pub load_segments : ℕ → ℕ → Cmd Loader Bool
  load_segments ptr zero = pure true
  load_segments ptr (suc left) = do
    success ← (λ s. load_segment (program_header s.bytes ptr) s)
    if success then load_segments (ptr + 56) left else pure false

  -- `some entry`: the call returns true and stores `entry` to *entry_point.
  unfoldable pub load_elf_from_buff : Cmd Loader (Option ℕ)
  load_elf_from_buff s =
      if header_is_valid s.bytes file
      then (do
        success ←
            load_segments (add64 file (read_le s.bytes 8 (file + 32)))
              (read_le s.bytes 2 (file + 56))
        (λ t. ok (if success then some (read_le t.bytes 8 (file + 24)) else none) t))
          s
      else ok none s
