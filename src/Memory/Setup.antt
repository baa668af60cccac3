-- ===== src/Memory/Setup.antt =====
-- The set-up of the memory management from the memory map of the firmware:
-- alloc_frame_allocator_memory of kernel/src/memory/frame_allocator.c and
-- free_uefi_memory_and_remove_identity_mapping of kernel/src/memory/paging.c. The memory map is the
-- list of its descriptors.
pub mod Taken
mod Tests
use plusplus_os.Base.{
  ℕ, zero, suc, ◌+◌, ◌-◌, ◌*◌, ◌/◌, ◌%◌, ◌^◌, Bool, not, ◌&&◌, ◌||◌, List, [], ◌∷◌, ltb, leb, ◌==◌,
  if◌then◌else◌, add64, sub64, mul64, update,
}
use plusplus_os.Machine.{Cmd, out_of_fuel, not_an_order, pure, halt, kernel_assert, ◌>>=◌, ◌>>◌}
use plusplus_os.Uefi.{
  efi_loader_data, efi_boot_services_code, efi_boot_services_data, efi_runtime_services_code,
  efi_runtime_services_data, efi_conventional_memory, MemoryDescriptor,
}
use plusplus_os.Memory.{Mem}
use plusplus_os.Memory.EntryPool.{page_size}
use plusplus_os.Memory.Orders.{frame_orders, order_size, get_frame_order_size, round_up_to_multiple}
use plusplus_os.Memory.Frames.{free_frames_contiguos}
use plusplus_os.Memory.Paging.{zero_entry, Paging, change_paging}

-- KERNEL_PML4_OFFSET
abbrev pub kernel_pml4_offset : ℕ
kernel_pml4_offset = 480

-- sizeof(ListEntry)
abbrev pub list_entry_size : ℕ
list_entry_size = 16

unfoldable pub entry_pool_pages : ℕ → ℕ
entry_pool_pages memory_size =
    let free_list_entries = mul64 (memory_size / order_size (frame_orders - 1)) 2 in
    round_up_to_multiple (mul64 free_list_entries list_entry_size) page_size / page_size

-- The loop over the orders below `n`.
unfoldable pub bitmaps_size : ℕ → ℕ → ℕ
bitmaps_size memory_size zero = 0
bitmaps_size memory_size (suc n) = add64 (bitmaps_size memory_size n) (memory_size / order_size n)

unfoldable pub total_pages : ℕ → ℕ
total_pages memory_size =
    add64 (entry_pool_pages memory_size)
      (round_up_to_multiple (bitmaps_size memory_size (frame_orders - 1)) page_size / page_size)

unfoldable pub correct_type : MemoryDescriptor → Bool
correct_type desc =
    desc.desc_type == efi_conventional_memory
    || desc.desc_type == efi_runtime_services_code
    || desc.desc_type == efi_boot_services_code

unfoldable pub is_suitable : ℕ → MemoryDescriptor → Bool
is_suitable pages desc =
    correct_type desc && not (ltb desc.physical_start 0x100000) && not (ltb desc.num_pages pages)

-- The physical address of the pages, 0 if no descriptor has as many, and the map without them.
-- The assertion compares the pointer to the result with 0, and never fails.
unfoldable pub take_pages : ℕ → List MemoryDescriptor → ℕ × List MemoryDescriptor
take_pages pages [] = (0, [])
take_pages pages (desc ∷ next) =
    let rest = take_pages pages next in
    if is_suitable pages desc
    then (
      desc.physical_start,
      record desc {
        num_pages = sub64 desc.num_pages pages;
        physical_start = add64 desc.physical_start (mul64 pages page_size);
      }
          ∷ next,
    )
    else (rest.0, desc ∷ rest.1)

-- The results of alloc_frame_allocator_memory: *phys_addr, *total_pages, *entry_pool_pages and the
-- memory map.
pub record AllocatorMemory : Type 0 where
  pub phys_addr : ℕ
  pub pages : ℕ
  pub pool_pages : ℕ
  pub memory_map : List MemoryDescriptor

unfoldable pub alloc_frame_allocator_memory : ℕ → List MemoryDescriptor → AllocatorMemory
alloc_frame_allocator_memory memory_size memory_map =
    let taken = take_pages (total_pages memory_size) memory_map in
    record {
      phys_addr = taken.0;
      pages = total_pages memory_size;
      pool_pages = entry_pool_pages memory_size;
      memory_map = taken.1;
    }

module _ {S : Type 0} where
  -- The loop over the orders from `order` on, `left` of them: the first that does not fit.
  unfoldable pub find_order : ℕ → ℕ → ℕ → ℕ → Cmd S ℕ
  find_order zero order phys_addr size = pure order
  find_order (suc left) order phys_addr size = do
    bytes ← get_frame_order_size order
    let later = find_order left (order + 1) phys_addr size
    if ltb size bytes || not (phys_addr % bytes == 0) then pure order else later

module _ (alloc_page : Cmd (Mem Paging) ℕ) where
  -- `while (size != 0)`, at most `fuel` times.
  unfoldable pub free_memory : ℕ → ℕ → ℕ → Cmd (Mem Paging) (Unit {0})
  free_memory zero phys_addr size = halt out_of_fuel
  free_memory (suc fuel) phys_addr size = if size == 0 then pure tt else (do
    found ← find_order frame_orders 0 phys_addr size
    let order = (found + 2 ^ 8 - 1) % 2 ^ 8
    kernel_assert (ltb order frame_orders) not_an_order
    bytes ← get_frame_order_size order
    free_frames_contiguos alloc_page phys_addr (bytes / page_size)
    free_memory fuel (add64 phys_addr bytes) (sub64 size bytes))

  unfoldable pub free_uefi_memory : ℕ → List MemoryDescriptor → Cmd (Mem Paging) (Unit {0})
  free_uefi_memory fuel [] = pure tt
  free_uefi_memory fuel (desc ∷ next) = do
    if desc.desc_type == efi_boot_services_data
          || desc.desc_type == efi_runtime_services_data
          || desc.desc_type == efi_loader_data
        then free_memory fuel desc.physical_start (mul64 desc.num_pages page_size)
        else pure tt
    free_uefi_memory fuel next

  -- The loop over the first `n` entries of the PML4.
  unfoldable pub clear_identity_mapping : ℕ → Cmd (Mem Paging) (Unit {0})
  clear_identity_mapping zero = pure tt
  clear_identity_mapping (suc n) = do
    clear_identity_mapping n
    change_paging (λ p. record p { pml4 = update p.pml4 n zero_entry })

  unfoldable pub free_uefi_memory_and_remove_identity_mapping :
      ℕ → List MemoryDescriptor → Cmd (Mem Paging) (Unit {0})
  free_uefi_memory_and_remove_identity_mapping fuel memory_map = do
    free_uefi_memory fuel memory_map
    clear_identity_mapping kernel_pml4_offset
