-- ===== src/Memory/Setup/Tests.antt =====
-- A memory map of four descriptors, of which the last one is big enough.
use plusplus_os.Base.{ℕ, ◌^◌, ◌≡◌, refl, arith, List, [], ◌∷◌}
use plusplus_os.Memory.Orders.{order_size, round_up_to_multiple}
use plusplus_os.Uefi.{MemoryDescriptor}
use plusplus_os.Memory.Setup.{
  alloc_frame_allocator_memory, total_pages, entry_pool_pages, bitmaps_size, take_pages,
  is_suitable, correct_type,
}
use plusplus_os.Memory.Setup.Taken.{IsTaken, alloc_frame_allocator_memory-IsTaken}

abbrev descriptor : ℕ → ℕ → ℕ → MemoryDescriptor
descriptor type start pages = record { desc_type = type; physical_start = start; num_pages = pages }

abbrev memory_map : List MemoryDescriptor
memory_map =
    descriptor 7 0 159
    ∷ descriptor 4 0x100000 1024
    ∷ descriptor 7 0x500000 8
    ∷ descriptor 7 0x800000 14336
    ∷ []

alloc_frame_allocator_memory-IsTaken_example :
    IsTaken
      (alloc_frame_allocator_memory (2 ^ 26) memory_map).pages
      memory_map
      (alloc_frame_allocator_memory (2 ^ 26) memory_map).phys_addr
      (alloc_frame_allocator_memory (2 ^ 26) memory_map).memory_map
alloc_frame_allocator_memory-IsTaken_example =
    alloc_frame_allocator_memory-IsTaken (2 ^ 26) memory_map
      (omega arith, (omega arith, (omega arith, (omega arith, tt))))

-- 64 MiB need one page of entries and 8 pages of bitmaps.
alloc_64_mib : alloc_frame_allocator_memory (2 ^ 26) memory_map ≡ record {
  phys_addr = 0x800000;
  pages = 9;
  pool_pages = 1;
  memory_map =
      descriptor 7 0 159
      ∷ descriptor 4 0x100000 1024
      ∷ descriptor 7 0x500000 8
      ∷ descriptor 7 0x809000 14327
      ∷ [];
}
unfolding alloc_frame_allocator_memory total_pages entry_pool_pages bitmaps_size take_pages
    is_suitable correct_type order_size round_up_to_multiple
alloc_64_mib = refl
