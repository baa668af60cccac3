-- ===== src/Lib.antt =====
-- plusplus-os, a kernel for x86-64: its memory management, its process queue, its drivers and its
-- libc.
--
-- The parts and how they interact:
--   Machine     how kernel code runs: a function from the state to a result and a new state, or a
--               stop. KERNEL_ASSERT (kernel/include/kassert.h) stops when its condition fails, as
--               in a build with ENABLE_KERNEL_ASSERTS. A null pointer that is followed, an array
--               that is read past its end and an address that is not canonical or not mapped stop
--               as well. A theorem that says Ends Never says that the run returns.
--   Memory      kernel/src/memory. The state Mem has the free lists and buddy maps of the frame
--               allocator (g_free_lists), the entry pool (g_memory_entry_pool), and the state of
--               the other parts, over which the definitions are generic.
--   Memory.EntryPool    entry_pool.c: fill_memory_entry_pool, get_memory_entry, free_memory_entry.
--               Nodes of 16 bytes go from the pool to the free lists, to allocations and back. When
--               the pool runs low get_memory_entry calls alloc_pages, which may come back into the
--               frame allocator. alloc_pages is an argument of the definitions; theorems
--               take a pool that is stocked (IsStocked), which does not run low.
--   Memory.Orders, Memory.Buddy, Memory.Frames    frame_allocator.c and util.c: sizes, buddy maps,
--               alloc_frames, free_frames, alloc_frames_contiguos, free_frames_contiguos and what
--               they call; Frames.Allocations has remove_range and what is asked of an allocation.
--               Frames.View says what the free lists stand for (free_at: in how many free blocks
--               an address is) and when they are well formed (IsValid). Frames.Supply is the
--               interface to the entry pool that the proofs use, Frames.Sources fills it.
--   Memory.AddressSpace   paging.c, the free virtual ranges: alloc_addr_space, claim_virt_range and
--               add_range_to_free_list. An `AddressSpace*` is a pair of a load and a store. The
--               pointer to the free list is whole or cut to 48 bits.
--   Memory.Paging   paging.c, the page tables: the pool of pages for them (Entries), mapping,
--               unmapping and translation (Mapping). A table is known by the address at which the
--               kernel reaches it, and the entry_maps of a space lead there. Walk says when the
--               tables for some addresses are in place, Range what a range that is mapped leaves.
--   Memory.Pages    memory.c and the kernel's calls in paging.c. alloc_pages maps pages, mapping
--               takes nodes and tables from the pools, and these call alloc_pages and
--               kmap_allocation: `calls depth` is the knot, in which the calls lead back `depth`
--               times. The parts below take what they call as arguments.
--   Memory.Slab slab_allocator.c: the sizes of the caches, and which objects of a slab are free.
--               Memory.Slab.Heap has the lists of slabs, linked in both directions, and Heap.Calls
--               kalloc and kfree; alloc_pages and free_pages are arguments. kalloc and kfree call
--               themselves for a slab or a PageAllocation, up to the given depth.
--   Memory.Setup    alloc_frame_allocator_memory of frame_allocator.c and
--               free_uefi_memory_and_remove_identity_mapping of paging.c, on the memory map of the
--               firmware; the size of memory is an argument.
--   Scheduler   process_system.c: Process, g_process_queue and context_switch. The processes are a
--               table by their addresses, linked by `next`; Scheduler.Queue says which list that
--               is. map_address_space and unmap_address_space of paging.c change which address space
--               an entry of g_pml4 leads to. Memory is a table of words for each address space, of
--               which some pages are mapped; Scheduler.Stack is about a process's stack.
--   Loader      elf_loader.c: load_elf_from_buff, on the page tables of Memory and a table of the
--               bytes of the mapped address space.
--   Uefi        uefi.h: the memory map of the firmware, a list of its descriptors.
--   Acpi        acpi.c: the remapped ACPI memory, checksums and the table search.
--   Apic        apic.c: the registers of an IOAPIC and its redirection table; Apic.Setup is
--               setup_apic with the loop over the MADT.
--   Keyboard    ps2.c: kb_handler and register_ps2_interrupt, on the state of Apic.
--   Pci         pci.c: the scan of the buses and get_pci_device.
--   Descriptors idt.c and gdt.c: interrupt gates, segments and the task state segment.
--   Syscalls    syscalls.c: the bounds check of the dispatcher, written in assembly there, and the
--               calls that map memory.
--   Screen      rendering.c: pixels, characters and numbers. The font is an argument.
--   Libc        libc/src: memcpy, memmove, memset, memcmp, strcmp, atoi, atol and atoll.
--
-- A chain of nodes linked by `next` is the list of its nodes, except in Scheduler and in
-- Memory.Slab.Heap. Integers are natural numbers with the wrap of their width written out;
-- bit-fields keep their widths.
--
-- Fuel: the search for a block visits each order at most twice on its way up and down, so 16 rounds
-- are enough; alloc_frames takes at least one page in each round, so one round more than pages is
-- enough; a merge goes up one order in each round, so 8 rounds are enough. The theorems say so: a
-- run out of fuel is a stop that they exclude. remove_range removes at least one page in each
-- round.
--
-- The loop over the MADT has as many rounds as the caller gives it; Apic.Madt says when they are
-- enough. Writing a number takes at most 20 rounds for 64 bits, so 21 are enough.
--
-- Not modelled: initialize_frame_allocator and initialize_paging, which fill the first free lists
-- and page tables from the UEFI memory map, the start of processes, the boot loader, the disk
-- driver and the exception handlers, which are calls of firmware and reads and writes of device
-- registers, and the TLB. kmap_phys_range, kunmap_range and kalloc are arguments of the drivers.
-- Signed overflow in atoi, atol and atoll is undefined in C; they have no result then. What happens
-- when a process's stack pointer leads into kernel memory is not modelled: the run stops.
pub mod Acpi
pub mod Apic
pub mod Base
pub mod Descriptors
pub mod Keyboard
pub mod Libc
pub mod Loader
pub mod Machine
pub mod Memory
pub mod Pci
pub mod Scheduler
pub mod Screen
pub mod Syscalls
pub mod Uefi
