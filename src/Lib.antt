-- ===== src/Lib.antt =====
-- A teaching kernel for x86-64, written in C. The buddy allocator hands out blocks of physical
-- memory, under a spin lock; the slab allocator takes its slabs from it; threads and their queues
-- are kept in circular lists.
--
-- The parts, and the files that model them (paths are those of the repository):
--
-- Buddy.antt models buddy.h and buddy.c. `struct buddy_allocator` is the record BuddyAllocator; the
-- arrays are families over the numbers, and an access out of their bounds is a `fault`. A function
-- of the source is a command with the function's name: from a state it returns a value and a new
-- state, or ends in `died` (a failed assert, or another call of `die`, which never returns) or
-- `fault`. An `int` that may be -1 is a value of ℤ; addresses and sizes are numbers with the
-- wrap-around of uint64_t written out. Recursion is on the level, which falls to 0, so no loop needs
-- fuel. Buddy/Links, Buddy/Chains and Buddy/FreeLists treat the doubly linked free lists, Buddy/Tree
-- the tree of blocks, Buddy/Pool the abstract allocator (the free nodes of each level as lists), and
-- Buddy/Valid the invariant between calls. Buddy/GetLevel, Buddy/Alloc, Buddy/Fit and Buddy/Fresh
-- are about allocation, Buddy/Merge and Buddy/Free about giving back, Buddy/Blocks and
-- Buddy/BlockStart about the block that an address lies in, and Buddy/Tests runs the code on two
-- small states. Buddy/Taken says which pages are taken before and after an allocation. Buddy/Init
-- models buddy_init: Reset is about the clearing of the arrays, Pages about the marking of pages,
-- Done about the merges.
--
-- Memory.antt models the calls of memory.c on the buddy allocator under phys_alloc_lock and
-- valloc_lock; Memory/Calls says what they do on an allocator that is ready, and
-- Memory/Stacks what valloc and vfree do.
--
-- Slab.antt models slab.h and slab.c up to a single slab, whose flexible array is a family that is
-- bounded by the count of items, and Slab/Allocator the allocator over a heap of slabs, with the
-- calls of memory.c. The loop of calculate_slab has 52 rounds of fuel: from a page on, as many
-- doublings reach 2^64. Slab/Layout is about the layout, Slab/Nodes and Slab/Free about items, and
-- Slab/Heap about the heap of slabs: Invariant says what holds between two calls and which items are
-- handed out, Links is about the list of partial slabs, Moves about the moves between the lists,
-- Create and Remove about slabs that come and go, Items and Lock about the steps on one slab and on
-- the lock, Partial, Take and Alloc about slab_allocator_alloc, Return, Given and Free about
-- slab_allocator_free, Setup about slab_allocator_init and slab_allocator_deinit, and Places about
-- the addresses of items.
--
-- LinkedList.antt models list.h and list.c; LinkedList/Ring is about the sequence of elements, and
-- LinkedList/Splice about list_splice. A memory is two families of links by address. list_size has
-- fuel, and one round more than there are elements is enough.
--
-- Threading.antt models the spin lock of threading.c, with the processor's interrupt flag. A call
-- that would wait is `blocked`, before it has changed the lock. Threading/Spin is about the calls of
-- several threads, and Threading/Switch models the threads, their queues, the switch and `wake`, and
-- Threading/Fair is about many switches in a row. Threading/Mutex models the mutex; a round of
-- mutex_lock ends with the mutex or at its yield. Threads.antt models create_thread, init_threading
-- and wait, over the slab allocator, valloc and the words of the stacks. Threads/Kernel has the
-- condition that ties the queue to the slab allocator, Threads/Create the part of create_thread that
-- fills the stack and the queue, Threads/Spawn the whole, and Threads/Wait is about wait once a
-- thread has ended.
--
-- Printf.antt models the conversion of numbers in printf_impl.c; its loop has 30 rounds of fuel, the
-- size of the buffer, and 22 are enough for any 64 bits. Printf/Format models the other directives,
-- one round of the loop each, and Printf/Output the loop, whose fuel is the length of the format, as
-- each round takes a character, and vprintf and vsnprintf of printf.c, which give the loop their
-- addchar. An argument is the bits of a number or a string; where C defines nothing, as for a
-- missing argument, the model is undefined. Printf/Output/Chars is about vprintf, Bounded and Cut
-- about vsnprintf. Interrupts.antt models interrupt.c, with the entry points of int_handler.S as a
-- parameter.
--
-- Paging.antt models paging_util.h, and Paging/Map models map_pages and init_paging of paging.c. A
-- page table is known by its virtual address; the source of new tables is a parameter, TableSupply,
-- which Paging/Map/Supply fills with alloc_big_phys_aligned. A source may refuse by halting the
-- machine, as that does, or by waiting; a run that draws on it must then end in the same way, so a
-- theorem for both tells a refusal from any other halt. Paging/Map/Walk says how the processor
-- translates an address, and Paging/Map/Mapped what mapping a range does to all translations; the
-- other files take map_pages apart: Entry and Page treat one entry, Below a new table, Descend the
-- recursive call, Loop and Range the loop over the entries, Pages the whole function, Init the
-- tables of the kernel. The depth of recursion is 5, the calls that map_pages makes before base_step
-- is 0.
--
-- Boot.antt models init_memory of memory.c up to its call of init_paging, over the memory map that
-- the boot loader left, which is a parameter; Boot/Scan is about the scan of the map, Boot/Memory
-- about the whole. The fuel of the scan is the length of the map, of which each entry takes at least
-- 4 bytes.
--
-- Devices.antt models the ports of ioport.h: what the instructions do to the devices is a parameter.
-- Devices/Pic models pic.c, Devices/Pit pit.c and Devices/Serial serial.c; Devices/Pic/Chips,
-- Devices/Pit and Devices/Serial/Uart state the documented behaviour of the chips as laws of that
-- parameter, and Devices/Tests has chips that satisfy them. The loop of putchar that waits for the
-- end of a transmission has fuel, and one round more than there are reads is enough.
--
-- Common.antt passes on the names that all parts share: tests on numbers, lists, commands that may
-- halt the machine, families with an update, powers of two.
--
-- Not modelled: all that is printed for debugging, the demonstrations in memory.c and main.c, the
-- start of the kernel, and strlen and memset of util.c. The assembly files and the Multiboot header
-- are outside the model.
pub mod Boot
pub mod Buddy
pub mod Common
pub mod Devices
pub mod Interrupts
pub mod LinkedList
pub mod Memory
pub mod Paging
pub mod Printf
pub mod Slab
pub mod Threading
pub mod Threads
