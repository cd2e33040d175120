-- ===== src/Lib.antt =====
-- A model of the kernel: its heap, its physical pages and page tables, its scheduler and semaphores, its
-- pipes and descriptors, its lists and file systems, its system calls, its string functions, its interrupt table, its
-- keyboard, its text output and its start.
--
-- The parts and their files:
-- * Alloc (src/alloc.c, include/alloc.h): the kernel heap. The headers of the blocks lie in the
--   arena, as a function from addresses to headers; `alloc`, `free` and `new_allocator` read and
--   write them in the order of the source. Alloc/Spec has first fit and the joining of free blocks
--   on a list of blocks, Alloc/Blocks the invariant that relates the list to the headers, and
--   Alloc/Client what a caller sees.
-- * Memory (src/memory.c up to `free_page`, include/memory.h): the bitmap allocator of physical
--   pages. An area is a record with its bitmap as a list of bytes, and `find_unused_page`,
--   `allocate_page`, `free_page` and `bitmap_allocator_init` pass the list of areas on.
-- * Framebuffer (src/framebuffer.c, include/framebuffer.h): characters on a framebuffer, with the
--   pixels as a function from indices, and the loop of the print process on the bytes that it reads.
--   The font is a parameter, since it is a linked binary.
-- * Sched (src/sched.c, include/sched.h): the processes, linked through their records, as a function
--   from addresses to records: `schedule`, `insert_process`, `remove_proc_from_list` and
--   `get_proc_from_pid`. Sched/Chains relates the links to a list of addresses.
-- * Sem (src/sem.c, include/sem.h): semaphores on the same records of processes. Sem/Refines and
--   Sem/Signal compare them with tokens and a queue; Sem/Mutex has their runs as a step relation.
-- * Strings (src/string.c, include/string.h): the memory and string functions on a function from
--   addresses to bytes.
-- * Resources (src/sched.c, include/sched.h): the table of descriptors of a process, as a list; the
--   memory of a new table is a parameter.
-- * Interrupts (src/interrupts.c, include/interrupts.h): the interrupt table, as a function from
--   indices to descriptors; the stubs, which are assembly, are a parameter.
-- * Keyboard (src/keyboard.c, include/keyboard.h): the table of scan codes, the handler, which
--   writes to a pipe, and the set-up of both, on the interrupt table and the heap.
-- * Pipe (src/pipe.c, include/pipe.h): a ring of bytes with three semaphores of Sem. A call that has to
--   wait ends with an outcome that says where. Pipe/Runs has the steps of all users of a pipe as a
--   relation, in which a call's two writes to the ring are one step, Pipe/Flow what they keep, and Pipe/Writes and Pipe/Reads relate the calls to the steps.
-- * LinkedList (src/ll.c, include/ll.h): lists on a store of nodes, allocated on the heap of Alloc.
-- * Vfs (src/fs/vfs.c, include/fs/vfs.h): mount points in such a list, and the calls that go to the
--   operations of one, which are a parameter.
-- * Printk (src/printk.c, include/printk.h): formatted output to sinks that are a parameter.
-- * Paging (src/memory.c from `alloc_page_or_halt` on): page tables as 64-bit words at physical addresses,
--   with the frames of Memory.
-- * Elf (src/elf.c, include/elf.h): the loader of programs, on page tables and the bytes of the address space.
-- * Initramfs (src/fs/initramfs.c, include/fs/initramfs.h): the tar archive in memory. Initramfs/Archive
--   has it as a list of files, Initramfs/Lookup the search and Initramfs/Reads the calls of `read`.
-- * Syscalls (src/syscall.c, include/syscall.h): the calls of user processes on one state, which has those of
--   the other parts; what a `yield` comes back with is a parameter. Syscalls/Forks has `fork_syscall` in the
--   two parts that its label divides, Syscalls/Execs `execve_syscall` and what it leaves,
--   Syscalls/Handler the dispatch, and Syscalls/Exits and Syscalls/Waits what `exit_syscall` and
--   `waitpid_syscall` leave. Syscalls/Setup has `syscall_init` on model-specific registers, and
--   Syscalls/Selectors its selectors.
-- * Threads (src/sched.c): `sched_init`, with its writes to ports as a list, and `add_process`, on the state of
--   Syscalls; the stack of a new process is made of 64-bit words.
-- * Startup (src/main.c): the memory that `_start` sets up, and `enter_ring_3_init` up to the instruction that
--   enters the first program, on the state of Syscalls.
-- * Gdt (src/gdt.c): the segment descriptors and the task state.
-- * Common (verification only): names of the libraries, Boolean tests, tables of tests, lemmas on
--   lists, 64-bit sums, counters and the monad of options.
--
-- Machine words are natural numbers with the wrap-around written out (`add64`, `sub64`). Loops on
-- pointers run on fuel: `alloc` has as much as the arena has bytes, and a heap has fewer nodes;
-- `calc_header_pages` takes its fuel as an argument, and three rounds settle it where it settles;
-- the loops of the scheduler take theirs as an argument, bounded by the number of processes, and
-- those of the string functions by the length of the string.
-- `printk` takes its fuel as an argument, bounded by the length of the format and of its strings, and
-- its printers of numbers have sixteen and ten rounds, as many as there are digits; the lookup of a mount
-- point takes that of `strlen`, and that of a file in the archive is bounded by the number of the files and the
-- length of the name. The loop of `waitpid_syscall` is on fuel too, one more than the calls of `yield`. The other
-- loops recurse on their counter.
--
-- Not modelled: the serial messages, the order in which locks are taken, the
-- messages on exceptions, the direct map and the flush of the translation buffer, assembly (of which
-- the pushes of `fork_syscall` are one), the boot protocol (a header of another project), and the calls of
-- `_start` that have no part in its memory.
pub mod Common
pub mod Alloc
pub mod Memory
pub mod Framebuffer
pub mod Sched
pub mod Sem
pub mod Strings
pub mod Interrupts
pub mod Keyboard
pub mod Resources
pub mod Pipe
pub mod LinkedList
pub mod Vfs
pub mod Printk
pub mod Paging
pub mod Elf
pub mod Gdt
pub mod Initramfs
pub mod Syscalls
pub mod Threads
pub mod Startup
