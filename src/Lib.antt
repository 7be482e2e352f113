-- ===== src/Lib.antt =====
-- A model of the kernel of OmochaOS, a small x86 kernel of message passing tasks, with theorems
-- about it.
--
-- The kernel (src/kernel) runs tasks that share nothing but messages. `__send_msg` and
-- `__recv_msg` (core/syscall_impl.c) are the two system calls: a sender that finds no ready
-- receiver joins the queue of the receiver and stops, a receiver that finds no sender waits.
-- Interrupts and exceptions are told as messages of the pseudo sender PROC_INTERRUPT. Where a
-- process stops, `scheduler` (core/process.c) picks the next of `proc_list`. The system task, the
-- memory task, the disk, file and terminal tasks (modules) are loops that receive a message, act
-- on it and send the answer.
--
-- Files and sources, all under src/kernel:
--   Base: numbers, lists, words and flags, on which the other files stand.
--   Bitset: header/lib/bitset.h, the sets of process numbers and of buddies.
--   Core/Process: `process` and `message` of header/generic/typedefs.h and the status bits of
--     header/core/process.h. A pointer to a process is its index in `proc_table`.
--   Core/Paging: `vir2phy` of header/core/paging.h.
--   Core/Run: the state of the kernel, and `assert` of header/lib/stdlib.h.
--   Core/Scheduler: `scheduler` of core/process.c; `idle` is what the interrupts do while the
--     processor halts in that loop.
--   Core/Ipc: `__is_dead_lock` and `__send_msg` of core/syscall_impl.c.
--   Core/Ipc/Receive: `__recv_msg` of core/syscall_impl.c.
--   Tty/Buffer: the circular buffer of modules/tty/kbd.c.
--   Fs/Disk, Fs/File: the cluster chain and `read_file` of modules/fs/fs.c, over a drive given as
--     the bytes of each sector. That a disk task answers so is an assumption: the loop of that task in
--     modules/hd/hd.c is commented out.
--   Systask: the loop body of `SysTask` of modules/systask/systask.c, one function for each request.
--     Its result is the messages that it sends. `address` is the address of a slot of proc_table, and
--     `text_at` the text in the memory at an address, of which only that of the request is read.
--   Interrupt: core/interrupt.c. `call` is what a registered function does, a parameter, as the
--     signals to the interrupt controller are no part of the state.
--   Memory/Buddy: the page allocator of modules/memory/buddy.c. The recursion ends at MAX_ORDER
--     orders, so that one unit of fuel for each order above the one asked for is enough.
--   Libc: `memcpy` and `memset` of lib/string.c, and `itoa` and `vsprintf` of lib/stdlib.c; fuel
--     above the number is enough.
--   Systask/Spawn: `init_proc` of core/process.c, which shares the process list with the requests
--     of the system task.
--   Memory/Paging: modules/memory/paging.h and paging.c, and `page_alloc` of buddy.c. `map_pages`
--     runs one round for each page and one for the last test.
--   Memory/Init: `init_memory` of modules/memory/memory_init.c. n blocks take n + 1 rounds.
--   Memory/Elf, Memory/Load, Memory/StartUp: lib/elf.h, the checks of modules/memory/execve.c, and
--     `load_elf_to_proc` and `start_up_init` of modules/memory/memory_init.c.
--   Memory/Fault: modules/memory/pagefault.c and sbrk.c.
--   Fs/Names, Fs/Directory: 8.3 names, `get_file_info` and `ReadBootSector` of modules/fs/fs.c. A
--     directory takes one unit of fuel for each cluster, a path one of depth for each part.
--   Device: modules/device/dev.c. A list of n used devices takes n + 1 rounds.
--   Hd: the tables of partitions in modules/hd/hd.c; the sectors of the disk are an argument.
--   Hd/Transfer: `hd_rw` and `hd_rw_drv` of modules/hd/hd.c. n sectors take n + 1 rounds.
--   Core/PagePool: core/memory.c. n free pages take n + 1 rounds.
--   Driver: core/driver.c, the order in which drivers start. What a driver's function returns is an
--     argument.
--   Graphic: driver/graphic.c, the console over a frame buffer; the font is an argument.
--   Acpi: driver/acpi.c, the search for tables in the bytes of the memory.
--   Memory/Release, Memory/Fork: `free_proc` of modules/memory/exit.c and modules/memory/fork.c.
--   Memory/Exit: the rest of modules/memory/exit.c. Its state is that of the system task, the
--     messages sent and the requests that the system task has not taken. A list of n processes
--     takes n + 1 rounds.
--   Rbtree: lib/rbtree.c. A search and the descent of an insertion take one round for each level
--     of the tree and one for the end.
--   Heap: the search for a block in modules/memory/kmem.c. A tree takes one unit of fuel for each
--     level and one for the end.
--   Tty/Keymap, Tty/Keyboard: the key table of modules/tty/keymap.h, and the reading of scan codes
--     of modules/tty/kbd.c.
--
-- State is passed explicitly: an operation takes the state and returns the new one in `Run`, which
-- also has the ends of a run that C does not return from: `halted` (a panic or a failed assertion,
-- behind which a run is followed no further), `fault` (a NULL process is followed, or an index lies
-- outside a table) and `out_of_fuel`. `panic` and `assert` exist only where the build defines
-- `__DEBUG__`; the argument `debug` says so, and the theorems hold for both builds where they do
-- not fix it. In Systask (all but Spawn, which is of the core), Memory, Device, Fs and Hd, whose
-- tasks run outside ring 0, a panic only prints and the run goes on, as in the code.
--
-- Physical memory is two maps by address: the words of page tables, and the messages. A message
-- is thus never overlapped by another object; message buffers do not overlap partly. Virtual
-- addresses are numbers, and 32-bit sums are reduced where the code can pass 2^32.
--
-- Loops that follow pointers run on fuel. The theorems give the fuel that is enough: a queue of
-- n senders takes n + 1 rounds, a deadlock chain takes one round for each process of the chain. Of
-- the red-black trees, the fix-ups behind insertion and removal are modelled and not proved.
--
-- Not modelled: the registers and assembly of a context switch, the lines printed to the screen,
-- port and memory-mapped I/O, the boot protocol, and the tasks that are not named above.
pub mod Base
pub mod Acpi
pub mod Bitset
pub mod Core
pub mod Device
pub mod Driver
pub mod Fs
pub mod Graphic
pub mod Hd
pub mod Heap
pub mod Interrupt
pub mod Libc
pub mod Memory
pub mod Rbtree
pub mod Systask
pub mod Tty
