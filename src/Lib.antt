-- ===== src/Lib.antt =====
-- The core of cool-os, a small x86-64 kernel in C, and what makes its parts correct.
--
-- Parts and files (paths from the root of the repository):
--   src/pmm.c    Pmm: the page frame allocator over its bitmap. Pmm/Bitmap has the bytes and bits,
--                Pmm/Boot the initialisation from the boot loader's memory map.
--   src/fat32.c  Fat: mount, the directory, open files. Fat/Contents and Fat/Session relate an open
--                file to its bytes. The drive of src/block.c is an argument: each sector it
--                delivers, or a failure.
--   src/vfs.c    Vfs: the table of descriptors over those of Fat.
--   src/heap.c   Heap: kmalloc and kfree. Heap/Chain is the layout of an arena, Heap/Arenas the list
--                of arenas, which takes its pages from Pmm.
--   src/kbd.c    Kbd: scancodes, modifiers, the ring buffer, the line editor and test injection.
--   src/paging.c Paging: the page tables in the words of memory, with frames from Pmm.
--   src/elf.c    Elf: the checks of an executable; Elf/Load has the loaders, which fill frames and map
--                them through Paging. Elf/Memory reads bytes in words, Elf/Image the loaded pages.
--   src/scheduler.c   Sched: the circular queue of tasks with its yield, and the time slices of
--                src/timer.c. Sched/Ring relates the links to a list, Sched/Yield and Sched/Turn a
--                yield to a turn of the list, Sched/Fair counts timer interrupts; Sched/Queue and
--                Sched/Unlink have the other operations.
--   src/task.c   Tasks: the state of the kernel around the scheduler. Tasks/Create has the creation
--                of tasks, over Heap, Pmm, Paging, Elf and Vfs, and Tasks/Family exit, wait and
--                reaping. Tasks/Siblings, Tasks/Children, Tasks/Adjust, Tasks/Keep and Tasks/Detach
--                relate them to the queue and to lists of children, Tasks/Exit and Tasks/Wakes follow
--                an exit, and Tasks/Wait, Tasks/Reap and Tasks/Collect a wait. Paging/Free and
--                Tasks/Release have the memory that a reaped task gives back as a list of frames.
--   src/syscall.c   Syscall: the dispatcher, over Sched and Tasks. The memory of the caller is an
--                argument: the byte that each address reads as.
--   src/isr.c    Isr: what an exception does to the tasks; Isr/Stopped follows the task after it.
--   src/pci.c    Pci: the enumeration of the bus. The configuration space is an argument.
--   src/xhci.c   Xhci: the reports of the USB keyboard, which go to Kbd, the rings that the driver
--                shares with the controller, and its interrupt. What memory holds in each round of a
--                loop, since the controller goes on writing, is an argument; acknowledgements and waits for registers are left out.
--   src/console.c  Console: the text console, with the buffers of src/framebuffer.c as pixels at
--                offsets. Console/Terminal is the terminal of characters that the pixels stand for,
--                Console/Paint and Console/Shows relate the two, Console/Screen the copy to the screen.
--                The font is an argument.
--   src/shell.c  Shell: the parser of command lines. Shell/Words has the words of a text.
--   user/libc/malloc.c   Malloc: the bump allocator of user programs.
--   user/libc/stdio.c    Stdio: printf over its buffer, and the printing of numbers.
--
-- A module holds the operations under the names of the C functions, less their prefix; its children
-- prove what they are named for, and Tests holds the runs at concrete inputs.
--
-- How the code is read. Static variables are the fields of a record, and a function returns the new
-- record. A number is a natural number, with the wrap of its C type written out where the code
-- computes with it. A panic or a failed ASSERT is `none`, or `fault` in the heap and what stands on
-- it. Serial logging is left out. Interrupts and port reads are arguments: a driver is given the bytes
-- that the ports deliver, and a wait is a list of what each wake lets in.
--
-- The heap's memory is a function from an address to the block header that stands there. Payloads
-- have no contents, but filling one destroys the headers that it would run over, and a field of an
-- address without a header is a fault.
--
-- Tasks stand in a map from addresses to structures, beside the heap that hands out the addresses; a
-- structure that is freed leaves the map. Words of memory are reached by their physical addresses,
-- and a byte is a part of its word. A switch of stacks ends a step: the state is what the next task
-- finds. A task that waits goes on with another step.
--
-- Bounds and fuel. The searches of the allocator run over the rounds that are left. The line editor
-- takes one unit of fuel for each turn, and more than the number of wakes changes nothing. The walk of
-- an arena takes one unit for each block, and one more than the longest arena has blocks is enough;
-- kmalloc counts its calls of itself. A read has as much fuel as bytes to copy, a seek and a directory
-- walk one unit for each cluster. The walks over the queue take one unit for each task, those over
-- siblings one for each child and one more, and the loops of the ELF loader and of the page tables
-- run over the headers, the pages and the entries that are left. A number of 64 bits has at most
-- 64 digits.
--
-- Not modelled: the string functions of the C library; the start-up of the xHCI controller, the interrupt controllers and processor tables, which are
-- device or processor state; the flush of the translation buffer; the assembly, which saves and
-- restores the registers of a task; and the commands of the shell, which print.
pub mod Console
pub mod Elf
pub mod Fat
pub mod Heap
pub mod Isr
pub mod Kbd
pub mod Malloc
pub mod Paging
pub mod Pci
pub mod Pmm
pub mod Prelude
pub mod Sched
pub mod Shell
pub mod Stdio
pub mod Syscall
pub mod Tasks
pub mod Vfs
pub mod Xhci
