-- ===== src/Lib.antt =====
-- FrodOS: a 32-bit hobby kernel. The boot loader hands it a TAR archive in memory. The kernel sets
-- up the page allocator, imports the archive's files into its scratch file system, starts the
-- shell, and then serves system calls and the interrupts of the keyboard and the timer.
--
-- The parts, the files that model them, and how the two correspond:
--
-- - FrodOS/frodfs.c: Frodfs. The table `storage` is a list of entries with the fields of
--   `frodfs_entry_t`; init, create, write, read and list are the functions frodfs_init to
--   frodfs_list, each from a table to a table and a code. Frodfs/Spec is the abstract view, a map
--   from names to bytes with a number of free slots; Frodfs/Create, Write, Read, Session and
--   Listing relate the two.
-- - FrodOS/pmm.c: Pmm. The state is the bitmap as a list of 1024 words and the number of pages.
--   alloc_pages, free_pages, init and parse_mmap are pmm_alloc_pages to pmm_parse_mmap. The proofs
--   speak of `locked s p`, the bit of page p: Pmm/Bitmap, Alloc, Owner, Init, Mmap; Pmm/Frames counts
--   the free pages. A store outside the bitmap, which C would make to another variable, loses it.
-- - FrodOS/kernel.c, ramfs_read and what it calls: Tar. Memory is a function from addresses to
--   bytes. Tar/Bounds is about any memory, Tar/Members about well-formed archives.
-- - FrodOS/kernel.c, kernel_memmove: Kernel/Copy. The import loop of kernel_main: Kernel/Import;
--   Kernel/Import/Mapped says what it does to the map of files.
-- - FrodOS/kernel.c, syscall_handler_main: Kernel/Syscall, with the start of a program in
--   Kernel/Syscall/Exec. The state is the record Kernel of the states of all parts below it. The
--   result says how control goes on: back with a value in eax, into a program, to the shell, or
--   nowhere after a panic. Kernel/Reach holds the steps of a running system, calls, keys, the
--   programs' own changes of memory and launches of the shell; Kernel/Sound is about what none of them
--   may break. Kernel/Syscall/Pages is about the pages that a program takes, Load about its start, and
--   Guard and Region about the stores of the calls.
-- - FrodOS/keyboard.c: Keyboard, the scan code decoder of the interrupt and the ring that it
--   fills and keyboard_get_char empties.
-- - FrodOS/video.c: Video, the 2000 cells of the text console, its cursor, and printing.
-- - FrodOS/paging.c: Paging, map_page and init_paging with the registers CR0 and CR3. Paging/Walk is
--   the walk of the processor through the tables, Paging/Space and Refines relate the two. `map_page`
--   takes the addresses of the directory and of a table as physical ones, since paging is off whenever
--   the kernel calls it; Paging/Linear has the function with its accesses translated.
-- - FrodOS/kernel.c, find_ramfs, init_memory, launch_userland, gpf_handler_main and kernel_main:
--   Kernel/Boot, from the multiboot structures in memory to the start of the shell, over the state
--   of the system calls. Kernel/Boot/Memory, Archive, Launch and Sound are about its steps, Start
--   about the whole.
-- - FrodOS/kernel.c, kernel_main and syscall_handler_main as the machine sees them: System, with the
--   descriptor tables, the timer and the registers of a program around the kernel's state. System/Run
--   is about the events of a running machine, System/Effect and Files about what they do to the map
--   of files, System/Boot and Booted about how the machine gets there.
-- - FrodOS/shell.c: Shell. Its commands (Shell/Command) and its loop over characters (Shell/Main)
--   are written over `Calls`, a record of the system calls. Shell/Laws says what the calls on files
--   promise, in terms of the map of Frodfs/Spec; Shell/OnKernel shows that the kernel's do, and
--   Shell/Booted puts the shell on the kernel that the boot leaves.
-- - FrodOS/shell.c, the wrappers: Shell/Wrappers, with the arrays of arguments in memory and the
--   interrupt; Shell/Wrappers/Served relates them to the record `Calls`. Shell/History is about
--   sessions of many lines.
-- - FrodOS/frodos-sdk/apps/libfrodos.c and matrix.c: Apps and Apps/Matrix, on the same handler.
-- - FrodOS/ramfs.c: Ramfs, a second reader of archives, with the same memory and results as Tar.
-- - FrodOS/frodos-sdk/tools/fxe_packer.c: Packer, from the contents of the input files to those of
--   the output file. Packer/Header relates them to the system call that starts a program.
-- - FrodOS/timer.c, speaker.c, gdt.c and idt.c: Machine, with a module for each. A byte that is
--   read from a port is an argument, and writes to ports are logged.
-- - CString models the walks over C texts that several parts share; Prelude holds the lists,
--   words, bits and Boolean tests that they are written with.
--
-- The system calls work on the file system, the console, the keyboard ring, the allocator and the
-- page tables; the import writes what the archive reader finds into the file system; the start of
-- a program reads a file and takes its pages from the allocator. The boot runs the allocator on
-- the memory map, the import on the archive, and the archive reader on the shell. The shell sees
-- all of it through the system calls, and the packer makes the files that they start.
--
-- Numbers: `uint32_t` and `size_t` are natural numbers with the wrap at 2^32 written out
-- (Prelude/Words), a C `int` that is returned is an integer (Prelude/Int), a byte is a number that
-- the invariants keep below 256. A pointer into an array is the list from there on; a text or a
-- buffer of a user program is seen through the 4096 bytes from its pointer on: no file and no
-- listing is larger, and a text that is printed is cut there.
--
-- Memory: the variables of the kernel (the table of files, the bitmap, the ring of keys, the cells of
-- the screen, the page tables, the descriptor tables, the bounds of the module) are fields of the state,
-- apart from the bytes of `memory`. In the linked kernel they lie below USER_BASE. Nothing in the kernel
-- keeps a program, or the start of one, from storing there: what is said of a run of events is said of
-- those that do not, CallFits in Kernel/Syscall/Region and EventFits in System/Run, and with it that
-- no byte of `memory` below USER_BASE changes, so that the two views of the variables do not part.
--
-- Fuel: the loops of pmm_init and over a region of the memory map step by a page through a 32-bit
-- address and run on 2^20 rounds; the loop over the memory map runs on one round for each entry
-- and one more; ramfs_read on one round for each 512 bytes of the module, the least that it steps
-- by, or for each member and one more, and so does the reader of ramfs.c; the import on one round
-- for each member and one more; the digits of a number on eleven rounds, since 2^32 has ten digits.
-- The boot takes the bounds of all its loops as a record, Rounds. The loop of `sleep` runs on the
-- turns that the machine gives it, the example program on the turns of its loop, and the loop that
-- empties the keyboard controller on the readings of its status. All other loops are structural.
--
-- Not modelled: the cache of the processor for page entries, which map_page does not flush; the
-- instructions that load the registers of the descriptor tables, boot.s and user_jump.s (assembly: the
-- handlers of the interrupts that boot.s defines are the events of System), the delay loops, and the
-- build files. Programs other than the shell and the example are seen by what they do to the kernel:
-- their calls and their changes of memory.
pub mod Prelude
pub mod Apps
pub mod CString
pub mod Frodfs
pub mod Keyboard
pub mod System
pub mod Video
pub mod Pmm
pub mod Tar
pub mod Ramfs
pub mod Paging
pub mod Kernel
pub mod Shell
pub mod Packer
pub mod Machine
