-- ===== src/Lib.antt =====
-- almostOS, a small 32-bit kernel with a shell and a file system: a model of its C code.
--
-- Parts and files. A process gets its stack from an allocator in scheduler.c, which like the heap
-- of memory/malloc.c keeps its free blocks in a byte stack of memory/stack.c. The file system
-- fs/tinyfs keeps files as chains of clusters on a disk image. The terminal shell/terminal.c shows
-- text, and the helpers of utils/ and stdlib_c/ serve all of them.
--   Memory.ByteStack     memory/stack.c: stack_init, stack_push, stack_pop; Lifo is its contract
--   Memory.Heap          memory/malloc.c: init_heap_memory_allocator, heap_malloc, heap_free
--   Scheduler            scheduler.c: the table of processes, move_to_next_process, schedule,
--                        create_process, kill_process, the allocator of process stacks
--   TinyFs.Disk          the static state of fs/tinyfs/code
--   TinyFs.Cluster       fs/tinyfs/code/cluster_operations.c and FAT_cluster.c, which call each other
--   TinyFs.Rootdir       fs/tinyfs/code/rootdir_cluster.c
--   TinyFs.Operations    fs/tinyfs/code/fs_operations.c, and disk_image.c without host files;
--                        Mounting is about the disk that they start from
--   Router               fs/filesystem_router.c and virtual_fs.c: mounts, and reading by a path;
--                        Listing has the list of a directory
--   Util                 utils/util.c, utils/string.c and stdlib_c/string.c
--   Terminal             shell/terminal.c
--   Stdio                kernel_stdio.c: kernel_printf, which formats into a buffer; Console is
--                        what is printed over the two terminals, the screen and the serial port
--   SystemCalls          system_calls.c: sys_write prints by kernel_printf, sys_exit ends a process
--   Shell                shell/shell.c and its commands: Arguments parses the input line into an
--                        array on the heap, Paths has the current directory, Commands what commands
--                        change, Output what ls, ps and hexdump print
--   Descriptors          arch/x86-32: Gdt reads GDT_Global_Descriptor_Table.c's segments, Idt sets up
--                        IDT_Interrupt_Descriptor_Table.c's interrupt gates
--   Drivers              drivers/ and arch/x86-32/COM_port.c and tty.c: Vga is the text mode memory
--                        under the terminals, Keyboard turns scan codes into characters
--   Prelude              helpers: tests on ℕ, lists, byte memory, C integers
--   Tests                the theorems at concrete inputs
--
-- State. Each C file's static variables, or the struct that its functions take, are a record, and
-- each function takes the record and gives the new one beside its result. A pointer into memory is
-- a function from offsets to bytes, or an address where the code computes with it. What a function
-- prints is left out, except in Stdio and in Shell.Output. An unsigned value wraps where the code
-- can make it too large (`u8`, `u16`, `u32`); what an uninitialised variable holds is an argument.
--
-- Loops. A counted loop is recursion on its rounds. The round robin has fuel 16, the size of the
-- table: after 16 rounds it has seen each slot. The reads and writes of clusters and the FAT call
-- each other: their depth is bounded by 8, and a read within a chain needs 2. A walk over a chain
-- has fuel 256, as a link is a byte. The loops over strings, formats and input lines take their
-- fuel as an argument; what is enough depends on where the string ends. Drawing a terminal has
-- fuel 25, the lines of its buffer.
--
-- Not modelled: the assembly (context switch, interrupt entry), the start of the kernel, the shell's
-- messages and help text, the functions that only print (parse_BIOS_Data_Area, time_to_die,
-- print_process_ctx), host files (fs/tinyfs/tests, store_disk), and the unit tests in the C files.
pub mod Prelude
pub mod Memory
pub mod Scheduler
pub mod Stdio
pub mod Shell
pub mod SystemCalls
pub mod Descriptors
pub mod Util
pub mod TinyFs
pub mod Terminal
pub mod Tests
pub mod Router
pub mod Drivers
