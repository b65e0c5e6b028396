-- ===== src/Lib.antt =====
-- Stage OS is a small x86 teaching kernel (basekernel/), extended by a second memory manager in
-- `New Memory management/`. This library models the parts of the kernel that keep state of their
-- own and can be read as programs on values: memory pages, the block cache, pipes and event
-- queues, the keyboard, the scheduler, the clocks, page tables, the disk file system, paths,
-- kernel objects and the system calls on descriptors, the console and the pixels that it draws,
-- the lists, the hash set, and the functions on strings.
--
-- How the parts interact. Processes ask for memory by the page allocator (kernel/page.c), and
-- every kernel structure of a page stands on it. Data between processes goes through pipes
-- (kernel/pipe.c). The keyboard interrupt (kernel/keyboard.c) turns scan codes into key events
-- and posts them to the event queue of the root window (kernel/event_queue.c). A process that
-- finds a pipe or a queue empty sleeps on its list, and whoever fills it wakes the sleepers: the
-- scheduler (kernel/process.c) moves processes between the running place, the ready list, the
-- grave list, the list of waiting parents and such queues. The clock (kernel/clock.c) wakes those
-- that wait for time. Pages are mapped at the addresses of a process by its page table
-- (kernel/pagetable.c). Reads and writes of a file (kernel/fs.c) are cut into blocks of its file
-- system, which for the disk file system (kernel/diskfs.c) are found through the inode of the
-- file; blocks of disks go through the block cache (kernel/bcache.c). Characters that printf
-- (kernel/printf.c) makes of its arguments are drawn at the cursor of a console
-- (kernel/console.c), which is pixels in the clip of its window (kernel/graphics.c). A process
-- names what it has open by descriptors: a system call (kernel/syscall_handler.c) finds the
-- kernel object in the table of the process, and the object (kernel/kobject.c) passes reads and
-- writes on to its file, device, pipe, window or console and counts the references to it. A child
-- takes over the descriptors of its parent (kernel/process.c), and a path is followed from a
-- directory, word by word (kernel/fs.c with strtok of kernel/string.c). Smaller structures come
-- from the kernel heap (kernel/kmalloc.c).
--
-- Files. Base has the shared names: Boolean tests on numbers, arrays as lists, well-foundedness.
-- Cell has 32-bit masks. Page is kernel/page.c (page_init, page_alloc, page_free, page_stats),
-- and Page/Hardened is `New Memory management/page.c` with its guard pattern. Ring has what rings
-- with modular indices share; EventQueue is kernel/event_queue.c and Pipe is kernel/pipe.c, both
-- on it. Keyboard is kernel/keyboard.c with keymap.us.pc.c (Keyboard/Us), keymap.fr.pc.c
-- (Keyboard/Fr) and the kb_layout command of kernel/kshell.c. Strings is kernel/string.c, with
-- strtok in Strings/Tokens, and Validation is kernel/is_valid.c, which uses it. HashSet is
-- kernel/hash_set.c. Clock is kernel/clock.c and Rtc is kernel/rtc.c. BCache is kernel/bcache.c,
-- and Kmalloc is kernel/kmalloc.c. Process is kernel/process.c, with the descriptors of a child
-- in Process/Inherit, and Mutex is kernel/mutex.c. PageTable is kernel/pagetable.c. LinkedList is
-- kernel/list.c. DiskFs is kernel/diskfs.c with diskfs.h: DiskFs/Layout has blocks, inodes and
-- the superblock, DiskFs/Bitmap the two allocators, DiskFs/Inode the blocks of a file,
-- DiskFs/Directory and DiskFs/Removal directories, and DiskFs/Super volumes. Fs is the reading
-- and writing of kernel/fs.c, and Fs/Traverse its paths. Printf is kernel/printf.c, and Console
-- is the cursor of kernel/console.c, with Console/Draw for the pixels of its drawings. Graphics
-- is kernel/graphics.c: Graphics itself has pixels, rectangles, the clip, bitmaps and characters,
-- Graphics/Line the lines, and Graphics/Commands the interpreter graphics_write. KObject is
-- kernel/kobject.c, and Syscalls has the calls on descriptors of kernel/syscall_handler.c: those
-- that open, copy and close in Syscalls itself, those that read and write in Syscalls/Transfer,
-- and those on windows, tags and sizes in Syscalls/Objects. All of these paths are below
-- basekernel/.
--
-- How state and operations correspond. The statics of a file, or its structure, are a record; an
-- operation is a function of the same name, less the prefix that its module stands for
-- (`Pipe.write` is pipe_write), from the state to its results and the new state. Numbers are
-- natural numbers, and where the source computes in w-bit words the wrap is written out. A null
-- pointer or a missing result is `none`. An access outside memory is `none` too in Strings and
-- Validation. A call that puts its process to sleep returns that it sleeps, with what is left to
-- do; the loop of the source begins again with a new call once the process is woken. A kernel
-- list is the list of its nodes, head first; in LinkedList it is a heap of nodes with their
-- pointers, where a pointer is a number and 0 is the null pointer. A block of the disk is a
-- function from positions to bytes, and a disk is a function from numbers to blocks. The address
-- of a page is its number in PageTable. What a console draws is a list of drawings, and
-- Console/Draw makes pixels of it. In Graphics a pixel is known by its number, width * y + x in
-- 32 bits, and an int is its pattern of 32 bits. Kernel objects and directory entries are known
-- by their numbers in a store, with `none` for one that is freed; in Syscalls `none` is a fault
-- of the kernel.
--
-- Interfaces. The disks under the block cache are the record BCache.Devices: what reading and
-- writing one block does; the theorems suppose KeepsBlocks, that a writable block is written and
-- then read again, that a write that fails leaves what was there, and that no write changes
-- another block; which blocks are writable is an argument. The tests show this of a drive beside
-- devices that refuse. The file under Fs is the record Fs.Write.BlockFile: the bytes that its
-- blocks have, and what a write of a block changes. The page allocator under PageTable is the
-- record PageTable.View.Allocator: which pages are in use, and that a new one was not. The tests
-- show both of concrete ones. What kobject.c calls of files, devices, pipes, windows and consoles
-- is the record KObject.Operations, and KObject.Sequence.FileOf says that its file is read by Fs.
-- The lookup of a name by a file system, the table of glyphs and the words of a graphics command
-- are functions that stand as arguments. What memory held before page_init, and what kmalloc
-- leaves in the dirty flag of a new cache entry, are arguments.
--
-- Bounds and fuel. strrev_loop gets as many rounds as the memory has bytes, and each brings the
-- two positions two closer. The first loop of uint_to_string gets 33 rounds, as 10 ^ 32 is 0 in
-- 32 bits; its second loop gets 10, as the factor is below 2 ^ 32. The loop of bcache_trim gets
-- as many rounds as there are entries, and each takes one away. clock_wait follows a schedule,
-- the numbers of interrupts until the process runs again. The loops of fs_dirent_read and
-- fs_dirent_write get as many rounds as bytes are left, and each moves one byte at least. The
-- first loop of printf_putuint gets nine rounds and its second ten, as a 32-bit number has ten
-- digits at most. The loop of list_push_priority gets as many rounds as the list has nodes. The
-- loop over the words of a path gets one round more than the path has characters. The loop of
-- graphics_write is on fuel, and without it gives no result: a round more than there are words is
-- enough where every text has a length below 2 ^ 30, and no fuel is enough for some other
-- commands. All other loops are structural.
--
-- Not modelled: hardware access (ports, interrupt tables, paging registers, stack frames),
-- windows and font data, the scrolling, creation and reference counts of kernel/graphics.c; the
-- paths of pipes, the cache and the hash set on which memory is short; strdup and strndup;
-- process_kill, process_reap and process_delete, the sizes of data and stack and the passing of
-- arguments. Outside LinkedList, the lists of kernel/list.c stand as sequences. pagetable_init
-- and pagetable_duplicate are left out, and so are the volumes, tags, copying and making of
-- entries in kernel/fs.c, the errors of devices in kernel/diskfs.c, the reading of consoles,
-- devices, the CD-ROM file system, the ELF loader, and the system calls on processes, memory,
-- file systems, statistics and time. The scheduler and the mutexes are modelled without
-- interrupts in the middle of an operation.
pub mod Base
pub mod Cell
pub mod Page
pub mod Ring
pub mod EventQueue
pub mod Pipe
pub mod Keyboard
pub mod Strings
pub mod HashSet
pub mod Clock
pub mod Rtc
pub mod Validation
pub mod BCache
pub mod Mutex
pub mod Kmalloc
pub mod Process
pub mod PageTable
pub mod LinkedList
pub mod DiskFs
pub mod Fs
pub mod Printf
pub mod Console
pub mod Graphics
pub mod KObject
pub mod Syscalls
