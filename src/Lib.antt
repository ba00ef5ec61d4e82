-- ===== src/Lib.antt =====
-- The core of seeking-os, a 32-bit teaching kernel in C: its strings, bitmaps, queues, scheduler,
-- locks, pages, heap, drive, files and pipes, and its shell's splitting of lines.
--
-- `Prelude` passes on the libraries' names and defines what all parts share: Boolean tests on
-- numbers, words that wrap round, flat byte memory, and `Outcome`, in which a failed `ASSERT` or
-- `PANIC` of kernel/debug.h is the value `panic`.
--
-- `Str` is lib/string.c over flat memory, where a pointer is an address and NULL is 0. `Stdio` is
-- the number and format routines of lib/stdio.c. `Bitmap` is lib/kernel/bitmap.c. `IoQueue` is
-- the ring of device/ioqueue.c; `Pipe` (shell/pipe.c) and `Keyboard` (device/keyboard.c) are its
-- clients. `KList` is the linked lists of lib/kernel/list.c, whose operations on links implement
-- those on the list of the nodes, which `Thread/Queue` spells out for the queues. `Thread` is the
-- ready queue and the task states of thread/thread.c, with the clock interrupt of device/timer.c.
-- `Sync` is thread/sync.c, whose steps `Sync/Runs` interleaves. `Pages` is the part of
-- kernel/memory.c below the heap: pools of frames and addresses, and page table entries. `Heap`
-- is the heap on top of it, `sys_malloc` and `sys_free`, which cuts the pages that `Pages` maps
-- into blocks. `Pids` is the pool of process numbers of thread/thread.c. `Inode` is the table of
-- inodes on the disk of fs/inode.c, `Release` gives the blocks of an inode back; `Files` is the
-- file table and the descriptors of fs/file.c, with `sys_lseek` of fs/fs.c, and `PathName` the
-- parser of paths of fs/fs.c. `FileRead` and `FileWrite` are `file_read` and `file_write` of
-- fs/file.c, between the sectors of a disk and a buffer in memory; `Ide` is the transfer of
-- sectors of device/ide.c, with the drive as a parameter. `Directory` is the search for a name in
-- a directory of fs/dir.c. `Descriptors` is the pipes of shell/pipe.c as entries of the file
-- table, over `Pages`, `IoQueue` and `Files`, with `sys_close` of fs/fs.c. `Shell` is the
-- splitting of command lines of shell/shell.c. A function has the name that it has in C; a loop
-- is a function of its own beside the one it stands in.
--
-- A loop that C bounds by a counter recurs on the counter. Loops that run to the end of a string
-- or a path take fuel, and each theorem asks for fuel beyond the length of the string; those that
-- move sectors take fuel, and fuel beyond the number of bytes or sectors is enough, as each round
-- moves at least one. The two searching loops of `bitmap_scan` have one round for each byte and
-- bit and one to stop, which the theorem shows to be enough, as `vsprintf` gives `itoa` one round
-- more than its number.
--
-- A task is its number, and the switch of stacks in `switch_to` is the change of the current
-- task: what a function does after the switch belongs to the task that comes back. Interrupts are
-- off where the source turns them off, so a handler or a pass through a waiting loop is one step;
-- in `IoQueue` such a pass is cut where its task waits for the lock of the ring and where it
-- sleeps with it. An entry of a page table is a word that all addresses of the recursive mapping
-- see whose directory entries share the table. What the source does to a list when it appends a
-- node that is on it already is outside the model: `sys_free` of a free block is a `panic` there.
--
-- Not modelled are the writing and listing of directories, the system calls on paths, the
-- creation of files, the scan of partitions, user processes, and the rest of the shell, which
-- stand on these parts. Assembly, port input and output, paging hardware and printing are outside
-- the model.
pub mod Prelude
pub mod Str
pub mod Stdio
pub mod Bitmap
pub mod IoQueue
pub mod Pipe
pub mod Keyboard
pub mod Thread
pub mod Sync
pub mod Pages
pub mod Inode
pub mod PathName
pub mod Files
pub mod Pids
pub mod KList
pub mod Ide
pub mod Heap
pub mod FileRead
pub mod FileWrite
pub mod Descriptors
pub mod Release
pub mod Shell
pub mod Directory
