-- ===== src/Lib.antt =====
-- The kernel of this repository (ukernel), modelled from its C sources and proved correct part by part.
--
-- The kernel hands out single bits of bitmaps (pages, pids, blocks, inodes), keeps its threads in doubly
-- linked lists, switches between them on a clock tick or when one of them sleeps, and builds on that
-- locks, a ring between a producer and a consumer, and pipes; a drive, and on it inodes, files and the
-- descriptors of a process. Each part has a module of its name: the
-- parent module holds the data and one definition for each C routine, its children hold the proofs, and
-- its Tests hold concrete runs.
--
-- Prelude: Boolean tests, lists and function updates over the native numbers, and Outcome, what a
-- routine ends in: it returns, or a failed ASSERT (debug.h) stops the machine. ASSERT is on: the
-- makefile does not define NDEBUG.
--
-- Bitmap (bitmap.c): struct bitmap with the memory from its data pointer on. The loops of bitmap_scan
-- recur on the rounds that are left, so they need no fuel.
-- KernelList (list.c): the prev and next words of all tags are two maps; IsList says that they hold a
-- sequence. A walk takes fuel, and one more than the length of the list is enough (proved).
-- Pid (thread.c): the pid pool, over Bitmap.
-- Thread (thread.c, timer.c, process_activate of process.c): threads by the address of their PCB, the
-- ready and the full list as sequences (what KernelList proves the links to hold), the current thread.
-- The state that schedule returns is the one in which the next thread goes on.
-- Timer (timer.c): what the clock chip is programmed with, and msleep in ticks.
-- Sync (sync.c): threads interleaved at every point where another thread can see a difference.
-- Memory (memory.c): the pools of frames, the virtual addresses and the page tables; Memory.Alloc,
-- Memory.Free and Memory.Init hold the routines that hand out pages, take them back and set the pools
-- up. The words of the address space are one map, in which the page tables stand at the addresses that
-- pde_ptr and pte_ptr compute; the new table that page_table_add makes is cleared there. The TLB has no
-- model. A routine that takes a pool's lock is one step.
-- Heap (memory.c): sys_malloc and sys_free, over Memory.
-- CString (string.c): bytes by address; a loop that ends at a terminator takes fuel, and one more than the
-- length of the string is enough (proved).
-- Ioqueue (ioqueue.c) and Pipe (pipe.c): an attempt of a thread returns or leaves the thread asleep.
-- Path (fs.c, buildin_cmd.c): path_parse and what is built on it. A loop over the names takes fuel, and
-- more than there are names is enough (proved).
-- Disk (ide.c): a drive is its bytes, and a transfer copies sectors; the rounds of a transfer recur on the
-- number of sectors, which is enough (proved).
-- Inode (inode.c): the state of the mounted partition and the inodes. The answers of sys_malloc are part
-- of the state.
-- File (file.c, inode_release of inode.c): actions on that state, which end with a value, with -1 or in a
-- failed ASSERT. Their loops recur on the bytes or blocks that are left.
-- Descriptor (fs.c, pipe.c): the descriptors of the running thread, over File.
-- Format (fs.c): partition_format, the layout of a new file system.
-- Shell (shell.c): cmd_parse; its loop takes fuel, and more than the command has bytes is enough (proved).
--
-- Machine integers are native numbers; a wrap-around is written out wherever a value can reach it.
--
-- Not modelled: directories and the system calls on names, the process life cycle, the commands of the
-- shell and formatted output, which are left for later; the other drivers, boot code and console output, which are input and output.
pub mod Prelude
pub mod Bitmap
pub mod KernelList
pub mod Memory
pub mod Path
pub mod Pid
pub mod Thread
pub mod Timer
pub mod Sync
pub mod CString
pub mod Heap
pub mod Disk
pub mod Inode
pub mod File
pub mod Descriptor
pub mod Shell
pub mod Format
pub mod Ioqueue
pub mod Pipe
