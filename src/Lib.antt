-- ===== src/Lib.antt =====
-- A model of the core of the kernel in kernel/: processes with the lottery scheduler, the redo log
-- and the other parts of the file system, pipes, the page allocator, spinlocks, the string library,
-- and the matcher of user/grep.c.
--
-- Which file models which code:
--   Proc         kernel/proc.h: `struct proc` (Proc) and the array `proc` (Table)
--   Proc/Lottery kernel/proc.c: `rand_next` and one turn of `scheduler` (scheduler_round)
--   Proc/Sleep   kernel/proc.c: `sleep`, `wakeup`, `yield`, `kkill`, `setkilled`, `killed`
--   Proc/Info    kernel/proc.c, kernel/pstat.h: `procinit`, `allocpid`, `kgetpinfo`, `ksettickets`
--   Proc/Life    kernel/proc.c: `allocproc`, `freeproc`, the user page table, `userinit`, `kfork`
--   Proc/Exit    kernel/proc.c: `reparent`, `kexit`, `kwait`
--   Log          kernel/log.c: `begin_op`, `end_op`, `log_write`, `commit`, `recover_from_log`
--   Pipe         kernel/pipe.c: `pipewrite`, `piperead`, `pipeclose`
--   Kalloc       kernel/kalloc.c: `kfree`, `kalloc`, `freerange`
--   Spinlock     kernel/spinlock.c: `acquire`, `release`, `holding`, `push_off`, `pop_off`
--   Memory, Text kernel/string.c: the routines on raw memory, and those on C strings
--   Bio          kernel/bio.c: `bread`, `bwrite`, `brelse`, `bpin`, `bunpin`
--   Fs/Bitmap    kernel/fs.c: `balloc`, `bfree`
--   Fs/Inode     kernel/fs.c: `iget`, `ilock`, `iput`, `iupdate`, `itrunc`, `ialloc`
--   Fs/Content   kernel/fs.c: `bmap`, `readi`, `writei`
--   Fs/Directory kernel/fs.c: `dirlookup`, `dirlink`, `namex`; Fs/Skip: `skipelem`
--   Fs/Start     kernel/fs.c: `readsb`, `fsinit`
--   File         kernel/file.c: `filealloc`, `filedup`, `fileclose`, `fileread`, `filewrite`
--   Syscall      kernel/syscall.c: `argint`, `argstr`, `syscall`, `sys_getcnt`
--   Console      kernel/console.c: `consoleintr`, `consoleread`, `consolewrite`
--   Grep         user/grep.c: `match`
-- The modules below each of these hold what is proved about it; Prelude holds what all share.
--
-- How they interact: the process code works on the table and calls the page allocator, the page
-- tables, the file table and the inodes, which are the interface Proc/Resources. The log calls the
-- operations of the buffer cache, the interface Log/Store, which Log/Cached fills with Bio. `kfork`
-- uses `safestrcpy` of Text. In Fs the blocks are what `bread` shows of them, and a `log_write` is a
-- change of a block; Bio models the cache and Log the way to the disk.
-- An inode in memory is its index in the table of inodes.
-- File works on Fs, and its pipes and devices are the interface `Ends`. Syscall takes the functions of
-- the system calls as a parameter but for `sys_getcnt`.
--
-- State is passed explicitly. An `int` or `uint` is its 32-bit pattern, and its arithmetic is
-- written with `% 2 ^ 32`; a pointer is an address, 0 for null, and a pointer to a slot of the
-- table is the slot's index. A panic is `none`. A loop over the table is a recursion on the list.
--
-- Bounds and fuel: the number `k` of `commit`, `install_trans` and the other log routines is the
-- number of disk writes left until power fails. `begin_op`, `kwait`, `acquire`, `acquiresleep`,
-- `pipewrite`, `piperead` and `consoleread` run until others let them go on, so they take a number
-- of turns, and the theorems are about one turn, about a run that need not wait, or about any run,
-- also one that stops for want of turns. The loop of `freerange` has a turn for each
-- address of its range, and one more; the loops of Fs, File and Console have one for each
-- block, inode, byte or path element and one more.
--
-- Time: a process that sleeps or is switched out leaves the machine to the others, which are a
-- parameter that may change the state at will. Outside of Spinlock the locks do not appear: an
-- operation that holds a lock throughout is one step. `scheduler` takes and gives up the lock of each
-- slot; here each of its two passes is one step, and the other processors act between the two. That
-- it waits for an interrupt where there is nothing to run changes no state and is left out. A disk
-- block is written as a whole or not at all.
--
-- Not modelled: traps, device drivers, the start of the kernel, assembly, and the user programs but for the
-- matcher of grep; the context switch is a parameter. In Fs a copy to or from a user's memory is a
-- parameter, and the sleeplocks of inodes are left out: what is modelled is one process at a time.
pub mod Prelude
pub mod Memory
pub mod Text
pub mod Proc
pub mod Log
pub mod Pipe
pub mod Kalloc
pub mod Spinlock
pub mod Grep
pub mod Bio
pub mod Fs
pub mod File
pub mod Syscall
pub mod Console
