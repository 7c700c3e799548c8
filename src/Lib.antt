-- ===== src/Lib.antt =====
-- A model of the teaching kernel under xv6-public/, a Unix-like system for x86 that is extended with
-- priorities, page statistics and file system statistics.
--
-- The parts, and the file or the files that model each. A function keeps its C name.
--   Memory     xv6-public/string.c, and stosb and stosl of x86.h, over a memory of bytes
--   Mmu        the address macros of mmu.h and memlayout.h
--   Kalloc     kalloc.c: the page allocator, whose free list lies in the pages themselves
--   Vm         vm.c: page tables; sys_getmemsize, sys_getvpages, sys_getptentries of sysproc.c
--   Proc       proc.c: the process table, the scheduler, sleep and wakeup, exit, wait, kill,
--              setpriority, growproc; Proc/Handoff has sleep and wakeup lock by lock
--   Log        log.c and bwrite of bio.c: transactions on the disk, write by write
--   Bio        bio.c: the buffer cache
--   File       file.c, and dup and close of sysfile.c: open files and descriptors
--   Fileio     file.c: filestat, fileread and filewrite
--   Pipe       pipe.c
--   Syspipe    pipealloc of pipe.c, and sys_pipe of sysfile.c
--   Syscall    syscall.c and syscall.h: arguments from user memory, the table of calls
--   Sysproc    sysproc.c: kill, setpriority, sbrk and sleep with their arguments
--   Console    console.c: the input line
--   Screen     console.c: cprintf, and the text on the screen
--   Trap       trap.c: trap(), over handlers that are given and may panic
--   Ide        ide.c: the queue of disk requests
--   Kbd        kbd.c and kbd.h: the keyboard
--   Spinlock   spinlock.c and sleeplock.c; Spinlock/Machine has several CPUs, step by step
--   Fs         fs.c: the bitmap of free blocks, and get_fs_stats
--   Inode      fs.c: the cache of inodes, their locks, and their form on the disk
--   Content    fs.c: the blocks of a file, readi and writei, itrunc and iput
--   Directory  fs.c: the entries of a directory
--   Namei      fs.c: paths
--   Sysfile    sysfile.c: link, unlink, create, mkdir, mknod, chdir, open
--   Elf        exec.c and elf.h, and loaduvm of vm.c: a program is loaded from its file
--   Exec       exec.c: the stack of the new program, and exec itself
--   Userinit   proc.c: userinit, the first process
--   Lifecycle  proc.c: fork and exit over the process table, the files and the directories
--   Mkfs       mkfs.c: the program that writes the first image of the disk
--   Ulib       ulib.c: the string functions of user programs
--   Printf     printf.c
--   Umalloc    umalloc.c: the allocator of user programs
--   Grep       grep.c: the matcher of patterns
--   Shell      sh.c: the parser of command lines
--   Base       what all of them share: lists over native numbers, tests, integers, panics
-- Vm allocates with kalloc and frees with kfree of Kalloc, both on the memory that they share. Proc
-- takes kernel stacks from Kalloc, and grows and frees memory through Vm. The file system writes
-- through Log, which keeps the buffers it lists in the cache of Bio. Content allocates blocks with
-- Fs, Directory reads and writes entries as file content, Namei walks directories, and Sysfile is
-- built of these; Fileio joins files to inodes and pipes. Lifecycle is built of Proc, Vm and File,
-- Exec of Namei, Content and Vm. Mkfs writes an image in the form that Fs and Inode read.
--
-- State is passed explicitly, as the record of each part. An unsigned or a pointer is its 32-bit
-- pattern with the wrap-around written out. `Outcome` is `panic` where the code calls panic(), which
-- never returns. What a lock brackets is one step, except in Spinlock/Machine and Proc/Handoff, so a
-- run of several processes is a sequence of such steps; a call that sleeps ends there, with what is left to do in its result. The inode layer is
-- a monad on its own state: a routine is the run of one process, and `waits` is where it would
-- sleep for the lock of an inode that another process holds. The begin_op and end_op that bracket
-- the calls of that layer are those of Log. Where fileclose ends with pipeclose or iput, that call is a value of
-- type Closing in the result.
--
-- Loops without a bound in their data run on fuel. freerange has a round for each page up to its
-- end, deallocuvm one for each page up to the old size, and the loops of sys_getptentries and strlen
-- take their fuel as an argument. kill_line has a round for each place of the line buffer, and
-- balloc and get_fs_stats have one for each block of the bitmap. readi and writei have one for each
-- byte, the loops over directories one for each entry and one more, namex one for each byte of the
-- path and one more, the parser of the shell one for each byte of the line and one more, and printint
-- 32. The loops of umalloc.c take their fuel as an argument. loaduvm has a round for
-- each page of a segment, and iappend of mkfs one for each byte.
--
-- Not modelled: boot code and the drivers that are accesses to ports and registers alone, which are
-- uart.c, memide.c, lapic.c, ioapic.c, picirq.c, mp.c, main.c and bootmain.c; the registers in the trap
-- frame, of which Exec gives eip and esp; user programs other than the parser of the shell and the
-- matcher of grep; the names and call stacks that locks keep for debugging. Addresses that the linker
-- gives are parameters, and so are the functions of the table devsw, what sbrk returns to user
-- programs, the handlers that trap() calls and what the disk delivers.
pub mod Base
pub mod Memory
pub mod Mmu
pub mod Kalloc
pub mod Pipe
pub mod Vm
pub mod Proc
pub mod Log
pub mod File
pub mod Bio
pub mod Syscall
pub mod Console
pub mod Spinlock
pub mod Grep
pub mod Printf
pub mod Ulib
pub mod Fs
pub mod Inode
pub mod Content
pub mod Directory
pub mod Namei
pub mod Fileio
pub mod Sysfile
pub mod Lifecycle
pub mod Shell
pub mod Syspipe
pub mod Umalloc
pub mod Sysproc
pub mod Ide
pub mod Trap
pub mod Screen
pub mod Exec
pub mod Mkfs
pub mod Userinit
pub mod Elf
pub mod Kbd
