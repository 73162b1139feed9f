-- ===== src/Lib.antt =====
-- A verification library for riscv-os-lab, a teaching kernel for RISC-V in C.
--
-- The program: the page allocator (kernel/mm/kalloc.c) hands out pages; the process code
-- (kernel/proc/proc.c) takes from it the trapframe and the kernel stack of each process, and its
-- scheduler switches between the processes, which sleep, wake each other, fork, exit and wait. The
-- block cache (kernel/fs/bio.c) stands on the disk driver; the file system (kernel/fs/fs.c) stands
-- on the cache, the open files (kernel/fs/file.c) on the file system, and the system calls
-- (kernel/syscall/sysfile.c) on both. The console (kernel/driver/console.c) prints.
--
-- The files: Prelude holds the Boolean tests, arrays as functions, bytes and little-endian words,
-- lists without repetition, and Run, the result of kernel code over a state: a value with the new
-- state, the halt of `panic`, the end of a loop's fuel, or a null dereference.
-- Mm/Kalloc: kinit, kfree and kalloc over byte-addressed memory. Mm/Vm: walk, mappages and kvmininit
-- of kernel/mm/vm.c, whose tables lie in the same memory.
-- Proc, Proc/Wait and Proc/Scheduler: the process table, and the machine that the scheduler and the
-- processes step; `swtch` is the place where one side stops and the other goes on.
-- Fs/Bio: the cache with its linked list; Fs/State: the state above it; Fs/Bitmap, Fs/Inode,
-- Fs/Data, Fs/Dir and Fs/Path: fs.c from the bitmap up to path names; Fs/File: file.c.
-- Fs/Bio/Coherence, Fs/Bio/Fetch and Fs/Bio/Settle: the cache against the blocks of the disk;
-- Fs/Access: the steps of a function of fs.c that reads or writes a block through the cache, from
-- which the proofs in Fs/Transparent, Fs/Bitmap/Alloc, Fs/Inode/Stored and the files below Fs/Data
-- are made. There a disk is a function from block numbers to blocks.
-- Syscall/Args and Syscall/File: the arguments and sys_open, sys_read, sys_write and sys_close.
-- Syscall/Process: the dispatch of kernel/syscall/syscall.c and kernel/syscall/sysproc.c.
-- Proc/Init: userinit. Proc/Race: a timer interrupt inside wait.
-- Driver/Console: printint, printlong and printf. Driver/Uart: kernel/driver/uart.c.
-- Driver/Virtio: kernel/driver/virtio_disk.c, its queue, its initialisation and its transfer of one
-- block, which fills the interface of the cache.
-- Trap: sys_trap_handler, usertrap and usertrapret of kernel/trap/trap.c;
-- Trap/Init: the set-up of the trap vector, of the PLIC and of paging.
-- Mkfs and Mkfs/Main: mkfs/mkfs.c, which writes the disk image on the host. Mkfs/Paper is an image in
-- memory as a reference; Mkfs/Sectors and Mkfs/Follows lead the runs on a file back to it.
-- Boot: kernel/boot/start.c in machine mode, and the timer interrupt of kernel/trap/kernelvec.S.
-- User: user/proczero.c over the system calls that it makes.
-- Fs/Mount: fsinit on a disk; Mkfs/Boot: fsinit on an image of mkfs.
-- Each function of the source is the definition of its name; a helper stands for a loop or a branch
-- of it, and its comment quotes the loop.
--
-- Numbers are natural numbers, an `int` or `uint` as its bit pattern, with the wrap-around written
-- out. A pointer into a table is its index, in an option where it may be null. The disk driver is
-- the interface BlockDriver: its laws say that a read gives what the disk holds and that a write
-- changes one block; Driver/Virtio/Transfer fills it with the driver of the repository. The device
-- behind that driver is the interface Device: it serves the request that was submitted after some
-- polls, and nothing before. The registers that it shows are a function. The file that mkfs writes
-- is the interface ImageFile, whose laws are those of lseek, read and write; the serial port is the
-- interface Port, which is ready after a bounded number of reads of its status. The linker's symbol
-- `end` and the address of forkret are parameters.
--
-- Fuel: kinit has a round for each page below PHYSTOP and one for the test that ends its loop. The
-- walks of bget have NBUF + 1 rounds, one for each node of the ring. printint and printlong have a
-- round for each byte of their buffer. The loops over a bitmap, a directory and a path have a round
-- for each block, entry and byte and one for the test at the end, and mappages has one for each page.
-- The busy wait of virtio_disk_rw is given one round more than the device needs, and the loop of
-- iappend one for each byte.
--
-- Not modelled: start_main of kernel/boot/main.c, which calls the initialisations one after the other;
-- the vectors of kernel/trap/kernelvec.S but for the timer's, kernel/boot/entry.S, swtch.S and usys.S,
-- which save, restore and set up registers. The kernel has one hart. In the machine of Proc/Scheduler
-- a process runs from one call of `swtch` to the next; interrupts inside a system call are in
-- Proc/Race only. The theorems on the contents of files cover the direct blocks, not the indirect one.
pub mod Prelude
pub mod Mm
pub mod Proc
pub mod Driver
pub mod Fs
pub mod Trap
pub mod Syscall
pub mod Mkfs
pub mod Boot
pub mod User
