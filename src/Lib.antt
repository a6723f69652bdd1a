-- ===== src/Lib.antt =====
-- Verification of NSOS, a small i386 kernel: its locks, threads, semaphores, memory manager and
-- file systems. Paths are from the root of the repository.
--
-- The parts and how they interact. The spinlocks (src/libos/simple_lock.c) turn the interrupts off
-- and keep one count for all locks; the threads, the scheduler and the semaphores (src/kmt.c) run
-- under two of them, and so does the memory manager (src/pmm.c). The virtual file system
-- (src/vfs.c) runs under one semaphore; it walks paths (src/fs/path.c) through chains of dentries
-- (src/fs/dentry.c), asks the access check (src/fs/acl.c), and calls through tables of function
-- pointers the file system in memory, the device and the process file system (src/fs/kvfs.c,
-- devfs.c, procfs.c). All of them use the routines of src/nslibc/string.c.
--
-- The files:
--   Prelude     shared notation, Boolean tests on numbers, lists
--   Machine     addresses, the hardware layer as a parameter, runs that end or stop
--   Lock        simple_lock.c: lockcount, release_intr and the status of the static locks;
--               Lock/Nesting for code that takes locks in pairs
--   Kmt         kmt.c and include/kmt.h: Kmt/State the globals and struct thread, Kmt/Threads the
--               functions kmt_init, kmt_create, kmt_teardown and kmt_schedule, Kmt/Semaphore the
--               semaphores; proofs in Kmt/Schedule, Fair, Mutex, Life and Teardown
--   CString     string.c; proofs in CString/Compare, Move and Copy
--   Pmm         pmm.c: Pmm/Block the block headers in byte memory and pmm_init, Pmm/Alloc and
--               Pmm/Free the two operations; proofs in Pmm/Init, Search and Address; of alloc in
--               Pmm/Split, Place, Move, Keep and Live, of free in Pmm/Join, Head, Take, Ready and
--               Release, with Pmm/Bytes and Pmm/Links for the writes and the list of blocks
--   Acl         check_acl; Acl/Rights for its meaning
--   Fs          Fs/State the structs of include/fs and include/vfs.h, Fs/Dentry d_drop, Fs/Root and
--               Fs/File what the drivers have alike, Fs/Kvfs, Fs/Devfs and Fs/Procfs the drivers,
--               Fs/Driver the calls through their tables of function pointers, Fs/Tables those
--               tables, Fs/Path the path walk; proofs in Fs/Path/Resolve, Goes, Steps, Names,
--               Added and Made, Fs/Dentry/Drop, Fs/Kvfs/Contents, Read, Back and Create,
--               Fs/Procfs/Pid and Fs/Reach
--   Vfs         Vfs/Calls and Vfs/Descriptors: vfs.c; Vfs/Table its module table; proofs in
--               Vfs/Release, Balance and Open, with the rules of Fs/Calm
--   Console     console.c: the ring of lines and the drawing; Console/Terminal the text that it
--               shows, Console/Screen its pixels as well; proofs in Console/Rows, Cells, Refines,
--               Start and Inside, of the pixels in Console/Pixels, Refresh, Drawn, Typed and Seen
--   Os          framework/main.c, os.c and launchd.c: the start, the interrupts and the first thread;
--               proofs in Os/Resume and Launch
--   Log         libos/syslog.c, libos/timer.c and nslibc/stdio.c; Log/Shown what a message shows
--   Example     states for the tests, which stand beside the modules they test
--
-- Conventions. A function of the source keeps its name. Numbers are natural numbers with the
-- wrap-around at 2 ^ 32 written out, and an int is its 32-bit pattern. An address is a number and
-- NULL is 0. Memory is bytes by address in pmm.c, string.c and for the contents of files; the
-- structs stand in typed stores by address, and what lies at NULL is read as well, since the
-- kernel runs without paging. The allocator that kmt.c and the file systems call is a function of
-- the history of calls. Code that sleeps, panics, calls through NULL or runs out of fuel stops, and
-- the state in which it stops is kept.
--
-- Fuel. The loop of kmt_schedule needs 1024 rounds where some thread can run; the first loop of
-- pmm_alloc needs 33, for sizes up to 2 ^ 31, and its second one a round more than there are
-- blocks, as do the loops of pmm_free. The walks along chains of dentries and mounts take fuel, one
-- round an entry; the rounds of a path walk are the characters of the path.
--
-- Not modelled: formatted output and character classes (copies of another kernel's library), the
-- table of glyphs (a parameter of the console), what the other parts send to the log, the tests of the
-- kernel, and the hardware layer, which is behind the parameters Env and Board. The sprintf of
-- proc_read is a field of its parameter Report, and the vsprintf of the log a parameter. A mount takes one of the
-- three static drivers, which are all that the kernel mounts.
pub mod Prelude
pub mod Machine
pub mod Example
pub mod Lock
pub mod Kmt
pub mod Acl
pub mod CString
pub mod Pmm
pub mod Fs
pub mod Console
pub mod Vfs
pub mod Os
pub mod Log
