-- ===== src/Lib.antt =====
-- A model of the kernel of sebopesyslab, and proofs about it.
--
-- The kernel runs processes on one processor. A PCB of the pool is in at most one list: the ready
-- list, the sleep list, the list of a semaphore or the join list of a process. The lists are linked
-- through the PCBs' `next` fields. The timer interrupt, the semaphores, the end of a process and the
-- scheduler move PCBs between them.
--
--   Base       what the other modules share: Boolean tests on numbers (Tests), 32-bit arithmetic
--              (Word), lists (Lists), a pigeonhole lemma that bounds the length of a list of distinct
--              PCBs (Pigeonhole), loops that search for an index (Search), and statements about all
--              numbers below a bound (Finite), and commands over any state (Action)
--   Kernel     the state: PCBs and list heads of kernel/include/process.h, semaphores of
--              kernel/include/semaphore.h. Kernel.Run is the monad of commands over it: a command
--              ends with a result, in a switch to a process, at an access through a pointer that is
--              not into PCBPool, or without fuel
--   Queue      ll_len, ll_pop, ll_push, ll_entail, ll_delete of kernel/src/process.c. Chain says what
--              a linked list is, Entail and Delete prove the operations on one list, Rep is the
--              abstract view of all lists and proves the operations on it, Relinks and Amend say
--              what an operation leaves alone; Unlink is the cut that ll_delete makes
--   Scheduler  do_scheduler of kernel/src/scheduler.c, scheduler_switch of kernel/src/memory/kvm.c
--   Timer      do_timer of kernel/src/timer.c
--   Semaphore  kernel/src/semaphore.c; Count is about the counter, Laws about post and
--              wait, Close about close
--   Process    init_pcb_pool, enready_pcb, free_pcb, exit_current and join_current of
--              kernel/src/process.c; Create is pcb_create, over the processes and the pages together,
--              and Create.Spaces proves it
--   Traps      irq_handle of kernel/src/irq/irq_handle.c for the timer and for the system calls that move
--              processes. States and Bodies say how each trap ends, Safety that all do, Reach is about
--              sequences of them, Turns about yields. Calls is the whole switch of
--              kernel/src/do_syscall.c, Calls.Stubs the functions of lib/syscall.h
--   Descriptors
--              the gates of kernel/src/irq/idt.c and the segments of kernel/src/memory/kvm.c
--   FileSystem kernel/src/fs/file.c with kernel/include/file.h and the sector transfers of inc/disk.h.
--              Sectors, Alloc (the bitmap), Transfer (fs_read_base_kr, fs_write_base_kr), Streams
--              (open, create, close), Files (read, write, _md) and Ports (_port, fs_ls_kr, init_fs)
--              are the code; Copying has lemmas on memcpy2, Alloc.Bits, Bitmap, Taken and Layout prove the
--              allocators, Transfer.Reads and Whole reads, Transfer.Writes, Rewriting and Replaced
--              writes, Files.Reading, Writing and RoundTrip the calls
--   Video      kernel/src/video.c and SYS_FLUSH_VCACHE; Rows is about its loops, Frames about what a
--              frame leaves on the screen
--   Keyboard   press_key, get_key, get_lastkey and ctrl_c of kernel/src/keyboard.c; Held says which keys
--              are down after a sequence of scan codes. Codes is poll_key with its tables, Lines
--              getchar and readline; Codes.Letters proves which characters the keys give, Lines.Strings
--              has lemmas on strings in arrays, Lines.Keys and Editing prove what readline returns
--   Paging     kernel/src/paging/pmap.c over the physical memory as words. Pool (page_alloc, page_free,
--              page_decref), Tables (pgdir_walk, page_lookup, page_insert, page_remove), Spaces
--              (mm_alloc, copy_pgdir, free_pgdir) and Boot (page_init) are the code, EntryMap is
--              kernel/src/paging/entrypgdir.c; Pool.FreeList and Clearing, Tables.Walk, Insert and
--              Mapping, Boot.KernelMap and FirstFree prove what they do
--   Printk     vfprintf of lib/printk.c, as the list of characters that it prints; Numbers reads
--              them back
--   Random     UKISS of cshell/src/rnd.c
--   Tests      the theorems at concrete states
--
-- A pointer to a PCB is a number: NULL is 0, &PCBPool[i] is i + 1. A pointer to a semaphore is one too:
-- &sems[i] is i, and any other address is a number past 999, whose use ends the run. An int or uint32_t is its bit
-- pattern, and arithmetic on it is modulo 2^32. Interrupts are off in the kernel, so each operation
-- runs alone and is a function from the state to an outcome. The loops over lists have fuel for
-- 1002 rounds, which is more than the at most 1000 nodes of a well-formed list and its end.
--
-- Not modelled: semaphores outside sems, which a program can name by any address, the keyboard interrupt, the contents of kernel stacks and trap frames, device registers, assembly, the
-- diagnostic output of PADDR and KADDR, the TLB, and the user programs but for their random numbers.
--
-- The disk is a function from sectors to bytes; readsect and writesect reach the sector that the
-- four port writes select. A command of the file system ends with a result, at an access outside an
-- array, or without fuel; its loops over the blocks of a file have fuel for 129 rounds, since an
-- inode has 128 blocks and an index past them ends the run. A file name is the list of its bytes.
--
-- The physical memory is a function from word addresses to 32-bit words, of which a page has 1024;
-- an access behind the 128 MB, or to an element outside `pages`, is a fault. The kernel's variables are not
-- among these words, although page_init also gives out pages that hold some of them: pcb_create ends
-- the run at such a page. readline reads the list
-- of bytes that the keyboard sends, and waits where it ends, so its loop needs no fuel.
--
-- A well-formed state below is one of which Queue.Rep.Rep holds: each place has a linked list of
-- distinct PCBs, and no PCB is in two of them. A PCB is idle when it is in none.
pub mod Base
pub mod Kernel
pub mod Queue
pub mod Scheduler
pub mod Timer
pub mod Semaphore
pub mod Process
pub mod FileSystem
pub mod Keyboard
pub mod Paging
pub mod Printk
pub mod Random
pub mod Traps
pub mod Descriptors
pub mod Video
pub mod Tests
