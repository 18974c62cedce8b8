-- ===== src/Lib.antt =====
-- Verification of parts of the course projects of this repository: the scheduler and the locks of
-- the Pintos kernel of G/A5, the system calls, the program loader and the virtual memory of the Pintos kernel of G/A4, the
-- page replacement simulator of G/A6, the prime search of G/A2 and the user-level threads of G/A3.
--
-- The kernel (G/A5/Pintos/src). thread.c keeps the threads, the ready list and the running thread;
-- synch.c builds semaphores, locks with priority donation and condition variables on thread_block
-- and thread_unblock; the timer interrupt of timer.c wakes sleepers and preempts. They meet in one
-- state, the record Kernel of Threads.antt, whose maps from addresses stand for the memory.
--   KernelList          lib/kernel/list.c: list_insert_ordered and list_sort. A list is the sequence
--                       of its elements.
--   KernelList/Select   is_sorted, list_max, list_min, list_unique of the same file, and the front of
--                       a list; KernelList/Greatest, KernelList/Unique    what they return
--   KernelList/Order    orders, ordered lists and the place of an insertion
--   KernelList/Merge    inplace_merge; KernelList/Runs  find_end_of_run; KernelList/Sort  list_sort
--   Threads             the state, and Run, the outcome of kernel code: its result, a failed ASSERT or
--                       access through NULL (panic), or the end of the fuel
--   Threads/Schedule    threads/thread.c, timer_sleep and timer_interrupt of devices/timer.c, and the
--                       yield of intr_handler of threads/interrupt.c
--   Threads/Sync        threads/synch.c
--   Threads/WellFormed, Threads/Yield, Threads/Priority    the invariant of the scheduler, and the
--                       order of the ready list
--   Threads/Donation, Threads/Acquire    the loop of lock_acquire
--   Threads/Timer       the loop of timer_interrupt
--   Threads/Waking      sema_up; Threads/Signal    cond_signal; Threads/Releasing    lock_release
--   Threads/ReadWrite   the reader-writer locks
--   Threads/Frame, Threads/LockFrame, Threads/Exclusion, Threads/Mutex, Threads/Release, Threads/Reach
--                       mutual exclusion under every interleaving of the steps that Reach lists, which
--                       leave out lock_try_acquire: it runs with interrupts on
-- Interrupts are off inside these functions, so a thread is switched out only where the code calls
-- schedule, or by a timer interrupt between two calls. A function that goes on after a switch
-- returns a Bool beside the state: false when its thread was switched out there. What that thread
-- runs when it is scheduled again is a function of its own (lock_wait, release_tail), and Reach
-- takes it as a step. Priorities are natural numbers, as 0 to 63 are in the source; ticks do not
-- wrap. The loop of lock_acquire takes fuel: more than one above the length of the chain of blocked
-- holders is enough. list_sort takes one pass more than the list has elements, and each pass as
-- many rounds as the list has elements: the passes but the last leave fewer descents. sort_checked is
-- list_sort with its ASSERTs and with the end of the fuel as a failure.
--
-- The system calls (G/A4/Pintos/src/userprog/syscall.c, and process_wait, process_exit and
-- process_execute of userprog/process.c). What these files call (file system, console, allocator, page
-- tables, the processor's access to user memory) is the record Machine, a parameter everywhere.
--   Syscall             the machine, the state, and Outcome, how a system call ends: it returns, the
--                       process exits, it waits for a child, it hangs, the machine is off, an ASSERT fails
--                       (panic), or the C code reads freed memory (undefined)
--   Syscall/Files       the table of open files and the calls on files; Syscall/Table, Syscall/OpenClose
--   Syscall/Children    children, wait, exec and exit; Syscall/Family, Syscall/Waiting, Syscall/WaitTwice
--   Syscall/Address     the checks of user addresses; Syscall/Bounds
--   Syscall/Handler     syscall_handler; Syscall/Errors
--   Syscall/Ends, Syscall/Locking, Syscall/Locking/Exits, Syscall/Locking/Calls    file_lock across a call
-- Words of 32 bits are natural numbers below 2 ^ 32, and -1 is 2 ^ 32 - 1. A lock_acquire of file_lock is
-- seen from the thread that asks: it has the lock afterwards. The loop of validate_user_addr_range has
-- as fuel the addresses below PHYS_BASE, at which every scan stops. findThread, load_page and grow_stack
-- are operations of the machine, the last two those of Memory/Paging; so is load where process_execute
-- runs it in the new thread.
--
-- The loader (load and its helpers in G/A4/Pintos/src/userprog/process.c, in its VM build).
--   Loader              program headers, validate_segment, and the sizes of a segment; Loader/Fits
--   Loader/Pages        install_page, load_segment, lazy_load_segment; Loader/Lazy    its pages
--   Loader/Arguments    setup_stack; Loader/Layout, Loader/Frame, Loader/Main, Loader/Tokens    its stack
--   Loader/Program      load; Loader/Safe    its pages
-- A file is what file_read returns, a list of bytes. The loops over pages have as fuel one more than the
-- pages of the segment. The stack page is the list of the bytes from esp up to PHYS_BASE.
--
-- Virtual memory (G/A4/Pintos/src). Page faults bring the pages that the loader has noted into frames,
-- which come from a pool of pages; bitmaps say which pages of a pool, and which of the swap partition,
-- are free.
--   Memory/Bitmap       lib/kernel/bitmap.c; Memory/Scan    what its functions find and set
--   Memory/Pool         threads/palloc.c
--   Memory/Swap         vm/swap.c; Memory/Sectors, Memory/Slots, Memory/Fetch    the partition as a table
--   Memory/Paging       vm/frame.c, vm/sup_page.c, and load_page, grow_stack and page_fault of
--                       userprog/exception.c, for one process
--   Memory/View         what a process sees; Memory/Frames, Memory/FreeFrame    frames given and taken
--   Memory/Load, Memory/Fault    pages of the executable; Memory/Segment    the whole of a segment
--   Memory/Stack        faults outside the table
-- The loops over bits and sectors count down what is left. The page directory, malloc, the executable
-- and the block device are parameters (Platform and Block), with laws that say that a page stays mapped
-- as it was set and a sector as it was written (Maps, Keeps), that a read inside the file is complete
-- (Executable), and where it is assumed, that memory for page tables is there (NeverFull).
--
-- The simulator (G/A6/Top/src/main.c). FIFO, LFU, LRU, Clock and N_Chance are five copies of one loop
-- over the pages that a file asks for; they differ in their list of resident pages.
--   PageReplacement     the lists, the loop once, over a Policy (size, pop, add, touch), and FIFO, LFU
--                       and LRU as policies
--   PageReplacement/Clock    the ring of Clock and N_Chance
--   PageReplacement/Laws     what the loop needs of a policy
--   PageReplacement/Resident    the loop, over any policy that obeys the laws
--   PageReplacement/Fifo, PageReplacement/Recount, PageReplacement/Lfu, PageReplacement/Lru    the laws,
--                       policy by policy
--   PageReplacement/Recency, PageReplacement/LastUse    LRU and the order of the last uses
--   PageReplacement/Belady    LRU with more page frames
--   PageReplacement/NoEviction    Clock
-- An Option is none where C leaves the step undefined. list_push and list_insert do not set next of a new
-- node: the parameter zeroed says whether the memory that malloc gives reads as NULL, and a read of a
-- pointer that is not set is undefined without it. The values that fscanf stores in i, one for
-- each turn, are the input; pages and counts are natural numbers. N_Chance compares a bit with 1 - n,
-- so its bits are integers.
--
-- The search (G/A2/Top/src/main.c). The threads of runFast take blocks of 100 numbers from the shared
-- variable global under a mutex, and mark the primes among them.
--   PrimeSearch         isPrime, and runFast as the steps of one thread; an interleaving is the list of
--                       the thread ids in the order of their steps
--   PrimeSearch/Trial   isPrime; PrimeSearch/Fast, PrimeSearch/Interleave    runFast
--   PrimeSearch/Slow    runSlow, its threads one after another, as each writes to its own part
-- The square root of the C library is the parameter isqrt, with its documented value, rounded down,
-- as hypothesis. The loop of isPrime makes isqrt n - 1 rounds, one for each value up to the root.
-- counts has 50 entries; the field overrun says that a thread has written behind them. The locked section of
-- runFast is one step, the unlocked test of global another.
--
-- The user-level threads (G/A3/Top/src/myThread.c, include/queue.h, include/myThread.h).
--   ThreadQueue         qpush, qpop and getHead on the ring; ThreadQueue/Refine    the ring against a list
--   UserThreads         the scheduler and the operations on threads, locks and condition variables
--   UserThreads/Rotation, UserThreads/RoundRobin    the run queue under the scheduler
--   UserThreads/Attributes    the attributes of a thread
-- A longjmp is a value that says where control goes. The scheduler takes as fuel one for each time that
-- it passes over main; one is enough where the next thread is not main, or main joins no thread.
--
-- Not modelled: the stack frames and pages of thread_create, the file system, the page directory,
-- the set-up of the pools of pages, the exceptions but the page fault; cond_broadcast and the busy waits of timer.c; process_activate and the jump to user code; the options,
-- the printing and the plot of the simulator; the timer, the signal masks and the test programs of G/A3;
-- the time measurements of G/A2, the other prime searches (G/Top, G/A6/Top/src_b), and
-- the other copies of Pintos (G/A4/2018CS10362, UG/3).
-- Base has the shared lists, options, Boolean tests and their rules.
pub mod Base
pub mod KernelList
pub mod Threads
pub mod PageReplacement
pub mod PrimeSearch
pub mod Loader
pub mod Memory
pub mod Syscall
pub mod ThreadQueue
pub mod UserThreads
