-- ===== src/Lib.antt =====
-- A model of the kernel and of what its parts promise.
--
-- The kernel runs user programs on one processor with interrupts. Threads wait in the scheduler's
-- lists (sched/sched.c): a static queue of runnable threads, a static hash table of descheduled
-- ones, and a timed queue of sleepers. A context switch asks `sched_next` for the next thread. The
-- keyboard driver and readline pass characters through circular buffers, and print and the echo of
-- readline write to the console. Static queues and tables hold nodes that stand inside the thread's
-- control block, so that scheduling never allocates. User memory is made of frames that page tables
-- share between processes until one writes; a count tells how many entries hold a frame.
--
-- Which file models which part, with the functions under their names in the code:
--   CircBuf     kern/data_structure/circ_buf.c. A record of the storage and the indices; `CircBuf.Fifo`
--               is what it promises.
--   Queue       kern/data_structure/queue.c. Nodes at addresses of an explicit heap (`Queue.Heap`),
--               read and written by a monad in which a bad pointer is a fault; `Queue.Links` says
--               when a heap holds the queue of a list.
--   StQueue     kern/data_structure/st_queue.c, over the same heap.
--   TimedQueue  kern/data_structure/timed_queue.c, as the list of its nodes.
--   StHash      kern/data_structure/st_hash.c, its buckets as lists of entries.
--   Console     kern/console.c: the video memory byte by byte, the cursor, the port writes.
--   Sched       kern/sched/sched.c: the three lists and the moves between them. The runnable queue is
--               the data from its head on, in the order of StQueue.
--   Mutex       kern/lock/mutex.c, the change of threads in kern/context_switch/cs.c, and the timer's
--               switch in kern/driver/timer_driver.c: one mutex, as a step relation over Sched.
--   Cond        kern/lock/cond.c: condition variables over Mutex; the wait ends at its switch.
--   SchedCalls  kern/syscall/yield.c, deschedule.c, make_runnable.c and sleep.c, over Sched; the walk of
--               yield along the holders of mutexes.
--   Readline    kern/syscall/readline.c: fill_cons and the loop that copies a line, over CircBuf and
--               Console.
--   Hash        kern/data_structure/hash.c, the table that allocates; its buckets may be NULL.
--   Frame       kern/frame.c: the free frames, the counts of references of those in use, a Hash.
--   Pgtable     kern/vm/pgtable.c and kern/inc/pgtable.h: directories and tables at their addresses,
--               over Frame. Pgtable.View sees a directory as one table of entries. Pgtable.Walks and
--               Pgtable.Cleanup hold the loops.
--   VirtualMem  kern/vm/vm.c: copies of an address space, copy on write, the checks of user memory.
--   UserPages   kern/syscall/new_pages.c, kern/syscall/remove_pages.c, and the functions of kern/pcb.c
--               that track their allocations, over VirtualMem, Pgtable, Frame and Hash.
--   Loader      kern/loader.c: the saved arguments, the stack of a new program, and load_prog up to where
--               it makes the registers, over Pgtable.
--   Stacks      the stacks of user/libthread/thr_internals.c and thread.c, and their growth in
--               user/libautostack/autostack.c.
--   SpinLock    user/libthread/mutex.c: the thread library's mutex, as a step relation.
--   Semaphore   user/libthread/sem.c and cond.c: semaphores, as a step relation over their wake-ups.
--   RwLock      user/libthread/rwlock.c: the reader-writer lock over such semaphores, as a step relation.
--   Splay       user/libthread/splay_tree.c, the thread library's map from thread ids; the compare
--               function is an instance, Splay.Keys.
--   Base        shared names and lemmas. A Tests module holds each part's runs at concrete inputs.
--
-- Numbers: an `int` that cannot be negative is a natural number; where -1 is an answer it is an
-- integer; a `char` is its bit pattern, and console.c's use of a signed `char` as an `int` is written
-- out; hash keys, the ticks of sleep and the addresses of pgd_alloc_pages wrap at 32 bits. The counters of entries are taken not to reach 2 ^ 31.
--
-- Loops: those over linked nodes and over the circular buffer run on fuel. A queue's loop needs one
-- round for each node and one more; cb_find is given the buffer's length. The theorems on them
-- state that this much fuel gives the result. pgd_alloc_pages has one round for each page up to the
-- last and one more, which is enough where its address does not wrap; where it does, the loop has no
-- end but a failure. The loops of vm_mem_region_check, check_and_delete_pt and
-- frame_kern_init have one round for each page that they can reach, and stop as the code does. The walk
-- of yield along holders takes its fuel as an argument, since a cycle of holders has no end. All other
-- loops are recursion on lists, on trees or on the rounds that are left.
--
-- Bad writes of loader.c, outside of the array of save_argvec and past the page for the arguments, are
-- `none`, like fuel that is used up.
--
-- Memory of the kernel: smemalign's answers are a list that the state holds, memory that calloc does
-- not get is an argument, and the pages that sfree is given are a log. USER_MEM_START and
-- LAST_PAGE_ADDR are arguments. The mutexes frm_mp and frm_ref_mp and the locks of the tables are not
-- steps of their own: a call that holds them is one step.
--
-- Taken as given: the addresses that calloc answers are arguments; the screen's size, the default
-- color and the ports of x86/video_defines.h are the parameter `Video` of Console; the addresses of
-- threads and their ids are parameters of Sched. Interrupts are off in each function of sched.c, so
-- that each is one step; outb_mp of console.c is not modelled.
--
-- A switch inside a function ends a step: mutex_lock is one step up to its switch and one more once
-- its thread runs again. The step relation of Mutex keeps the scheduler's own thread from locking,
-- for which mutex_lock does not exclude others: Mutex.Tests has a run that shows it.
--
-- Not modelled: destructors, which only free; traversals of the static hash table; the contents of
-- frames, the control registers and vm_mem_array_check of kern/vm/vm.c; the processes and their life
-- cycle (kern/pcb.c, kern/tcb.c, fork, exec, wait, vanish); the other system calls and drivers; the
-- user library's cond_broadcast, rwlock_destroy and thread calls.
pub mod Base
pub mod CircBuf
pub mod Queue
pub mod StQueue
pub mod Console
pub mod TimedQueue
pub mod StHash
pub mod Sched
pub mod Mutex
pub mod Cond
pub mod SchedCalls
pub mod Readline
pub mod Splay
pub mod Hash
pub mod Frame
pub mod Pgtable
pub mod VirtualMem
pub mod UserPages
pub mod Loader
pub mod Stacks
pub mod SpinLock
pub mod Semaphore
pub mod RwLock
