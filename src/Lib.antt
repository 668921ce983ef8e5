-- ===== src/Lib.antt =====
-- The threads kernel of Pintos, as this repository extends it with a priority scheduler, priority
-- donation, a 4.4BSD-like scheduler and a sleep list.
--
-- The program's parts. threads/thread.c keeps the threads, the ready queue and the current thread, and
-- switches between threads. threads/synch.c builds semaphores on thread_block and thread_unblock, locks
-- on semaphores, and condition variables on locks; a thread that waits for a lock donates its priority
-- to the holder. devices/timer.c counts ticks in an external interrupt, wakes sleepers and renews the
-- numbers of the feedback queue scheduler. threads/interrupt.c keeps the interrupt level and the frame
-- round a handler. devices/intq.c is the byte queue between interrupt handlers and threads. They share
-- one machine state, and every operation that touches it turns interrupts off. threads/palloc.c
-- hands out pages, also those of threads, from two pools with a bitmap each. The file system in
-- filesys/ is built in layers: directory.c keeps names in files, file.c keeps positions in inodes,
-- inode.c spreads the bytes of a file over the sectors that devices/block.c reads and writes, and
-- free-map.c hands out sectors from a bitmap that is itself kept in a file.
--
-- The files, with the code below pintos/src that each models:
--   Kernel      the shared state: struct thread, semaphore, donate_elem, foo, and the static
--               variables of threads/thread.c, threads/synch.c and devices/timer.c
--   KernelList  lib/kernel/list.c: list_insert_ordered, list_min, list_max, over sequences
--   LinkedList  lib/kernel/list.c: the links of the lists, and the sequences that they represent
--   Interrupt   threads/interrupt.c: intr_enable, intr_disable, intr_set_level, intr_context,
--               intr_yield_on_return, intr_handler for an external interrupt
--   Sched       threads/thread.c: thread_current, schedule, thread_block, thread_unblock,
--               thread_yield, thread_exit, thread_tick, thread_foreach
--   Lifecycle   threads/thread.c: init_thread, thread_create, thread_init
--   Donation    threads/synch.c and thread.c: donate_priority_update, the loops of lock_acquire and
--               lock_release, thread_set_priority
--   Semaphore, Lock, Condition   threads/synch.c
--   FixedPoint  threads/fixed-point.h
--   Mlfqs       threads/thread.c: the formulas of the feedback queue scheduler
--   Timer       devices/timer.c
--   Intq        devices/intq.c
--   Bitmap      lib/kernel/bitmap.c
--   Palloc      threads/palloc.c: the pools of pages, on the bitmaps
--   Malloc      threads/malloc.c: blocks of memory, on the pools
--   PageDirectory   userprog/pagedir.c and threads/pte.h: page directories in that memory
--   Hash        lib/kernel/hash.c
--   Text        lib/string.c
--   Stdlib      lib/stdlib.c
--   Arithmetic  lib/arithmetic.c
--   Random      lib/random.c
--   Ustar       lib/ustar.c: the headers of archives
--   Block       devices/block.c: reading and writing sectors, and the roles
--   Inode       filesys/inode.c: reading and writing the bytes of an inode
--   FileSystem  filesys/: the state that is shared, and the reads and writes of file.c
--   FileSystem.FreeMap, InodeTable, OpenFile, Directory, Names   filesys/free-map.c and the file
--               functions of lib/kernel/bitmap.c, the rest of inode.c, of file.c, directory.c, and
--               filesys.c
-- Base and Base.Int hold what these share: Boolean tests, lists, options and integers.
--
-- State and operations. An operation is a function from the kernel's state to an Option of the next
-- one; none is a failed ASSERT, which halts the machine. Threads, semaphores, locks and condition
-- variables are named by address, and the state maps an address to what is stored there; an intrusive
-- list is the list of its elements' addresses. A switch is where a function stops: it returns the state
-- in which the next thread goes on, and what the caller does once it is scheduled again is the start of
-- another operation (lock_acquire_resume, sema_down_round). Interleavings are sequences of such steps
-- (Lock.Mutex.Reach). The file system's operations go from its own state to an Option of a result and
-- the next state; inodes in memory are named by address, and an open file or directory belongs to one
-- caller and is a value. What malloc and calloc return is an argument: a Boolean where the memory is
-- only a buffer, the address or the contents where those matter. A hash table is a value too; its hash
-- and comparison functions are fields, as in the source, and the theorems name what they assume of
-- them. Memory for the string functions is a function from the address to the byte, and a string the
-- sequence of its characters before the null byte.
--
-- Bounds and fuel. `unsigned` counters wrap at 2^32 where they are computed; the 64-bit tick count
-- does not wrap. The fixed-point numbers are `int`s whose overflow wraps too, as it does in the -O0
-- build of the repository. Priorities are from 0 to 63; file sizes and offsets are not negative. These
-- loops are on fuel. The walk of lock_acquire along the holders: where waiting is not circular, a rank that
-- falls from each waiter to its holder bounds it, and two rounds above the rank of the first holder
-- are enough. The loops of list_size and list_reverse: for list_size fuel above the number of elements
-- is enough. The loops of inode_read_at and inode_write_at take at least a byte in each round, so one
-- round more than the size is enough. The searches of a directory take a round for each whole entry
-- and one past the end. In rehash the number of buckets falls with each round. A binary search takes
-- at most a round for each element; heapify goes down a heap, a round for each element at most.
--
-- Not modelled: the machine's registers and the assembly of switch_threads, the caches of the page
-- tables, the interrupt controller, the disks and the other devices; user programs and formatted
-- output; of list.c the sorting and list_unique. In the timer, calibration and busy waiting are left
-- out, in the page and block allocators the calls on the locks, of the block layer the list of devices
-- and the partitions. The file system has no locks of its own, and its callers are taken one at a
-- time.
pub mod Base
pub mod Arithmetic
pub mod Bitmap
pub mod Block
pub mod Condition
pub mod Donation
pub mod FileSystem
pub mod FixedPoint
pub mod Hash
pub mod Inode
pub mod Interrupt
pub mod Intq
pub mod Kernel
pub mod KernelList
pub mod Lifecycle
pub mod LinkedList
pub mod Lock
pub mod Malloc
pub mod Mlfqs
pub mod PageDirectory
pub mod Palloc
pub mod Random
pub mod Sched
pub mod Semaphore
pub mod Stdlib
pub mod Text
pub mod Timer
pub mod Ustar
