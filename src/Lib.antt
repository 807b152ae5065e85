-- ===== src/Lib.antt =====
-- A verification library for the C programs of CAU_Assignments.
--
-- The Pintos kernel of 2021_1_OperatingSystem_2 with its multi-level feedback queue scheduler:
--
-- * KernelList models lib/kernel/list.c. The links of all list elements are one memory, a function
--   from addresses; a `struct list *` is the address of its head. Each C function is a command
--   that passes the memory along, and a failed ASSERT is a panic. KernelList.Ops holds the
--   functions that relink, KernelList.Walk those that walk along a list; their siblings prove what
--   they do to the sequence of elements that a list stands for.
-- * Threads models threads/thread.c with the parts of threads/interrupt.c and devices/timer.c that
--   it calls. Threads.State holds `struct thread` and the static variables, Threads.Queues,
--   Threads.Schedule and Threads.Sleep the functions; they call the functions of KernelList on the
--   same memory. A command ends where `switch_threads` hands the processor to the next thread.
--   Loops over a list run on fuel; one more round than the list has elements is enough.
-- * Threads.Synch models threads/synch.c over these: semaphores, locks and condition variables by
--   address. A call that has to wait ends, like thread_block, at the switch to another thread.
--   Threads.Semaphore, Threads.Locks and Threads.Acquire prove what the operations do.
--   Threads.Create has thread_init and thread_create over a memory of stack words; the page that
--   palloc_get_page returns and the addresses of code are parameters. Threads.Born, Threads.Frames,
--   Threads.Identifier and Threads.Spawn follow a new thread until it is ready;
--   Threads.Ages, Threads.Yield and Threads.Switch prove what a thread that gives way does.
-- * Intq models devices/intq.c over these: Intq.Ops the functions, Intq.Ring the circular buffer as a
--   sequence of bytes, Intq.Refine the bounded queue it implements, Intq.Wait and Intq.Wakeup the
--   thread that waits for a byte.
-- * Bitmap models lib/kernel/bitmap.c on words of 32 bits: Bitmap.Ops the functions, Bitmap.Bit a
--   bitmap as a set of numbers, Bitmap.Range and Bitmap.Scan the functions on ranges, Bitmap.Create
--   a new bitmap; Base.Bits has the laws of the bit operations.
-- * Pages models threads/palloc.c over bitmaps, locks and memset: Pages.Ops the functions,
--   Pages.Take, Pages.Give and Pages.Calls one call, Pages.Ledger and Pages.Sound the blocks that are handed out
--   and how they agree with the bitmaps, Pages.History and Pages.Disjoint the histories of calls,
--   Pages.Start palloc_init. The words that stood where a bitmap is put are a parameter.
-- * Strings models lib/string.c on a memory of bytes: Strings.Ops the blocks and strings,
--   Strings.Search and Strings.Tokens the functions that look for characters, Strings.Copy, Strings.Fill
--   and Strings.Bounded the theorems. A loop to the end of a string runs on fuel, enough
--   if it is more than the length.
-- * Sorting models lib/stdlib.c on the same memory: Sorting.Ops the heap sort and the binary search, with
--   the comparison as a parameter, Sorting.Heap heaps of numbers, Sorting.Swap and Sorting.Rearranged
--   the bytes, Sorting.Heapify, Sorting.Sort, Sorting.Halves and Sorting.Search the loops. They run on fuel; one more
--   round than the array has elements is enough.
-- * Random models lib/random.c: Random.Ops the functions, Random.Shuffled the table as a permutation,
--   Random.Stream the bytes as one stream.
-- * Division models lib/arithmetic.c: Division.Ops the routines, with a trap as none, Division.Small
--   and Division.Large the two cases of the divisor, Division.Shift the shifted divisor, Division.Quotient
--   the results.
--
-- The crossroads of 2021_1_OperatingSystem_1 (projects/crossroads):
--
-- * Crossroads.Map has the table vehicle_path and the zones of the map. Crossroads.Vehicle cuts
--   vehicle_loop and try_move (vehicle.c) and the loops of map.c that change vehicles into steps,
--   each with at most one operation on a map lock or on the semaphore, and what it does to a vehicle
--   under the lock of that vehicle, which some phases keep to the next step; a run (Crossroads.Runs)
--   is any sequence of such events. Crossroads.Valid is the invariant, Start, Lock, Move and Safe
--   prove that the steps keep it, and Drives draws the conclusions for the initial state.
--
-- The sliding puzzle of 2018_2_ObjectOrientedProgramming:
--
-- * Board.Ops has the class Board of oopBoard.h and the arrow keys of main.cpp. The results of rand
--   are a parameter. Board.Hole and Board.Slides describe one slide, Board.Games the boards that keys and
--   shuffles reach, Board.Swaps, Board.Rows and Board.Parity the arrangements, Board.Scores the end.
--
-- The family tree of 2018_1_DataStructure:
--
-- * Relatives.Ops has node.h, stack.h and the loop of main.c. Whether a call of realloc moves the
--   block is a parameter; malloc and realloc are taken to succeed. The siblings prove what findNode
--   and printRelation do, and which inputs the program does not handle.
--
-- Tests holds concrete inputs.
--
-- Integers are bit patterns of their C width, compared as signed numbers where the C code does.
-- printf is left out, as are thread_start and the idle thread. Calls of palloc_free_page are recorded. Code of other directories is not
-- modelled, as are other devices, user programs and the file system.
pub mod Base
pub mod KernelList
pub mod Threads
pub mod Crossroads
pub mod Strings
pub mod Board
pub mod Relatives
pub mod Intq
pub mod Bitmap
pub mod Pages
pub mod Sorting
pub mod Random
pub mod Division
mod Tests
