-- ===== src/Threads.antt =====
-- threads/thread.c of 2021_1_OperatingSystem_2: kernel threads under the multi-level feedback queue
-- scheduler, over the linked lists of lib/kernel/list.c.
pub mod State
pub mod Queues
pub mod Ops
pub mod Schedule
pub mod Sleep
pub mod View
pub mod Next
pub mod Unblock
pub mod Wakeup
pub mod Lower
pub mod Lost
pub mod Ages
pub mod Switch
pub mod Yield
pub mod Synch
pub mod Semaphore
pub mod Locks
pub mod Acquire
pub mod Create
pub mod Frames
pub mod Identifier
pub mod Born
pub mod Spawn
