-- ===== src/Intq.antt =====
-- Interrupt queues (devices/intq.c), over the threads, semaphores and locks of the kernel.
pub mod Ops
pub mod Ring
pub mod Refine
pub mod Wait
pub mod Wakeup
