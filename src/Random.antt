-- ===== src/Random.antt =====
-- lib/random.c: the pseudo-random number generator of the kernel's C library.
pub mod Ops
pub mod Shuffled
pub mod Stream
