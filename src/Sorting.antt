-- ===== src/Sorting.antt =====
-- lib/stdlib.c: the heap sort and the binary search of the kernel's C library.
pub mod Ops
pub mod Heap
pub mod Swap
pub mod Rearranged
pub mod Heapify
pub mod Sort
pub mod Halves
pub mod Search
