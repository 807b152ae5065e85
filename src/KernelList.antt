-- ===== src/KernelList.antt =====
-- lib/kernel/list.c of Pintos (2021_1_OperatingSystem_2): doubly linked lists with two header
-- elements, over a memory of `struct list_elem`s.
pub mod Memory
pub mod Ops
pub mod Segment
pub mod Lists
pub mod Insert
pub mod Remove
pub mod Step
pub mod Family
pub mod Walk
pub mod Size
pub mod Ordered
pub mod Maximum
