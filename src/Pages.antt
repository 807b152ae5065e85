-- ===== src/Pages.antt =====
-- The page allocator (threads/palloc.c), over bitmaps and locks.
pub mod Ops
pub mod Take
pub mod Give
pub mod Ledger
pub mod Sound
pub mod Calls
pub mod History
pub mod Disjoint
pub mod Start
