-- ===== src/Tests.antt =====
-- Concrete inputs: the theorems at states that meet their hypotheses, and small runs.
mod Sample
mod Lists
mod Scheduler
mod Roads
mod Walks
mod Semaphores
mod Blocks
mod Games
mod Names
mod Yield
mod Bytes
mod Spawn
mod Bits
mod Pages
mod Sorting
mod Random
mod Division
