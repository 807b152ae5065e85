-- ===== src/Relatives.antt =====
-- The family tree of 2018_1_DataStructure (node.h, stack.h, main.c).
pub mod Ops
pub mod Find
pub mod Print
pub mod Relation
pub mod Attach
pub mod Input
pub mod Faults
