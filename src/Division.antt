-- ===== src/Division.antt =====
-- lib/arithmetic.c: the division of 64-bit integers, which the processor does not have.
pub mod Ops
pub mod Small
pub mod Large
pub mod Shift
pub mod Quotient
