-- ===== src/Board.antt =====
-- The sliding puzzle of 2018_2_ObjectOrientedProgramming (oopBoard.h and the input loop of main.cpp).
pub mod Ops
pub mod Hole
pub mod Slides
pub mod Games
pub mod Swaps
pub mod Rows
pub mod Parity
pub mod Scores
