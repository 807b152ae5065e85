-- ===== src/Bitmap.antt =====
-- Bitmaps (lib/kernel/bitmap.c).
pub mod Ops
pub mod Bit
pub mod Range
pub mod Scan
pub mod Create
