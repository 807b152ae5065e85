-- ===== src/Strings.antt =====
-- lib/string.c of 2021_1_OperatingSystem_2: blocks of memory and strings that end with a zero byte.
pub mod Ops
pub mod Search
pub mod Tokens
pub mod Copy
pub mod Fill
pub mod Bounded
