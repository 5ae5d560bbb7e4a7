-- ===== src/Std.antt =====
-- The parts of Go's standard library that the program computes with.
pub mod Strconv
pub mod Ip
pub mod Heap
pub mod Channel
