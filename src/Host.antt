-- ===== src/Host.antt =====
-- main.cpp: the process that the compiled program runs in, and what it offers to the program.
pub mod Guard
pub mod Files
pub mod Slices
pub mod Transfer
pub mod Payloads
pub mod JitThread
pub mod Main
