-- ===== src/Thread.antt =====
-- thread.h, with the calls of main.cpp that use it: guest threads, their registry, and their locks.
pub mod State
pub mod Calls
pub mod Step
pub mod Invariant
pub mod Safety
pub mod Outcomes
pub mod Joins
pub mod Timeout
