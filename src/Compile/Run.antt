-- ===== src/Compile/Run.antt =====
-- Whole programs: what a program means, and that what `Compile` (compile.h) makes of it does that on
-- the processor.
pub mod Control
pub mod Final
pub mod Words
pub mod Block
pub mod Service
pub mod Meaning
pub mod Targets
pub mod Layout
pub mod Leading
pub mod Creates
pub mod Entered
pub mod Matching
pub mod Straights
pub mod Transfers
pub mod Returns
pub mod Starting
pub mod Simulates
pub mod Halts
