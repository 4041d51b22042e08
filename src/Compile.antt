-- ===== src/Compile.antt =====
-- `Compile` (compile.h): from the instruction list to the patched code.
pub mod Labels
pub mod Marks
pub mod Patches
pub mod Branches
pub mod Instr
pub mod Program
pub mod Fixups
pub mod Entries
pub mod Places
pub mod Loop
pub mod Begins
pub mod Starts
pub mod Resolve
pub mod Lands
pub mod Execute
pub mod Accepted
pub mod Typed
pub mod Succeeds
pub mod Decided
pub mod Tells
pub mod Total
pub mod Straight
pub mod Run
