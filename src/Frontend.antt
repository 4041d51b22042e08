-- ===== src/Frontend.antt =====
-- The JIT front end (jit_arm64_fe.h): the growing vector of instruction words and what is emitted
-- into it.
pub mod Code
pub mod Emit
pub mod Patch
pub mod Finalize
pub mod Growth
pub mod Blocks
