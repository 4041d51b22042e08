-- ===== src/Arm64.antt =====
-- The ARM64 back end (jit_arm64_be.h) and the instruction set that it writes for.
pub mod Word
pub mod Backend
pub mod Isa
pub mod Encoding
