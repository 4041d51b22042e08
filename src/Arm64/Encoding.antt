-- ===== src/Arm64/Encoding.antt =====
-- What every encoder of jit_arm64_be.h writes is decoded to the instruction that its comment names.
pub mod Sums
pub mod Arith
pub mod Memory
pub mod Branch
pub mod Forms
