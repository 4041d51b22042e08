-- ===== src/Evm2.antt =====
-- The disassembler of EVM2 images (evm2.h).
pub mod Types
pub mod Names
pub mod BitReader
pub mod Stream
pub mod Opcode
pub mod Prefix
pub mod Disassembler
pub mod Progress
pub mod Image
pub mod Sections
