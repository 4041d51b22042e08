-- ===== src/Evm2/Stream.antt =====
-- The bits that a `BitReader` still has in front of it, as a list: each byte from its top bit.
pub mod Bits
pub mod Reads
