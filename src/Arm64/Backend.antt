-- ===== src/Arm64/Backend.antt =====
-- `ARM64Backend` (jit_arm64_be.h): every `gen_*` function, in the source's order. A `uint32_t` is
-- the number of its bits, an `int` argument its 32-bit pattern.
mod Move
mod Memory
mod Arith
mod Branch
unfoldable pub use Move.*
unfoldable pub use Memory.*
unfoldable pub use Arith.*
unfoldable pub use Branch.*
