-- ===== src/Assembler.antt =====
-- The assembler of the repository (res/compiler.py): how `Assembler` writes an instruction.
pub mod Encode
pub mod Mnemonics
pub mod Typing
pub mod Operands
pub mod Instr
pub mod Padding
pub mod Program
pub mod File
pub mod Build
