-- ===== src/Evm2/Types.antt =====
-- `EVM2::Op`, `Arg` and `Instruction` (evm2.h).
use temp_esas.Prelude.{ℕ, List}

pub data Op : Type 0 where
  mov load_const add sub div modulo mul compare jump jump_eq read write console_read console_write :
      Op
  create_thread join_thread hlt sleep call ret lock unlock unknown : Op

-- `Arg::Kind`.
pub data Kind : Type 0 where
  absent reg mem const addr : Kind

-- An `int64_t` constant is its 64-bit pattern.
pub record Arg : Type 0 where
  pub kind : Kind
  pub register : ℕ
  pub size_bytes : ℕ
  pub const_value : ℕ
  pub address : ℕ

-- The member initialisers of `Arg`.
abbrev pub default_arg : Arg
default_arg = record { kind = absent; register = 0; size_bytes = 0; const_value = 0; address = 0 }

pub record Instruction : Type 0 where
  pub opcode : Op
  pub bit_offset : ℕ
  pub args : List Arg
