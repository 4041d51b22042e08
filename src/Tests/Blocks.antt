-- ===== src/Tests/Blocks.antt =====
-- Emitted code on a small machine.
use temp_esas.Prelude.{ℕ, ◌+◌, ◌≡◌, refl, arith, List, [], ◌∷◌, ◌++◌, none, some}
use temp_esas.Evm2.Types.{Op, Arg, Instruction}
use temp_esas.Evm2.BitReader.{BitReader, read_bit, read_bits_le, read_le_loop, advance}
use temp_esas.Evm2.Disassembler.{reg_arg, mem_arg, const_arg, read_data_arg}
use temp_esas.Frontend.Blocks.{Gives}
use temp_esas.Machine.{State, run}
use temp_esas.Machine.Operand.{IsOperand}
use temp_esas.Compile.Instr.{Interface, compile_op}
use temp_esas.Compile.Labels.{find_label}
use temp_esas.Compile.Program.{Compiler, compile_all}
use temp_esas.Compile.Execute.{
  execute, mov_computes, load_const_computes, modulo_computes, compare_computes, compile_op-execute,
}
use temp_esas.Compile.Straight.{execute_all, compile_all-execute}
use temp_esas.Compile.Accepted.{read_data_arg-IsOperand}

-- Register n holds n + 7, and every byte of memory is 9.
abbrev pub start : State
start = record {
  x = λ n. 0;
  compared = (0, 0);
  guest = record { slots = λ n. n + 7; memory = λ a. 9 };
}

abbrev pub host : Interface
host = record {
  print_value = 0x1000;
  read_value = 0x1010;
  terminate = 0x1020;
  thread_create = 0x1030;
  thread_join = 0x1040;
  thread_sleep = 0x1050;
  thread_lock = 0x1060;
  thread_unlock = 0x1070;
  file_read = 0x1080;
  file_write = 0x1090;
}

-- The parts 0x5678, 0, 0x1234 and 0.
abbrev sparse : ℕ
sparse = 0x123400005678

abbrev remainder_args : List Arg
remainder_args = mem_arg 4 1 ∷ reg_arg 2 ∷ mem_arg 8 3 ∷ []

compile_op-execute_example :
    (s' : State) × (s'.guest ≡ execute Op.modulo remainder_args start.guest)
    × Gives (compile_op host Op.modulo remainder_args) none start s'
compile_op-execute_example = compile_op-execute host Op.modulo remainder_args start (
    modulo_computes (mem_arg 4 1) (reg_arg 2) (mem_arg 8 3) (omega arith, (2, omega arith, refl))
      (omega arith) (omega arith, (3, omega arith, refl)))

-- `loadConst 0x123400005678, r1`, `compare r1, r2, r3` and `mov r3, word[r4]`.
abbrev straight : List Instruction
straight =
    record { opcode = Op.load_const; bit_offset = 0; args = const_arg sparse ∷ reg_arg 1 ∷ [] }
    ∷ record { opcode = Op.compare; bit_offset = 72; args = reg_arg 1 ∷ reg_arg 2 ∷ reg_arg 3 ∷ [] }
    ∷ record { opcode = Op.mov; bit_offset = 92; args = reg_arg 3 ∷ mem_arg 2 4 ∷ [] }
    ∷ []

abbrev empty : Compiler
empty = record { code = []; mapping = []; fixups = [] }

compile_all-execute_example :
    (c' : Compiler) × (words : List ℕ) × (s' : State) × (compile_all host [] straight empty
      ≡ some c')
    × (c'.code ≡ [] ++ words)
    × (c'.fixups ≡ [])
    × (run words start ≡ some s')
    × (s'.guest ≡ execute_all straight start.guest)
unfolding find_label
compile_all-execute_example = compile_all-execute host [] straight empty start (
  load_const_computes (const_arg sparse) (reg_arg 1) refl (omega arith) refl (omega arith),
  refl,
  (
    compare_computes (reg_arg 1) (reg_arg 2) (reg_arg 3) (omega arith) (omega arith) (omega arith)
        refl,
    refl,
    (
      mov_computes (reg_arg 3) (mem_arg 2 4) (omega arith) (omega arith, (1, omega arith, refl)),
      refl,
      tt,
    ),
  ),
)

-- The bits of `word[r5]`.
abbrev memory_bits : BitReader
memory_bits = record { bytes = 0xD4 ∷ []; pos = 0 }

memory_bits-read : read_data_arg memory_bits ≡ some (mem_arg 2 5, advance 7 memory_bits)
unfolding read_data_arg read_bit read_bits_le read_le_loop
memory_bits-read = refl

read_data_arg-IsOperand_example : IsOperand (mem_arg 2 5)
read_data_arg-IsOperand_example =
    read_data_arg-IsOperand memory_bits (advance 7 memory_bits) (mem_arg 2 5) memory_bits-read
