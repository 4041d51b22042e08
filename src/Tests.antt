-- ===== src/Tests.antt =====
-- Small programs and files on which the theorems are applied.
pub mod Encodings
pub mod Blocks
pub mod Patches
pub mod Runs
pub mod Programs
pub mod Labels
pub mod Memory
pub mod Payload
pub mod Threads
use temp_esas.Prelude.{
  ℕ, ◌+◌, ◌^◌, ◌<◌, ◌≡◌, ◌≤◌, ◌↔◌, refl, arith, List, [], ◌∷◌, ◌++◌, some, none, length, replicate,
}
use temp_esas.Evm2.Types.{Op, Instruction}
use temp_esas.Evm2.BitReader.{BitReader, read_bits_le, advance}
use temp_esas.Evm2.Disassembler.{read_instruction, disassemble_code}
use temp_esas.Evm2.Progress.{disassemble_code-total}
use temp_esas.Evm2.Image.{
  Image, ok, overrun, magic_number, read_header, copy_to_front, load_data, load_sections,
  load_image, disassembler, header_size,
}
use temp_esas.Evm2.Sections.{IsOversized, load_image-overrun_iff, load_image-sizes}
use temp_esas.Evm2.Stream.Reads.{Sees, read_bits_le-le_bits}
use temp_esas.Assembler.Encode.{
  direct, dword, AsmInstr, register, constant, label, format_rev, assemble_register, assemble_args,
  assemble_instr,
}
use temp_esas.Assembler.Instr.{lower_instr, read_instruction-assemble_instr}
use temp_esas.Assembler.Padding.{read_instruction-padding}
use temp_esas.Assembler.Program.{
  assemble_program, AreWellFormed, code_bytes, lower_program, disassemble_code-code_bytes,
}
use temp_esas.Assembler.Program.Bytes.{pad_bits, pack_bytes}
use temp_esas.Assembler.File.{build_file, built_image, disassembler-build_file}

-- `loadConst 0x1122, r3`, `add r3, r1, dword[r15]`, `jumpEqual start, r1, r15` and `hlt`.
abbrev load_1122 : AsmInstr
load_1122 = record { opcode = Op.load_const; args = constant 0x1122 ∷ register 3 direct ∷ [] }

abbrev program : List AsmInstr
program =
    load_1122
    ∷ record {
      opcode = Op.add;
      args = register 3 direct ∷ register 1 direct ∷ register 15 dword ∷ [];
    }
    ∷ record { opcode = Op.jump_eq; args = label 0 ∷ register 1 direct ∷ register 15 direct ∷ [] }
    ∷ record { opcode = Op.hlt; args = [] }
    ∷ []

-- The one label is the second instruction.
abbrev address : ℕ → ℕ
address l = 72

abbrev stream : List ℕ → BitReader
stream bytes = record { bytes = bytes; pos = 0 }

program-AreWellFormed : AreWellFormed address program
program-AreWellFormed = (
  (refl, (omega arith, (omega arith, tt))),
  (
    (refl, (omega arith, (omega arith, (omega arith, tt)))),
    ((refl, (omega arith, (omega arith, (omega arith, tt)))), ((refl, tt), tt)),
  ),
)

disassemble_code-code_bytes_example :
    disassemble_code (code_bytes address program) ≡ some (lower_program address 0 program)
disassemble_code-code_bytes_example =
    disassemble_code-code_bytes address program program-AreWellFormed

code_bytes-short : length (code_bytes address program) < 2 ^ 32
unfolding code_bytes assemble_program assemble_instr pack_bytes pad_bits assemble_args format_rev
    assemble_register
code_bytes-short = omega arith

disassembler-build_file_example :
    disassembler (build_file (code_bytes address program) 16 (7 ∷ 8 ∷ []))
    ≡ ok (
      built_image (code_bytes address program) 16 (7 ∷ 8 ∷ []),
      some (lower_program address 0 program),
    )
disassembler-build_file_example =
    disassembler-build_file address program 16 (7 ∷ 8 ∷ []) program-AreWellFormed code_bytes-short
      (omega arith) (omega arith)

-- The bytes of `hlt` and `ret`, and half an instruction behind them.
abbrev cut_code : List ℕ
cut_code = 0xB6 ∷ 0x80 ∷ []

disassemble_code-total_example :
    (result : List Instruction) × (disassemble_code cut_code ≡ some result)
disassemble_code-total_example = disassemble_code-total cut_code

-- `loadConst 0x1122, r3` at the front of a stream, and eight bits behind it.
abbrev load_bytes : List ℕ
load_bytes = code_bytes address (load_1122 ∷ []) ++ 0xFF ∷ []

read_instruction-assemble_instr_example :
    (read_instruction (stream load_bytes)
      ≡ some (
        lower_instr address 0 load_1122,
        advance (length (assemble_instr address load_1122)) (stream load_bytes),
      ))
    × Sees (advance (length (assemble_instr address load_1122)) (stream load_bytes)) (replicate 8 1)
unfolding code_bytes assemble_program assemble_instr pack_bytes pad_bits assemble_args format_rev
    assemble_register
read_instruction-assemble_instr_example =
    read_instruction-assemble_instr address load_1122 (stream load_bytes) (replicate 8 1)
      (refl, (omega arith, (omega arith, tt))) (record { ahead = refl; left = refl })

read_instruction-padding_example : read_instruction (advance 3 (stream (0 ∷ []))) ≡ none
read_instruction-padding_example =
    read_instruction-padding 5 (advance 3 (stream (0 ∷ []))) (omega arith)
      (record { ahead = refl; left = refl })

-- One byte of initial data for a memory of none.
abbrev oversized_file : List ℕ
oversized_file = magic_number ++ 0 ∷ 0 ∷ 0 ∷ 0 ∷ 0 ∷ 0 ∷ 0 ∷ 0 ∷ 1 ∷ 0 ∷ 0 ∷ 0 ∷ 0xAA ∷ []

load_image-overrun_iff_example : (load_image oversized_file ≡ overrun) ↔ IsOversized oversized_file
load_image-overrun_iff_example = load_image-overrun_iff oversized_file

-- `hlt`, four bytes of memory and one of them set.
abbrev small_file : List ℕ
small_file = magic_number ++ 1 ∷ 0 ∷ 0 ∷ 0 ∷ 4 ∷ 0 ∷ 0 ∷ 0 ∷ 1 ∷ 0 ∷ 0 ∷ 0 ∷ 0xB0 ∷ 0xAA ∷ []

abbrev small_image : Image
small_image = record {
  header = read_header small_file;
  code = 0xB0 ∷ [];
  memory = 0xAA ∷ 0 ∷ 0 ∷ 0 ∷ [];
}

small_file-loads : load_image small_file ≡ ok small_image
unfolding load_image load_sections load_data copy_to_front read_header
small_file-loads = refl

load_image-sizes_example :
    (length small_image.code ≡ small_image.header.code_size)
    × (length small_image.memory ≡ small_image.header.data_size)
    × (small_image.header.initial_data_size ≤ small_image.header.data_size)
    × (length small_file
        ≡ header_size + small_image.header.code_size + small_image.header.initial_data_size)
load_image-sizes_example = load_image-sizes small_file small_image small_file-loads
