-- ===== src/Tests/Memory.antt =====
-- Executable memory, names, the process, and an instruction that the compiler does not take.
use Prim.Native.String.{String}
use temp_esas.Prelude.{ℕ, ◌≡◌, ◌≢◌, refl, arith, List, [], ◌∷◌, some, true, false, Option, ◌↔◌, ◌⊎◌}
use temp_esas.Evm2.Types.{Op, Instruction}
use temp_esas.Evm2.Names.{op_to_string}
use temp_esas.Evm2.Opcode.{find_op, opcode_table, read_opcode, read_opcode_loop}
use temp_esas.Evm2.BitReader.{BitReader, read_bit, read_bits_le, read_le_loop, advance}
use temp_esas.Evm2.Disassembler.{
  mem_arg, read_data_arg, read_operands, finish_instruction, read_instruction,
}
use temp_esas.Compile.Decided.{Decided, read_instruction-Decided}
use temp_esas.Tests.Blocks.{host}
use temp_esas.Frontend.Finalize.{System, Region}
use temp_esas.Host.Guard.{accessible_size, finished, killed, exited_normally}
use temp_esas.Host.Main.{Child, Loaded, guest_end, reports, aborts, main, main-exited_normally_iff}
use temp_esas.Assembler.Encode.{op_code, arg_types}
use temp_esas.Assembler.Mnemonics.{opcodes, find_opcode, op_to_string-find_opcode}

-- Pages of 16384 bytes; a region is put at 0x20000, and may be made executable.
abbrev system : System
system = record { page_size = 16384; mmap = λ n. some 0x20000; mprotect = λ a n. true }

abbrev words : List ℕ
words = 0xD503201F ∷ 0xD65F03C0 ∷ []

abbrev heap : List Region
heap = record { address = 0x10000; size = 16384; bytes = λ a. 0; executable = true } ∷ []

known : Op.jump_eq ≢ Op.unknown
known e = ground (arith, e)

op_to_string-find_opcode_example :
    (find_opcode (op_to_string Op.jump_eq) opcodes
      ≡ some (op_code Op.jump_eq, arg_types Op.jump_eq))
    × (find_op (op_code Op.jump_eq) opcode_table ≡ some Op.jump_eq)
op_to_string-find_opcode_example = op_to_string-find_opcode Op.jump_eq known

-- The bits of `consoleRead word[r5]`.
abbrev read_into_memory : BitReader
read_into_memory = record { bytes = 0x96 ∷ 0xA0 ∷ []; pos = 0 }

abbrev into_memory : Instruction
into_memory = record { opcode = Op.console_read; bit_offset = 0; args = mem_arg 2 5 ∷ [] }

into_memory-read :
    read_instruction read_into_memory ≡ some (into_memory, advance 12 read_into_memory)
unfolding read_instruction finish_instruction read_operands read_opcode read_opcode_loop
    read_data_arg read_bit read_bits_le read_le_loop
into_memory-read = refl

read_instruction-Decided_example : Decided host Op.console_read (mem_arg 2 5 ∷ [])
read_instruction-Decided_example =
    read_instruction-Decided host read_into_memory (advance 12 read_into_memory) into_memory
      into_memory-read

-- A program without a payload, in a child process that runs to its end.
abbrev child : Child
child = record { page_size = 16384; opens = λ n. true; run_test = λ payload n memory. finished }

abbrev image : Loaded
image = record { data_size = 4; initial = 1 ∷ 2 ∷ [] }

abbrev load_file : String → Option Loaded
load_file name = some image

abbrev argv : List String
argv = "vm" ∷ "crc.evm" ∷ []

main-exited_normally_iff_example :
    ((main load_file true child argv ≡ reports exited_normally) ↔ (
      (true ≡ false)
      ⊎ ((child.opens (accessible_size child.page_size image.data_size) ≡ true)
          × (guest_end child image "" ≡ finished))))
    × ((main load_file true child argv ≡ aborts) ↔ (
        (true ≡ true)
        × ((child.opens (accessible_size child.page_size image.data_size) ≡ false)
            ⊎ (guest_end child image "" ≡ killed))))
main-exited_normally_iff_example =
    main-exited_normally_iff load_file child argv "crc.evm" "" image refl refl true
