-- ===== src/Tests/Labels.antt =====
-- A program with a label that is known when it is used and one that is not.
use temp_esas.Prelude.{ℕ, ◌^◌, ◌<◌, ◌≡◌, arith, List, [], ◌∷◌, ◌++◌, some, length}
use temp_esas.Evm2.Types.{Op}
use temp_esas.Assembler.Encode.{AsmInstr, register, label, direct, format_rev, assemble_register}
use temp_esas.Assembler.Program.{assemble_program}
use temp_esas.Assembler.Build.{build_args, build_instr, build_code, build_bits, assemble_label}
use temp_esas.Assembler.Build.Addresses.{addresses, build_bits-assemble_program}

-- `mov r1, r2`, then a jump to the last instruction, which jumps back.
abbrev first : List AsmInstr
first = record { opcode = Op.mov; args = register 1 direct ∷ register 2 direct ∷ [] } ∷ []

abbrev forwards : AsmInstr
forwards = record { opcode = Op.jump; args = label 2 ∷ [] }

abbrev backwards : List AsmInstr
backwards = record { opcode = Op.jump; args = label 1 ∷ [] } ∷ []

addresses-small : (l : ℕ) → addresses (first ++ forwards ∷ backwards) l < 2 ^ 32
unfolding addresses build_code build_instr build_args assemble_label format_rev assemble_register
addresses-small l = ground arith

build_bits-assemble_program_example :
    (build_bits (first ++ forwards ∷ backwards)
      ≡ some (
          assemble_program
            (addresses (first ++ forwards ∷ backwards))
            (first ++ forwards ∷ backwards)))
    × (addresses (first ++ forwards ∷ backwards) (length first)
        ≡ length (assemble_program (addresses (first ++ forwards ∷ backwards)) first))
build_bits-assemble_program_example =
    build_bits-assemble_program first forwards backwards addresses-small
      ((tt, (tt, tt)), ((omega arith, tt), ((omega arith, tt), tt)))
