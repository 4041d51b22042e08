-- ===== src/Assembler/Instr.antt =====
-- One instruction, read back at any place of a stream.
use mathlib.Core.List.{append_assoc}
use temp_esas.Prelude.{
  ℕ, ◌%◌, ◌^◌, ◌≡◌, ◌∙◌, refl, ap, sym, List, [], ◌++◌, map, some, length, length-append, false,
}
use temp_esas.Evm2.Types.{Op, unknown, Instruction}
use temp_esas.Evm2.BitReader.{BitReader, advance}
use temp_esas.Evm2.Prefix.{scan, read_opcode-scan}
use temp_esas.Evm2.Stream.Reads.{Sees, advance-advance}
use temp_esas.Evm2.Disassembler.{read_instruction, finish_instruction, is_unknown}
use temp_esas.Evm2.Opcode.{read_opcode}
use temp_esas.Assembler.Encode.{AsmInstr, op_code, arg_types, assemble_args, assemble_instr}
use temp_esas.Assembler.Typing.{lower_arg, Fits}
use temp_esas.Assembler.Operands.{read_operands-assemble_args}

-- A named opcode with the arguments that it takes.
abbrev pub IsWellFormed : (ℕ → ℕ) → AsmInstr → Type 0
IsWellFormed address i = (is_unknown i.opcode ≡ false) × Fits address (arg_types i.opcode) i.args

-- What the disassembler is to give for an instruction at bit `at`.
abbrev pub lower_instr : (ℕ → ℕ) → ℕ → AsmInstr → Instruction
lower_instr address at i = record {
  opcode = i.opcode;
  bit_offset = at % 2 ^ 32;
  args = map (lower_arg address) i.args;
}

scan-op_code :
    (op : Op) → is_unknown op ≡ false → scan 6 0 [] (op_code op) ≡ some (op, length (op_code op))
unfolding scan
scan-op_code unknown h = cc
scan-op_code _ h = refl

pub read_instruction-read_opcode :
    (br : BitReader) {r : (Op × ℕ) × BitReader}
    → read_opcode br ≡ r
    → read_instruction br ≡ finish_instruction br.pos r
unfolding read_instruction
read_instruction-read_opcode br e = rw e

-- On a stream that begins with the bits of an instruction whose arguments match its opcode and
-- fit their fields, one round of the loop gives the opcode, the place and the operands, and stops
-- right behind these bits.
pub read_instruction-assemble_instr :
    (address : ℕ → ℕ) (i : AsmInstr) (br : BitReader) (rest : List ℕ)
    → IsWellFormed address i
    → Sees br (assemble_instr address i ++ rest)
    → (read_instruction br
        ≡ some (lower_instr address br.pos i, advance (length (assemble_instr address i)) br))
      × Sees (advance (length (assemble_instr address i)) br) rest
unfolding assemble_instr
read_instruction-assemble_instr address i br rest (known, fits) s =
    let code = op_code i.opcode in
    let operands = assemble_args address i.args in
    let (e₁, s₁) =
      read_opcode-scan code i.opcode (length code) br (operands ++ rest)
        (scan-op_code i.opcode known) (rw append_assoc at s) in
    let (e₂, s₂) =
      read_operands-assemble_args address i.opcode i.args known fits (advance (length code) br) rest
        s₁ in
    let same : advance (length operands) (advance (length code) br)
        ≡ advance (length (code ++ operands)) br =
      advance-advance (length code) (length operands) br
      ∙ ap (λ (n : ℕ). advance n br) (sym (length-append code operands)) in
    (
      read_instruction-read_opcode br e₁
          ∙ (unfold finish_instruction in
              rw (known, e₂) (ap (λ r. some (lower_instr address br.pos i, r)) same)),
      rw same at s₂,
    )
