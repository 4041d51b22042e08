-- ===== src/Assembler/Program.antt =====
-- A whole code section: the bytes that `build` writes (res/compiler.py) and what the disassembler
-- makes of them.
pub mod Bytes
mod Digits
unfoldable pub use Bytes.*
use Digits.{AreBits-assemble_instr}
use mathlib.Core.List.{append_assoc, append-nil}
use temp_esas.Prelude.{
  ℕ, zero, suc, ◌+◌, ◌-◌, ◌*◌, ◌%◌, ◌≤◌, ◌<◌, ◌≡◌, ◌∙◌, refl, ap, sym, arith, List, [], ◌∷◌, ◌++◌,
  none, some, length, length-append, replicate, length-replicate, ltb, lt→ltb, le→ltb,
  if◌then◌else◌, true, false,
}
use temp_esas.Evm2.Types.{Instruction, Op, unknown}
use temp_esas.Evm2.BitReader.{BitReader, advance, total_bits}
use temp_esas.Evm2.Stream.Bits.{bits_of, length-bits_of}
use temp_esas.Evm2.Stream.Reads.{Sees}
use temp_esas.Evm2.Disassembler.{disassemble_loop, disassemble_code, read_instruction, is_unknown}
use temp_esas.Assembler.Encode.{AsmInstr, op_code, assemble_args, assemble_instr}
use temp_esas.Assembler.Instr.{IsWellFormed, lower_instr, read_instruction-assemble_instr}
use temp_esas.Assembler.Padding.{read_instruction-padding}

-- The bits of the code section, with the addresses that the labels have in the end.
unfoldable pub assemble_program : (ℕ → ℕ) → List AsmInstr → List ℕ
assemble_program address [] = []
assemble_program address (i ∷ program) =
    assemble_instr address i ++ assemble_program address program

abbrev pub AreWellFormed : (ℕ → ℕ) → List AsmInstr → Type 0
AreWellFormed address [] = Unit {0}
AreWellFormed address (i ∷ program) = IsWellFormed address i × AreWellFormed address program

-- The instructions at their places, the first at bit `at`.
unfoldable pub lower_program : (ℕ → ℕ) → ℕ → List AsmInstr → List Instruction
lower_program address at [] = []
lower_program address at (i ∷ program) =
    lower_instr address at i
    ∷ lower_program address (at + length (assemble_instr address i)) program

module _ (fuel : ℕ) (br : BitReader) (out : List Instruction) where
  loop_end : total_bits br ≤ br.pos → disassemble_loop (suc fuel) br out ≡ some out
  unfolding disassemble_loop
  loop_end h = ground arith

  loop_stop : read_instruction br ≡ none → disassemble_loop (suc fuel) br out ≡ some out
  unfolding disassemble_loop
  loop_stop e = ground arith

  loop_step :
      (ins : Instruction) (br' : BitReader)
      → br.pos < total_bits br
      → read_instruction br ≡ some (ins, br')
      → disassemble_loop (suc fuel) br out ≡ disassemble_loop fuel br' (out ++ ins ∷ [])
  unfolding disassemble_loop
  loop_step ins br' h e = ground arith

op_code-le : (op : Op) → is_unknown op ≡ false → 3 ≤ length (op_code op)
op_code-le unknown h = cc
op_code-le _ h = omega arith

-- An instruction takes three bits at least.
assemble_instr-pos :
    (address : ℕ → ℕ) (i : AsmInstr)
    → IsWellFormed address i
    → 0 < length (assemble_instr address i)
unfolding assemble_instr
assemble_instr-pos address i (known, fits) = omega (
  arith,
  op_code-le i.opcode known,
  length-append (op_code i.opcode) (assemble_args address i.args),
)

-- The loop reads the program, then stops in the padding or at the end.
disassemble_loop-assemble_program :
    (address : ℕ → ℕ) (program : List AsmInstr) (k fuel : ℕ) (br : BitReader)
    (out : List Instruction)
    → AreWellFormed address program
    → k < 8
    → length program < fuel
    → Sees br (assemble_program address program ++ replicate k 0)
    → disassemble_loop fuel br out ≡ some (out ++ lower_program address br.pos program)
unfolding assemble_program lower_program
disassemble_loop-assemble_program address program k zero br out wf hk hf s = absurd (omega arith)
disassemble_loop-assemble_program address [] zero (suc fuel) br out wf hk hf s =
    loop_end fuel br out (omega (arith, s.left)) ∙ ap some (sym (append-nil out))
disassemble_loop-assemble_program address [] (suc k) (suc fuel) br out wf hk hf s =
    loop_stop fuel br out (read_instruction-padding (suc k) br hk s)
    ∙ ap some (sym (append-nil out))
disassemble_loop-assemble_program address (i ∷ program) k (suc fuel) br out (wf, more) hk hf s =
    let rest = assemble_program address program ++ replicate k 0 in
    let s' = rw append_assoc at s in
    let (e, s₁) = read_instruction-assemble_instr address i br rest wf s' in
    let n = length (assemble_instr address i) in
    loop_step fuel br out (lower_instr address br.pos i) (advance n br)
      (omega (
        arith,
        s'.left,
        assemble_instr-pos address i wf,
        length-append (assemble_instr address i) rest,
      ))
      e
    ∙ disassemble_loop-assemble_program address program k fuel (advance n br)
        (out ++ lower_instr address br.pos i ∷ []) more hk (omega arith) s₁
    ∙ ap some (append_assoc out (lower_instr address br.pos i ∷ []) _)

length-le-assemble_program :
    (address : ℕ → ℕ) (program : List AsmInstr)
    → AreWellFormed address program
    → length program ≤ length (assemble_program address program)
unfolding assemble_program
length-le-assemble_program address [] wf = omega arith
length-le-assemble_program address (i ∷ program) (wf, more) = omega (
  arith,
  assemble_instr-pos address i wf,
  length-append (assemble_instr address i) (assemble_program address program),
  length-le-assemble_program address program more,
)

AreBits-assemble_program :
    (address : ℕ → ℕ) (program : List AsmInstr) → AreBits (assemble_program address program)
unfolding assemble_program
AreBits-assemble_program address [] = tt
AreBits-assemble_program address (i ∷ program) =
    AreBits-append (assemble_instr address i) _ (AreBits-assemble_instr address i)
      (AreBits-assemble_program address program)

-- The file's code bytes.
unfoldable pub code_bytes : (ℕ → ℕ) → List AsmInstr → List ℕ
unfolding assemble_program
code_bytes address program = pack_bytes (pad_bits (assemble_program address program))

-- For a program whose arguments match the opcodes and fit their fields, disassembling the bytes
-- that the assembler packs gives its instructions, with their operands and bit offsets, and
-- nothing for the padding.
pub disassemble_code-code_bytes :
    (address : ℕ → ℕ) (program : List AsmInstr)
    → AreWellFormed address program
    → disassemble_code (code_bytes address program) ≡ some (lower_program address 0 program)
unfolding code_bytes disassemble_code
disassemble_code-code_bytes address program wf =
    let bits = assemble_program address program in
    let code = pack_bytes (pad_bits bits) in
    let (k, small, padded, whole) = pad_bits-padding bits in
    let stream : bits_of code ≡ bits ++ replicate k 0 =
      bits_of-pack_bytes (pad_bits bits)
        (AreBits-pad_bits bits (AreBits-assemble_program address program)) whole
      ∙ padded in
    let size : length code * 8 ≡ length bits + k =
      sym (length-bits_of code)
      ∙ ap (λ (l : List ℕ). length l) stream
      ∙ length-append bits (replicate k 0)
      ∙ ap (λ (n : ℕ). length bits + n) (length-replicate k 0) in
    disassemble_loop-assemble_program address program k (suc (length code * 8))
      (record { bytes = code; pos = 0 }) [] wf small
      (omega (arith, size, length-le-assemble_program address program wf))
      (record {
        ahead = stream;
        left =
            omega
              (arith, size, length-append bits (replicate k 0), length-replicate {0} {A = ℕ} k 0);
      })
