-- ===== src/Assembler/Padding.antt =====
-- The zero bits that fill the last byte of the code are no instruction.
use temp_esas.Prelude.{
  ℕ, zero, suc, ◌<◌, ◌≡◌, ◌∙◌, refl, arith, List, [], ◌∷◌, none, length, replicate,
  length-replicate,
}
use temp_esas.Evm2.Types.{mov, unknown}
use temp_esas.Evm2.BitReader.{BitReader, advance, read_bits_le, ◌>>=◌}
use temp_esas.Evm2.Opcode.{read_opcode, read_opcode_loop}
use temp_esas.Evm2.Stream.Reads.{Sees, read_bit-Sees, read_bit-end}
use temp_esas.Evm2.Disassembler.{read_instruction, finish_instruction, read_data_arg}
use temp_esas.Assembler.Instr.{read_instruction-read_opcode}
use temp_esas.Evm2.Prefix.{scan, read_opcode-scan}

-- A field that is longer than what is left is not read.
read_bits_le-short :
    (n : ℕ) (br : BitReader) (xs : List ℕ) → Sees br xs → length xs < n → read_bits_le n br ≡ none
unfolding read_bits_le
read_bits_le-short n br xs s h = ground (arith, s.left)

-- No operand fits into five bits or less that are all 0.
read_data_arg-short :
    (k : ℕ) (br : BitReader) → k < 5 → Sees br (replicate k 0) → read_data_arg br ≡ none
unfolding read_data_arg
read_data_arg-short zero br h s = rw (read_bit-end br s, read_data_arg, ◌>>=◌)
read_data_arg-short (suc k) br h s =
    let (e, s') = read_bit-Sees br 0 (replicate k 0) s in
    let short =
      read_bits_le-short 4 (advance 1 br) (replicate k 0) s'
        (omega (arith, length-replicate {0} {A = ℕ} k 0)) in
    rw (e, ◌>>=◌, short)

-- One or two zero bits, or none, are no opcode.
read_opcode-short :
    (k : ℕ) (br : BitReader)
    → k < 3
    → Sees br (replicate k 0)
    → (br' : BitReader) × (read_opcode br ≡ ((unknown, 0), br'))
unfolding read_opcode read_opcode_loop
read_opcode-short zero br h s = (br, rw (read_bit-end br s, read_opcode_loop))
read_opcode-short (suc zero) br h s =
    let (e, s₁) = read_bit-Sees br 0 [] s in
    (advance 1 br, rw (e, read_opcode_loop, read_bit-end (advance 1 br) s₁))
read_opcode-short (suc (suc zero)) br h s =
    let (e, s₁) = read_bit-Sees br 0 (0 ∷ []) s in
    let (e', s₂) = read_bit-Sees (advance 1 br) 0 [] s₁ in
    (
      advance 1 (advance 1 br),
      rw (e, read_opcode_loop, e', read_bit-end (advance 1 (advance 1 br)) s₂),
    )
read_opcode-short (suc (suc (suc k))) br h s = absurd (omega arith)

too_short : (k : ℕ) (br : BitReader) → k < 3 → Sees br (replicate k 0) → read_instruction br ≡ none
unfolding finish_instruction
too_short k br h s = let (br', e) = read_opcode-short k br h s in read_instruction-read_opcode br e

-- On fewer than eight zero bits at the end of the stream no instruction is read, although three
-- of them are the opcode of `mov`.
pub read_instruction-padding :
    (k : ℕ) (br : BitReader) → k < 8 → Sees br (replicate k 0) → read_instruction br ≡ none
unfolding finish_instruction scan
read_instruction-padding (suc (suc (suc k))) br h s =
    let (e, s') = read_opcode-scan (0 ∷ 0 ∷ 0 ∷ []) mov 3 br (replicate k 0) refl s in
    let short = read_data_arg-short k (advance 3 br) (omega arith) s' in
    read_instruction-read_opcode br e ∙ rw (short, ◌>>=◌)
read_instruction-padding zero br h s = too_short 0 br (omega arith) s
read_instruction-padding (suc zero) br h s = too_short 1 br (omega arith) s
read_instruction-padding (suc (suc zero)) br h s = too_short 2 br (omega arith) s
