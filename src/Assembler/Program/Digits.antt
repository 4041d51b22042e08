-- ===== src/Assembler/Program/Digits.antt =====
-- Everything that the assembler appends is a bit.
use temp_esas.Prelude.{ℕ, zero, suc, ◌/◌, ◌%◌, ◌^◌, arith, List, [], ◌∷◌, true, false, Bool, ◌==◌}
use temp_esas.Evm2.Types.{Op, unknown}
use temp_esas.Evm2.Stream.Bits.{le_bits}
use temp_esas.Assembler.Encode.{
  AsmArg, register, constant, label, Access, direct, byte, word, dword, qword, AsmInstr, op_code,
  digits_rev, format_rev, assemble_register, assemble_args, assemble_instr,
}
use temp_esas.Assembler.Program.Bytes.{AreBits, AreBits-append, AreBits-le_bits}

AreBits-digits_rev : (fuel v : ℕ) → AreBits (digits_rev fuel v)
AreBits-digits_rev zero v = tt
AreBits-digits_rev (suc fuel) v =
    elim (v == 0)
      as (λ (b : Bool). AreBits (elim b [ true ↦ [] | false ↦ v % 2 ∷ digits_rev fuel (v / 2) ])) [
        | true ↦ tt
        | false ↦ (omega arith, AreBits-digits_rev fuel (v / 2))
      ]

AreBits-format_rev : (w v : ℕ) → AreBits (format_rev w v)
unfolding format_rev
AreBits-format_rev w v =
    AreBits-append (le_bits w v) _ (AreBits-le_bits w v)
      (AreBits-digits_rev (v / 2 ^ w) (v / 2 ^ w))

AreBits-assemble_register : (id : ℕ) (ref : Access) → AreBits (assemble_register id ref)
unfolding assemble_register
AreBits-assemble_register id direct = (omega arith, AreBits-format_rev 4 id)
AreBits-assemble_register id byte =
    (omega arith, (omega arith, (omega arith, AreBits-format_rev 4 id)))
AreBits-assemble_register id word =
    (omega arith, (omega arith, (omega arith, AreBits-format_rev 4 id)))
AreBits-assemble_register id dword =
    (omega arith, (omega arith, (omega arith, AreBits-format_rev 4 id)))
AreBits-assemble_register id qword =
    (omega arith, (omega arith, (omega arith, AreBits-format_rev 4 id)))

AreBits-assemble_args :
    (address : ℕ → ℕ) (args : List AsmArg) → AreBits (assemble_args address args)
unfolding assemble_args
AreBits-assemble_args address [] = tt
AreBits-assemble_args address (register id ref ∷ args) =
    AreBits-append (assemble_register id ref) _ (AreBits-assemble_register id ref)
      (AreBits-assemble_args address args)
AreBits-assemble_args address (constant v ∷ args) =
    AreBits-append (format_rev 64 v) _ (AreBits-format_rev 64 v)
      (AreBits-assemble_args address args)
AreBits-assemble_args address (label l ∷ args) =
    AreBits-append (format_rev 32 (address l)) _ (AreBits-format_rev 32 (address l))
      (AreBits-assemble_args address args)

AreBits-op_code : (op : Op) → AreBits (op_code op)
AreBits-op_code unknown = tt
AreBits-op_code _ = omega arith

pub AreBits-assemble_instr : (address : ℕ → ℕ) (i : AsmInstr) → AreBits (assemble_instr address i)
unfolding assemble_instr
AreBits-assemble_instr address i =
    AreBits-append (op_code i.opcode) _ (AreBits-op_code i.opcode)
      (AreBits-assemble_args address i.args)
