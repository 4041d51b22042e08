-- ===== src/Evm2/Progress.antt =====
-- The disassembler ends on every input: a read moves on, and an instruction by a bit at least.
use temp_esas.Prelude.{
  ℕ, zero, suc, ◌+◌, ◌*◌, ◌≤◌, ◌<◌, ◌≡◌, ◌∙◌, ◌-◌, ap, refl, arith, List, [], ◌∷◌, ◌++◌, some, Bool,
  if◌then◌else◌, bit_and, Option-cases, Bool-cases, inl, inr, ltb, ltb→lt, length, true, false,
  ◌==◌,
}
use temp_esas.Evm2.Types.{
  Op, mov, load_const, add, sub, div, modulo, mul, compare, jump, jump_eq, read, write,
  console_read, console_write, create_thread, join_thread, hlt, sleep, call, ret, lock, unlock,
  unknown, Arg, Instruction,
}
use temp_esas.Evm2.BitReader.{
  BitReader, M, ◌>>=◌, return, read_bit, read_le_loop, read_bits_le, total_bits,
}
use temp_esas.Evm2.Opcode.{read_opcode_loop, read_opcode, find_op, opcode_table}
use temp_esas.Evm2.Disassembler.{
  read_reg, read_mem, reg_arg, mem_arg, size_of_ss, read_data_arg, read_addr, read_const,
  read_operands, one_arg, three_args, read_instruction, finish_instruction, is_unknown,
  disassemble_loop, disassemble_code,
}

-- A read that succeeds leaves the bytes alone and does not go back.
abbrev After : BitReader → BitReader → Type 0
After br br' = (br'.bytes ≡ br.bytes) × (br.pos ≤ br'.pos)

After-trans : (a b c : BitReader) → After a b → After b c → After a c
After-trans a b c (e, p) (e', q) = (e' ∙ e, omega arith)

abbrev Moves : {A : Type 0} → M A → Type 0
Moves {A} m = (br br' : BitReader) (a : A) → m br ≡ some (a, br') → After br br'

read_bit-Moves : Moves read_bit
unfolding read_bit
read_bit-Moves br br' a e = (ground arith, ground arith)

return-Moves : {A : Type 0} (x : A) → Moves (return x)
return-Moves x br br' a e = (ground arith, ground arith)

module _ {A B : Type 0} where
  bind-Moves : (m : M A) (f : A → M B) → Moves m → ((a : A) → Moves (f a)) → Moves (m >>= f)
  bind-Moves m f hm hf br br' b e = elim (Option-cases (m br)) [
    | inl stop ↦ let never = rw (stop, ◌>>=◌) at e in absurd (cc never)
    | inr ((a, mid), go) ↦
        After-trans br mid br' (hm br mid a go) (hf a mid br' b (rw (go, ◌>>=◌) at e))
  ]

read_le_loop-Moves : (n i v : ℕ) → Moves (read_le_loop n i v)
unfolding read_le_loop
read_le_loop-Moves zero i v = return-Moves v
read_le_loop-Moves (suc n) i v =
    bind-Moves read_bit _ read_bit-Moves (λ b. read_le_loop-Moves n (i + 1) _)

read_bits_le-Moves : (n : ℕ) → Moves (read_bits_le n)
unfolding read_bits_le
read_bits_le-Moves n br br' v e = ground (arith, read_le_loop-Moves n 0 0 br br' v)

reg_field-Moves :
    (make : ℕ → Arg) → Moves (do idx ← read_bits_le 4; return (make (bit_and idx 0xF)))
reg_field-Moves make = bind-Moves (read_bits_le 4) _ (read_bits_le-Moves 4) (λ idx. return-Moves _)

read_data_arg-Moves : Moves read_data_arg
unfolding read_data_arg
read_data_arg-Moves = bind-Moves read_bit _ read_bit-Moves (λ b. by_first (b == 0))
  where
    by_first : (t : Bool) → Moves (if t then read_reg else read_mem)
    by_first true = reg_field-Moves reg_arg
    by_first false =
        bind-Moves (read_bits_le 2) _ (read_bits_le-Moves 2)
          (λ ss. reg_field-Moves (mem_arg (size_of_ss ss)))

read_addr-Moves : Moves read_addr
unfolding read_addr
read_addr-Moves = bind-Moves (read_bits_le 32) _ (read_bits_le-Moves 32) (λ a. return-Moves _)

read_const-Moves : Moves read_const
unfolding read_const
read_const-Moves = bind-Moves (read_bits_le 64) _ (read_bits_le-Moves 64) (λ a. return-Moves _)

data_then : {B : Type 0} (f : Arg → M B) → ((a : Arg) → Moves (f a)) → Moves (read_data_arg >>= f)
data_then f h = bind-Moves read_data_arg f read_data_arg-Moves h

addr_then : {B : Type 0} (f : Arg → M B) → ((a : Arg) → Moves (f a)) → Moves (read_addr >>= f)
addr_then f h = bind-Moves read_addr f read_addr-Moves h

one_arg-Moves : Moves one_arg
one_arg-Moves = data_then _ λ a. return-Moves _

three_args-Moves : Moves three_args
three_args-Moves = data_then _ λ a. data_then _ λ b. data_then _ λ c. return-Moves _

read_operands-Moves : (op : Op) → Moves (read_operands op)
unfolding read_operands
read_operands-Moves mov = data_then _ λ a. data_then _ λ b. return-Moves _
read_operands-Moves load_const =
    bind-Moves read_const _ read_const-Moves λ c. data_then _ λ d. return-Moves _
read_operands-Moves jump = addr_then _ λ t. return-Moves _
read_operands-Moves call = addr_then _ λ t. return-Moves _
read_operands-Moves jump_eq = addr_then _ λ t. data_then _ λ a. data_then _ λ b. return-Moves _
read_operands-Moves read =
    data_then _ λ a. data_then _ λ b. data_then _ λ c. data_then _ λ d. return-Moves _
read_operands-Moves create_thread = addr_then _ λ t. data_then _ λ a. return-Moves _
read_operands-Moves hlt = return-Moves []
read_operands-Moves ret = return-Moves []
read_operands-Moves add = three_args-Moves
read_operands-Moves sub = three_args-Moves
read_operands-Moves div = three_args-Moves
read_operands-Moves modulo = three_args-Moves
read_operands-Moves mul = three_args-Moves
read_operands-Moves compare = three_args-Moves
read_operands-Moves write = three_args-Moves
read_operands-Moves console_read = one_arg-Moves
read_operands-Moves console_write = one_arg-Moves
read_operands-Moves join_thread = one_arg-Moves
read_operands-Moves sleep = one_arg-Moves
read_operands-Moves lock = one_arg-Moves
read_operands-Moves unlock = one_arg-Moves
read_operands-Moves unknown = λ br br' a e. (ground arith, ground arith)

-- A later position over the same bytes.
abbrev Beyond : BitReader → BitReader → Type 0
Beyond br br' = (br'.bytes ≡ br.bytes) × (br.pos < br'.pos)

read_bit-Beyond : (br br' : BitReader) (b : ℕ) → read_bit br ≡ some (b, br') → Beyond br br'
unfolding read_bit
read_bit-Beyond br br' b e = (ground arith, ground arith)

-- The opcode that is found took a bit at least.
read_opcode_loop-Beyond :
    (left i : ℕ) (acc : List ℕ) (br br' : BitReader) (op : Op) (n : ℕ)
    → read_opcode_loop left i acc br ≡ ((op, n), br')
    → is_unknown op ≡ false
    → Beyond br br'
unfolding read_opcode_loop
read_opcode_loop-Beyond zero i acc br br' op n e known = (ground arith, ground arith)
read_opcode_loop-Beyond (suc left) i acc br br' op n e known = elim (Option-cases (read_bit br)) [
  | inl stop ↦ (ground arith, ground arith)
  | inr ((b, mid), bit) ↦
      let (same, on) = read_bit-Beyond br mid b bit in
      elim (Option-cases (find_op (acc ++ b ∷ []) opcode_table)) [
        | inl missing ↦
            let (same', on') =
              read_opcode_loop-Beyond left (i + 1) (acc ++ b ∷ []) mid br' op n
                (rw (bit, missing, read_opcode_loop) at e) known in
            (same' ∙ same, omega arith)
        | inr (o, found) ↦ (ground arith, ground arith)
      ]
]

finish_instruction-After :
    (start : ℕ) (op : Op) (n : ℕ) (br br' : BitReader) (ins : Instruction)
    → finish_instruction start ((op, n), br) ≡ some (ins, br')
    → (is_unknown op ≡ false) × After br br'
unfolding finish_instruction
finish_instruction-After start op n br br' ins e = elim (Option-cases (read_operands op br)) [
  | inl stop ↦ (ground arith, ground arith)
  | inr ((args, end), got) ↦ (ground arith, ground (arith, read_operands-Moves op br end args got))
]

read_instruction-Beyond :
    (br br' : BitReader) (ins : Instruction) → read_instruction br ≡ some (ins, br') → Beyond br br'
unfolding read_instruction read_opcode
read_instruction-Beyond br br' ins e =
    let ((op, n), mid) = read_opcode br in
    let (known, (same, on)) = finish_instruction-After br.pos op n mid br' ins e in
    let (same', on') = read_opcode_loop-Beyond 6 0 [] br mid op n refl known in
    (same ∙ same', omega arith)

-- The loop ends with the fuel that `disassemble_code` gives it.
disassemble_loop-total :
    (fuel : ℕ) (br : BitReader) (out : List Instruction)
    → total_bits br - br.pos < fuel
    → (result : List Instruction) × (disassemble_loop fuel br out ≡ some result)
unfolding disassemble_loop
disassemble_loop-total zero br out h = absurd (omega arith)
disassemble_loop-total (suc fuel) br out h = elim (Option-cases (read_instruction br)) [
  | inl stop ↦ (out, ground arith)
  | inr ((ins, br'), got) ↦
      let (same, on) = read_instruction-Beyond br br' ins got in
      let size : total_bits br' ≡ total_bits br = ap (λ (l : List ℕ). length l * 8) same in
      elim (Bool-cases (ltb br.pos (total_bits br))) [
        | inr done ↦ (out, ground (arith, done))
        | inl more ↦
            let (result, e) =
              disassemble_loop-total fuel br' (out ++ ins ∷ [])
                (ground (arith, size, ltb→lt _ _ more)) in
            (result, ground (arith, got, more, e))
      ]
]

-- `disassembleCode` returns on every byte string: the loop ends within the number of bits of the
-- code.
pub disassemble_code-total :
    (code : List ℕ) → (result : List Instruction) × (disassemble_code code ≡ some result)
unfolding disassemble_code
disassemble_code-total code =
    disassemble_loop-total (suc (length code * 8)) (record { bytes = code; pos = 0 }) []
      (omega arith)
