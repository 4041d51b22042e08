-- ===== src/Evm2/Disassembler.antt =====
-- `Disassembler::readDataArg` and `disassembleCode` (evm2.h).
use temp_esas.Prelude.{
  ℕ, zero, suc, ◌*◌, ◌%◌, ◌^◌, List, [], ◌∷◌, ◌++◌, Option, none, some, ◌==◌, ltb, Bool, true,
  false, if◌then◌else◌, length,
}
use temp_esas.Bits.{◌&&&◌}
use temp_esas.Evm2.Types.{
  Op, mov, load_const, add, sub, div, modulo, mul, compare, jump, jump_eq, read, write,
  console_read, console_write, create_thread, join_thread, hlt, sleep, call, ret, lock, unlock,
  unknown, Arg, Kind, default_arg, Instruction,
}
use temp_esas.Evm2.BitReader.{BitReader, M, ◌>>=◌, return, fail, read_bit, read_bits_le, total_bits}
use temp_esas.Evm2.Opcode.{read_opcode}

abbrev pub reg_arg : ℕ → Arg
reg_arg i = record default_arg { kind = Kind.reg; register = i }

abbrev pub mem_arg : ℕ → ℕ → Arg
mem_arg n i = record default_arg { kind = Kind.mem; size_bytes = n; register = i }

abbrev pub const_arg : ℕ → Arg
const_arg v = record default_arg { kind = Kind.const; const_value = v }

abbrev pub addr_arg : ℕ → Arg
addr_arg a = record default_arg { kind = Kind.addr; address = a }

-- The operand size for the two bits `ss`.
abbrev pub size_of_ss : ℕ → ℕ
size_of_ss ss = if ss == 0 then 1 else if ss == 1 then 2 else if ss == 2 then 4 else 8

-- A register: four bits of index.
pub read_reg : M Arg
read_reg = do idx ← read_bits_le 4; return (reg_arg (idx &&& 0xF))

-- Memory: two bits of size, then four bits of index.
pub read_mem : M Arg
read_mem = do
  ss ← read_bits_le 2
  idx ← read_bits_le 4
  return (mem_arg (size_of_ss ss) (idx &&& 0xF))

unfoldable pub read_data_arg : M Arg
unfolding read_reg read_mem
read_data_arg = do first ← read_bit; if first == 0 then read_reg else read_mem

unfoldable pub read_addr : M Arg
read_addr = do a ← read_bits_le 32; return (addr_arg a)

unfoldable pub read_const : M Arg
read_const = do c ← read_bits_le 64; return (const_arg c)

abbrev pub one_arg : M (List Arg)
one_arg = do a ← read_data_arg; return (a ∷ [])

abbrev pub three_args : M (List Arg)
three_args = do a ← read_data_arg; b ← read_data_arg; c ← read_data_arg; return (a ∷ b ∷ c ∷ [])

-- The `switch` of `disassembleCode`: the operands of an opcode, in the order of `ins.args`. Each
-- failed read makes the function return what it has.
unfoldable pub read_operands : Op → M (List Arg)
read_operands mov = do a ← read_data_arg; b ← read_data_arg; return (a ∷ b ∷ [])
read_operands load_const = do c ← read_const; d ← read_data_arg; return (c ∷ d ∷ [])
read_operands add = three_args
read_operands sub = three_args
read_operands div = three_args
read_operands modulo = three_args
read_operands mul = three_args
read_operands compare = three_args
read_operands jump = do t ← read_addr; return (t ∷ [])
read_operands jump_eq = do
  t ← read_addr
  a ← read_data_arg
  b ← read_data_arg
  return (t ∷ a ∷ b ∷ [])
read_operands read = do
  a ← read_data_arg
  b ← read_data_arg
  c ← read_data_arg
  d ← read_data_arg
  return (a ∷ b ∷ c ∷ d ∷ [])
read_operands write = three_args
read_operands console_read = one_arg
read_operands console_write = one_arg
read_operands create_thread = do t ← read_addr; a ← read_data_arg; return (t ∷ a ∷ [])
read_operands join_thread = one_arg
read_operands hlt = return []
read_operands sleep = one_arg
read_operands call = do t ← read_addr; return (t ∷ [])
read_operands ret = return []
read_operands lock = one_arg
read_operands unlock = one_arg
read_operands unknown = fail

abbrev pub is_unknown : Op → Bool
is_unknown unknown = true
is_unknown _ = false

-- The `switch` for the opcode that was read at bit `start`.
unfoldable pub finish_instruction : ℕ → (Op × ℕ) × BitReader → Option (Instruction × BitReader)
unfolding read_operands
finish_instruction start ((op, consumed), br) =
    if is_unknown op then none else elim (read_operands op br) [
      | none ↦ none
      | some (operands, br') ↦
          some (record { opcode = op; bit_offset = start % 2 ^ 32; args = operands }, br')
    ]

-- One round of the loop: an instruction and the reader behind it, or `none` where the loop ends by
-- `break` or `return`.
unfoldable pub read_instruction : BitReader → Option (Instruction × BitReader)
read_instruction br = finish_instruction br.pos (read_opcode br)

-- The `while` loop, on fuel; `none` means that the fuel ran out.
unfoldable pub disassemble_loop : ℕ → BitReader → List Instruction → Option (List Instruction)
disassemble_loop zero br out = none
disassemble_loop (suc fuel) br out =
    if ltb br.pos (total_bits br)
    then elim (read_instruction br) [
      | none ↦ some out
      | some (ins, br') ↦ disassemble_loop fuel br' (out ++ ins ∷ [])
    ]
    else some out

-- Every round takes a bit at least, so a round for each bit and one more are enough.
unfoldable pub disassemble_code : List ℕ → Option (List Instruction)
unfolding disassemble_loop
disassemble_code code =
    disassemble_loop (suc (length code * 8)) (record { bytes = code; pos = 0 }) []
