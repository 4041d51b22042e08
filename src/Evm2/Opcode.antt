-- ===== src/Evm2/Opcode.antt =====
-- `opcodeTable` and `Disassembler::readOpcode` (evm2.h). A `'0'` or `'1'` of the source's strings is
-- the number 0 or 1.

use temp_esas.Prelude.{
  ℕ, zero, suc, ◌+◌, List, [], ◌∷◌, ◌++◌, Option, none, some, ◌==◌, ◌&&◌, Bool, true, false,
  if◌then◌else◌,
}
use temp_esas.Evm2.Types.{
  Op, mov, load_const, add, sub, div, modulo, mul, compare, jump, jump_eq, read, write,
  console_read, console_write, create_thread, join_thread, hlt, sleep, call, ret, lock, unlock,
  unknown,
}
use temp_esas.Evm2.BitReader.{BitReader, read_bit}

abbrev pub opcode_table : List (List ℕ × Op)
opcode_table =
    (0 ∷ 0 ∷ 0 ∷ [], mov)
    ∷ (0 ∷ 0 ∷ 1 ∷ [], load_const)
    ∷ (0 ∷ 1 ∷ 0 ∷ 0 ∷ 0 ∷ 1 ∷ [], add)
    ∷ (0 ∷ 1 ∷ 0 ∷ 0 ∷ 1 ∷ 0 ∷ [], sub)
    ∷ (0 ∷ 1 ∷ 0 ∷ 0 ∷ 1 ∷ 1 ∷ [], div)
    ∷ (0 ∷ 1 ∷ 0 ∷ 1 ∷ 0 ∷ 0 ∷ [], modulo)
    ∷ (0 ∷ 1 ∷ 0 ∷ 1 ∷ 0 ∷ 1 ∷ [], mul)
    ∷ (0 ∷ 1 ∷ 1 ∷ 0 ∷ 0 ∷ [], compare)
    ∷ (0 ∷ 1 ∷ 1 ∷ 0 ∷ 1 ∷ [], jump)
    ∷ (0 ∷ 1 ∷ 1 ∷ 1 ∷ 0 ∷ [], jump_eq)
    ∷ (1 ∷ 0 ∷ 0 ∷ 0 ∷ 0 ∷ [], read)
    ∷ (1 ∷ 0 ∷ 0 ∷ 0 ∷ 1 ∷ [], write)
    ∷ (1 ∷ 0 ∷ 0 ∷ 1 ∷ 0 ∷ [], console_read)
    ∷ (1 ∷ 0 ∷ 0 ∷ 1 ∷ 1 ∷ [], console_write)
    ∷ (1 ∷ 0 ∷ 1 ∷ 0 ∷ 0 ∷ [], create_thread)
    ∷ (1 ∷ 0 ∷ 1 ∷ 0 ∷ 1 ∷ [], join_thread)
    ∷ (1 ∷ 0 ∷ 1 ∷ 1 ∷ 0 ∷ [], hlt)
    ∷ (1 ∷ 0 ∷ 1 ∷ 1 ∷ 1 ∷ [], sleep)
    ∷ (1 ∷ 1 ∷ 0 ∷ 0 ∷ [], call)
    ∷ (1 ∷ 1 ∷ 0 ∷ 1 ∷ [], ret)
    ∷ (1 ∷ 1 ∷ 1 ∷ 0 ∷ [], lock)
    ∷ (1 ∷ 1 ∷ 1 ∷ 1 ∷ [], unlock)
    ∷ []

-- `p.first == bits`.
abbrev pub same_bits : List ℕ → List ℕ → Bool
same_bits [] [] = true
same_bits (x ∷ xs) (y ∷ ys) = x == y && same_bits xs ys
same_bits _ _ = false

-- The scan of the table; the first entry that fits.
abbrev pub find_op : List ℕ → List (List ℕ × Op) → Option Op
find_op bits [] = none
find_op bits ((code, op) ∷ table) = if same_bits code bits then some op else find_op bits table

-- The loop of `readOpcode`, with the rounds left, the round's number and the bits so far. An opcode
-- comes with the number of bits that it took; `unknown` comes with 0.
unfoldable pub read_opcode_loop : ℕ → ℕ → List ℕ → BitReader → (Op × ℕ) × BitReader
read_opcode_loop zero i bits br = ((unknown, 0), br)
read_opcode_loop (suc left) i bits br = elim (read_bit br) [
  | none ↦ ((unknown, 0), br)
  | some (b, br') ↦ elim (find_op (bits ++ b ∷ []) opcode_table) [
    | some op ↦ ((op, i + 1), br')
    | none ↦ read_opcode_loop left (i + 1) (bits ++ b ∷ []) br'
  ]
]

unfoldable pub read_opcode : BitReader → (Op × ℕ) × BitReader
unfolding read_opcode_loop
read_opcode br = read_opcode_loop 6 0 [] br
