-- ===== src/Evm2/Prefix.antt =====
-- `readOpcode` on a stream that begins with a code of the table.
use temp_esas.Prelude.{
  ℕ, zero, suc, ◌+◌, List, [], ◌∷◌, ◌++◌, Option, none, some, Option-cases, ◌≡◌, ◌∙◌, ap, subst,
  arith, inl, inr, length,
}
use temp_esas.Evm2.Types.{Op}
use temp_esas.Evm2.BitReader.{BitReader, advance}
use temp_esas.Evm2.Opcode.{opcode_table, find_op, read_opcode_loop, read_opcode}
use temp_esas.Evm2.Stream.Reads.{Sees, read_bit-Sees, advance-advance}

-- The same loop over a code that is at hand: it must end with the match.
finish : List ℕ → Op → ℕ → Option (Op × ℕ)
finish [] op n = some (op, n)
finish (b ∷ bits) op n = none

unfoldable pub scan : ℕ → ℕ → List ℕ → List ℕ → Option (Op × ℕ)
unfolding finish
scan zero i acc bits = none
scan (suc left) i acc [] = none
scan (suc left) i acc (b ∷ bits) = elim (find_op (acc ++ b ∷ []) opcode_table) [
  | some op ↦ finish bits op (i + 1)
  | none ↦ scan left (i + 1) (acc ++ b ∷ []) bits
]

finish_lem :
    (bits : List ℕ) (op o : Op) (n m : ℕ)
    → finish bits op n ≡ some (o, m)
    → (bits ≡ []) × (op ≡ o) × (n ≡ m)
unfolding finish
finish_lem [] op o n m h = ground arith
finish_lem (b ∷ bits) op o n m h = ground arith

-- A code that `scan` accepts is taken whole, and nothing behind it.
pub read_opcode_loop-scan :
    (left i : ℕ) (acc code : List ℕ) (op : Op) (n : ℕ) (br : BitReader) (rest : List ℕ)
    → scan left i acc code ≡ some (op, n)
    → Sees br (code ++ rest)
    → (read_opcode_loop left i acc br ≡ ((op, n), advance (length code) br))
      × Sees (advance (length code) br) rest
unfolding scan read_opcode_loop
read_opcode_loop-scan zero i acc code op n br rest h s = ground arith
read_opcode_loop-scan (suc left) i acc [] op n br rest h s = ground arith
read_opcode_loop-scan (suc left) i acc (b ∷ code) op n br rest h s =
    let (bit, s') = read_bit-Sees br b (code ++ rest) s in
    elim (Option-cases (find_op (acc ++ b ∷ []) opcode_table)) [
      | inr (o, found) ↦
          let (nothing, same, count) = finish_lem code o op (i + 1) n (rw (found, scan) at h) in
          let end : length code ≡ 0 = ap (λ (l : List ℕ). length l) nothing in
          (
            rw (bit, found, read_opcode_loop) (ground (arith, same, count, end)),
            rw (end) (subst (Sees (advance 1 br)) (ap (λ (l : List ℕ). l ++ rest) nothing) s'),
          )
      | inl missing ↦
          let (e, s″) =
            read_opcode_loop-scan left (i + 1) (acc ++ b ∷ []) code op n (advance 1 br) rest
              (rw (missing, scan) at h) s' in
          let same = advance-advance 1 (length code) br in
          let shift : 1 + length code ≡ suc (length code) = omega arith in
          (
            rw (bit, missing, read_opcode_loop) (e ∙ ap (λ r. ((op, n), r)) (rw shift at same)),
            rw (rw shift at same) at s″,
          )
    ]

pub read_opcode-scan :
    (code : List ℕ) (op : Op) (n : ℕ) (br : BitReader) (rest : List ℕ)
    → scan 6 0 [] code ≡ some (op, n)
    → Sees br (code ++ rest)
    → (read_opcode br ≡ ((op, n), advance (length code) br)) × Sees (advance (length code) br) rest
unfolding read_opcode
read_opcode-scan code op n br rest h s = read_opcode_loop-scan 6 0 [] code op n br rest h s
