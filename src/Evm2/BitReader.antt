-- ===== src/Evm2/BitReader.antt =====
-- `EVM2::BitReader` (evm2.h). A failed read is `none`: every caller in the source gives up on it,
-- so the position after a failure is not kept.
use temp_esas.Prelude.{
  ℕ, zero, suc, ◌+◌, ◌-◌, ◌*◌, ◌/◌, ◌%◌, ◌^◌, List, Option, none, some, ltb, leb, ◌==◌,
  if◌then◌else◌, length, get_elem?, Bool,
}
use temp_esas.Bits.{◌<<<◌, ◌>>>◌, ◌|||◌, ◌&&&◌}

pub record BitReader : Type 0 where
  pub bytes : List ℕ
  pub pos : ℕ

abbrev pub total_bits : BitReader → ℕ
total_bits br = length br.bytes * 8

abbrev pub M : Type 0 → Type 0
M A = BitReader → Option (A × BitReader)

infixl 5 ◌>>=◌
abbrev pub ◌>>=◌ : {A B : Type 0} → M A → (A → M B) → M B
◌>>=◌ m f br = elim (m br) [ none ↦ none | some (a, br') ↦ f a br' ]

abbrev pub return : {A : Type 0} → A → M A
return a br = some (a, br)

abbrev pub fail : {A : Type 0} → M A
fail br = none

unfoldable pub eof : BitReader → Bool
eof br = leb (total_bits br) br.pos

abbrev pub advance : ℕ → BitReader → BitReader
advance n br = record br { pos = br.pos + n }

-- A byte that is not there would be a read out of range.
unfoldable pub read_bit : M ℕ
read_bit br = if leb (total_bits br) br.pos then none else elim (get_elem? br.bytes (br.pos / 8)) [
  | none ↦ none
  | some byte ↦ some (byte >>> (7 - br.pos % 8) &&& 1, advance 1 br)
]

-- The loops of the two multi-bit reads, with the rounds that are left.
unfoldable pub read_be_loop : ℕ → ℕ → M ℕ
read_be_loop zero v = return v
read_be_loop (suc left) v = do b ← read_bit; read_be_loop left (v <<< 1 % 2 ^ 64 ||| b &&& 1)

unfoldable pub read_le_loop : ℕ → ℕ → ℕ → M ℕ
read_le_loop zero i v = return v
read_le_loop (suc left) i v = do b ← read_bit; read_le_loop left (i + 1) (v ||| (b &&& 1) <<< i)

unfoldable pub read_bits_be : ℕ → M ℕ
unfolding read_be_loop
read_bits_be n br =
    if n == 0
    then return 0 br
    else if ltb (total_bits br) (br.pos + n)
    then none
    else read_be_loop n 0 br

unfoldable pub read_bits_le : ℕ → M ℕ
unfolding read_le_loop
read_bits_le n br =
    if n == 0
    then return 0 br
    else if ltb (total_bits br) (br.pos + n)
    then none
    else read_le_loop n 0 0 br
