-- ===== src/Arm64/Backend/Move.antt =====
-- The condition codes and the move instructions of `ARM64Backend`.
use temp_esas.Prelude.{ℕ, ◌/◌, ◌%◌, ◌^◌}
use temp_esas.Bits.{◌<<<◌, ◌|||◌, ◌&&&◌}

pub data ConditionCode : Type 0 where
  cond_eq cond_ne cond_lt cond_gt : ConditionCode

-- `static_cast<int>(cond)`.
abbrev pub cond_bits : ConditionCode → ℕ
cond_bits cond_eq = 0x0
cond_bits cond_ne = 0x1
cond_bits cond_lt = 0xB
cond_bits cond_gt = 0xC

-- The `uint16_t` parameter drops what stands above bit 15.
unfoldable pub gen_movz_x : ℕ → ℕ → ℕ → ℕ
gen_movz_x reg imm16 shift =
    0b110 <<< 29
    ||| 0b100101 <<< 23
    ||| (shift / 16) <<< 21
    ||| (imm16 % 2 ^ 16) <<< 5
    ||| reg &&& 0x1F

unfoldable pub gen_movk_x : ℕ → ℕ → ℕ → ℕ
gen_movk_x reg imm16 shift =
    0b111 <<< 29
    ||| 0b100101 <<< 23
    ||| (shift / 16) <<< 21
    ||| (imm16 % 2 ^ 16) <<< 5
    ||| reg &&& 0x1F

unfoldable pub gen_movz_w : ℕ → ℕ → ℕ → ℕ
gen_movz_w reg imm16 shift =
    0b010 <<< 29
    ||| 0b100101 <<< 23
    ||| (shift / 16) <<< 21
    ||| (imm16 % 2 ^ 16) <<< 5
    ||| reg &&& 0x1F

unfoldable pub gen_movk_w : ℕ → ℕ → ℕ → ℕ
gen_movk_w reg imm16 shift =
    0b011 <<< 29
    ||| 0b100101 <<< 23
    ||| (shift / 16) <<< 21
    ||| (imm16 % 2 ^ 16) <<< 5
    ||| reg &&& 0x1F

unfoldable pub gen_mov_x : ℕ → ℕ → ℕ
gen_mov_x rd rn =
    0b1 <<< 31 ||| 0b0101010 <<< 24 ||| (rn &&& 0x1F) <<< 16 ||| 31 <<< 5 ||| rd &&& 0x1F
