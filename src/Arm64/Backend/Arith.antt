-- ===== src/Arm64/Backend/Arith.antt =====
-- The arithmetic, compare and conditional-set instructions of `ARM64Backend`.
use temp_esas.Prelude.{ℕ, ◌%◌, ◌^◌, bit_xor}
use temp_esas.Bits.{◌<<<◌, ◌|||◌, ◌&&&◌}
use temp_esas.Arm64.Backend.Move.{ConditionCode, cond_bits}

unfoldable pub gen_add_x_reg : ℕ → ℕ → ℕ → ℕ
gen_add_x_reg rd rn rm =
    0b1 <<< 31
    ||| 0b0001011 <<< 24
    ||| 0b00 <<< 22
    ||| (rm &&& 0x1F) <<< 16
    ||| (rn &&& 0x1F) <<< 5
    ||| rd &&& 0x1F

unfoldable pub gen_add_x_imm : ℕ → ℕ → ℕ → ℕ
gen_add_x_imm rd rn imm12 =
    0b1 <<< 31
    ||| 0b0 <<< 30
    ||| 0b10001 <<< 24
    ||| (imm12 % 2 ^ 16 &&& 0xFFF) <<< 10
    ||| (rn &&& 0x1F) <<< 5
    ||| rd &&& 0x1F

unfoldable pub gen_sub_x_reg : ℕ → ℕ → ℕ → ℕ
gen_sub_x_reg rd rn rm =
    0b1 <<< 31
    ||| 0b1001011 <<< 24
    ||| 0b00 <<< 22
    ||| (rm &&& 0x1F) <<< 16
    ||| (rn &&& 0x1F) <<< 5
    ||| rd &&& 0x1F

unfoldable pub gen_sub_x_imm : ℕ → ℕ → ℕ → ℕ
gen_sub_x_imm rd rn imm12 =
    0b1 <<< 31
    ||| 0b1 <<< 30
    ||| 0b10001 <<< 24
    ||| (imm12 % 2 ^ 16 &&& 0xFFF) <<< 10
    ||| (rn &&& 0x1F) <<< 5
    ||| rd &&& 0x1F

unfoldable pub gen_sdiv_x : ℕ → ℕ → ℕ → ℕ
gen_sdiv_x rd rn rm =
    0b1 <<< 31
    ||| 0b0011010110 <<< 21
    ||| (rm &&& 0x1F) <<< 16
    ||| 0b000011 <<< 10
    ||| (rn &&& 0x1F) <<< 5
    ||| rd &&& 0x1F

unfoldable pub gen_udiv_x : ℕ → ℕ → ℕ → ℕ
gen_udiv_x rd rn rm =
    0b1 <<< 31
    ||| 0b0011010110 <<< 21
    ||| (rm &&& 0x1F) <<< 16
    ||| 0b000010 <<< 10
    ||| (rn &&& 0x1F) <<< 5
    ||| rd &&& 0x1F

unfoldable pub gen_mul_x : ℕ → ℕ → ℕ → ℕ
gen_mul_x rd rn rm =
    0b1 <<< 31
    ||| 0b0011011 <<< 24
    ||| 0b000 <<< 21
    ||| (rm &&& 0x1F) <<< 16
    ||| 0b0 <<< 15
    ||| 31 <<< 10
    ||| (rn &&& 0x1F) <<< 5
    ||| rd &&& 0x1F

unfoldable pub gen_msub_x : ℕ → ℕ → ℕ → ℕ → ℕ
gen_msub_x rd rn rm ra =
    0b1 <<< 31
    ||| 0b0011011 <<< 24
    ||| 0b000 <<< 21
    ||| (rm &&& 0x1F) <<< 16
    ||| 0b1 <<< 15
    ||| (ra &&& 0x1F) <<< 10
    ||| (rn &&& 0x1F) <<< 5
    ||| rd &&& 0x1F

unfoldable pub gen_cmp_x : ℕ → ℕ → ℕ
gen_cmp_x rn rm =
    0b1 <<< 31
    ||| 0b1101011 <<< 24
    ||| 0b00 <<< 22
    ||| (rm &&& 0x1F) <<< 16
    ||| (rn &&& 0x1F) <<< 5
    ||| 31

unfoldable pub gen_cset_x : ℕ → ConditionCode → ℕ
gen_cset_x rd cond =
    let inv_cond = bit_xor (cond_bits cond) 1 in
    0b1 <<< 31
    ||| 0b0 <<< 30
    ||| 0b0 <<< 29
    ||| 0b11010100 <<< 21
    ||| 31 <<< 16
    ||| (inv_cond &&& 0xF) <<< 12
    ||| 0b01 <<< 10
    ||| 31 <<< 5
    ||| rd &&& 0x1F
