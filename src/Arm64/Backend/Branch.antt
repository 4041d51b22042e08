-- ===== src/Arm64/Backend/Branch.antt =====
-- The branches, `adr`, `lsl` and the fixed words of `ARM64Backend`.
use temp_esas.Prelude.{ℕ}
use temp_esas.Bits.{◌<<<◌, ◌|||◌, ◌&&&◌}
use temp_esas.Arm64.Word.{sub32, asr32}
use temp_esas.Arm64.Backend.Move.{ConditionCode, cond_bits}

unfoldable pub gen_bcond : ConditionCode → ℕ → ℕ
gen_bcond cond offset = 0b01010100 <<< 24 ||| (offset &&& 0x7FFFF) <<< 5 ||| cond_bits cond &&& 0xF

unfoldable pub gen_b : ℕ → ℕ
gen_b offset = 0b000101 <<< 26 ||| offset &&& 0x3FFFFFF

unfoldable pub gen_bl : ℕ → ℕ
gen_bl offset = 0b100101 <<< 26 ||| offset &&& 0x3FFFFFF

unfoldable pub gen_br : ℕ → ℕ
gen_br rn = 0b1101011 <<< 25 ||| 0b0000 <<< 21 ||| 0b11111 <<< 16 ||| (rn &&& 0x1F) <<< 5

unfoldable pub gen_adr : ℕ → ℕ → ℕ
gen_adr rd offset =
    let immlo = offset &&& 0x3 in
    let immhi = asr32 offset 2 &&& 0x7FFFF in
    0b0 <<< 31 ||| immlo <<< 29 ||| 0b10000 <<< 24 ||| immhi <<< 5 ||| rd &&& 0x1F

unfoldable pub gen_lsl_x_imm : ℕ → ℕ → ℕ → ℕ
gen_lsl_x_imm rd rn shift =
    let immr = sub32 64 shift &&& 0x3F in
    let imms = sub32 63 shift &&& 0x3F in
    0b1 <<< 31
    ||| 0b10 <<< 29
    ||| 0b100110 <<< 23
    ||| 0b1 <<< 22
    ||| immr <<< 16
    ||| imms <<< 10
    ||| (rn &&& 0x1F) <<< 5
    ||| rd &&& 0x1F

unfoldable pub gen_blr : ℕ → ℕ
gen_blr rn = 0b1101011 <<< 25 ||| 0b0001 <<< 21 ||| 0b11111 <<< 16 ||| (rn &&& 0x1F) <<< 5

unfoldable pub gen_ret : ℕ
gen_ret = 0xD65F03C0

unfoldable pub gen_nop : ℕ
gen_nop = 0xD503201F

unfoldable pub gen_prologue1 : ℕ
gen_prologue1 = 0xA9BF7BF0

unfoldable pub gen_prologue2 : ℕ
gen_prologue2 = 0x910003FD

unfoldable pub gen_epilogue : ℕ
gen_epilogue = 0xA8C17BF0
