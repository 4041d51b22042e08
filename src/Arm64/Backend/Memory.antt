-- ===== src/Arm64/Backend/Memory.antt =====
-- The loads and stores of `ARM64Backend`.
use temp_esas.Prelude.{ℕ, Bool, Option, none, some, ◌==◌, if◌then◌else◌}
use temp_esas.Bits.{◌<<<◌, ◌|||◌, ◌&&&◌}
use temp_esas.Arm64.Word.{quot32}

unfoldable pub gen_ldr_x_imm : ℕ → ℕ → ℕ → ℕ
gen_ldr_x_imm rt rn imm12 =
    0xF9400000 ||| (imm12 &&& 0xFFF) <<< 10 ||| (rn &&& 0x1F) <<< 5 ||| rt &&& 0x1F

-- `I3312_LDRB` to `I3312_STRX`: the opcode by direction and operand size.
abbrev pub reg_mem_opcode : Bool → ℕ → ℕ
reg_mem_opcode load mo = 0x38000000 ||| (if load then 1 else 0) <<< 22 ||| mo <<< 30

-- `I3312_TO_I3310 | 0x4000`, then the opcode.
abbrev pub reg_mem_word : Bool → ℕ → ℕ
reg_mem_word load mo = 0x00200800 ||| 0x4000 ||| reg_mem_opcode load mo

-- The `switch` on the size in bits, in powers of two bytes; `none` is its `assert(0)`.
abbrev pub reg_mem_size : ℕ → Option ℕ
reg_mem_size size =
    if size == 64
    then some 3
    else if size == 32
    then some 2
    else if size == 16
    then some 1
    else if size == 8
    then some 0
    else none

abbrev pub reg_mem_registers : ℕ → ℕ → ℕ → ℕ → ℕ
reg_mem_registers x rt rn rm = x ||| (rm &&& 0x1F) <<< 16 ||| (rn &&& 0x1F) <<< 5 ||| rt &&& 0x1F

unfoldable pub gen_reg_mem : ℕ → ℕ → ℕ → Bool → ℕ → Option ℕ
gen_reg_mem rt rn rm load size = elim (reg_mem_size size) [
  | none ↦ none
  | some mo ↦ some (reg_mem_registers (reg_mem_word load mo) rt rn rm)
]

unfoldable pub gen_str_x_imm : ℕ → ℕ → ℕ → ℕ
gen_str_x_imm rt rn imm12 =
    0xF9000000 ||| (imm12 &&& 0xFFF) <<< 10 ||| (rn &&& 0x1F) <<< 5 ||| rt &&& 0x1F

unfoldable pub gen_stp_x : ℕ → ℕ → ℕ → ℕ → ℕ
gen_stp_x rt1 rt2 rn offset =
    0b10 <<< 30
    ||| 0b101 <<< 27
    ||| 0b0 <<< 26
    ||| 0b010 <<< 23
    ||| (quot32 offset 8 &&& 0x7F) <<< 15
    ||| (rt2 &&& 0x1F) <<< 10
    ||| (rn &&& 0x1F) <<< 5
    ||| rt1 &&& 0x1F

unfoldable pub gen_ldp_x : ℕ → ℕ → ℕ → ℕ → ℕ
gen_ldp_x rt1 rt2 rn offset =
    0b10 <<< 30
    ||| 0b101 <<< 27
    ||| 0 <<< 26
    ||| 0b010 <<< 23
    ||| 1 <<< 22
    ||| (quot32 offset 8 &&& 0x7F) <<< 15
    ||| (rt2 &&& 0x1F) <<< 10
    ||| (rn &&& 0x1F) <<< 5
    ||| rt1 &&& 0x1F
