-- ===== src/Arm64/Isa.antt =====
-- The A64 instructions that the back end writes, read off their words: the encoding tables of the
-- Arm Architecture Reference Manual. This is the specification that the encoders are held against,
-- and no code of the repository.
use temp_esas.Prelude.{
  ℕ, ◌+◌, ◌*◌, ◌/◌, ◌%◌, ◌^◌, Bool, ◌&&◌, Option, none, some, ◌==◌, ltb, if◌then◌else◌, ◌≡◌, ◌-◌,
}

-- Registers by number; 31 is the zero register, or the stack pointer where the manual says so.
-- Immediates as they stand in the word.
pub data Insn : Type 0 where
  movz movk : ℕ → ℕ → ℕ → ℕ → Insn
  orr add_reg sub_reg subs_reg sdiv udiv : ℕ → ℕ → ℕ → Insn
  add_imm sub_imm : ℕ → ℕ → ℕ → Insn
  madd msub : ℕ → ℕ → ℕ → ℕ → Insn
  csinc : ℕ → ℕ → ℕ → ℕ → Insn
  ubfm : ℕ → ℕ → ℕ → ℕ → Insn
  adr : ℕ → ℕ → Insn
  ldr_imm str_imm : ℕ → ℕ → ℕ → Insn
  ldr_uxtw str_uxtw : ℕ → ℕ → ℕ → ℕ → Insn
  stp ldp stp_pre ldp_post : ℕ → ℕ → ℕ → ℕ → Insn
  b_cond : ℕ → ℕ → Insn
  b bl : ℕ → Insn
  br blr ret : ℕ → Insn
  nop : Insn

-- `len` bits of `w` from bit `lo` up.
abbrev pub bits : ℕ → ℕ → ℕ → ℕ
bits w lo len = w / 2 ^ lo % 2 ^ len

abbrev when : Bool → Insn → Option Insn
when fixed i = if fixed then some i else none

-- Data processing on two registers with a plain second operand: shift and amount are zero.
abbrev shifted : (ℕ → ℕ → ℕ → Insn) → ℕ → ℕ → ℕ → Option Insn
shifted insn kind amount w =
    when (kind == 0 && amount == 0) (insn (bits w 0 5) (bits w 5 5) (bits w 16 5))

abbrev move_wide : (ℕ → ℕ → ℕ → ℕ → Insn) → ℕ → Bool → ℕ → Option Insn
move_wide insn width fixed w = when fixed (insn width (bits w 0 5) (bits w 21 2) (bits w 5 16))

abbrev immediate : (ℕ → ℕ → ℕ → Insn) → ℕ → Option Insn
immediate insn w = some (insn (bits w 0 5) (bits w 5 5) (bits w 10 12))

-- Loads and stores with an unsigned offset in units of eight bytes.
abbrev unsigned_offset : ℕ → ℕ → Option Insn
unsigned_offset opc w =
    if opc == 1 then immediate ldr_imm w else if opc == 0 then immediate str_imm w else none

-- Loads and stores with a register offset, the register's low word zero-extended and not shifted.
abbrev register_offset : ℕ → ℕ → ℕ → ℕ → Option Insn
register_offset size opc extend w =
    if extend == 0x12
    then (if opc == 3
        then some (ldr_uxtw size (bits w 0 5) (bits w 5 5) (bits w 16 5))
        else when (opc == 1) (str_uxtw size (bits w 0 5) (bits w 5 5) (bits w 16 5)))
    else none

abbrev pair : (ℕ → ℕ → ℕ → ℕ → Insn) → ℕ → Option Insn
pair insn w = some (insn (bits w 0 5) (bits w 10 5) (bits w 5 5) (bits w 15 7))

abbrev pair_offset : ℕ → ℕ → Option Insn
pair_offset mode w =
    if mode == 0
    then pair stp w
    else if mode == 1
    then pair ldp w
    else if mode == 2
    then pair stp_pre w
    else none

-- Division and conditional select share the top byte.
abbrev two_source : ℕ → ℕ → ℕ → Option Insn
two_source kind op w =
    if kind == 6
    then (if op == 3
        then some (sdiv (bits w 0 5) (bits w 5 5) (bits w 16 5))
        else when (op == 2) (udiv (bits w 0 5) (bits w 5 5) (bits w 16 5)))
    else when (kind == 4 && op % 4 == 1)
        (csinc (bits w 0 5) (bits w 5 5) (bits w 16 5) (bits w 12 4))

abbrev three_source : ℕ → ℕ → ℕ → Option Insn
three_source kind o0 w =
    if kind == 0
    then some
        ((if o0 == 0 then madd else msub) (bits w 0 5) (bits w 5 5) (bits w 16 5) (bits w 10 5))
    else none

abbrev branch_register : ℕ → ℕ → ℕ → Option Insn
branch_register opc fixed w =
    if fixed == 0x7C0 && bits w 0 5 == 0
    then (if opc == 0
        then some (br (bits w 5 5))
        else if opc == 1
        then some (blr (bits w 5 5))
        else when (opc == 2) (ret (bits w 5 5)))
    else none

-- The branches and `adr` keep offset bits in the top byte.
abbrev wide_offset : ℕ → ℕ → Option Insn
wide_offset top w =
    if top / 4 == 0x05
    then some (b (bits w 0 26))
    else if top / 4 == 0x25
    then some (bl (bits w 0 26))
    else when (top / 128 == 0 && top % 32 == 0x10)
        (adr (bits w 0 5) (bits w 5 19 * 4 + bits w 29 2))

unfoldable pub decode_top : ℕ → ℕ → Option Insn
decode_top top w =
    if top == 0xD2
    then move_wide movz 64 (bits w 23 1 == 1) w
    else if top == 0xF2
    then move_wide movk 64 (bits w 23 1 == 1) w
    else if top == 0x52
    then move_wide movz 32 (bits w 22 2 == 2) w
    else if top == 0x72
    then move_wide movk 32 (bits w 22 2 == 2) w
    else if top == 0xAA
    then shifted orr (bits w 21 3) (bits w 10 6) w
    else if top == 0x8B
    then shifted add_reg (bits w 21 3) (bits w 10 6) w
    else if top == 0xCB
    then shifted sub_reg (bits w 21 3) (bits w 10 6) w
    else if top == 0xEB
    then shifted subs_reg (bits w 21 3) (bits w 10 6) w
    else if top == 0x91
    then (if bits w 22 2 == 0 then immediate add_imm w else none)
    else if top == 0xD1
    then (if bits w 22 2 == 0 then immediate sub_imm w else none)
    else if top == 0xF9
    then unsigned_offset (bits w 22 2) w
    else if top == 0x38
    then register_offset 1 (bits w 21 3) (bits w 10 6) w
    else if top == 0x78
    then register_offset 2 (bits w 21 3) (bits w 10 6) w
    else if top == 0xB8
    then register_offset 4 (bits w 21 3) (bits w 10 6) w
    else if top == 0xF8
    then register_offset 8 (bits w 21 3) (bits w 10 6) w
    else if top == 0xA9
    then pair_offset (bits w 22 2) w
    else if top == 0xA8
    then (if bits w 22 2 == 3 then pair ldp_post w else none)
    else if top == 0x9A
    then two_source (bits w 21 3) (bits w 10 6) w
    else if top == 0x9B
    then three_source (bits w 21 3) (bits w 15 1) w
    else if top == 0xD3
    then (if bits w 22 2 == 1
        then some (ubfm (bits w 0 5) (bits w 5 5) (bits w 16 6) (bits w 10 6))
        else none)
    else if top == 0x54
    then when (bits w 4 1 == 0) (b_cond (bits w 0 4) (bits w 5 19))
    else if top == 0xD6
    then branch_register (bits w 21 3) (bits w 10 11) w
    else if top == 0xD5
    then when (w == 0xD503201F) nop
    else wide_offset top w

unfoldable pub decode : ℕ → Option Insn
unfolding decode_top
decode w = decode_top (w / 2 ^ 24) w

-- Decoding goes by the top byte; what is left computes where that is known.
pub decode-top : (top w : ℕ) → w / 2 ^ 24 ≡ top → decode w ≡ decode_top top w
unfolding decode
decode-top top w h = rw h

-- Where a branch at word `pc` goes: its offset field of `len` bits is signed and counts words.
abbrev pub branch_target : ℕ → ℕ → ℕ → ℕ
branch_target len field pc = if ltb field (2 ^ (len - 1)) then pc + field else pc + field - 2 ^ len

-- Where a branch word at index `pc` goes; `none` for a word that is no branch to an offset.
abbrev insn_target : ℕ → Insn → Option ℕ
insn_target pc (b_cond c field) = some (branch_target 19 field pc)
insn_target pc (b field) = some (branch_target 26 field pc)
insn_target pc (bl field) = some (branch_target 26 field pc)
insn_target pc _ = none

unfoldable pub word_target : ℕ → ℕ → Option ℕ
word_target pc w = elim (decode w) [ none ↦ none | some i ↦ insn_target pc i ]
