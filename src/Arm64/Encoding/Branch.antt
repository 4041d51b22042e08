-- ===== src/Arm64/Encoding/Branch.antt =====
-- Branches, `adr` and the fixed words.
use temp_esas.Prelude.{
  ℕ, zero, suc, ◌+◌, ◌*◌, ◌/◌, ◌%◌, ◌^◌, ◌<◌, ◌≡◌, ◌∙◌, refl, arith, [], ◌∷◌, some, bit_and, bit_or,
}
use temp_esas.Bits.{or_fields_last, or_fields-add_fields, or-add, and_reg, and_low}
use temp_esas.Arm64.Word.{asr32}
use temp_esas.Arm64.Backend.{
  ConditionCode, cond_eq, cond_ne, cond_lt, cond_gt, cond_bits, gen_bcond, gen_b, gen_bl, gen_br,
  gen_blr, gen_adr, gen_ret, gen_nop, gen_prologue1, gen_prologue2, gen_epilogue,
}
use temp_esas.Arm64.Isa.{
  bits, decode, decode_top, decode-top, b_cond, b, bl, br, blr, ret, adr, nop, stp_pre, ldp_post,
  add_imm,
}

pub gen_b-sum : (offset : ℕ) → gen_b offset ≡ 0x14000000 + offset % 2 ^ 26
unfolding gen_b
gen_b-sum offset =
    rw (and_low 26 offset) (or-add 26 0x14000000 (offset % 2 ^ 26) refl (omega arith))

pub gen_bl-sum : (offset : ℕ) → gen_bl offset ≡ 0x94000000 + offset % 2 ^ 26
unfolding gen_bl
gen_bl-sum offset =
    rw (and_low 26 offset) (or-add 26 0x94000000 (offset % 2 ^ 26) refl (omega arith))

bcond_word :
    (offset code : ℕ)
    → code < 16
    → bit_or (bit_or 0x54000000 (bit_and offset 0x7FFFF * 2 ^ 5)) code
      ≡ 0x54000000 + offset % 2 ^ 19 * 2 ^ 5 + code
bcond_word offset code h = rw (and_low 19 offset) (
    or_fields_last 0x54000000 ((offset % 2 ^ 19, 5, 24) ∷ []) 5 code (omega arith) (omega arith)
      (omega arith))

pub gen_bcond-sum :
    (c : ConditionCode) (offset : ℕ)
    → gen_bcond c offset ≡ 0x54000000 + offset % 2 ^ 19 * 2 ^ 5 + cond_bits c
unfolding gen_bcond
gen_bcond-sum cond_eq offset = bcond_word offset 0 (omega arith)
gen_bcond-sum cond_ne offset = bcond_word offset 1 (omega arith)
gen_bcond-sum cond_lt offset = bcond_word offset 11 (omega arith)
gen_bcond-sum cond_gt offset = bcond_word offset 12 (omega arith)

pub cond_bits-lt : (c : ConditionCode) → cond_bits c < 16
cond_bits-lt cond_eq = omega arith
cond_bits-lt cond_ne = omega arith
cond_bits-lt cond_lt = omega arith
cond_bits-lt cond_gt = omega arith

br-sum : (rn : ℕ) → rn < 32 → gen_br rn ≡ 0xD61F0000 + rn * 2 ^ 5
unfolding gen_br
br-sum rn h = rw (and_reg rn h) (or_fields-add_fields 0xD61F0000 ((rn, 5, 10) ∷ []) (omega arith))

blr-sum : (rn : ℕ) → rn < 32 → gen_blr rn ≡ 0xD63F0000 + rn * 2 ^ 5
unfolding gen_blr
blr-sum rn h = rw (and_reg rn h) (or_fields-add_fields 0xD63F0000 ((rn, 5, 10) ∷ []) (omega arith))

adr-sum :
    (rd offset : ℕ)
    → rd < 32
    → offset < 2 ^ 32
    → gen_adr rd offset ≡ offset % 4 * 2 ^ 29 + 0x10000000 + offset / 4 % 2 ^ 19 * 2 ^ 5 + rd
unfolding gen_adr
adr-sum rd offset hd ho =
    rw (and_reg rd hd, and_low 2 offset, and_low 19 (asr32 offset 2))
      (ground (
        arith,
        or_fields_last 0
            ((offset % 4, 29, 31) ∷ (16, 24, 29) ∷ (asr32 offset 2 % 2 ^ 19, 5, 24) ∷ []) 5 rd
            (omega arith) (omega arith) hd,
      ))

-- Four top bytes hold the two highest bits of an offset.
decode_b : (k w : ℕ) → k < 4 → w / 2 ^ 24 ≡ 0x14 + k → decode w ≡ some (b (bits w 0 26))
unfolding decode_top
decode_b zero w h e = decode-top 0x14 w e
decode_b (suc zero) w h e = decode-top 0x15 w e
decode_b (suc (suc zero)) w h e = decode-top 0x16 w e
decode_b (suc (suc (suc zero))) w h e = decode-top 0x17 w e
decode_b (suc (suc (suc (suc k)))) w h e = absurd (omega arith)

decode_bl : (k w : ℕ) → k < 4 → w / 2 ^ 24 ≡ 0x94 + k → decode w ≡ some (bl (bits w 0 26))
unfolding decode_top
decode_bl zero w h e = decode-top 0x94 w e
decode_bl (suc zero) w h e = decode-top 0x95 w e
decode_bl (suc (suc zero)) w h e = decode-top 0x96 w e
decode_bl (suc (suc (suc zero))) w h e = decode-top 0x97 w e
decode_bl (suc (suc (suc (suc k)))) w h e = absurd (omega arith)

decode_adr :
    (k w : ℕ)
    → k < 4
    → w / 2 ^ 24 ≡ 0x10 + 0x20 * k
    → decode w ≡ some (adr (bits w 0 5) (bits w 5 19 * 4 + bits w 29 2))
unfolding decode_top
decode_adr zero w h e = decode-top 0x10 w e
decode_adr (suc zero) w h e = decode-top 0x30 w e
decode_adr (suc (suc zero)) w h e = decode-top 0x50 w e
decode_adr (suc (suc (suc zero))) w h e = decode-top 0x70 w e
decode_adr (suc (suc (suc (suc k)))) w h e = absurd (omega arith)

-- For a 32-bit offset and a register number below 32, the branch encoders write the branch that
-- they are named after, with the offset modulo the width of its field, and `adr` with the low 21
-- bits of its byte offset; `ret` and `nop` are those instructions.
pub decode-gen_branches :
    (c : ConditionCode) (offset rn : ℕ)
    → offset < 2 ^ 32
    → rn < 32
    → (decode (gen_bcond c offset) ≡ some (b_cond (cond_bits c) (offset % 2 ^ 19)))
      × (decode (gen_b offset) ≡ some (b (offset % 2 ^ 26)))
      × (decode (gen_bl offset) ≡ some (bl (offset % 2 ^ 26)))
      × (decode (gen_br rn) ≡ some (br rn))
      × (decode (gen_blr rn) ≡ some (blr rn))
      × (decode (gen_adr rn offset) ≡ some (adr rn (offset % 2 ^ 21)))
      × (decode gen_ret ≡ some (ret 30))
      × (decode gen_nop ≡ some nop)
unfolding decode_top gen_ret gen_nop
decode-gen_branches c offset rn ho hn = (
  rw (gen_bcond-sum c offset)
      (decode-top 0x54 _ (omega (arith, cond_bits-lt c)) ∙ ground (arith, cond_bits-lt c)),
  rw (gen_b-sum offset)
      (decode_b (offset % 2 ^ 26 / 2 ^ 24) _ (omega arith) (omega arith) ∙ ground arith),
  rw (gen_bl-sum offset)
      (decode_bl (offset % 2 ^ 26 / 2 ^ 24) _ (omega arith) (omega arith) ∙ ground arith),
  rw (br-sum rn hn) (decode-top 0xD6 _ (omega arith) ∙ ground arith),
  rw (blr-sum rn hn) (decode-top 0xD6 _ (omega arith) ∙ ground arith),
  rw (adr-sum rn offset hn ho)
      (decode_adr (offset % 4) _ (omega arith) (omega arith) ∙ ground arith),
  decode-top 0xD6 gen_ret refl,
  decode-top 0xD5 gen_nop refl,
)

-- The frame set-up of a `CALL` target, whose comments name x29 and x30, stores and reloads x16
-- with x30: register 29 is overwritten with the stack pointer and never saved.
pub decode-gen_frame :
    (decode gen_prologue1 ≡ some (stp_pre 16 30 31 0x7E))
    × (decode gen_prologue2 ≡ some (add_imm 29 31 0))
    × (decode gen_epilogue ≡ some (ldp_post 16 30 31 2))
unfolding decode_top gen_prologue1 gen_prologue2 gen_epilogue
decode-gen_frame = (
  decode-top 0xA9 gen_prologue1 refl,
  decode-top 0x91 gen_prologue2 refl,
  decode-top 0xA8 gen_epilogue refl,
)
