-- ===== src/Arm64/Encoding/Arith.antt =====
-- Arithmetic, compare, conditional set, moves and `lsl`.
use temp_esas.Prelude.{
  ℕ, ◌+◌, ◌-◌, ◌*◌, ◌/◌, ◌%◌, ◌^◌, ◌<◌, ◌≡◌, ◌∙◌, refl, arith, [], ◌∷◌, some, ◌==◌, if◌then◌else◌,
}
use temp_esas.Bits.{or_fields_last, or-add, and_reg, and_low}
use temp_esas.Arm64.Word.{sub32}
use temp_esas.Arm64.Backend.{
  ConditionCode, cond_eq, cond_ne, cond_lt, cond_gt, cond_bits, gen_movz_x, gen_movk_x, gen_movz_w,
  gen_movk_w, gen_mov_x, gen_add_x_reg, gen_add_x_imm, gen_sub_x_reg, gen_sub_x_imm, gen_sdiv_x,
  gen_udiv_x, gen_mul_x, gen_msub_x, gen_cmp_x, gen_cset_x, gen_lsl_x_imm,
}
use temp_esas.Arm64.Isa.{
  decode, decode_top, decode-top, movz, movk, orr, add_reg, sub_reg, subs_reg, sdiv, udiv, madd,
  msub, add_imm, sub_imm, csinc, ubfm,
}
use temp_esas.Arm64.Encoding.Sums

-- For register numbers below 32, each register-register encoder writes the word of the
-- instruction that it is named after: `mul` is `madd` with the zero register, `cmp` is `subs`
-- into it, `mov` is `orr` from it.
pub decode-gen_registers :
    (rd rn rm ra : ℕ)
    → rd < 32
    → rn < 32
    → rm < 32
    → ra < 32
    → (decode (gen_add_x_reg rd rn rm) ≡ some (add_reg rd rn rm))
      × (decode (gen_sub_x_reg rd rn rm) ≡ some (sub_reg rd rn rm))
      × (decode (gen_sdiv_x rd rn rm) ≡ some (sdiv rd rn rm))
      × (decode (gen_udiv_x rd rn rm) ≡ some (udiv rd rn rm))
      × (decode (gen_mul_x rd rn rm) ≡ some (madd rd rn rm 31))
      × (decode (gen_msub_x rd rn rm ra) ≡ some (msub rd rn rm ra))
      × (decode (gen_cmp_x rn rm) ≡ some (subs_reg 31 rn rm))
      × (decode (gen_mov_x rd rn) ≡ some (orr rd 31 rn))
unfolding decode_top
decode-gen_registers rd rn rm ra hd hn hm ha = (
  rw (Sums.gen_add_x_reg-sum rd rn rm hd hn hm) (decode-top 0x8B _ (omega arith) ∙ ground arith),
  rw (Sums.gen_sub_x_reg-sum rd rn rm hd hn hm) (decode-top 0xCB _ (omega arith) ∙ ground arith),
  rw (Sums.gen_sdiv_x-sum rd rn rm hd hn hm) (decode-top 0x9A _ (omega arith) ∙ ground arith),
  rw (Sums.gen_udiv_x-sum rd rn rm hd hn hm) (decode-top 0x9A _ (omega arith) ∙ ground arith),
  rw (Sums.gen_mul_x-sum rd rn rm hd hn hm) (decode-top 0x9B _ (omega arith) ∙ ground arith),
  rw (Sums.gen_msub_x-sum rd rn rm ra hd hn hm ha) (decode-top 0x9B _ (omega arith) ∙ ground arith),
  rw (Sums.gen_cmp_x-sum rn rm hn hm) (decode-top 0xEB _ (omega arith) ∙ ground arith),
  rw (Sums.gen_mov_x-sum rd rn hd hn) (decode-top 0xAA _ (omega arith) ∙ ground arith),
)

-- For register numbers below 32, a 16-bit and a 12-bit immediate and a shift below 64, the wide
-- moves (the 32-bit ones with the shift modulo 32) carry the 16 bits at the shift in units of 16,
-- and the immediate `add` and `sub` carry the 12 bits.
pub decode-gen_immediates :
    (rd rn imm16 imm12 shift : ℕ)
    → rd < 32
    → rn < 32
    → imm16 < 2 ^ 16
    → imm12 < 2 ^ 12
    → shift < 64
    → (decode (gen_movz_x rd imm16 shift) ≡ some (movz 64 rd (shift / 16) imm16))
      × (decode (gen_movk_x rd imm16 shift) ≡ some (movk 64 rd (shift / 16) imm16))
      × (decode (gen_movz_w rd imm16 (shift % 32)) ≡ some (movz 32 rd (shift % 32 / 16) imm16))
      × (decode (gen_movk_w rd imm16 (shift % 32)) ≡ some (movk 32 rd (shift % 32 / 16) imm16))
      × (decode (gen_add_x_imm rd rn imm12) ≡ some (add_imm rd rn imm12))
      × (decode (gen_sub_x_imm rd rn imm12) ≡ some (sub_imm rd rn imm12))
unfolding decode_top
decode-gen_immediates rd rn imm16 imm12 shift hd hn h16 h12 hs = (
  rw (Sums.gen_movz_x-sum rd imm16 shift hd h16 hs)
      (decode-top 0xD2 _ (omega arith) ∙ ground arith),
  rw (Sums.gen_movk_x-sum rd imm16 shift hd h16 hs)
      (decode-top 0xF2 _ (omega arith) ∙ ground arith),
  rw (Sums.gen_movz_w-sum rd imm16 (shift % 32) hd h16 (omega arith))
      (decode-top 0x52 _ (omega arith) ∙ ground arith),
  rw (Sums.gen_movk_w-sum rd imm16 (shift % 32) hd h16 (omega arith))
      (decode-top 0x72 _ (omega arith) ∙ ground arith),
  rw (Sums.gen_add_x_imm-sum rd rn imm12 hd hn h12)
      (decode-top 0x91 _ (omega arith) ∙ ground arith),
  rw (Sums.gen_sub_x_imm-sum rd rn imm12 hd hn h12)
      (decode-top 0xD1 _ (omega arith) ∙ ground arith),
)

-- A condition code and its negation differ in the lowest bit.
abbrev pub inverted : ℕ → ℕ
inverted c = if c % 2 == 0 then c + 1 else c - 1

-- For a register number below 32, `cset` is `csinc` of the zero register under the opposite
-- condition.
pub decode-gen_cset_x :
    (rd : ℕ) (c : ConditionCode)
    → rd < 32
    → decode (gen_cset_x rd c) ≡ some (csinc rd 31 31 (inverted (cond_bits c)))
unfolding decode_top gen_cset_x
decode-gen_cset_x rd cond_eq hd =
    rw (and_reg rd hd, or-add 5 0x9A9F17E0 rd refl hd)
      (decode-top 0x9A _ (omega arith) ∙ ground arith)
decode-gen_cset_x rd cond_ne hd =
    rw (and_reg rd hd, or-add 5 0x9A9F07E0 rd refl hd)
      (decode-top 0x9A _ (omega arith) ∙ ground arith)
decode-gen_cset_x rd cond_lt hd =
    rw (and_reg rd hd, or-add 5 0x9A9FA7E0 rd refl hd)
      (decode-top 0x9A _ (omega arith) ∙ ground arith)
decode-gen_cset_x rd cond_gt hd =
    rw (and_reg rd hd, or-add 5 0x9A9FD7E0 rd refl hd)
      (decode-top 0x9A _ (omega arith) ∙ ground arith)

lsl-sum :
    (rd rn shift : ℕ)
    → rd < 32
    → rn < 32
    → shift < 64
    → gen_lsl_x_imm rd rn shift
      ≡ 0xD3400000 + (64 - shift) % 64 * 2 ^ 16 + (63 - shift) * 2 ^ 10 + rn * 2 ^ 5 + rd
unfolding gen_lsl_x_imm
lsl-sum rd rn shift hd hn hs =
    rw (and_reg rd hd, and_reg rn hn, and_low 6 (sub32 64 shift), and_low 6 (sub32 63 shift))
      (omega (
        arith,
        or_fields_last 0xD3400000
            ((sub32 64 shift % 64, 16, 22) ∷ (sub32 63 shift % 64, 10, 16) ∷ (rn, 5, 10) ∷ []) 5 rd
            (omega arith) (omega arith) hd,
      ))

-- For register numbers below 32 and a shift below 64, `lsl` is the bit-field move with (64 -
-- shift) mod 64 and 63 - shift.
pub decode-gen_lsl_x_imm :
    (rd rn shift : ℕ)
    → rd < 32
    → rn < 32
    → shift < 64
    → decode (gen_lsl_x_imm rd rn shift) ≡ some (ubfm rd rn ((64 - shift) % 64) (63 - shift))
unfolding decode_top
decode-gen_lsl_x_imm rd rn shift hd hn hs =
    rw (lsl-sum rd rn shift hd hn hs) (decode-top 0xD3 _ (omega arith) ∙ ground arith)
