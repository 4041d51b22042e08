-- ===== src/Arm64/Encoding/Sums.antt =====
-- The words of `Arm64.Backend` as sums of their fields, for registers below 32.
use temp_esas.Prelude.{ℕ, ◌+◌, ◌*◌, ◌/◌, ◌%◌, ◌^◌, ◌<◌, ◌≡◌, arith, [], ◌∷◌}
use temp_esas.Bits.{or_fields_last, and_reg, and_field}
use temp_esas.Arm64.Backend.{
  gen_movz_x, gen_movk_x, gen_movz_w, gen_movk_w, gen_mov_x, gen_ldr_x_imm, gen_str_x_imm,
  gen_add_x_reg, gen_add_x_imm, gen_sub_x_reg, gen_sub_x_imm, gen_sdiv_x, gen_udiv_x, gen_mul_x,
  gen_msub_x, gen_cmp_x,
}

module _ (reg imm16 shift : ℕ) (h_reg : reg < 32) (h_imm : imm16 < 2 ^ 16)
    (h_shift : shift < 64) where
  pub gen_movz_x-sum :
      gen_movz_x reg imm16 shift ≡ 0xD2800000 + shift / 16 * 2 ^ 21 + imm16 * 2 ^ 5 + reg
  unfolding gen_movz_x
  gen_movz_x-sum = rw (and_reg reg h_reg) (
      omega (
        arith,
        or_fields_last 0xD2800000 ((shift / 16, 21, 23) ∷ (imm16 % 2 ^ 16, 5, 21) ∷ []) 5 reg
            (omega arith) (omega arith) h_reg,
      ))

  pub gen_movk_x-sum :
      gen_movk_x reg imm16 shift ≡ 0xF2800000 + shift / 16 * 2 ^ 21 + imm16 * 2 ^ 5 + reg
  unfolding gen_movk_x
  gen_movk_x-sum = rw (and_reg reg h_reg) (
      omega (
        arith,
        or_fields_last 0xF2800000 ((shift / 16, 21, 23) ∷ (imm16 % 2 ^ 16, 5, 21) ∷ []) 5 reg
            (omega arith) (omega arith) h_reg,
      ))

  pub gen_movz_w-sum :
      gen_movz_w reg imm16 shift ≡ 0x52800000 + shift / 16 * 2 ^ 21 + imm16 * 2 ^ 5 + reg
  unfolding gen_movz_w
  gen_movz_w-sum = rw (and_reg reg h_reg) (
      omega (
        arith,
        or_fields_last 0x52800000 ((shift / 16, 21, 23) ∷ (imm16 % 2 ^ 16, 5, 21) ∷ []) 5 reg
            (omega arith) (omega arith) h_reg,
      ))

  pub gen_movk_w-sum :
      gen_movk_w reg imm16 shift ≡ 0x72800000 + shift / 16 * 2 ^ 21 + imm16 * 2 ^ 5 + reg
  unfolding gen_movk_w
  gen_movk_w-sum = rw (and_reg reg h_reg) (
      omega (
        arith,
        or_fields_last 0x72800000 ((shift / 16, 21, 23) ∷ (imm16 % 2 ^ 16, 5, 21) ∷ []) 5 reg
            (omega arith) (omega arith) h_reg,
      ))

module _ (rd rn rm : ℕ) (h_rd : rd < 32) (h_rn : rn < 32) (h_rm : rm < 32) where
  pub gen_add_x_reg-sum : gen_add_x_reg rd rn rm ≡ 0x8B000000 + rm * 2 ^ 16 + rn * 2 ^ 5 + rd
  unfolding gen_add_x_reg
  gen_add_x_reg-sum =
      rw (and_reg rd h_rd, and_reg rn h_rn, and_reg rm h_rm)
        (omega (
          arith,
          or_fields_last 0x8B000000 ((rm, 16, 21) ∷ (rn, 5, 10) ∷ []) 5 rd (omega arith)
              (omega arith) h_rd,
        ))

  pub gen_sub_x_reg-sum : gen_sub_x_reg rd rn rm ≡ 0xCB000000 + rm * 2 ^ 16 + rn * 2 ^ 5 + rd
  unfolding gen_sub_x_reg
  gen_sub_x_reg-sum =
      rw (and_reg rd h_rd, and_reg rn h_rn, and_reg rm h_rm)
        (omega (
          arith,
          or_fields_last 0xCB000000 ((rm, 16, 21) ∷ (rn, 5, 10) ∷ []) 5 rd (omega arith)
              (omega arith) h_rd,
        ))

  pub gen_sdiv_x-sum : gen_sdiv_x rd rn rm ≡ 0x9AC00C00 + rm * 2 ^ 16 + rn * 2 ^ 5 + rd
  unfolding gen_sdiv_x
  gen_sdiv_x-sum =
      rw (and_reg rd h_rd, and_reg rn h_rn, and_reg rm h_rm)
        (omega (
          arith,
          or_fields_last 0x9AC00000 ((rm, 16, 21) ∷ (3, 10, 12) ∷ (rn, 5, 10) ∷ []) 5 rd
              (omega arith) (omega arith) h_rd,
        ))

  pub gen_udiv_x-sum : gen_udiv_x rd rn rm ≡ 0x9AC00800 + rm * 2 ^ 16 + rn * 2 ^ 5 + rd
  unfolding gen_udiv_x
  gen_udiv_x-sum =
      rw (and_reg rd h_rd, and_reg rn h_rn, and_reg rm h_rm)
        (omega (
          arith,
          or_fields_last 0x9AC00000 ((rm, 16, 21) ∷ (2, 10, 12) ∷ (rn, 5, 10) ∷ []) 5 rd
              (omega arith) (omega arith) h_rd,
        ))

  pub gen_mul_x-sum : gen_mul_x rd rn rm ≡ 0x9B007C00 + rm * 2 ^ 16 + rn * 2 ^ 5 + rd
  unfolding gen_mul_x
  gen_mul_x-sum =
      rw (and_reg rd h_rd, and_reg rn h_rn, and_reg rm h_rm)
        (omega (
          arith,
          or_fields_last 0x9B000000 ((rm, 16, 21) ∷ (0, 15, 16) ∷ (31, 10, 15) ∷ (rn, 5, 10) ∷ []) 5
              rd (omega arith) (omega arith) h_rd,
        ))

module _ (rd rn rm ra : ℕ) (h_rd : rd < 32) (h_rn : rn < 32) (h_rm : rm < 32) (h_ra : ra < 32) where
  pub gen_msub_x-sum :
      gen_msub_x rd rn rm ra ≡ 0x9B008000 + rm * 2 ^ 16 + ra * 2 ^ 10 + rn * 2 ^ 5 + rd
  unfolding gen_msub_x
  gen_msub_x-sum =
      rw (and_reg rd h_rd, and_reg rn h_rn, and_reg rm h_rm, and_reg ra h_ra)
        (omega (
          arith,
          or_fields_last 0x9B000000 ((rm, 16, 21) ∷ (1, 15, 16) ∷ (ra, 10, 15) ∷ (rn, 5, 10) ∷ []) 5
              rd (omega arith) (omega arith) h_rd,
        ))

module _ (rd rn : ℕ) (h_rd : rd < 32) (h_rn : rn < 32) where
  pub gen_mov_x-sum : gen_mov_x rd rn ≡ 0xAA0003E0 + rn * 2 ^ 16 + rd
  unfolding gen_mov_x
  gen_mov_x-sum =
      rw (and_reg rd h_rd, and_reg rn h_rn)
        (omega (
          arith,
          or_fields_last 0xAA000000 ((rn, 16, 21) ∷ (31, 5, 10) ∷ []) 5 rd (omega arith)
              (omega arith) h_rd,
        ))

  pub gen_cmp_x-sum : gen_cmp_x rd rn ≡ 0xEB00001F + rn * 2 ^ 16 + rd * 2 ^ 5
  unfolding gen_cmp_x
  gen_cmp_x-sum =
      rw (and_reg rd h_rd, and_reg rn h_rn)
        (omega (
          arith,
          or_fields_last 0xEB000000 ((rn, 16, 21) ∷ (rd, 5, 10) ∷ []) 5 31 (omega arith)
              (omega arith) (omega arith),
        ))

module _ (rt rn imm12 : ℕ) (h_rt : rt < 32) (h_rn : rn < 32) (h_imm : imm12 < 2 ^ 12) where
  pub gen_ldr_x_imm-sum : gen_ldr_x_imm rt rn imm12 ≡ 0xF9400000 + imm12 * 2 ^ 10 + rn * 2 ^ 5 + rt
  unfolding gen_ldr_x_imm
  gen_ldr_x_imm-sum =
      rw (and_reg rt h_rt, and_reg rn h_rn, and_field 12 imm12 h_imm)
        (omega (
          arith,
          or_fields_last 0xF9400000 ((imm12, 10, 22) ∷ (rn, 5, 10) ∷ []) 5 rt (omega arith)
              (omega arith) h_rt,
        ))

  pub gen_str_x_imm-sum : gen_str_x_imm rt rn imm12 ≡ 0xF9000000 + imm12 * 2 ^ 10 + rn * 2 ^ 5 + rt
  unfolding gen_str_x_imm
  gen_str_x_imm-sum =
      rw (and_reg rt h_rt, and_reg rn h_rn, and_field 12 imm12 h_imm)
        (omega (
          arith,
          or_fields_last 0xF9000000 ((imm12, 10, 22) ∷ (rn, 5, 10) ∷ []) 5 rt (omega arith)
              (omega arith) h_rt,
        ))

  pub gen_add_x_imm-sum : gen_add_x_imm rt rn imm12 ≡ 0x91000000 + imm12 * 2 ^ 10 + rn * 2 ^ 5 + rt
  unfolding gen_add_x_imm
  gen_add_x_imm-sum =
      rw (and_reg rt h_rt, and_reg rn h_rn, and_field 12 (imm12 % 2 ^ 16) (omega arith))
        (omega (
          arith,
          or_fields_last 0x91000000 ((imm12 % 2 ^ 16, 10, 22) ∷ (rn, 5, 10) ∷ []) 5 rt (omega arith)
              (omega arith) h_rt,
        ))

  pub gen_sub_x_imm-sum : gen_sub_x_imm rt rn imm12 ≡ 0xD1000000 + imm12 * 2 ^ 10 + rn * 2 ^ 5 + rt
  unfolding gen_sub_x_imm
  gen_sub_x_imm-sum =
      rw (and_reg rt h_rt, and_reg rn h_rn, and_field 12 (imm12 % 2 ^ 16) (omega arith))
        (omega (
          arith,
          or_fields_last 0xD1000000 ((imm12 % 2 ^ 16, 10, 22) ∷ (rn, 5, 10) ∷ []) 5 rt (omega arith)
              (omega arith) h_rt,
        ))
