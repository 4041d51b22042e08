-- ===== src/Tests/Encodings.antt =====
-- Words of the encoders, and patched words.
use temp_esas.Prelude.{◌^◌, ◌-◌, ◌≡◌, arith, some, ◌>>=◌, false}
use temp_esas.Arm64.Backend.{
  cond_eq, gen_add_x_reg, gen_sub_x_reg, gen_sdiv_x, gen_udiv_x, gen_mul_x, gen_msub_x, gen_cmp_x,
  gen_mov_x, gen_movz_x, gen_movk_x, gen_movz_w, gen_movk_w, gen_add_x_imm, gen_sub_x_imm,
  gen_ldr_x_imm, gen_str_x_imm, gen_reg_mem, gen_stp_x, gen_ldp_x, gen_bcond, gen_b, gen_bl, gen_br,
  gen_blr, gen_adr, gen_ret, gen_nop,
}
use temp_esas.Arm64.Isa.{
  decode, add_reg, sub_reg, sdiv, udiv, madd, msub, subs_reg, orr, movz, movk, add_imm, sub_imm,
  ldr_imm, str_imm, str_uxtw, stp, ldp, b_cond, b, bl, br, blr, adr, ret, nop,
}
use temp_esas.Arm64.Encoding.Arith.{decode-gen_registers, decode-gen_immediates}
use temp_esas.Arm64.Encoding.Memory.{decode-gen_reg_mem}
use temp_esas.Arm64.Encoding.Forms.{decode-gen_transfers}
use temp_esas.Arm64.Encoding.Branch.{decode-gen_branches}

decode-gen_registers_example :
    (decode (gen_add_x_reg 2 3 4) ≡ some (add_reg 2 3 4))
    × (decode (gen_sub_x_reg 2 3 4) ≡ some (sub_reg 2 3 4))
    × (decode (gen_sdiv_x 2 3 4) ≡ some (sdiv 2 3 4))
    × (decode (gen_udiv_x 2 3 4) ≡ some (udiv 2 3 4))
    × (decode (gen_mul_x 2 3 4) ≡ some (madd 2 3 4 31))
    × (decode (gen_msub_x 2 3 4 5) ≡ some (msub 2 3 4 5))
    × (decode (gen_cmp_x 3 4) ≡ some (subs_reg 31 3 4))
    × (decode (gen_mov_x 2 3) ≡ some (orr 2 31 3))
decode-gen_registers_example =
    decode-gen_registers 2 3 4 5 (omega arith) (omega arith) (omega arith) (omega arith)

decode-gen_immediates_example :
    (decode (gen_movz_x 9 0xBEEF 48) ≡ some (movz 64 9 3 0xBEEF))
    × (decode (gen_movk_x 9 0xBEEF 48) ≡ some (movk 64 9 3 0xBEEF))
    × (decode (gen_movz_w 9 0xBEEF 16) ≡ some (movz 32 9 1 0xBEEF))
    × (decode (gen_movk_w 9 0xBEEF 16) ≡ some (movk 32 9 1 0xBEEF))
    × (decode (gen_add_x_imm 9 31 16) ≡ some (add_imm 9 31 16))
    × (decode (gen_sub_x_imm 9 31 16) ≡ some (sub_imm 9 31 16))
decode-gen_immediates_example =
    decode-gen_immediates 9 31 0xBEEF 16 48 (omega arith) (omega arith) (omega arith) (omega arith)
      (omega arith)

decode-gen_transfers_example :
    (decode (gen_ldr_x_imm 29 31 15) ≡ some (ldr_imm 29 31 15))
    × (decode (gen_str_x_imm 29 31 15) ≡ some (str_imm 29 31 15))
    × (decode (gen_stp_x 29 30 31 (2 ^ 32 - 16)) ≡ some (stp 29 30 31 126))
    × (decode (gen_ldp_x 29 30 31 (2 ^ 32 - 16)) ≡ some (ldp 29 30 31 126))
decode-gen_transfers_example =
    decode-gen_transfers 29 30 31 15 126 (omega arith) (omega arith) (omega arith) (omega arith)
      (omega arith)

decode-gen_reg_mem_example : (gen_reg_mem 2 19 3 false 32 >>= decode) ≡ some (str_uxtw 4 2 19 3)
decode-gen_reg_mem_example =
    decode-gen_reg_mem false 2 2 19 3 (omega arith) (omega arith) (omega arith) (omega arith)

decode-gen_branches_example :
    (decode (gen_bcond cond_eq (2 ^ 32 - 3)) ≡ some (b_cond 0 (2 ^ 19 - 3)))
    × (decode (gen_b (2 ^ 32 - 3)) ≡ some (b (2 ^ 26 - 3)))
    × (decode (gen_bl (2 ^ 32 - 3)) ≡ some (bl (2 ^ 26 - 3)))
    × (decode (gen_br 9) ≡ some (br 9))
    × (decode (gen_blr 9) ≡ some (blr 9))
    × (decode (gen_adr 9 (2 ^ 32 - 3)) ≡ some (adr 9 (2 ^ 21 - 3)))
    × (decode gen_ret ≡ some (ret 30))
    × (decode gen_nop ≡ some nop)
decode-gen_branches_example = decode-gen_branches cond_eq (2 ^ 32 - 3) 9 (omega arith) (omega arith)
