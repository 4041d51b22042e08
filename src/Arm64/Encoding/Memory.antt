-- ===== src/Arm64/Encoding/Memory.antt =====
-- Loads, stores and the pairs of the frame set-up.
use temp_esas.Prelude.{
  ℕ, zero, suc, ◌+◌, ◌*◌, ◌^◌, ◌<◌, ◌≡◌, ◌∙◌, refl, arith, [], ◌∷◌, Bool, true, false, some, ◌==◌,
  if◌then◌else◌, ◌>>=◌, ==→eq, ◌-◌, ltb, bit_and,
}
use temp_esas.Bits.{or_fields_last, and_reg, and_low, ◌|||◌, ◌<<<◌, check_below, check_below_sound}
use temp_esas.Arm64.Word.{quot32}
use temp_esas.Arm64.Backend.{
  gen_ldr_x_imm, gen_str_x_imm, gen_reg_mem, gen_stp_x, gen_ldp_x, reg_mem_word, reg_mem_registers,
}
use temp_esas.Arm64.Isa.{
  decode, decode_top, decode-top, ldr_imm, str_imm, ldr_uxtw, str_uxtw, stp, ldp,
}
use temp_esas.Arm64.Encoding.Sums

-- For register numbers below 32 and a slot below 2^12, access to a virtual register is a 64-bit
-- load or store with the slot number as its offset in units of eight bytes.
pub decode-gen_x_imm :
    (rt rn imm12 : ℕ)
    → rt < 32
    → rn < 32
    → imm12 < 2 ^ 12
    → (decode (gen_ldr_x_imm rt rn imm12) ≡ some (ldr_imm rt rn imm12))
      × (decode (gen_str_x_imm rt rn imm12) ≡ some (str_imm rt rn imm12))
unfolding decode_top
decode-gen_x_imm rt rn imm12 ht hn hi = (
  rw (Sums.gen_ldr_x_imm-sum rt rn imm12 ht hn hi) (decode-top 0xF9 _ (omega arith) ∙ ground arith),
  rw (Sums.gen_str_x_imm-sum rt rn imm12 ht hn hi) (decode-top 0xF9 _ (omega arith) ∙ ground arith),
)

-- The constant has bits on both sides of the field at bit 16, so all registers are tried.
rm_field : ℕ → ℕ → Bool
rm_field word rm = (word ||| rm <<< 16) == word + rm * 2 ^ 16

rm_field_table :
    (load : Bool) (mo : ℕ) → mo < 4 → check_below 32 (rm_field (reg_mem_word load mo)) ≡ true
unfolding rm_field
rm_field_table true zero h = refl
rm_field_table true (suc zero) h = refl
rm_field_table true (suc (suc zero)) h = refl
rm_field_table true (suc (suc (suc zero))) h = refl
rm_field_table true (suc (suc (suc (suc mo)))) h = absurd (omega arith)
rm_field_table false zero h = refl
rm_field_table false (suc zero) h = refl
rm_field_table false (suc (suc zero)) h = refl
rm_field_table false (suc (suc (suc zero))) h = refl
rm_field_table false (suc (suc (suc (suc mo)))) h = absurd (omega arith)

rm_field_lem :
    (load : Bool) (mo rm : ℕ)
    → mo < 4
    → rm < 32
    → (reg_mem_word load mo ||| rm <<< 16) ≡ reg_mem_word load mo + rm * 2 ^ 16
unfolding rm_field
rm_field_lem load mo rm h hm =
    ==→eq _ _
      (check_below_sound 32 (rm_field (reg_mem_word load mo)) rm (rm_field_table load mo h) hm)

-- The opcode as a sum: bits 11, 14 and 21, the direction at bit 22 and the size at bit 30.
reg_mem_word-sum :
    (load : Bool) (mo : ℕ)
    → mo < 4
    → reg_mem_word load mo ≡ 0x38204800 + (if load then 2 ^ 22 else 0) + mo * 2 ^ 30
reg_mem_word-sum load zero h = ground arith
reg_mem_word-sum load (suc zero) h = ground arith
reg_mem_word-sum load (suc (suc zero)) h = ground arith
reg_mem_word-sum load (suc (suc (suc zero))) h = ground arith
reg_mem_word-sum load (suc (suc (suc (suc mo)))) h = absurd (omega arith)

registers-sum :
    (load : Bool) (mo rt rn rm : ℕ)
    → mo < 4
    → rt < 32
    → rn < 32
    → rm < 32
    → reg_mem_registers (reg_mem_word load mo) rt rn rm
      ≡ 0x38204800 + (if load then 2 ^ 22 else 0) + mo * 2 ^ 30 + rm * 2 ^ 16 + rn * 2 ^ 5 + rt
registers-sum load mo rt rn rm h ht hn hm =
    rw (and_reg rm hm, and_reg rn hn, and_reg rt ht, rm_field_lem load mo rm h hm)
      (rw (reg_mem_word-sum load mo h)
        (elim load
          as (λ (b : Bool).
            (let word = 0x38204800 + (if b then 2 ^ 22 else 0) + mo * 2 ^ 30 + rm * 2 ^ 16 in
              (word ||| rn <<< 5 ||| rt) ≡ word + rn * 2 ^ 5 + rt)) [
                | true ↦ omega (
                  arith,
                  or_fields_last (0x38604800 + mo * 2 ^ 30 + rm * 2 ^ 16) ((rn, 5, 10) ∷ []) 5 rt
                      (omega arith) (omega arith) ht,
                )
                | false ↦ omega (
                  arith,
                  or_fields_last (0x38204800 + mo * 2 ^ 30 + rm * 2 ^ 16) ((rn, 5, 10) ∷ []) 5 rt
                      (omega arith) (omega arith) ht,
                )
              ]))

registers_decode :
    (load : Bool) (mo rt rn rm : ℕ)
    → mo < 4
    → rt < 32
    → rn < 32
    → rm < 32
    → decode (reg_mem_registers (reg_mem_word load mo) rt rn rm)
      ≡ some (if load then ldr_uxtw (2 ^ mo) rt rn rm else str_uxtw (2 ^ mo) rt rn rm)
unfolding decode_top
registers_decode true zero rt rn rm h ht hn hm =
    rw (registers-sum true 0 rt rn rm h ht hn hm) (decode-top 0x38 _ (omega arith) ∙ ground arith)
registers_decode true (suc zero) rt rn rm h ht hn hm =
    rw (registers-sum true 1 rt rn rm h ht hn hm) (decode-top 0x78 _ (omega arith) ∙ ground arith)
registers_decode true (suc (suc zero)) rt rn rm h ht hn hm =
    rw (registers-sum true 2 rt rn rm h ht hn hm) (decode-top 0xB8 _ (omega arith) ∙ ground arith)
registers_decode true (suc (suc (suc zero))) rt rn rm h ht hn hm =
    rw (registers-sum true 3 rt rn rm h ht hn hm) (decode-top 0xF8 _ (omega arith) ∙ ground arith)
registers_decode true (suc (suc (suc (suc mo)))) rt rn rm h ht hn hm = absurd (omega arith)
registers_decode false zero rt rn rm h ht hn hm =
    rw (registers-sum false 0 rt rn rm h ht hn hm) (decode-top 0x38 _ (omega arith) ∙ ground arith)
registers_decode false (suc zero) rt rn rm h ht hn hm =
    rw (registers-sum false 1 rt rn rm h ht hn hm) (decode-top 0x78 _ (omega arith) ∙ ground arith)
registers_decode false (suc (suc zero)) rt rn rm h ht hn hm =
    rw (registers-sum false 2 rt rn rm h ht hn hm) (decode-top 0xB8 _ (omega arith) ∙ ground arith)
registers_decode false (suc (suc (suc zero))) rt rn rm h ht hn hm =
    rw (registers-sum false 3 rt rn rm h ht hn hm) (decode-top 0xF8 _ (omega arith) ∙ ground arith)
registers_decode false (suc (suc (suc (suc mo)))) rt rn rm h ht hn hm = absurd (omega arith)

-- For register numbers below 32 and an operand of 8, 16, 32 or 64 bits, the word of a guest
-- memory access decodes to a load or store of that many bytes at the base plus the low 32 bits of
-- the offset register, zero-extended.
pub decode-gen_reg_mem :
    (load : Bool) (mo rt rn rm : ℕ)
    → mo < 4
    → rt < 32
    → rn < 32
    → rm < 32
    → (gen_reg_mem rt rn rm load (8 * 2 ^ mo) >>= decode)
      ≡ some (if load then ldr_uxtw (2 ^ mo) rt rn rm else str_uxtw (2 ^ mo) rt rn rm)
unfolding gen_reg_mem
decode-gen_reg_mem load zero rt rn rm h = registers_decode load 0 rt rn rm h
decode-gen_reg_mem load (suc zero) rt rn rm h = registers_decode load 1 rt rn rm h
decode-gen_reg_mem load (suc (suc zero)) rt rn rm h = registers_decode load 2 rt rn rm h
decode-gen_reg_mem load (suc (suc (suc zero))) rt rn rm h = registers_decode load 3 rt rn rm h
decode-gen_reg_mem load (suc (suc (suc (suc mo)))) rt rn rm h = absurd (omega arith)

-- The byte offset that a pair's 7-bit field stands for, as an `int` pattern.
abbrev pub pair_bytes : ℕ → ℕ
pair_bytes imm7 = if ltb imm7 64 then imm7 * 8 else 2 ^ 32 - (128 - imm7) * 8

pair_field : (imm7 : ℕ) → imm7 < 128 → bit_and (quot32 (pair_bytes imm7) 8) 0x7F ≡ imm7
pair_field imm7 h = ground (arith, and_low 7 (quot32 (pair_bytes imm7) 8))

stp-sum :
    (rt1 rt2 rn imm7 : ℕ)
    → rt1 < 32
    → rt2 < 32
    → rn < 32
    → imm7 < 128
    → gen_stp_x rt1 rt2 rn (pair_bytes imm7)
      ≡ 0xA9000000 + imm7 * 2 ^ 15 + rt2 * 2 ^ 10 + rn * 2 ^ 5 + rt1
unfolding gen_stp_x
stp-sum rt1 rt2 rn imm7 h1 h2 hn hi =
    rw (and_reg rt1 h1, and_reg rt2 h2, and_reg rn hn, pair_field imm7 hi)
      (or_fields_last 0xA9000000 ((imm7, 15, 22) ∷ (rt2, 10, 15) ∷ (rn, 5, 10) ∷ []) 5 rt1
        (omega arith) (omega arith) h1)

ldp-sum :
    (rt1 rt2 rn imm7 : ℕ)
    → rt1 < 32
    → rt2 < 32
    → rn < 32
    → imm7 < 128
    → gen_ldp_x rt1 rt2 rn (pair_bytes imm7)
      ≡ 0xA9400000 + imm7 * 2 ^ 15 + rt2 * 2 ^ 10 + rn * 2 ^ 5 + rt1
unfolding gen_ldp_x
ldp-sum rt1 rt2 rn imm7 h1 h2 hn hi =
    rw (and_reg rt1 h1, and_reg rt2 h2, and_reg rn hn, pair_field imm7 hi)
      (or_fields_last 0xA9400000 ((imm7, 15, 22) ∷ (rt2, 10, 15) ∷ (rn, 5, 10) ∷ []) 5 rt1
        (omega arith) (omega arith) h1)

-- For register numbers below 32 and every multiple of eight from -512 to 504 as the byte offset,
-- the pair encoders write the load or store of the two registers with the offset divided by eight
-- in its 7-bit field.
pub decode-gen_pair :
    (rt1 rt2 rn imm7 : ℕ)
    → rt1 < 32
    → rt2 < 32
    → rn < 32
    → imm7 < 128
    → (decode (gen_stp_x rt1 rt2 rn (pair_bytes imm7)) ≡ some (stp rt1 rt2 rn imm7))
      × (decode (gen_ldp_x rt1 rt2 rn (pair_bytes imm7)) ≡ some (ldp rt1 rt2 rn imm7))
decode-gen_pair rt1 rt2 rn imm7 h1 h2 hn hi = (
  rw (stp-sum rt1 rt2 rn imm7 h1 h2 hn hi)
      (decode-top 0xA9 _ (omega arith) ∙ unfold decode_top in ground arith),
  rw (ldp-sum rt1 rt2 rn imm7 h1 h2 hn hi)
      (decode-top 0xA9 _ (omega arith) ∙ unfold decode_top in ground arith),
)
