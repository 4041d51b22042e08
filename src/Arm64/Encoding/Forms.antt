-- ===== src/Arm64/Encoding/Forms.antt =====
-- The conditional set and the shift, which are forms of other instructions, and the loads and stores
-- with an immediate offset (jit_arm64_be.h).
use temp_esas.Prelude.{ℕ, ◌-◌, ◌%◌, ◌^◌, ◌<◌, ◌≡◌, some}
use temp_esas.Arm64.Backend.{
  ConditionCode, cond_bits, gen_cset_x, gen_lsl_x_imm, gen_ldr_x_imm, gen_str_x_imm, gen_stp_x,
  gen_ldp_x,
}
use temp_esas.Arm64.Isa.{decode, csinc, ubfm, ldr_imm, str_imm, stp, ldp}
use temp_esas.Arm64.Encoding.Arith.{inverted, decode-gen_cset_x, decode-gen_lsl_x_imm}
use temp_esas.Arm64.Encoding.Memory.{pair_bytes, decode-gen_x_imm, decode-gen_pair}

-- For register numbers below 32, `cset` is `csinc` of the zero register under the opposite
-- condition, and for a shift below 64, `lsl` is the bit-field move with (64 - shift) mod 64 and
-- 63 - shift.
decode-gen_aliases :
    (rd rn shift : ℕ) (c : ConditionCode)
    → rd < 32
    → rn < 32
    → shift < 64
    → (decode (gen_cset_x rd c) ≡ some (csinc rd 31 31 (inverted (cond_bits c))))
      × (decode (gen_lsl_x_imm rd rn shift) ≡ some (ubfm rd rn ((64 - shift) % 64) (63 - shift)))
decode-gen_aliases rd rn shift c hd hn hs =
    (decode-gen_cset_x rd c hd, decode-gen_lsl_x_imm rd rn shift hd hn hs)

-- For register numbers below 32 and a slot below 2^12, access to a virtual register is a 64-bit
-- load or store with the slot number as its offset in units of eight bytes; for every multiple of
-- eight from -512 to 504 as the byte offset, the pair encoders write the load or store of the two
-- registers with the offset divided by eight in its 7-bit field.
pub decode-gen_transfers :
    (rt rt2 rn imm12 imm7 : ℕ)
    → rt < 32
    → rt2 < 32
    → rn < 32
    → imm12 < 2 ^ 12
    → imm7 < 128
    → (decode (gen_ldr_x_imm rt rn imm12) ≡ some (ldr_imm rt rn imm12))
      × (decode (gen_str_x_imm rt rn imm12) ≡ some (str_imm rt rn imm12))
      × (decode (gen_stp_x rt rt2 rn (pair_bytes imm7)) ≡ some (stp rt rt2 rn imm7))
      × (decode (gen_ldp_x rt rt2 rn (pair_bytes imm7)) ≡ some (ldp rt rt2 rn imm7))
decode-gen_transfers rt rt2 rn imm12 imm7 ht h2 hn hi hp =
    let (load, store) = decode-gen_x_imm rt rn imm12 ht hn hi in
    let (store_pair, load_pair) = decode-gen_pair rt rt2 rn imm7 ht h2 hn hp in
    (load, store, store_pair, load_pair)
