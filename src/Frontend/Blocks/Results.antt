-- ===== src/Frontend/Blocks/Results.antt =====
-- The words of the `switch` in `alu` (jit_arm64_fe.h) on the machine, one operation at a time.
use temp_esas.Prelude.{
  ℕ, ◌+◌, ◌-◌, ◌*◌, ◌/◌, ◌%◌, ◌^◌, ◌<◌, ◌≤◌, Bool-cases, inl, inr, ◌≡◌, ◌∙◌, refl, sym, arith, ◌==◌,
  if◌then◌else◌,
}
use native.Mathlib.Nat.{div-le_self, div-add-mod', mod-eq-sub-div-mul}
use temp_esas.Arm64.Backend.{
  cond_gt, cond_lt, gen_add_x_reg, gen_sub_x_reg, gen_sdiv_x, gen_udiv_x, gen_mul_x, gen_msub_x,
  gen_cmp_x, gen_cset_x,
}
use temp_esas.Arm64.Isa.{add_reg, sub_reg, sdiv, udiv, madd, msub, subs_reg, csinc}
use temp_esas.Arm64.Encoding.Arith.{decode-gen_registers, decode-gen_cset_x}
use temp_esas.Frontend.Code.{put}
use temp_esas.Frontend.Emit.{AluOp, alu_words}
use temp_esas.Machine.{holds, State, step, set_x}
use temp_esas.Machine.Operand.{alu_value, sign, quotient}
use temp_esas.Frontend.Blocks.{Does, Does-put, Does-then}

-- The state after an instruction with its result in x2.
abbrev pub Result : AluOp → State → Type 0
Result op s =
    (s' : State) × (s'.guest ≡ s.guest)
    × (s'.x 2 ≡ alu_value op (s.x 2) (s.x 3))
    × Does (alu_words op) s s'

-- What is left of `a` after taking `b` as often as it goes.
rest_after :
    (a q b : ℕ)
    → a < 2 ^ 64
    → q < 2 ^ 64
    → q * b ≤ a
    → (a + 2 ^ 64 - (q % 2 ^ 64) * b % 2 ^ 64) % 2 ^ 64 ≡ a - q * b
rest_after a q b ha hq hb = let whole : q % 2 ^ 64 ≡ q = omega arith in rw whole (omega arith)

remainder :
    (a b : ℕ)
    → a < 2 ^ 64
    → (a + 2 ^ 64 - ((if b == 0 then 0 else a / b) % 2 ^ 64) * b % 2 ^ 64) % 2 ^ 64
      ≡ (if b == 0 then a else a % b)
remainder a b ha = elim (Bool-cases (b == 0)) [
  | inl e ↦ ground (arith, e)
  | inr e ↦ rw e (
      rest_after a (a / b) b ha (omega (arith, div-le_self a b)) (omega (arith, div-add-mod' a b))
      ∙ sym (mod-eq-sub-div-mul a b))
]

-- The two conditional sets, subtracted, are the sign.
sign_lem :
    (a : ℕ)
    → a < 2 ^ 64
    → ((if holds 13 (a, 0) then 0 else 0 + 1) % 2 ^ 64
          + 2 ^ 64
          - (if holds 10 (a, 0) then 0 else 0 + 1) % 2 ^ 64)
        % 2 ^ 64
      ≡ sign a
sign_lem a h = ground arith

module _ (s : State) (h₂ : s.x 2 < 2 ^ 64) where
  add-Result : Result AluOp.add s
  unfolding alu_words step
  add-Result =
      let (e, _, _, _, _, _, _, _) =
        decode-gen_registers 2 2 3 0 (omega arith) (omega arith) (omega arith) (omega arith) in
      (
        set_x 2 (s.x 2 + s.x 3) s,
        refl,
        refl,
        Does-put (gen_add_x_reg 2 2 3) (add_reg 2 2 3) s _ e refl,
      )

  sub-Result : Result AluOp.sub s
  unfolding alu_words step
  sub-Result =
      let (_, e, _, _, _, _, _, _) =
        decode-gen_registers 2 2 3 0 (omega arith) (omega arith) (omega arith) (omega arith) in
      (
        set_x 2 (s.x 2 + 2 ^ 64 - s.x 3) s,
        refl,
        refl,
        Does-put (gen_sub_x_reg 2 2 3) (sub_reg 2 2 3) s _ e refl,
      )

  mul-Result : Result AluOp.mul s
  unfolding alu_words step
  mul-Result =
      let (_, _, _, _, e, _, _, _) =
        decode-gen_registers 2 2 3 0 (omega arith) (omega arith) (omega arith) (omega arith) in
      (
        set_x 2 (0 + s.x 2 * s.x 3) s,
        refl,
        omega arith,
        Does-put (gen_mul_x 2 2 3) (madd 2 2 3 31) s _ e refl,
      )

  div-Result : Result AluOp.div s
  unfolding alu_words step
  div-Result =
      let (_, _, e, _, _, _, _, _) =
        decode-gen_registers 2 2 3 0 (omega arith) (omega arith) (omega arith) (omega arith) in
      (
        set_x 2 (quotient (s.x 2) (s.x 3)) s,
        refl,
        refl,
        Does-put (gen_sdiv_x 2 2 3) (sdiv 2 2 3) s _ e refl,
      )

  modulo-Result : Result AluOp.modulo s
  unfolding alu_words step
  modulo-Result =
      let (_, _, _, e, _, _, _, _) =
        decode-gen_registers 4 2 3 0 (omega arith) (omega arith) (omega arith) (omega arith) in
      let (_, _, _, _, _, e', _, _) =
        decode-gen_registers 2 4 3 2 (omega arith) (omega arith) (omega arith) (omega arith) in
      let q = if s.x 3 == 0 then 0 else s.x 2 / s.x 3 in
      let s₁ = set_x 4 q s in
      let s₂ = set_x 2 (s.x 2 + 2 ^ 64 - (q % 2 ^ 64) * s.x 3 % 2 ^ 64) s₁ in
      (
        s₂,
        refl,
        remainder (s.x 2) (s.x 3) h₂,
        Does-then (put (gen_udiv_x 4 2 3)) (put (gen_msub_x 2 4 3 2)) s s₁ s₂
            (Does-put (gen_udiv_x 4 2 3) (udiv 4 2 3) s s₁ e refl)
            (Does-put (gen_msub_x 2 4 3 2) (msub 2 4 3 2) s₁ s₂ e' refl),
      )

  signum-Result : Result AluOp.signum s
  unfolding alu_words step
  signum-Result =
      let (_, _, _, _, _, _, e, _) =
        decode-gen_registers 2 2 31 0 (omega arith) (omega arith) (omega arith) (omega arith) in
      let (_, d, _, _, _, _, _, _) =
        decode-gen_registers 2 3 4 0 (omega arith) (omega arith) (omega arith) (omega arith) in
      let s₁ : State = record s { compared = (s.x 2, 0) } in
      let s₂ = set_x 3 (if holds 13 (s.x 2, 0) then 0 else 0 + 1) s₁ in
      let s₃ = record s₂ { compared = (s.x 2, 0) } in
      let s₄ = set_x 4 (if holds 10 (s.x 2, 0) then 0 else 0 + 1) s₃ in
      let s₅ = set_x 2 (s₄.x 3 + 2 ^ 64 - s₄.x 4) s₄ in
      (
        s₅,
        refl,
        sign_lem (s.x 2) h₂,
        Does-then (put (gen_cmp_x 2 31)) _ s s₁ s₅
            (Does-put (gen_cmp_x 2 31) (subs_reg 31 2 31) s s₁ e refl)
            (Does-then (put (gen_cset_x 3 cond_gt)) _ s₁ s₂ s₅
              (Does-put (gen_cset_x 3 cond_gt) (csinc 3 31 31 13) s₁ s₂
                (decode-gen_cset_x 3 cond_gt (omega arith)) refl)
              (Does-then (put (gen_cmp_x 2 31)) _ s₂ s₃ s₅
                (Does-put (gen_cmp_x 2 31) (subs_reg 31 2 31) s₂ s₃ e refl)
                (Does-then (put (gen_cset_x 4 cond_lt)) _ s₃ s₄ s₅
                  (Does-put (gen_cset_x 4 cond_lt) (csinc 4 31 31 10) s₃ s₄
                    (decode-gen_cset_x 4 cond_lt (omega arith)) refl)
                  (Does-put (gen_sub_x_reg 2 3 4) (sub_reg 2 3 4) s₄ s₅ d refl)))),
      )

  pub words-Result : (op : AluOp) → Result op s
  words-Result AluOp.add = add-Result
  words-Result AluOp.sub = sub-Result
  words-Result AluOp.mul = mul-Result
  words-Result AluOp.div = div-Result
  words-Result AluOp.modulo = modulo-Result
  words-Result AluOp.signum = signum-Result
