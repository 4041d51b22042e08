-- ===== src/Frontend/Blocks/Immediate.antt =====
-- `emit_load_imm64` (jit_arm64_fe.h): a `movz` for the first part that is not zero, and a `movk` for
-- each later one.
use temp_esas.Prelude.{
  ℕ, zero, suc, ◌+◌, ◌-◌, ◌*◌, ◌/◌, ◌%◌, ◌^◌, ◌<◌, ◌≡◌, ◌∙◌, refl, sym, ap, subst, arith, some,
  ◌==◌, true, ==→eq, Bool-cases, inl, inr,
}
use temp_esas.Bits.{and_low}
use temp_esas.Arm64.Backend.{gen_movz_x, gen_movk_x}
use temp_esas.Arm64.Isa.{movz, movk}
use temp_esas.Arm64.Encoding.Arith.{decode-gen_immediates}
use temp_esas.Frontend.Code.{put, done}
use temp_esas.Frontend.Emit.{imm_part, first_part, put_parts, load_from, emit_load_imm64}
use temp_esas.Machine.{State, step, set_x, keep_but}
use temp_esas.Frontend.Blocks.{Does, Does-done, Does-put, Does-then}
use temp_esas.Frontend.Blocks.Operands.{set_x-set_x}

pub imm_part_mod : (value i : ℕ) → imm_part value i ≡ value / 2 ^ (16 * i) % 2 ^ 16
imm_part_mod value i = and_low 16 (value / 2 ^ (16 * i))

imm_part-lt : (value i : ℕ) → imm_part value i < 2 ^ 16
imm_part-lt value i = omega (arith, imm_part_mod value i)

-- The parts below `i + 1` are the parts below `i` and part `i`.
grow :
    (i value : ℕ)
    → i < 4
    → value % 2 ^ (16 * (i + 1)) ≡ value % 2 ^ (16 * i) + imm_part value i * 2 ^ (16 * i)
grow zero value h = omega (arith, imm_part_mod value 0)
grow (suc zero) value h = omega (arith, imm_part_mod value 1)
grow (suc (suc zero)) value h = omega (arith, imm_part_mod value 2)
grow (suc (suc (suc zero))) value h = omega (arith, imm_part_mod value 3)
grow (suc (suc (suc (suc i)))) value h = absurd (omega arith)

grow_zero :
    (i value : ℕ) → i < 4 → imm_part value i ≡ 0 → value % 2 ^ (16 * (i + 1)) ≡ value % 2 ^ (16 * i)
grow_zero i value h z = grow i value h ∙ rw z (omega arith)

kept :
    (i v imm : ℕ) → i < 4 → v < 2 ^ (16 * i) → keep_but (v % 2 ^ 64) i imm ≡ v + imm * 2 ^ (16 * i)
kept zero v imm h hv = omega arith
kept (suc zero) v imm h hv = omega arith
kept (suc (suc zero)) v imm h hv = omega arith
kept (suc (suc (suc zero))) v imm h hv = omega arith
kept (suc (suc (suc (suc i)))) v imm h hv = absurd (omega arith)

mod-lt : (i value : ℕ) → i < 4 → value % 2 ^ (16 * i) < 2 ^ (16 * i)
mod-lt zero value h = omega arith
mod-lt (suc zero) value h = omega arith
mod-lt (suc (suc zero)) value h = omega arith
mod-lt (suc (suc (suc zero))) value h = omega arith
mod-lt (suc (suc (suc (suc i)))) value h = absurd (omega arith)

module _ (reg value : ℕ) (h : reg < 16) (hv : value < 2 ^ 64) (s : State) where
  -- The register once the parts below `i` are in it.
  abbrev below : ℕ → State
  below i = set_x reg (value % 2 ^ (16 * i)) s

  all_below : below 4 ≡ set_x reg value s
  all_below = ap (λ (v : ℕ). set_x reg v s) (omega arith)

  movk_step :
      (i v imm : ℕ)
      → step (movk 64 reg i imm) (set_x reg v s)
        ≡ some (set_x reg (keep_but (v % 2 ^ 64) i imm) (set_x reg v s))
  unfolding step
  movk_step i v imm = ground arith

  movz_step : (i imm : ℕ) → step (movz 64 reg i imm) s ≡ some (set_x reg (imm * 2 ^ (16 * i)) s)
  unfolding step
  movz_step i imm = ground arith

  put_movk :
      (i : ℕ)
      → i < 4
      → Does (put (gen_movk_x reg (imm_part value i) (i * 16))) (below i) (below (i + 1))
  put_movk i hi =
      let (_, e, _, _, _, _) =
        decode-gen_immediates reg 0 (imm_part value i) 0 (i * 16) (omega arith) (omega arith)
          (imm_part-lt value i) (omega arith) (omega arith) in
      let v = value % 2 ^ (16 * i) in
      let sum = kept i v (imm_part value i) hi (mod-lt i value hi) ∙ sym (grow i value hi) in
      subst (Does _ (below i)) (set_x-set_x reg _ v s ∙ ap (λ (w : ℕ). set_x reg w s) sum) (
        Does-put (gen_movk_x reg (imm_part value i) (i * 16))
          (movk 64 reg (i * 16 / 16) (imm_part value i)) (below i) _ e
          (subst
            (λ (n : ℕ).
              step (movk 64 reg n (imm_part value i)) (below i)
              ≡ some (set_x reg (keep_but (v % 2 ^ 64) i (imm_part value i)) (below i)))
            (omega arith) (movk_step i v (imm_part value i))))

  put_movz :
      (i : ℕ)
      → i < 4
      → value % 2 ^ (16 * i) ≡ 0
      → Does (put (gen_movz_x reg (imm_part value i) (i * 16))) s (below (i + 1))
  put_movz i hi none_below =
      let (e, _, _, _, _, _) =
        decode-gen_immediates reg 0 (imm_part value i) 0 (i * 16) (omega arith) (omega arith)
          (imm_part-lt value i) (omega arith) (omega arith) in
      let sum : imm_part value i * 2 ^ (16 * i) ≡ value % 2 ^ (16 * (i + 1)) =
        omega (arith, grow i value hi) in
      subst (Does _ s) (ap (λ (w : ℕ). set_x reg w s) sum) (
        Does-put (gen_movz_x reg (imm_part value i) (i * 16))
          (movz 64 reg (i * 16 / 16) (imm_part value i)) s _ e
          (subst
            (λ (n : ℕ).
              step (movz 64 reg n (imm_part value i)) s
              ≡ some (set_x reg (imm_part value i * 2 ^ (16 * i)) s))
            (omega arith) (movz_step i (imm_part value i))))

  same_below : (i : ℕ) → i < 4 → (imm_part value i == 0) ≡ true → below (i + 1) ≡ below i
  same_below i hi e =
      ap (λ (w : ℕ). set_x reg w s) (grow_zero i value hi (==→eq (imm_part value i) 0 e))

  put_parts-Does :
      (left i : ℕ) → left + i ≡ 4 → Does (put_parts left i reg value) (below i) (set_x reg value s)
  unfolding put_parts
  put_parts-Does zero i e =
      let four : i ≡ 4 = omega (arith, e) in
      subst (λ (n : ℕ). Does done (below n) (set_x reg value s)) (sym four)
        (subst (Does done (below 4)) all_below (Does-done (below 4)))
  put_parts-Does (suc left) i e = elim (Bool-cases (imm_part value i == 0)) [
    | inl z ↦
        rw (z, put_parts)
          (subst (λ t. Does (put_parts left (i + 1) reg value) t (set_x reg value s))
            (same_below i (omega arith) z) (put_parts-Does left (i + 1) (omega arith)))
    | inr z ↦
        rw (z, put_parts)
          (Does-then (put (gen_movk_x reg (imm_part value i) (i * 16)))
            (put_parts left (i + 1) reg value) (below i) (below (i + 1)) _
            (put_movk i (omega arith)) (put_parts-Does left (i + 1) (omega arith)))
  ]

  put_zero : value ≡ 0 → Does (put (gen_movz_x reg 0 0)) s (set_x reg value s)
  put_zero e =
      let (d, _, _, _, _, _) =
        decode-gen_immediates reg 0 0 0 0 (omega arith) (omega arith) (omega arith) (omega arith)
          (omega arith) in
      subst (Does _ s) (ap (λ (w : ℕ). set_x reg w s) (sym e))
        (Does-put (gen_movz_x reg 0 0) (movz 64 reg 0 0) s _ d (movz_step 0 0))

  load_from-Does :
      (left i : ℕ)
      → left + i ≡ 4
      → value % 2 ^ (16 * i) ≡ 0
      → Does (load_from reg value (first_part left i value)) s (set_x reg value s)
  load_from-Does zero i e none_below =
      let four : i ≡ 4 = omega (arith, e) in
      let whole : value % 2 ^ 64 ≡ 0 =
        subst (λ (n : ℕ). value % 2 ^ (16 * n) ≡ 0) four none_below in
      put_zero (omega arith)
  load_from-Does (suc left) i e none_below = elim (Bool-cases (imm_part value i == 0)) [
    | inl z ↦
        rw (z, first_part)
          (load_from-Does left (i + 1) (omega arith)
            (grow_zero i value (omega arith) (==→eq (imm_part value i) 0 z) ∙ none_below))
    | inr z ↦
        rw (z, first_part)
          (Does-then (put (gen_movz_x reg (imm_part value i) (i * 16)))
            (put_parts (4 - (i + 1)) (i + 1) reg value) s (below (i + 1)) _
            (put_movz i (omega arith) none_below)
            (put_parts-Does (4 - (i + 1)) (i + 1) (omega arith)))
  ]

  -- For a register below 16 and a value below 2^64, `emit_load_imm64` succeeds, and the words
  -- that it emits, run on any machine, put the value into the register and change nothing else.
  pub emit_load_imm64-Does : Does (emit_load_imm64 reg value) s (set_x reg value s)
  unfolding emit_load_imm64
  emit_load_imm64-Does = load_from-Does 4 0 refl (omega arith)
