-- ===== src/Frontend/Patch/Lands.antt =====
-- Patching a placeholder writes the instruction anew with the target that was missing.
use temp_esas.Prelude.{ℕ, ap, sym, ◌∙◌, ◌/◌, ◌%◌, ◌^◌, ◌<◌, ◌≡◌, arith, some, ◌>>=◌}
use temp_esas.Arm64.Backend.{ConditionCode, gen_bcond, gen_b, gen_bl, gen_movz_x, cond_bits}
use temp_esas.Arm64.Isa.{word_target}
use temp_esas.Arm64.Encoding.Branch.{
  gen_b-sum, gen_bl-sum, gen_bcond-sum, cond_bits-lt, decode-gen_branches,
}
use temp_esas.Arm64.Encoding.Sums
use temp_esas.Frontend.Patch.{patched}
use temp_esas.Frontend.Patch.Words.{
  displacement, patched-b, patched-bl, patched-bcond, patched-movz, patched-movz_fits,
}

-- A patched branch is the branch that the encoder writes for the distance from its index to its
-- target, whatever offset it had.
pub patched-gen_branches :
    (c : ConditionCode) (old index target : ℕ)
    → (patched (gen_bcond c old) index target ≡ some (gen_bcond c (displacement index target)))
      × (patched (gen_b old) index target ≡ some (gen_b (displacement index target)))
      × (patched (gen_bl old) index target ≡ some (gen_bl (displacement index target)))
patched-gen_branches c old index target = (
  rw (gen_bcond-sum c old, gen_bcond-sum c (displacement index target))
      (patched-bcond index target (old % 2 ^ 19) (cond_bits c) (omega arith) (cond_bits-lt c)),
  rw (gen_b-sum old, gen_b-sum (displacement index target))
      (patched-b index target (old % 2 ^ 26) (omega arith)),
  rw (gen_bl-sum old, gen_bl-sum (displacement index target))
      (patched-bl index target (old % 2 ^ 26) (omega arith)),
)

-- In code of fewer than 2^18 words, patching a `b.cond`, `b` or `bl`, whatever offset it was
-- emitted with, gives a word that decodes to a branch to the target, forwards and backwards.
pub patched-lands :
    (c : ConditionCode) (old index target : ℕ)
    → index < 2 ^ 18
    → target < 2 ^ 18
    → ((patched (gen_bcond c old) index target >>= word_target index) ≡ some target)
      × ((patched (gen_b old) index target >>= word_target index) ≡ some target)
      × ((patched (gen_bl old) index target >>= word_target index) ≡ some target)
unfolding word_target
patched-lands c old index target hi ht =
    let (p₁, p₂, p₃) = patched-gen_branches c old index target in
    let (d₁, d₂, d₃, _, _, _, _, _) =
      decode-gen_branches c (displacement index target) 0 (omega arith) (omega arith) in
    (
      rw (p₁, ◌>>=◌) (rw (d₁, word_target) (ground arith)),
      rw (p₂, ◌>>=◌) (rw (d₂, word_target) (ground arith)),
      rw (p₃, ◌>>=◌) (rw (d₃, word_target) (ground arith)),
    )

-- For a register below 32, a 16-bit immediate and a shift below 64, patching a `movz` puts a
-- target below 2^16 in place of its immediate and keeps its register and its shift.
pub patched-gen_movz_x :
    (reg imm shift index target : ℕ)
    → reg < 32
    → imm < 2 ^ 16
    → shift < 64
    → target < 2 ^ 16
    → patched (gen_movz_x reg imm shift) index target ≡ some (gen_movz_x reg target shift)
patched-gen_movz_x reg imm shift index target hr hi hs ht =
    rw (Sums.gen_movz_x-sum reg imm shift hr hi hs, Sums.gen_movz_x-sum reg target shift hr ht hs)
      (patched-movz index target (shift / 16) imm reg (omega arith) hi hr ht)

-- A `movz` of a 16-bit immediate is patched only with a target below 2^16, and then it loads the
-- target.
pub patched-gen_movz_x-some :
    (reg imm index target w : ℕ)
    → reg < 32
    → imm < 2 ^ 16
    → patched (gen_movz_x reg imm 0) index target ≡ some w
    → (target < 2 ^ 16) × (w ≡ gen_movz_x reg target 0)
patched-gen_movz_x-some reg imm index target w hr hi e =
    let fits : target < 2 ^ 16 = patched-movz_fits index target 0 imm reg w (omega arith) hi hr (
      ap (λ (v : ℕ). patched v index target)
        (sym (Sums.gen_movz_x-sum reg imm 0 hr hi (omega arith)))
      ∙ e) in
    (fits, ground (arith, e, patched-gen_movz_x reg imm 0 index target hr hi (omega arith) fits))
