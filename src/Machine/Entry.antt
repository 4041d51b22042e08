-- ===== src/Machine/Entry.antt =====
-- What the words from the start of compiled code to the first jump to a register do to the registers:
-- the specification of the main prologue (`begin` in jit_arm64_fe.h), and no code of the repository.
use temp_esas.Prelude.{
  ℕ, ◌+◌, ◌-◌, ◌*◌, ◌%◌, ◌^◌, List, [], ◌∷◌, Option, none, some, ◌>>=◌, ◌==◌, ltb, if◌then◌else◌,
}
use temp_esas.Arm64.Isa.{Insn, orr, add_reg, add_imm, sub_imm, ubfm, adr, stp, br, decode}

-- Register 31 is the stack pointer here, as in the instructions with an immediate.
abbrev pub write : ℕ → ℕ → (ℕ → ℕ) → ℕ → ℕ
write rd v x n = if n == rd then v % 2 ^ 64 else x n

-- The instruction at `address`: it goes on with new registers, or jumps.
pub data Move : Type 0 where
  on : (ℕ → ℕ) → Move
  jumps : ℕ → Move

-- A pair that is stored changes no register; a bit-field move is a shift to the left here.
unfoldable pub enter_step : ℕ → Insn → (ℕ → ℕ) → Option Move
enter_step address (sub_imm rd rn imm) x = some (on (write rd (x rn + 2 ^ 64 - imm) x))
enter_step address (add_imm rd rn imm) x = some (on (write rd (x rn + imm) x))
enter_step address (stp rt rt2 rn imm) x = some (on x)
enter_step address (orr rd rn rm) x = if rn == 31 then some (on (write rd (x rm) x)) else none
enter_step address (ubfm rd rn immr imms) x =
    if immr == imms + 1 then some (on (write rd (x rn * 2 ^ (63 - imms)) x)) else none
enter_step address (adr rd field) x = some (
    on (
      write rd (if ltb field (2 ^ 20) then address + field else address + 2 ^ 64 + field - 2 ^ 21)
        x))
enter_step address (add_reg rd rn rm) x = some (on (write rd (x rn + x rm) x))
enter_step address (br rn) x = some (jumps (x rn))
enter_step address _ x = none

-- Where the first jump goes to, and the registers then.
unfoldable pub enter : ℕ → List ℕ → (ℕ → ℕ) → Option (ℕ × (ℕ → ℕ))
enter address [] x = none
enter address (word ∷ words) x = decode word >>= λ insn. enter_step address insn x >>= λ move.
    elim move [ on x' ↦ enter (address + 4) words x' | jumps target ↦ some (target, x) ]
