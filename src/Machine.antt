-- ===== src/Machine.antt =====
-- What the words of compiled code do: the instructions that `alu`, `mov` and the operands are made
-- of (jit_arm64_fe.h), on the registers, the flags, and the guest's registers and memory. This is
-- the specification that the emitted code is held against, and no code of the repository.
pub mod Operand
pub mod Entry
pub mod Cpu
use temp_esas.Prelude.{
  ℕ, zero, suc, ◌+◌, ◌-◌, ◌*◌, ◌/◌, ◌%◌, ◌^◌, List, [], ◌∷◌, ◌++◌, Option, none, some, ◌>>=◌, Bool,
  true, false, not, ◌||◌, ◌==◌, ltb, if◌then◌else◌, ◌≡◌, ap, inl, inr, Option-cases, arith,
}
use temp_esas.Arm64.Isa.{
  Insn, movz, movk, orr, add_reg, sub_reg, subs_reg, sdiv, udiv, madd, msub, csinc, ldr_imm,
  str_imm, ldr_uxtw, str_uxtw, nop, decode,
}
use temp_esas.Machine.Operand.{
  Guest, set_slot, load_bytes, store_bytes, set_memory, quotient, signed,
}

-- x19 and x20 hold the addresses of the guest's memory and registers, and are no numbers here. The
-- flags are kept as the two numbers that were compared.
pub record State : Type 0 where
  pub x : ℕ → ℕ
  pub compared : ℕ × ℕ
  pub guest : Guest

-- Register 31 reads as zero.
abbrev pub read_x : ℕ → State → ℕ
read_x n s = if n == 31 then 0 else s.x n

abbrev pub set_x : ℕ → ℕ → State → State
set_x n v s = record s { x = λ m. if m == n then v % 2 ^ 64 else s.x m }

-- A register keeps 64 bits; the two addresses are not overwritten.
abbrev pub write_x : ℕ → ℕ → State → Option State
write_x n v s = if n == 19 || n == 20 || n == 31 then none else some (set_x n v s)

-- The conditions that a `cset` or a branch of the front end is made with, and their opposites.
abbrev pub holds : ℕ → ℕ × ℕ → Bool
holds cond (a, b) =
    if cond == 0
    then a == b
    else if cond == 1
    then not (a == b)
    else if cond == 10
    then not (ltb (signed a) (signed b))
    else if cond == 11
    then ltb (signed a) (signed b)
    else if cond == 12
    then ltb (signed b) (signed a)
    else not (ltb (signed b) (signed a))

-- One 16-bit part of a value replaced.
abbrev pub keep_but : ℕ → ℕ → ℕ → ℕ
keep_but v hw imm =
    v / 2 ^ (16 * hw + 16) * 2 ^ (16 * hw + 16) + imm * 2 ^ (16 * hw) + v % 2 ^ (16 * hw)

unfoldable pub step : Insn → State → Option State
step (movz width rd hw imm) s = if width == 64 then write_x rd (imm * 2 ^ (16 * hw)) s else none
step (movk width rd hw imm) s =
    if width == 64 then write_x rd (keep_but (read_x rd s) hw imm) s else none
step (add_reg rd rn rm) s = write_x rd (read_x rn s + read_x rm s) s
step (sub_reg rd rn rm) s = write_x rd (read_x rn s + 2 ^ 64 - read_x rm s) s
step (sdiv rd rn rm) s = write_x rd (quotient (read_x rn s) (read_x rm s)) s
step (udiv rd rn rm) s = write_x rd (if read_x rm s == 0 then 0 else read_x rn s / read_x rm s) s
step (madd rd rn rm ra) s = write_x rd (read_x ra s + read_x rn s * read_x rm s) s
step (msub rd rn rm ra) s =
    write_x rd (read_x ra s + 2 ^ 64 - (read_x rn s * read_x rm s) % 2 ^ 64) s
step (subs_reg rd rn rm) s =
    if rd == 31 then some (record s { compared = (read_x rn s, read_x rm s) }) else none
step (csinc rd rn rm cond) s =
    write_x rd (if holds cond s.compared then read_x rn s else read_x rm s + 1) s
step (ldr_imm rt rn slot) s = if rn == 20 then write_x rt (s.guest.slots slot) s else none
step (str_imm rt rn slot) s =
    if rn == 20 then some (record s { guest = set_slot slot (read_x rt s) s.guest }) else none
step (ldr_uxtw size rt rn rm) s =
    if rn == 19 then write_x rt (load_bytes size (read_x rm s % 2 ^ 32) s.guest.memory) s else none
step (str_uxtw size rt rn rm) s =
    if rn == 19
    then some (record s {
      guest =
          set_memory (store_bytes size (read_x rm s % 2 ^ 32) (read_x rt s) s.guest.memory) s.guest;
    })
    else none
step nop s = some s
step _ s = none

unfoldable pub run : List ℕ → State → Option State
run [] s = some s
run (word ∷ words) s = do insn ← decode word; s' ← step insn s; run words s'

pub run-append : (xs ys : List ℕ) (s s' : State) → run xs s ≡ some s' → run (xs ++ ys) s ≡ run ys s'
unfolding run
run-append [] ys s s' e = ap (λ (r : Option State). elim r [ none ↦ none | some t ↦ run ys t ]) e
run-append (w ∷ xs) ys s s' e = elim (Option-cases (decode w)) [
  | inl none_at ↦ ground arith
  | inr (insn, found) ↦ elim (Option-cases (step insn s)) [
    | inl none_at ↦ ground arith
    | inr (s₁, moved) ↦ rw (found, moved, ◌>>=◌) (run-append xs ys s₁ s' (ground arith))
  ]
]
