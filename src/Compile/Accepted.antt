-- ===== src/Compile/Accepted.antt =====
-- The operands that `readDataArg` (evm2.h) gives are ones that the front end takes.
use temp_esas.Prelude.{
  ℕ, ◌<◌, ◌^◌, ◌≡◌, subst, arith, some, Option-cases, inl, inr, ◌==◌, Bool-cases,
}
use temp_esas.Bits.{◌&&&◌, and_low}
use temp_esas.Evm2.Types.{Arg}
use temp_esas.Evm2.BitReader.{BitReader, M, ◌>>=◌, return, read_bit, read_bits_le}
use temp_esas.Evm2.Disassembler.{reg_arg, mem_arg, size_of_ss, read_data_arg}
use temp_esas.Machine.Operand.{IsOperand}

-- Whatever `m` gives has the property.
abbrev pub Ensures : {A : Type 0} → (A → Type 0) → M A → Type 0
Ensures {A} P m = (br br' : BitReader) (a : A) → m br ≡ some (a, br') → P a

pub Ensures-bind :
    {A B : Type 0} (P : B → Type 0) (m : M A) (f : A → M B)
    → ((a : A) → Ensures P (f a))
    → Ensures P (m >>= f)
Ensures-bind P m f h br br' b e = elim (Option-cases (m br)) [
  | inl stop ↦ absurd (ground arith)
  | inr ((a, br₁), got) ↦ h a br₁ br' b (rw (got, ◌>>=◌) at e)
]

pub Ensures-return : {A : Type 0} (P : A → Type 0) (a : A) → P a → Ensures P (return a)
Ensures-return P a p br br' b e = subst P (ground arith) p

size_of_ss-pow : (ss : ℕ) → (mo : ℕ) × (mo < 4) × (size_of_ss ss ≡ 2 ^ mo)
size_of_ss-pow ss = elim (Bool-cases (ss == 0)) [
  | inl e ↦ (0, omega arith, ground (arith, e))
  | inr e ↦ elim (Bool-cases (ss == 1)) [
    | inl e₁ ↦ (1, omega arith, ground (arith, e, e₁))
    | inr e₁ ↦ elim (Bool-cases (ss == 2)) [
      | inl e₂ ↦ (2, omega arith, ground (arith, e, e₁, e₂))
      | inr e₂ ↦ (3, omega arith, ground (arith, e, e₁, e₂))
    ]
  ]
]

index-lt : (idx : ℕ) → (idx &&& 0xF) < 16
index-lt idx = omega (arith, and_low 4 idx)

-- Every operand that `readDataArg` reads, from any stream, is a register below 16, or 1, 2, 4 or
-- 8 bytes of memory at such a register.
pub read_data_arg-IsOperand :
    (br br' : BitReader) (a : Arg) → read_data_arg br ≡ some (a, br') → IsOperand a
unfolding read_data_arg
read_data_arg-IsOperand = Ensures-bind IsOperand read_bit _ λ first.
    elim (Bool-cases (first == 0)) [
      | inl e ↦ rw e (
          Ensures-bind IsOperand (read_bits_le 4) _
            λ idx. Ensures-return IsOperand (reg_arg (idx &&& 0xF)) (index-lt idx))
      | inr e ↦ rw e (
          Ensures-bind IsOperand (read_bits_le 2) _ λ ss.
            Ensures-bind IsOperand (read_bits_le 4) _ λ idx.
              Ensures-return IsOperand (mem_arg (size_of_ss ss) (idx &&& 0xF))
                (index-lt idx, size_of_ss-pow ss))
    ]
