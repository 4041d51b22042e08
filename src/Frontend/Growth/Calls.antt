-- ===== src/Frontend/Growth/Calls.antt =====
-- The words of a host call (jit_arm64_fe.h): there are some, and the index is that of the first.
use temp_esas.Prelude.{
  ℕ, ◌≤◌, ◌<◌, ◌≡◌, ap, sym, arith, List, [], ◌∷◌, ◌++◌, Option, none, some, length, length-append,
}
use temp_esas.Evm2.Types.{Arg}
use temp_esas.Arm64.Backend.{gen_blr}
use temp_esas.Frontend.Code.{Jit, ◌>>◌, return, put}
use temp_esas.Frontend.Emit.{emit_load_imm64, load_operand, store_operand, host_call_with_ops}
use temp_esas.Frontend.Growth.{
  Extends, Grows, code_of, then-some, Grows-and, Grows-then, Grows-put, Grows-return, Grows-index,
  emit_load_imm64-Grows, load_operand-Grows, store_operand-Grows,
}

pub Extends-length : (code code' : List ℕ) → Extends code code' → length code ≤ length code'
Extends-length code code' (words, e) =
    omega (arith, ap (λ (l : List ℕ). length l) e, length-append code words)

-- Whenever `m` succeeds, it has put a word.
abbrev Lengthens : {A : Type 0} → Jit A → Type 0
Lengthens {A} m =
    (code code' : List ℕ) (a : A) → m code ≡ some (a, code') → length code < length code'

length-put :
    (code code' : List ℕ) (word : ℕ) → code' ≡ code ++ word ∷ [] → length code < length code'
length-put code code' word e =
    omega (arith, ap (λ (l : List ℕ). length l) e, length-append code (word ∷ []))

Lengthens-put : (word : ℕ) → Lengthens (put word)
Lengthens-put word code code' a e =
    length-put code code' word (code_of tt a (code ++ word ∷ []) code' e)

Lengthens-first :
    {B : Type 0} (m : Jit (Unit {0})) (k : Jit B) → Lengthens m → Grows k → Lengthens (m >> k)
Lengthens-first m k lm gk code code'' b e =
    let (a, code', e₁, e₂) = then-some m (λ _. k) code code'' b e in
    omega (arith, lm code code' a e₁, Extends-length code' code'' (gk code' code'' b e₂))

Lengthens-second :
    {B : Type 0} (m : Jit (Unit {0})) (k : Jit B) → Grows m → Lengthens k → Lengthens (m >> k)
Lengthens-second m k gm lk code code'' b e =
    let (a, code', e₁, e₂) = then-some m (λ _. k) code code'' b e in
    omega (arith, lk code' code'' b e₂, Extends-length code code' (gm code code' a e₁))

-- Whenever `m` succeeds, it is with `p`.
abbrev pub Yields : {A : Type 0} → Jit A → A → Type 0
Yields {A} m p = (code code' : List ℕ) (a : A) → m code ≡ some (a, code') → a ≡ p

pub Yields-and :
    {B : Type 0} (m : Jit (Unit {0})) (k : Jit B) (p : B) → Yields k p → Yields (m >> k) p
Yields-and m k p yk code code'' b e =
    let (a, code', e₁, e₂) = then-some m (λ _. k) code code'' b e in yk code' code'' b e₂

pub Yields-return : {A : Type 0} (p : A) → Yields (return p) p
Yields-return {A} p code code' a e =
    sym (ap (λ (r : Option (A × List ℕ)). elim r [ none ↦ p | some (x, l) ↦ x ]) e)

module _ (func_ptr : ℕ) (result op1 op2 op3 op4 : Arg) where
  -- What `hostCallWithOps` does after it has noted the index.
  abbrev pub call_words : ℕ → Jit ℕ
  call_words pos = do
    load_operand op1 0
    load_operand op2 1
    load_operand op3 2
    load_operand op4 3
    emit_load_imm64 9 func_ptr
    put (gen_blr 9)
    store_operand result 0
    return pos

  call_words-Lengthens : (pos : ℕ) → Lengthens (call_words pos)
  call_words-Lengthens pos = Lengthens-second _ _ (load_operand-Grows op1 0) (
      Lengthens-second _ _ (load_operand-Grows op2 1) (
        Lengthens-second _ _ (load_operand-Grows op3 2) (
          Lengthens-second _ _ (load_operand-Grows op4 3) (
            Lengthens-second _ _ (emit_load_imm64-Grows 9 func_ptr) (
              Lengthens-first _ _ (Lengthens-put (gen_blr 9))
                (Grows-and _ _ (store_operand-Grows result 0) (Grows-return pos)))))))

  call_words-Yields : (pos : ℕ) → Yields (call_words pos) pos
  call_words-Yields pos = Yields-and (load_operand op1 0) _ pos (
      Yields-and (load_operand op2 1) _ pos (
        Yields-and (load_operand op3 2) _ pos (
          Yields-and (load_operand op4 3) _ pos (
            Yields-and (emit_load_imm64 9 func_ptr) _ pos (
              Yields-and (put (gen_blr 9)) _ pos
                (Yields-and (store_operand result 0) _ pos (Yields-return pos)))))))

  pub host_call-Grows : Grows (host_call_with_ops func_ptr result op1 op2 op3 op4)
  unfolding host_call_with_ops
  host_call-Grows = Grows-then _ _ Grows-index λ pos. Grows-and _ _ (load_operand-Grows op1 0) (
      Grows-and _ _ (load_operand-Grows op2 1) (
        Grows-and _ _ (load_operand-Grows op3 2) (
          Grows-and _ _ (load_operand-Grows op4 3) (
            Grows-and _ _ (emit_load_imm64-Grows 9 func_ptr) (
              Grows-and _ _ (Grows-put (gen_blr 9))
                (Grows-and _ _ (store_operand-Grows result 0) (Grows-return pos)))))))

  pub host_call-index :
      (code code' : List ℕ) (pos : ℕ)
      → host_call_with_ops func_ptr result op1 op2 op3 op4 code ≡ some (pos, code')
      → (pos ≡ length code) × (length code < length code')
  unfolding host_call_with_ops
  host_call-index code code' pos e = (
    call_words-Yields (length code) code code' pos e,
    call_words-Lengthens (length code) code code' pos e,
  )
