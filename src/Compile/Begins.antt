-- ===== src/Compile/Begins.antt =====
-- The mapping of `Compile` (compile.h): a bit address that it has is that of an instruction, and its
-- place is where the code of the instruction begins.
use temp_esas.Prelude.{
  ℕ, ◌≡◌, ◌∙◌, ap, sym, refl, subst, inl, inr, List, [], ◌∷◌, ◌++◌, some, length,
}
use mathlib.Core.List.{append_assoc}
use temp_esas.Evm2.Types.{Instruction}
use temp_esas.Compile.Labels.{Labels}
use temp_esas.Compile.Instr.{Interface}
use temp_esas.Compile.Program.{Mapping, find_index, Compiler, compile_instruction, compile_all}
use temp_esas.Compile.Places.{compile_instruction-parts}
use temp_esas.Compile.Entries.{find_index-insert}
use temp_esas.Compile.Loop.{compile_all-nil, compile_all-step, compile_all-snoc}

module _ (iface : Interface) (labels : Labels) (first : Compiler) where
  -- An instruction at `t` among `instructions` has its code at `index`.
  abbrev pub Begins : List Instruction → ℕ → ℕ → Type 0
  Begins instructions t index =
      (before : List Instruction) × (after : List Instruction) × (j : Instruction) × (c : Compiler)
      × (instructions ≡ before ++ j ∷ after)
      × (j.bit_offset ≡ t)
      × (compile_all iface labels before first ≡ some c)
      × (index ≡ length c.code)

  abbrev pub AllBegin : List Instruction → Mapping → Type 0
  AllBegin instructions mapping =
      (t index : ℕ) → find_index t mapping ≡ some index → Begins instructions t index

  Begins-more :
      (xs ys : List Instruction) (t index : ℕ) → Begins xs t index → Begins (xs ++ ys) t index
  Begins-more xs ys t index (before, after, j, c, e, at, from, here) = (
    before,
    after ++ ys,
    j,
    c,
    ap (λ (l : List Instruction). l ++ ys) e ∙ append_assoc before (j ∷ after) ys,
    at,
    from,
    here,
  )

  step-AllBegin :
      (xs : List Instruction) (i : Instruction) (c c' : Compiler)
      → compile_all iface labels xs first ≡ some c
      → compile_instruction iface labels i c ≡ some c'
      → AllBegin xs c.mapping
      → AllBegin (xs ++ i ∷ []) c'.mapping
  step-AllBegin xs i c c' so_far e all t index found =
      let (f, emitted, mapping, fixups) = compile_instruction-parts iface labels i c c' e in
      let now = subst (λ (m : Mapping). find_index t m ≡ some index) mapping found in
      elim (find_index-insert t i.bit_offset index (length c.code) c.mapping now) [
        | inl old ↦ Begins-more xs (i ∷ []) t index (all t index old)
        | inr (same, here) ↦ (xs, [], i, c, refl, sym same, so_far, here)
      ]

  pub compile_all-AllBegin :
      (xs ys : List Instruction) (c c' : Compiler)
      → compile_all iface labels xs first ≡ some c
      → compile_all iface labels ys c ≡ some c'
      → AllBegin xs c.mapping
      → AllBegin (xs ++ ys) c'.mapping
  compile_all-AllBegin xs [] c c' so_far e all t index found =
      let same = sym (compile_all-nil iface labels c c' e) in
      let here =
        all t index (subst (λ (x : Compiler). find_index t x.mapping ≡ some index) same found) in
      Begins-more xs [] t index here
  compile_all-AllBegin xs (i ∷ ys) c c' so_far e all t index found =
      let (c₁, e₁, e₂) = compile_all-step iface labels i ys c c' e in
      let more =
        compile_all-AllBegin (xs ++ i ∷ []) ys c₁ c'
          (compile_all-snoc iface labels xs i first c c₁ so_far e₁) e₂
          (step-AllBegin xs i c c₁ so_far e₁ all) t index found in
      subst (λ (l : List Instruction). Begins l t index) (append_assoc xs (i ∷ []) ys) more
