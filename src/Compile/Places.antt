-- ===== src/Compile/Places.antt =====
-- The second loop of `Compile` (compile.h), one instruction: its code goes behind what is there, and
-- its fixup is at a new place.
use temp_esas.Prelude.{
  ℕ, ◌≡◌, ◌∙◌, ap, arith, inl, inr, List, Option, none, some, Option-cases, length, get_elem?,
  get_elem?-append, get_elem?-lt,
}
use temp_esas.Evm2.Types.{Instruction}
use temp_esas.Frontend.Code.{Jit, return}
use temp_esas.Frontend.Code
use temp_esas.Frontend.Emit.{nop}
use temp_esas.Frontend.Growth.{
  Extends, Grows, Grows-then, Grows-return, then-some, nop-Grows, func_prologue-Grows,
}
use temp_esas.Frontend.Growth.Calls.{Extends-length}
use temp_esas.Compile.Labels.{Label, goto_label, call_label, Labels, find_label}
use temp_esas.Compile.Instr.{Interface, Fixup, compile_op}
use temp_esas.Compile.Program.{
  insert_index, Compiler, prologue_for, emit_instruction, add_fixup, compile_instruction,
}
use temp_esas.Compile.Fixups.{Records, Records-then, Points, Points-then}
use temp_esas.Compile.Fixups.Cases.{compile_op-Appends}

prologue_for-Grows : (l : Option Label) → Grows (prologue_for l)
prologue_for-Grows none = Grows-return tt
prologue_for-Grows (some goto_label) = Grows-return tt
prologue_for-Grows (some call_label) = func_prologue-Grows

abbrev with_nop : Jit (Option Fixup) → Jit (Option Fixup)
with_nop m = Code.◌>>=◌ m λ fixup. Code.◌>>=◌ nop λ _. return fixup

-- A word that is there stays.
pub Extends-get_elem? :
    (code code' : List ℕ) (n w : ℕ)
    → Extends code code'
    → get_elem? code n ≡ some w
    → get_elem? code' n ≡ some w
Extends-get_elem? code code' n w (words, e) at =
    ap (λ (c : List ℕ). get_elem? c n) e
    ∙ get_elem?-append code words n (get_elem?-lt code n w at)
    ∙ at

with_nop-some :
    (m : Jit (Option Fixup)) (code code'' : List ℕ) (f : Option Fixup)
    → with_nop m code ≡ some (f, code'')
    → (code' : List ℕ) × (m code ≡ some (f, code')) × Extends code' code''
with_nop-some m code code'' f e =
    let (g, code', e₁, e₂) =
      then-some m (λ fixup. Code.◌>>=◌ nop λ _. return fixup) code code'' f e in
    let (a, code₁, e₃, e₄) = then-some nop (λ _. return g) code' code'' f e₂ in
    let same : g ≡ f = ground (arith, e₄) in
    (
      code',
      e₁ ∙ ap (λ (h : Option Fixup). some (h, code')) same,
      Grows-then nop (λ _. return g) nop-Grows (λ _. Grows-return g) code' code'' f e₂,
    )

module _ (iface : Interface) (labels : Labels) (i : Instruction) where
  pub emit_instruction-Grows : Grows (emit_instruction iface labels i)
  unfolding emit_instruction
  emit_instruction-Grows =
      let (grows, records) = compile_op-Appends iface i.opcode i.args in
      Grows-then _ _ (prologue_for-Grows (find_label i.bit_offset labels))
        λ _. Grows-then _ _ grows λ fixup. Grows-then _ _ nop-Grows λ _. Grows-return fixup

  with_nop-Records : Records (with_nop (compile_op iface i.opcode i.args))
  with_nop-Records code code'' f e n t at =
      let (code', e₁, more) = with_nop-some (compile_op iface i.opcode i.args) code code'' f e in
      let (grows, records) = compile_op-Appends iface i.opcode i.args in
      let (low, high) = records code code' f e₁ n t at in
      (low, omega (arith, Extends-length code' code'' more))

  pub emit_instruction-Records : Records (emit_instruction iface labels i)
  unfolding emit_instruction
  emit_instruction-Records =
      Records-then _ _ (prologue_for-Grows (find_label i.bit_offset labels)) λ _. with_nop-Records

  with_nop-Points :
      (P : ℕ → Type 0) (t : ℕ)
      → Points P (compile_op iface i.opcode i.args) t
      → Points P (with_nop (compile_op iface i.opcode i.args)) t
  with_nop-Points P t b code code'' f e =
      let (code', e₁, more) = with_nop-some (compile_op iface i.opcode i.args) code code'' f e in
      let (n, w, at, word, branch) = b code code' f e₁ in
      (n, w, at, Extends-get_elem? code' code'' n w more word, branch)

  pub emit_instruction-Points :
      (P : ℕ → Type 0) (t : ℕ)
      → Points P (compile_op iface i.opcode i.args) t
      → Points P (emit_instruction iface labels i) t
  unfolding emit_instruction
  emit_instruction-Points P t b =
      Points-then P (prologue_for (find_label i.bit_offset labels)) _ t λ _. with_nop-Points P t b

  -- The parts of a step of the loop.
  pub compile_instruction-parts :
      (c c' : Compiler)
      → compile_instruction iface labels i c ≡ some c'
      → (fixup : Option Fixup) × (emit_instruction iface labels i c.code ≡ some (fixup, c'.code))
        × (c'.mapping ≡ insert_index i.bit_offset (length c.code) c.mapping)
        × (c'.fixups ≡ add_fixup fixup c.fixups)
  unfolding compile_instruction
  compile_instruction-parts c c' e = elim (Option-cases (emit_instruction iface labels i c.code)) [
    | inl stop ↦ absurd (ground (arith, stop))
    | inr ((fixup, code'), go) ↦ (fixup, ground (arith, go), ground (arith, go), ground (arith, go))
  ]
