-- ===== src/Compile/Loop.antt =====
-- What the second loop of `Compile` (compile.h) keeps: each fixup has a place of its own inside the
-- code, and each place in the mapping is where an instruction's code begins.
use temp_esas.Prelude.{
  ℕ, ◌≤◌, ◌<◌, ◌≡◌, ap, sym, refl, subst, arith, inl, inr, List, [], ◌∷◌, ◌++◌, Option, none, some,
  ◌>>=◌, Option-cases, length, get_elem?,
}
use temp_esas.Evm2.Types.{Instruction}
use temp_esas.Frontend.Growth.{Extends, Extends-refl, Extends-trans}
use temp_esas.Frontend.Growth.Calls.{Extends-length}
use temp_esas.Compile.Labels.{Labels}
use temp_esas.Compile.Instr.{Interface, Fixup, compile_op}
use temp_esas.Compile.Program.{
  Mapping, find_index, Compiler, add_fixup, compile_instruction, compile_all,
}
use temp_esas.Compile.Patches.{Listed, AreApart}
use temp_esas.Compile.Fixups.{Points}
use temp_esas.Compile.Places.{
  emit_instruction-Grows, emit_instruction-Records, emit_instruction-Points,
  compile_instruction-parts,
}
use temp_esas.Compile.Entries.{Listed-add, Listed-kept, Listed-new, AreApart-add, find_index-insert}

pub record Sound (c : Compiler) : Type 0 where
  pub apart : AreApart c.fixups
  pub below : (n t : ℕ) → Listed n t c.fixups → n < length c.code
  pub inside : (a index : ℕ) → find_index a c.mapping ≡ some index → index ≤ length c.code

-- The loop went on from `c` to `c'`.
pub record Continues (c c' : Compiler) : Type 0 where
  pub code : Extends c.code c'.code
  pub fixups : (n t : ℕ) → Listed n t c.fixups → Listed n t c'.fixups

Continues-refl : (c : Compiler) → Continues c c
Continues-refl c = record { code = Extends-refl c.code; fixups = λ n t listed. listed }

Continues-trans : (a b c : Compiler) → Continues a b → Continues b c → Continues a c
Continues-trans a b c ab bc = record {
  code = Extends-trans a.code b.code c.code ab.code bc.code;
  fixups = λ n t listed. bc.fixups n t (ab.fixups n t listed);
}

module _ (iface : Interface) (labels : Labels) where
  module _ (i : Instruction) (c c' : Compiler)
      (e : compile_instruction iface labels i c ≡ some c') where
    pub step-Continues : Continues c c'
    step-Continues =
        let (f, emitted, mapping, fixups) = compile_instruction-parts iface labels i c c' e in
        record {
          code = emit_instruction-Grows iface labels i c.code c'.code f emitted;
          fixups = λ n t listed.
              subst (λ (fs : List Fixup). Listed n t fs) (sym fixups)
                (Listed-kept n t f c.fixups listed);
        }

    pub step-Sound : Sound c → Sound c'
    step-Sound sound =
        let (f, emitted, mapping, fixups) = compile_instruction-parts iface labels i c c' e in
        let more =
          Extends-length c.code c'.code
            (emit_instruction-Grows iface labels i c.code c'.code f emitted) in
        let recorded = emit_instruction-Records iface labels i c.code c'.code f emitted in
        record {
          apart =
              subst (λ (fs : List Fixup). AreApart fs) (sym fixups)
                (AreApart-add (length c.code) f c.fixups sound.apart sound.below
                  λ n t at. let (low, high) = recorded n t at in low);
          below = λ n t listed.
              elim (Listed-add n t f c.fixups
                (subst (λ (fs : List Fixup). Listed n t fs) fixups listed)) [
                  | inl old ↦ omega (arith, sound.below n t old, more)
                  | inr new ↦ let (low, high) = recorded n t new in high
                ];
          inside = λ a index found.
              elim (find_index-insert a i.bit_offset index (length c.code) c.mapping
                (subst (λ (m : Mapping). find_index a m ≡ some index) mapping found)) [
                  | inl old ↦ omega (arith, sound.inside a index old, more)
                  | inr (same, here) ↦ omega (arith, here, more)
                ];
        }

    -- A branch has a fixup, and the code of the instruction has the branch at its place.
    pub step-Points :
        (P : ℕ → Type 0) (t : ℕ)
        → Points P (compile_op iface i.opcode i.args) t
        → (n : ℕ) × (w : ℕ) × Listed n t c'.fixups
          × (get_elem? c'.code n ≡ some w)
          × P w
          × (length c.code ≤ n)
          × (n < length c'.code)
    step-Points P t b =
        let (f, emitted, mapping, fixups) = compile_instruction-parts iface labels i c c' e in
        let (n, w, at, word, branch) =
          emit_instruction-Points iface labels i P t b c.code c'.code f emitted in
        let (low, high) = emit_instruction-Records iface labels i c.code c'.code f emitted n t at in
        let listed : Listed n t (add_fixup f c.fixups) =
          subst (λ (g : Option Fixup). Listed n t (add_fixup g c.fixups)) (sym at)
            (Listed-new n t c.fixups) in
        (
          n,
          w,
          subst (λ (fs : List Fixup). Listed n t fs) (sym fixups) listed,
          word,
          branch,
          low,
          high,
        )

  pub compile_all-nil : (c c' : Compiler) → compile_all iface labels [] c ≡ some c' → c ≡ c'
  unfolding compile_all
  compile_all-nil c c' e = ap (λ (r : Option Compiler). elim r [ none ↦ c | some x ↦ x ]) e

  pub compile_all-step :
      (i : Instruction) (instructions : List Instruction) (c c'' : Compiler)
      → compile_all iface labels (i ∷ instructions) c ≡ some c''
      → (c' : Compiler) × (compile_instruction iface labels i c ≡ some c')
        × (compile_all iface labels instructions c' ≡ some c'')
  unfolding compile_all
  compile_all-step i instructions c c'' e =
      elim (Option-cases (compile_instruction iface labels i c)) [
        | inl stop ↦ absurd (ground (arith, stop))
        | inr (c', go) ↦ (c', go, ground (arith, go))
      ]

  pub compile_all-append :
      (xs ys : List Instruction) (c c'' : Compiler)
      → compile_all iface labels (xs ++ ys) c ≡ some c''
      → (c' : Compiler) × (compile_all iface labels xs c ≡ some c')
        × (compile_all iface labels ys c' ≡ some c'')
  unfolding compile_all
  compile_all-append [] ys c c'' e = (c, refl, e)
  compile_all-append (x ∷ xs) ys c c'' e =
      let (c₁, e₁, e₂) = compile_all-step x (xs ++ ys) c c'' e in
      let (c₂, e₃, e₄) = compile_all-append xs ys c₁ c'' e₂ in (c₂, rw (e₁, ◌>>=◌) e₃, e₄)

  pub compile_all-snoc :
      (xs : List Instruction) (i : Instruction) (c c₁ c₂ : Compiler)
      → compile_all iface labels xs c ≡ some c₁
      → compile_instruction iface labels i c₁ ≡ some c₂
      → compile_all iface labels (xs ++ i ∷ []) c ≡ some c₂
  unfolding compile_all
  compile_all-snoc [] i c c₁ c₂ e₁ e₂ =
      subst (λ (x : Compiler). compile_all iface labels (i ∷ []) x ≡ some c₂)
        (sym (compile_all-nil c c₁ e₁)) (rw (e₂, ◌>>=◌) refl)
  compile_all-snoc (x ∷ xs) i c c₁ c₂ e₁ e₂ =
      let (c', e₃, e₄) = compile_all-step x xs c c₁ e₁ in
      rw (e₃, ◌>>=◌) (compile_all-snoc xs i c' c₁ c₂ e₄ e₂)

  pub compile_all-Continues :
      (instructions : List Instruction) (c c' : Compiler)
      → compile_all iface labels instructions c ≡ some c'
      → Continues c c'
  unfolding compile_all
  compile_all-Continues [] c c' e =
      subst (λ (x : Compiler). Continues c x) (compile_all-nil c c' e) (Continues-refl c)
  compile_all-Continues (i ∷ instructions) c c' e =
      let (c₁, e₁, e₂) = compile_all-step i instructions c c' e in
      Continues-trans c c₁ c' (step-Continues i c c₁ e₁)
        (compile_all-Continues instructions c₁ c' e₂)

  pub compile_all-Sound :
      (instructions : List Instruction) (c c' : Compiler)
      → compile_all iface labels instructions c ≡ some c'
      → Sound c
      → Sound c'
  unfolding compile_all
  compile_all-Sound [] c c' e sound =
      subst (λ (x : Compiler). Sound x) (compile_all-nil c c' e) sound
  compile_all-Sound (i ∷ instructions) c c' e sound =
      let (c₁, e₁, e₂) = compile_all-step i instructions c c' e in
      compile_all-Sound instructions c₁ c' e₂ (step-Sound i c c₁ e₁ sound)
