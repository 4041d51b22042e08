-- ===== src/Compile/Run/Final.antt =====
-- The words of one instruction in the code that `Compile` (compile.h) hands over: they are as they
-- were emitted, but for the instruction's own fixup.
use temp_esas.Prelude.{
  ℕ, zero, suc, ◌≤◌, ◌≡◌, ◌∙◌, ◌⊎◌, sym, refl, subst, arith, inl, inr, List, [], ◌∷◌, Option, some,
  ◌>>=◌, length, get_elem?, get_elem?-lt, take, drop,
}
use temp_esas.Evm2.Types.{Instruction}
use temp_esas.Frontend.Growth.{Extends-trans}
use temp_esas.Frontend.Growth.Calls.{Extends-length}
use temp_esas.Compile.Labels.{Labels}
use temp_esas.Compile.Instr.{Interface, Fixup}
use temp_esas.Compile.Program.{
  Compiler, add_fixup, emit_instruction, compile_instruction, compile_all,
}
use temp_esas.Compile.Patches.{Listed, IsFree, IsPatched, patch_all-free}
use temp_esas.Compile.Places.{
  Extends-get_elem?, emit_instruction-Records, compile_instruction-parts,
}
use temp_esas.Compile.Entries.{Listed-add, Listed-new}
use temp_esas.Compile.Loop.{
  compile_all-nil, compile_all-step, compile_all-Continues, compile_all-Sound, step-Continues,
}
use temp_esas.Compile.Resolve.{
  empty, empty-Sound, Parts, place, place_of, whole-Extends, whole-length, whole-IsPatched,
}

IsFree-unlisted : (n : ℕ) (fixups : List Fixup) → ((t : ℕ) → ¬ Listed n t fixups) → IsFree n fixups
IsFree-unlisted n [] never = tt
IsFree-unlisted n ((m, u) ∷ fixups) never =
    (λ same. never u (inl (same, refl)), IsFree-unlisted n fixups λ t later. never t (inr later))

module _ (iface : Interface) (labels : Labels) where
  step-Listed :
      (i : Instruction) (c c' : Compiler) (n t : ℕ)
      → compile_instruction iface labels i c ≡ some c'
      → Listed n t c'.fixups
      → Listed n t c.fixups ⊎ (length c.code ≤ n)
  step-Listed i c c' n t e listed =
      let (f, emitted, mapping, fixups) = compile_instruction-parts iface labels i c c' e in
      elim (Listed-add n t f c.fixups (subst (λ (fs : List Fixup). Listed n t fs) fixups listed)) [
        | inl old ↦ inl old
        | inr new ↦
            let (low, high) =
              emit_instruction-Records iface labels i c.code c'.code f emitted n t new in
            inr low
      ]

  -- A fixup that the rest of the loop adds is at a word that the rest of the loop emits.
  later-Listed :
      (instructions : List Instruction) (c c' : Compiler) (n t : ℕ)
      → compile_all iface labels instructions c ≡ some c'
      → Listed n t c'.fixups
      → Listed n t c.fixups ⊎ (length c.code ≤ n)
  later-Listed [] c c' n t e listed = inl (
      subst (λ (x : Compiler). Listed n t x.fixups) (sym (compile_all-nil iface labels c c' e))
        listed)
  later-Listed (i ∷ instructions) c c'' n t e listed =
      let (c', e₁, e₂) = compile_all-step iface labels i instructions c c'' e in
      let more = step-Continues iface labels i c c' e₁ in
      elim (later-Listed instructions c' c'' n t e₂ listed) [
        | inl old ↦ step-Listed i c c' n t e₁ old
        | inr past ↦ inr (omega (arith, past, Extends-length c.code c'.code more.code))
      ]

  -- The loop up to an instruction, the instruction, and the rest.
  pub cut :
      (instructions : List Instruction) (n : ℕ) (i : Instruction) (c c' : Compiler)
      → compile_all iface labels instructions c ≡ some c'
      → get_elem? instructions n ≡ some i
      → (c₁ : Compiler) × (c₂ : Compiler) × (compile_all iface labels (take n instructions) c
          ≡ some c₁)
        × (compile_instruction iface labels i c₁ ≡ some c₂)
        × (compile_all iface labels (take (suc n) instructions) c ≡ some c₂)
        × (compile_all iface labels (drop (suc n) instructions) c₂ ≡ some c')
  unfolding compile_all
  cut [] n i c c' e at = absurd (ground (arith, at))
  cut (j ∷ instructions) zero i c c' e at =
      let (c₂, e₁, e₂) = compile_all-step iface labels j instructions c c' e in
      let same : j ≡ i = ground (arith, at) in
      let now =
        subst (λ (k : Instruction). compile_instruction iface labels k c ≡ some c₂) same e₁ in
      (c, c₂, refl, now, rw (e₁, ◌>>=◌) refl, e₂)
  cut (j ∷ instructions) (suc n) i c c' e at =
      let (d, e₁, e₂) = compile_all-step iface labels j instructions c c' e in
      let (c₁, c₂, front, now, next, rest) = cut instructions n i d c' e₂ at in
      (c₁, c₂, rw (e₁, ◌>>=◌) front, now, rw (e₁, ◌>>=◌) next, rest)

-- The words of instruction `n`, in the final code.
pub record Placed (iface : Interface) (instructions : List Instruction) (code : List ℕ)
    (p : Parts iface instructions code) (n : ℕ) (i : Instruction) : Type 0 where
  pub before : List ℕ
  pub after : List ℕ
  pub fixup : Option Fixup
  pub begins : place iface instructions (take n instructions) ≡ some (length before)
  pub ends : place iface instructions (take (suc n) instructions) ≡ some (length after)
  pub emitted : emit_instruction iface p.labels i before ≡ some (fixup, after)
  pub kept :
      (m w : ℕ)
      → length before ≤ m
      → ((t : ℕ) → ¬ (fixup ≡ some (m, t)))
      → get_elem? after m ≡ some w
      → get_elem? code m ≡ some w
  pub fixed :
      (m t w : ℕ)
      → fixup ≡ some (m, t)
      → get_elem? after m ≡ some w
      → IsPatched p.c.mapping code m t w
  pub room : length after ≤ length code

-- When `Compile` succeeds, every instruction of the program has its words.
pub instruction-Placed :
    (iface : Interface) (instructions : List Instruction) (code : List ℕ)
    (p : Parts iface instructions code) (n : ℕ) (i : Instruction)
    → get_elem? instructions n ≡ some i
    → Placed iface instructions code p n i
instruction-Placed iface instructions code p n i at =
    let start = empty p.prologue in
    let (c₁, c₂, front, now, next, rest) =
      cut iface p.labels instructions n i start p.c p.compiled at in
    let (f, emitted, mapping, fixups) = compile_instruction-parts iface p.labels i c₁ c₂ now in
    let more = compile_all-Continues iface p.labels (drop (suc n) instructions) c₂ p.c rest in
    let sound =
      compile_all-Sound iface p.labels (take n instructions) start c₁ front
        (empty-Sound p.prologue) in
    let to_whole =
      Extends-trans c₂.code p.c.code p.whole more.code (whole-Extends iface instructions code p) in
    record {
      before = c₁.code;
      after = c₂.code;
      fixup = f;
      begins = place_of iface instructions code p (take n instructions) c₁ front;
      ends = place_of iface instructions code p (take (suc n) instructions) c₂ next;
      emitted = emitted;
      kept = λ m w low own here.
          let inside = get_elem?-lt c₂.code m w here in
          let never : (t : ℕ) → ¬ Listed m t p.c.fixups = λ t listed.
            elim (later-Listed iface p.labels (drop (suc n) instructions) c₂ p.c m t rest listed) [
              | inr past ↦ omega (arith, past, inside)
              | inl old ↦
                  elim (Listed-add m t f c₁.fixups
                    (subst (λ (fs : List Fixup). Listed m t fs) fixups old)) [
                      | inl older ↦ omega (arith, sound.below m t older, low)
                      | inr new ↦ own t new
                    ]
            ] in
          patch_all-free p.c.mapping p.c.fixups p.whole code m p.patched
            (IsFree-unlisted m p.c.fixups never)
          ∙ Extends-get_elem? c₂.code p.whole m w to_whole here;
      fixed = λ m t w own here.
          whole-IsPatched iface instructions code p m t w
            (more.fixups m t (
              subst (λ (fs : List Fixup). Listed m t fs) (sym fixups)
                (subst (λ (g : Option Fixup). Listed m t (add_fixup g c₁.fixups)) (sym own)
                  (Listed-new m t c₁.fixups))))
            (Extends-get_elem? c₂.code p.c.code m w more.code here);
      room = omega (
        arith,
        Extends-length c₂.code p.c.code more.code,
        whole-length iface instructions code p,
      );
    }
