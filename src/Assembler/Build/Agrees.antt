-- ===== src/Assembler/Build/Agrees.antt =====
-- The two passes of `build` (res/compiler.py) write what one pass with the final addresses writes.
use temp_esas.Prelude.{
  ℕ, suc, ◌+◌, ◌≤◌, ◌<◌, ◌≡◌, ◌∙◌, ap, sym, refl, subst, arith, inl, inr, List, [], ◌∷◌, ◌++◌, some,
  Option-cases, length, length-append, get_elem?, get_elem?-append, get_elem?-lt,
}
use mathlib.Core.List.{append_assoc, append-nil}
use temp_esas.Assembler.Encode.{AsmArg, AsmInstr, register, constant, label, format_rev}
use temp_esas.Assembler.Build.{
  Builder, append_bits, assemble_label, build_arg, build_args, build_instr, build_code, write_bits,
}
use temp_esas.Assembler.Build.Writes.{
  patch_bits, AreInside, AreInside-more, AreInside-snoc, patch_bits-snoc, length-patch_bits,
  patch_bits-append, write_bits-end,
}

abbrev pub AreBelow : List (ℕ × ℕ) → ℕ → Type 0
AreBelow [] n = Unit {0}
AreBelow ((position, l) ∷ patches) n = (l < n) × AreBelow patches n

AreBelow-snoc :
    (patches : List (ℕ × ℕ)) (n position l : ℕ)
    → AreBelow patches n
    → l < n
    → AreBelow (patches ++ (position, l) ∷ []) n
AreBelow-snoc [] n position l below h = (h, tt)
AreBelow-snoc (p ∷ patches) n position l (here, more) h =
    (here, AreBelow-snoc patches n position l more h)

-- The labels of a program are those of its instructions.
abbrev pub LabelBelow : AsmArg → ℕ → Type 0
LabelBelow (label l) n = l < n
LabelBelow _ n = Unit {0}

abbrev pub ArgsBelow : List AsmArg → ℕ → Type 0
ArgsBelow [] n = Unit {0}
ArgsBelow (arg ∷ args) n = LabelBelow arg n × ArgsBelow args n

abbrev pub LabelsBelow : List AsmInstr → ℕ → Type 0
LabelsBelow [] n = Unit {0}
LabelsBelow (i ∷ program) n = ArgsBelow i.args n × LabelsBelow program n

-- The offsets that are listed are the addresses.
abbrev pub Known : (ℕ → ℕ) → List ℕ → Type 0
Known address offsets = (l a : ℕ) → get_elem? offsets l ≡ some a → address l ≡ a

pub build_arg-offsets : (arg : AsmArg) (b : Builder) → (build_arg arg b).offsets ≡ b.offsets
unfolding assemble_label
build_arg-offsets (register id ref) b = refl
build_arg-offsets (constant v) b = refl
build_arg-offsets (label l) b = elim (Option-cases (get_elem? b.offsets l)) [
  | inl new ↦ ground (arith, new)
  | inr (a, old) ↦ ground (arith, old)
]

pub build_args-offsets :
    (args : List AsmArg) (b : Builder) → (build_args args b).offsets ≡ b.offsets
unfolding build_args
build_args-offsets [] b = refl
build_args-offsets (arg ∷ args) b =
    build_args-offsets args (build_arg arg b) ∙ build_arg-offsets arg b

pub build_instr-offsets :
    (i : AsmInstr) (b : Builder) → (build_instr i b).offsets ≡ b.offsets ++ length b.bytecode ∷ []
unfolding build_instr
build_instr-offsets i b = build_args-offsets i.args _

pub build_code-offsets :
    (program : List AsmInstr) (b : Builder)
    → (more : List ℕ) × ((build_code program b).offsets ≡ b.offsets ++ more)
      × (length more ≡ length program)
unfolding build_code
build_code-offsets [] b = ([], sym (append-nil b.offsets), refl)
build_code-offsets (i ∷ program) b =
    let (more, e, size) = build_code-offsets program (build_instr i b) in
    (
      length b.bytecode ∷ more,
      e
          ∙ ap (λ (l : List ℕ). l ++ more) (build_instr-offsets i b)
          ∙ append_assoc b.offsets (length b.bytecode ∷ []) more,
      ap suc size,
    )

pub Known-before :
    (address : ℕ → ℕ) (offsets more all : List ℕ)
    → all ≡ offsets ++ more
    → Known address all
    → Known address offsets
Known-before address offsets more all e known l a at = known l a (
    ap (λ (o : List ℕ). get_elem? o l) e
    ∙ get_elem?-append offsets more l (get_elem?-lt offsets l a at)
    ∙ at)

module _ (address : ℕ → ℕ) (n : ℕ) (wide : (l : ℕ) → length (format_rev 32 (address l)) ≡ 32) where
  -- The bits, patched, are `bits`.
  pub record Agrees (b : Builder) (bits : List ℕ) : Type 0 where
    pub inside : AreInside b.patches (length b.bytecode)
    pub patched : patch_bits address b.patches b.bytecode ≡ bits
    pub below : AreBelow b.patches n

  pub append_bits-Agrees :
      (more : List ℕ) (b : Builder) (bits : List ℕ)
      → Agrees b bits
      → Agrees (append_bits more b) (bits ++ more)
  append_bits-Agrees more b bits g = record {
    inside =
        AreInside-more b.patches (length b.bytecode) (length (b.bytecode ++ more))
          (omega (arith, length-append b.bytecode more)) g.inside;
    patched =
        patch_bits-append address b.patches b.bytecode more wide g.inside
        ∙ ap (λ (l : List ℕ). l ++ more) g.patched;
    below = g.below;
  }

  zero_bits : length (format_rev 32 0) ≡ 32
  unfolding format_rev
  zero_bits = refl

  new_label-Agrees :
      (l : ℕ) (b : Builder) (bits : List ℕ)
      → l < n
      → Agrees b bits
      → Agrees
          (record b {
            bytecode = b.bytecode ++ format_rev 32 0;
            patches = b.patches ++ (length b.bytecode, l) ∷ [];
          })
          (bits ++ format_rev 32 (address l))
  new_label-Agrees l b bits h g =
      let code = b.bytecode ++ format_rev 32 0 in
      let longer : length b.bytecode + 32 ≤ length code =
        omega (arith, length-append b.bytecode (format_rev 32 0), zero_bits) in
      let size : length b.bytecode ≡ length bits =
        sym (length-patch_bits address b.patches b.bytecode)
        ∙ ap (λ (x : List ℕ). length x) g.patched in
      let before = append_bits-Agrees (format_rev 32 0) b bits g in
      record {
        inside = AreInside-snoc b.patches (length code) (length b.bytecode) l before.inside longer;
        patched =
            patch_bits-snoc address b.patches (length b.bytecode) l code
            ∙ ap (λ (x : List ℕ). write_bits (length b.bytecode) (format_rev 32 (address l)) x)
                before.patched
            ∙ ap (λ (p : ℕ). write_bits p (format_rev 32 (address l)) (bits ++ format_rev 32 0))
                size
            ∙ write_bits-end bits (format_rev 32 (address l)) (format_rev 32 0)
                (zero_bits ∙ sym (wide l));
        below = AreBelow-snoc b.patches n (length b.bytecode) l g.below h;
      }

  pub assemble_label-Agrees :
      (l : ℕ) (b : Builder) (bits : List ℕ)
      → l < n
      → Known address b.offsets
      → Agrees b bits
      → Agrees (assemble_label l b) (bits ++ format_rev 32 (address l))
  unfolding assemble_label
  assemble_label-Agrees l b bits h known g = elim (Option-cases (get_elem? b.offsets l)) [
    | inl new ↦ rw (assemble_label, new) (new_label-Agrees l b bits h g)
    | inr (a, old) ↦
        rw (assemble_label, old)
          (subst (λ (v : ℕ). Agrees (append_bits (format_rev 32 a) b) (bits ++ format_rev 32 v))
            (sym (known l a old)) (append_bits-Agrees (format_rev 32 a) b bits g))
  ]
