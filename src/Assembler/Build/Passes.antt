-- ===== src/Assembler/Build/Passes.antt =====
-- `build` and `__apply_patches` (res/compiler.py) on a whole code section.
use temp_esas.Prelude.{ℕ, ◌<◌, ◌≡◌, sym, refl, subst, List, [], ◌∷◌, ◌++◌, some, length, get_elem?}
use mathlib.Core.List.{append_assoc, append-nil}
use temp_esas.Assembler.Encode.{
  AsmArg, AsmInstr, register, constant, label, op_code, format_rev, assemble_register,
  assemble_args, assemble_instr,
}
use temp_esas.Assembler.Program.{assemble_program}
use temp_esas.Assembler.Build.{
  Builder, append_bits, build_arg, build_args, build_instr, build_code, apply_patches,
}
use temp_esas.Assembler.Build.Writes.{patch_bits}
use temp_esas.Assembler.Build.Agrees.{
  AreBelow, ArgsBelow, LabelsBelow, Known, Known-before, build_arg-offsets, build_instr-offsets,
  build_code-offsets, Agrees, append_bits-Agrees, assemble_label-Agrees,
}

module _ (address : ℕ → ℕ) (n : ℕ) (wide : (l : ℕ) → length (format_rev 32 (address l)) ≡ 32) where
  build_args-Agrees :
      (args : List AsmArg) (b : Builder) (bits : List ℕ)
      → ArgsBelow args n
      → Known address b.offsets
      → Agrees address n wide b bits
      → Agrees address n wide (build_args args b) (bits ++ assemble_args address args)
  unfolding build_args assemble_args
  build_args-Agrees [] b bits below known g =
      subst (λ (x : List ℕ). Agrees address n wide b x) (sym (append-nil bits)) g
  build_args-Agrees (register id ref ∷ args) b bits (here, below) known g =
      subst
        (λ (x : List ℕ). Agrees address n wide (build_args args (build_arg (register id ref) b)) x)
        (append_assoc bits (assemble_register id ref) (assemble_args address args))
        (build_args-Agrees args _ _ below known
          (append_bits-Agrees address n wide (assemble_register id ref) b bits g))
  build_args-Agrees (constant v ∷ args) b bits (here, below) known g =
      subst (λ (x : List ℕ). Agrees address n wide (build_args args (build_arg (constant v) b)) x)
        (append_assoc bits (format_rev 64 v) (assemble_args address args))
        (build_args-Agrees args _ _ below known
          (append_bits-Agrees address n wide (format_rev 64 v) b bits g))
  build_args-Agrees (label l ∷ args) b bits (here, below) known g =
      subst (λ (x : List ℕ). Agrees address n wide (build_args args (build_arg (label l) b)) x)
        (append_assoc bits (format_rev 32 (address l)) (assemble_args address args))
        (build_args-Agrees args (build_arg (label l) b) _ below
          (subst (λ (o : List ℕ). Known address o) (sym (build_arg-offsets (label l) b)) known)
          (assemble_label-Agrees address n wide l b bits here known g))

  build_instr-Agrees :
      (i : AsmInstr) (b : Builder) (bits : List ℕ)
      → ArgsBelow i.args n
      → Known address (b.offsets ++ length b.bytecode ∷ [])
      → Agrees address n wide b bits
      → Agrees address n wide (build_instr i b) (bits ++ assemble_instr address i)
  unfolding build_instr assemble_instr
  build_instr-Agrees i b bits below known g =
      let listed : Builder = record b { offsets = b.offsets ++ length b.bytecode ∷ [] } in
      let g₁ : Agrees address n wide listed bits = record {
        inside = g.inside;
        patched = g.patched;
        below = g.below;
      } in
      subst
        (λ (x : List ℕ).
          Agrees address n wide (build_args i.args (append_bits (op_code i.opcode) listed)) x)
        (append_assoc bits (op_code i.opcode) (assemble_args address i.args))
        (build_args-Agrees i.args _ _ below known
          (append_bits-Agrees address n wide (op_code i.opcode) listed bits g₁))

  pub build_code-Agrees :
      (program : List AsmInstr) (b : Builder) (bits : List ℕ)
      → LabelsBelow program n
      → Known address (build_code program b).offsets
      → Agrees address n wide b bits
      → Agrees address n wide (build_code program b) (bits ++ assemble_program address program)
  unfolding build_code assemble_program
  build_code-Agrees [] b bits below known g =
      subst (λ (x : List ℕ). Agrees address n wide b x) (sym (append-nil bits)) g
  build_code-Agrees (i ∷ program) b bits (here, below) known g =
      let (more, e, size) = build_code-offsets program (build_instr i b) in
      let known₁ =
        Known-before address (build_instr i b).offsets more
          (build_code program (build_instr i b)).offsets e known in
      let g₁ =
        build_instr-Agrees i b bits here
          (subst (λ (o : List ℕ). Known address o) (build_instr-offsets i b) known₁) g in
      subst (λ (x : List ℕ). Agrees address n wide (build_code program (build_instr i b)) x)
        (append_assoc bits (assemble_instr address i) (assemble_program address program))
        (build_code-Agrees program (build_instr i b) _ below known g₁)

  pub apply_patches-patch_bits :
      (offsets : List ℕ) (patches : List (ℕ × ℕ)) (code : List ℕ)
      → ((l : ℕ) → l < n → get_elem? offsets l ≡ some (address l))
      → AreBelow patches n
      → apply_patches offsets patches code ≡ some (patch_bits address patches code)
  unfolding apply_patches patch_bits
  apply_patches-patch_bits offsets [] code known below = refl
  apply_patches-patch_bits offsets ((p, l) ∷ patches) code known (here, below) =
      rw (apply_patches, known l here) (apply_patches-patch_bits offsets patches _ known below)
