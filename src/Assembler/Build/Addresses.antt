-- ===== src/Assembler/Build/Addresses.antt =====
-- The addresses of labels in what `build` (res/compiler.py) writes.
use temp_esas.Prelude.{
  ℕ, zero, suc, ◌^◌, ◌<◌, ◌≡◌, ◌∙◌, ap, sym, refl, subst, arith, List, [], ◌∷◌, ◌++◌, none, some,
  length, get_elem?, get_elem?-end,
}
use mathlib.Core.List.{append-nil}
use temp_esas.Evm2.Stream.Bits.{length-le_bits}
use temp_esas.Assembler.Encode.{AsmInstr, format_rev}
use temp_esas.Assembler.Operands.{format_rev-fits}
use temp_esas.Assembler.Program.{assemble_program}
use temp_esas.Assembler.Build.{Builder, new_builder, build_instr, build_code, build_bits}
use temp_esas.Assembler.Build.Writes.{patch_bits, length-patch_bits}
use temp_esas.Assembler.Build.Agrees.{
  LabelsBelow, Known, Known-before, build_instr-offsets, build_code-offsets, Agrees,
}
use temp_esas.Assembler.Build.Passes.{build_code-Agrees, apply_patches-patch_bits}

abbrev listed : List ℕ → ℕ → ℕ
listed offsets l = elim (get_elem? offsets l) [ none ↦ 0 | some a ↦ a ]

-- The address of a label is the entry of `__offsets_list` behind the loop.
unfoldable pub addresses : List AsmInstr → ℕ → ℕ
addresses program = listed (build_code program new_builder).offsets

get_elem?-listed :
    (offsets : List ℕ) (l : ℕ) → l < length offsets → get_elem? offsets l ≡ some (listed offsets l)
get_elem?-listed [] l h = absurd (omega arith)
get_elem?-listed (a ∷ offsets) zero h = refl
get_elem?-listed (a ∷ offsets) (suc l) h = get_elem?-listed offsets l (omega arith)

LabelsBelow-left : (xs ys : List AsmInstr) (n : ℕ) → LabelsBelow (xs ++ ys) n → LabelsBelow xs n
LabelsBelow-left [] ys n below = tt
LabelsBelow-left (i ∷ xs) ys n (here, below) = (here, LabelsBelow-left xs ys n below)

build_code-append :
    (xs ys : List AsmInstr) (b : Builder)
    → build_code (xs ++ ys) b ≡ build_code ys (build_code xs b)
unfolding build_code
build_code-append [] ys b = refl
build_code-append (i ∷ xs) ys b = build_code-append xs ys (build_instr i b)

new-Agrees :
    (address : ℕ → ℕ) (n : ℕ) (w : (l : ℕ) → length (format_rev 32 (address l)) ≡ 32)
    → Agrees address n w new_builder []
unfolding patch_bits
new-Agrees address n w = record { inside = tt; patched = refl; below = tt }

module _ (program : List AsmInstr) (small : (l : ℕ) → addresses program l < 2 ^ 32) where
  wide : (l : ℕ) → length (format_rev 32 (addresses program l)) ≡ 32
  wide l =
      ap (λ (x : List ℕ). length x) (format_rev-fits 32 (addresses program l) (small l))
      ∙ length-le_bits 32 (addresses program l)

  known : Known (addresses program) (build_code program new_builder).offsets
  unfolding addresses
  known l a at = ground (arith, at)

  all_known :
      (l : ℕ)
      → l < length program
      → get_elem? (build_code program new_builder).offsets l ≡ some (addresses program l)
  unfolding addresses
  all_known l h =
      let (more, e, size) = build_code-offsets program new_builder in
      get_elem?-listed (build_code program new_builder).offsets l
        (omega (arith, ap (λ (x : List ℕ). length x) e, size))

  -- Up to an instruction, the bits are those of one pass.
  before-Agrees :
      (xs ys : List AsmInstr)
      → program ≡ xs ++ ys
      → LabelsBelow program (length program)
      → Agrees
          (addresses program)
          (length program)
          wide
          (build_code xs new_builder)
          (assemble_program (addresses program) xs)
  before-Agrees xs ys e below =
      let (more, grown, size) = build_code-offsets ys (build_code xs new_builder) in
      let all : (build_code program new_builder).offsets
          ≡ (build_code xs new_builder).offsets ++ more =
        ap (λ (p : List AsmInstr). (build_code p new_builder).offsets) e
        ∙ ap (λ (b : Builder). b.offsets) (build_code-append xs ys new_builder)
        ∙ grown in
      build_code-Agrees (addresses program) (length program) wide xs new_builder []
        (LabelsBelow-left xs ys (length program)
          (subst (λ (p : List AsmInstr). LabelsBelow p (length program)) e below))
        (Known-before (addresses program) (build_code xs new_builder).offsets more
          (build_code program new_builder).offsets all known)
        (new-Agrees (addresses program) (length program) wide)

  -- The address of an instruction is the number of bits before it.
  addresses-length :
      (xs : List AsmInstr) (i : AsmInstr) (ys : List AsmInstr)
      → program ≡ xs ++ i ∷ ys
      → LabelsBelow program (length program)
      → addresses program (length xs) ≡ length (assemble_program (addresses program) xs)
  unfolding build_code
  addresses-length xs i ys e below =
      let b = build_code xs new_builder in
      let g = before-Agrees xs (i ∷ ys) e below in
      let (before, e₁, size) = build_code-offsets xs new_builder in
      let (more, e₂, rest) = build_code-offsets ys (build_instr i b) in
      let place : length b.offsets ≡ length xs = ap (λ (x : List ℕ). length x) e₁ ∙ size in
      let all : (build_code program new_builder).offsets
          ≡ (b.offsets ++ length b.bytecode ∷ []) ++ more =
        ap (λ (p : List AsmInstr). (build_code p new_builder).offsets) e
        ∙ ap (λ (c : Builder). c.offsets) (build_code-append xs (i ∷ ys) new_builder)
        ∙ e₂
        ∙ ap (λ (o : List ℕ). o ++ more) (build_instr-offsets i b) in
      let there : get_elem? (b.offsets ++ length b.bytecode ∷ []) (length xs)
          ≡ some (length b.bytecode) =
        ap (λ (k : ℕ). get_elem? (b.offsets ++ length b.bytecode ∷ []) k) (sym place)
        ∙ get_elem?-end b.offsets (length b.bytecode) in
      Known-before (addresses program) (b.offsets ++ length b.bytecode ∷ []) more
        (build_code program new_builder).offsets all known (length xs) (length b.bytecode) there
      ∙ sym (length-patch_bits (addresses program) b.patches b.bytecode)
      ∙ ap (λ (x : List ℕ). length x) g.patched

  build_bits-addresses :
      LabelsBelow program (length program)
      → build_bits program ≡ some (assemble_program (addresses program) program)
  unfolding build_bits
  build_bits-addresses below =
      let b = build_code program new_builder in
      let g = before-Agrees program [] (sym (append-nil program)) below in
      apply_patches-patch_bits (addresses program) (length program) wide b.offsets b.patches
        b.bytecode all_known g.below
      ∙ ap some g.patched

-- If every label of a program that is not empty names one of its instructions and every address
-- fits into 32 bits, then the two passes, which assemble an unknown label as zero and patch it at
-- the end, succeed and give the bits of a single pass that knows the final addresses, and the
-- address of each instruction is the number of bits before it.
pub build_bits-assemble_program :
    (xs : List AsmInstr) (i : AsmInstr) (ys : List AsmInstr)
    → ((l : ℕ) → addresses (xs ++ i ∷ ys) l < 2 ^ 32)
    → LabelsBelow (xs ++ i ∷ ys) (length (xs ++ i ∷ ys))
    → (build_bits (xs ++ i ∷ ys)
        ≡ some (assemble_program (addresses (xs ++ i ∷ ys)) (xs ++ i ∷ ys)))
      × (addresses (xs ++ i ∷ ys) (length xs)
          ≡ length (assemble_program (addresses (xs ++ i ∷ ys)) xs))
build_bits-assemble_program xs i ys small below = (
  build_bits-addresses (xs ++ i ∷ ys) small below,
  addresses-length (xs ++ i ∷ ys) small xs i ys refl below,
)
