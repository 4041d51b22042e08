-- ===== src/Compile/Total.antt =====
-- When `Compile` (compile.h) goes through: no assert fails for a program whose instructions its cases
-- take, whose addresses are those of instructions, and whose code fits.
use temp_esas.Prelude.{
  ℕ, ◌<◌, ◌^◌, ◌≡◌, ◌∙◌, ap, sym, refl, subst, arith, inl, inr, List, [], ◌∷◌, Option, none, some,
  ◌>>=◌, true, Option-cases, length, get_elem?, set,
}
use temp_esas.Evm2.Types.{Instruction}
use temp_esas.Frontend.Code
use temp_esas.Frontend.Emit.{begin, end, nop, func_prologue}
use temp_esas.Frontend.Patch.{patched, patch_branch_or_imm}
use temp_esas.Bits.{and_low}
use temp_esas.Compile.Labels.{Label, Labels, find_labels, find_label, goto_label, call_label}
use temp_esas.Compile.Instr.{Interface, Fixup, compile_op}
use temp_esas.Compile.Program.{
  Mapping, find_index, insert_index, Compiler, prologue_for, emit_instruction, compile_instruction,
  compile_all, patch_all, compile, add_fixup,
}
use temp_esas.Compile.Patches.{Listed}
use temp_esas.Compile.Entries.{Listed-add}
use temp_esas.Compile.Typed.{Typed}
use temp_esas.Compile.Succeeds.{Succeeds, Succeeds-then, Succeeds-return}
use temp_esas.Compile.Decided.{stores_to_register, Typed-Decided}
use temp_esas.Compile.Tells.{target_of, emit_instruction-Tells}
use temp_esas.Compile.Places.{compile_instruction-parts}
use temp_esas.Compile.Loop.{compile_all-Sound}
use temp_esas.Compile.Resolve.{empty, empty-Sound, place}
use temp_esas.Compile.Run.Meaning.{index_at}
use temp_esas.Compile.Run.Targets.{first-find_index}

-- The address that the instruction names, if it names one, is that of an instruction.
abbrev pub IsNamed : List Instruction → Option ℕ → Type 0
IsNamed program none = Unit {0}
IsNamed program (some t) = (m : ℕ) × (index_at t program ≡ some m)

-- The instructions have the arguments that the disassembler reads, results that must go to a register
-- do, and the addresses are those of instructions of `program`.
abbrev pub AreTaken : List Instruction → List Instruction → Type 0
AreTaken program [] = Unit {0}
AreTaken program (i ∷ instructions) =
    Typed i.opcode i.args
    × (stores_to_register i.opcode i.args ≡ true)
    × IsNamed program (target_of i.opcode i.args)
    × AreTaken program instructions

-- Every fixup is for the address of an instruction.
abbrev AreNamed : List Instruction → List Fixup → Type 0
AreNamed program fixups = (n t : ℕ) → Listed n t fixups → (m : ℕ) × (index_at t program ≡ some m)

prologue_for-Succeeds : (l : Option Label) → Succeeds (prologue_for l)
unfolding func_prologue
prologue_for-Succeeds none = Succeeds-return tt
prologue_for-Succeeds (some goto_label) = Succeeds-return tt
prologue_for-Succeeds (some call_label) = λ code. (tt, _, refl)

nop-Succeeds : Succeeds nop
unfolding nop
nop-Succeeds code = (_, _, refl)

patched-some : (w n target : ℕ) → target < 2 ^ 16 → patched w n target ≡ none → ⊥
unfolding patched
patched-some w n target h stop = ground (arith, stop, and_low 16 target)

patch-some :
    (n target : ℕ) (code : List ℕ)
    → target < 2 ^ 16
    → (code' : List ℕ) × (patch_branch_or_imm n target code ≡ some code')
unfolding patch_branch_or_imm
patch-some n target code h = elim (Option-cases (get_elem? code n)) [
  | inl past ↦ (code, ground (arith, past))
  | inr (w, found) ↦ elim (Option-cases (patched w n target)) [
    | inl stop ↦ absurd (patched-some w n target h stop)
    | inr (w', turned) ↦ (set code n w', ground (arith, found, turned))
  ]
]

patch_all-some :
    (mapping : Mapping) (fixups : List Fixup) (code : List ℕ)
    → ((n t : ℕ)
        → Listed n t fixups
        → (index : ℕ) × (find_index t mapping ≡ some index) × (index < 2 ^ 16))
    → (code' : List ℕ) × (patch_all mapping fixups code ≡ some code')
unfolding patch_all
patch_all-some mapping [] code found = (code, refl)
patch_all-some mapping ((n, t) ∷ fixups) code found =
    let (index, at, small) = found n t (inl (refl, refl)) in
    let (next, now) = patch-some n index code small in
    let (code', rest) = patch_all-some mapping fixups next λ m u listed. found m u (inr listed) in
    (code', rw (at, ◌>>=◌) (rw (now, ◌>>=◌) rest))

module _ (iface : Interface) (labels : Labels) (program : List Instruction) where
  compile_instruction-some :
      (i : Instruction) (c : Compiler)
      → Typed i.opcode i.args
      → stores_to_register i.opcode i.args ≡ true
      → (c' : Compiler) × (compile_instruction iface labels i c ≡ some c')
  unfolding compile_instruction emit_instruction
  compile_instruction-some i c typed stores = elim (Typed-Decided iface i.opcode i.args typed) [
    | inr (other, stops) ↦ absurd (ground (arith, other, stores))
    | inl (_, goes) ↦
        let (f, code', e) =
          Succeeds-then (prologue_for (find_label i.bit_offset labels)) _
            (prologue_for-Succeeds (find_label i.bit_offset labels))
            (λ _. Succeeds-then (compile_op iface i.opcode i.args) _ goes λ fixup.
              Succeeds-then nop (λ _. Code.return fixup) nop-Succeeds λ _. Succeeds-return fixup)
            c.code in
        (
          record {
            code = code';
            mapping = insert_index i.bit_offset (length c.code) c.mapping;
            fixups = add_fixup f c.fixups;
          },
          rw (e, ◌>>=◌) refl,
        )
  ]

  named :
      (target : Option ℕ) (t : ℕ)
      → IsNamed program target
      → target ≡ some t
      → (m : ℕ) × (index_at t program ≡ some m)
  named none t h e = absurd (ground (arith, e))
  named (some u) t (m, at) e =
      let same : u ≡ t = ground (arith, e) in
      (m, ap (λ (v : ℕ). index_at v program) (sym same) ∙ at)

  step-AreNamed :
      (i : Instruction) (c c' : Compiler)
      → Typed i.opcode i.args
      → IsNamed program (target_of i.opcode i.args)
      → compile_instruction iface labels i c ≡ some c'
      → AreNamed program c.fixups
      → AreNamed program c'.fixups
  step-AreNamed i c c' typed h e all n t listed =
      let (f, emitted, mapping, fixups) = compile_instruction-parts iface labels i c c' e in
      elim (Listed-add n t f c.fixups (subst (λ (fs : List Fixup). Listed n t fs) fixups listed)) [
        | inl old ↦ all n t old
        | inr new ↦
            named (target_of i.opcode i.args) t h
              (emit_instruction-Tells iface labels i typed c.code c'.code f n t emitted new)
      ]

  compile_all-some :
      (instructions : List Instruction) (c : Compiler)
      → AreTaken program instructions
      → AreNamed program c.fixups
      → (c' : Compiler) × (compile_all iface labels instructions c ≡ some c')
        × AreNamed program c'.fixups
  unfolding compile_all
  compile_all-some [] c taken all = (c, refl, all)
  compile_all-some (i ∷ instructions) c (typed, stores, target, taken) all =
      let (c₁, e₁) = compile_instruction-some i c typed stores in
      let (c', e₂, all') =
        compile_all-some instructions c₁ taken (step-AreNamed i c c₁ typed target e₁ all) in
      (c', rw (e₁, ◌>>=◌) e₂, all')

begin-some : (prologue : List ℕ) × (begin [] ≡ some (tt, prologue))
unfolding begin
begin-some = (_, refl)

end-some : (code : List ℕ) → (pos : ℕ) × (whole : List ℕ) × (end code ≡ some (pos, whole))
unfolding end
end-some code = (_, _, refl)

-- For a program that passes the first pass, whose instructions have the arguments that the
-- disassembler reads for them, with registers for the results that must go to one (loadConst,
-- consoleRead), and name only addresses at which instructions begin, and whose code up to its end
-- takes fewer than 2^16 words: `Compile` goes through and gives the code.
pub compile-some :
    (iface : Interface) (program : List Instruction) (labels : Labels)
    → find_labels program [] ≡ some labels
    → AreTaken program program
    → ((size : ℕ) → place iface program program ≡ some size → size < 2 ^ 16)
    → (code : List ℕ) × (compile iface program ≡ some code)
unfolding compile find_index place
compile-some iface program labels found taken fits =
    let (prologue, began) = begin-some in
    let (c, e, all) =
      compile_all-some iface labels program program (empty prologue) taken
        λ n t listed. absurd listed in
    let (pos, whole, ended) = end-some c.code in
    let small = fits (length c.code) (rw (found, began, e, ◌>>=◌) refl) in
    let sound =
      compile_all-Sound iface labels program (empty prologue) c e (empty-Sound prologue) in
    let (code, patched_all) = patch_all-some c.mapping c.fixups whole λ n t listed.
      let (m, at) = all n t listed in
      let (d, front, here) =
        first-find_index iface labels program (empty prologue) c t m e refl at in
      (length d.code, here, omega (arith, small, sound.inside t (length d.code) here)) in
    (code, rw (found, began, ◌>>=◌) (rw (e, ◌>>=◌) (rw (ended, ◌>>=◌) patched_all)))
