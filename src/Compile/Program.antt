-- ===== src/Compile/Program.antt =====
-- The passes of `Compile` (compile.h) put together.
use temp_esas.Prelude.{
  ℕ, List, [], ◌∷◌, ◌++◌, Option, none, some, ◌>>=◌, ◌==◌, if◌then◌else◌, length,
}
use temp_esas.Evm2.Types.{Instruction}
use temp_esas.Frontend.Code.{Jit, done}
use temp_esas.Frontend.Code
use temp_esas.Frontend.Emit.{begin, end, nop, func_prologue}
use temp_esas.Frontend.Patch.{patch_branch_or_imm}
use temp_esas.Compile.Labels.{Label, call_label, goto_label, Labels, find_label, find_labels}
use temp_esas.Compile.Instr.{Interface, Fixup, compile_op}

-- `mapping`: where the code of the instruction at a bit address begins.
abbrev pub Mapping : Type 0
Mapping = List (ℕ × ℕ)

unfoldable pub find_index : ℕ → Mapping → Option ℕ
find_index a [] = none
find_index a ((b, index) ∷ mapping) = if b == a then some index else find_index a mapping

-- `mapping.insert` keeps an entry that is there already.
unfoldable pub insert_index : ℕ → ℕ → Mapping → Mapping
insert_index a index mapping = elim (find_index a mapping) [
  | none ↦ mapping ++ (a, index) ∷ []
  | some old ↦ mapping
]

pub record Compiler : Type 0 where
  pub code : List ℕ
  pub mapping : Mapping
  pub fixups : List Fixup

abbrev pub prologue_for : Option Label → Jit (Unit {0})
prologue_for none = done
prologue_for (some goto_label) = done
prologue_for (some call_label) = func_prologue

-- The words of one instruction: the prologue of a called address, the case, and a `nop`.
unfoldable pub emit_instruction : Interface → Labels → Instruction → Jit (Option Fixup)
emit_instruction iface labels i = Code.◌>>=◌ (prologue_for (find_label i.bit_offset labels)) λ _.
    Code.◌>>=◌ (compile_op iface i.opcode i.args) λ fixup. Code.◌>>=◌ nop λ _. Code.return fixup

abbrev pub add_fixup : Option Fixup → List Fixup → List Fixup
add_fixup none fixups = fixups
add_fixup (some f) fixups = fixups ++ f ∷ []

-- The body of the second loop.
unfoldable pub compile_instruction : Interface → Labels → Instruction → Compiler → Option Compiler
compile_instruction iface labels i c = do
  (fixup, code') ← emit_instruction iface labels i c.code
  some (record {
    code = code';
    mapping = insert_index i.bit_offset (length c.code) c.mapping;
    fixups = add_fixup fixup c.fixups;
  })

unfoldable pub compile_all : Interface → Labels → List Instruction → Compiler → Option Compiler
compile_all iface labels [] c = some c
compile_all iface labels (i ∷ instructions) c =
    compile_instruction iface labels i c >>= compile_all iface labels instructions

-- The last loop; a target that no instruction begins at stops at the `assert`.
unfoldable pub patch_all : Mapping → List Fixup → List ℕ → Option (List ℕ)
patch_all mapping [] code = some code
patch_all mapping ((instruction, target) ∷ fixups) code = do
  index ← find_index target mapping
  code' ← patch_branch_or_imm instruction index code
  patch_all mapping fixups code'

-- `Compile`, up to `finalize`, which copies the words into executable memory.
unfoldable pub compile : Interface → List Instruction → Option (List ℕ)
compile iface instructions = do
  labels ← find_labels instructions []
  (_, code) ← begin []
  c ← compile_all iface labels instructions (record { code = code; mapping = []; fixups = [] })
  (_, code') ← end c.code
  patch_all c.mapping c.fixups code'
