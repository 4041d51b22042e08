-- ===== src/Assembler/Build.antt =====
-- The two passes of `build` (res/compiler.py) over the code section: a label that is not known yet is
-- assembled as zero, and `__apply_patches` puts its address there. A label is the number of
-- instructions before it, as `code_labels` has it.
pub mod Writes
pub mod Agrees
pub mod Passes
pub mod Addresses
use temp_esas.Prelude.{ℕ, ◌+◌, List, [], ◌∷◌, ◌++◌, Option, none, some, length, get_elem?, set}
use temp_esas.Assembler.Encode.{
  AsmArg, AsmInstr, register, constant, label, op_code, format_rev, assemble_register,
}

-- `__bytecode`, `__offsets_list` and `__offset_patches`, whose keys come in increasing order.
pub record Builder : Type 0 where
  pub bytecode : List ℕ
  pub offsets : List ℕ
  pub patches : List (ℕ × ℕ)

abbrev pub new_builder : Builder
new_builder = record { bytecode = []; offsets = []; patches = [] }

abbrev pub append_bits : List ℕ → Builder → Builder
append_bits bits b = record b { bytecode = b.bytecode ++ bits }

unfoldable pub assemble_label : ℕ → Builder → Builder
assemble_label l b = elim (get_elem? b.offsets l) [
  | some address ↦ append_bits (format_rev 32 address) b
  | none ↦ record b {
    bytecode = b.bytecode ++ format_rev 32 0;
    patches = b.patches ++ (length b.bytecode, l) ∷ [];
  }
]

abbrev pub build_arg : AsmArg → Builder → Builder
build_arg (register id ref) b = append_bits (assemble_register id ref) b
build_arg (constant v) b = append_bits (format_rev 64 v) b
build_arg (label l) b = assemble_label l b

unfoldable pub build_args : List AsmArg → Builder → Builder
build_args [] b = b
build_args (arg ∷ args) b = build_args args (build_arg arg b)

-- The body of the loop.
unfoldable pub build_instr : AsmInstr → Builder → Builder
build_instr i b =
    build_args i.args
      (append_bits (op_code i.opcode) (record b { offsets = b.offsets ++ length b.bytecode ∷ [] }))

unfoldable pub build_code : List AsmInstr → Builder → Builder
build_code [] b = b
build_code (i ∷ program) b = build_code program (build_instr i b)

-- `self.__bytecode[position + i] = bit` for each bit.
unfoldable pub write_bits : ℕ → List ℕ → List ℕ → List ℕ
write_bits position [] code = code
write_bits position (bit ∷ bits) code = write_bits (position + 1) bits (set code position bit)

-- `__apply_patches`; a label behind the last instruction has no offset, which is an IndexError.
unfoldable pub apply_patches : List ℕ → List (ℕ × ℕ) → List ℕ → Option (List ℕ)
apply_patches offsets [] code = some code
apply_patches offsets ((position, l) ∷ patches) code = elim (get_elem? offsets l) [
  | none ↦ none
  | some address ↦ apply_patches offsets patches (write_bits position (format_rev 32 address) code)
]

-- The bits of the code section, before the padding.
unfoldable pub build_bits : List AsmInstr → Option (List ℕ)
build_bits program =
    let b = build_code program new_builder in apply_patches b.offsets b.patches b.bytecode
