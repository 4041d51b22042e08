-- ===== src/Tests/Patches.antt =====
-- The first pass and the last loop of `Compile` on two branches.
use temp_esas.Prelude.{ℕ, ◌-◌, ◌^◌, ◌<◌, ◌≡◌, ◌↔◌, refl, arith, List, [], ◌∷◌, some}
use temp_esas.Arm64.Backend.{cond_eq, gen_bcond, gen_bl, gen_nop}
use temp_esas.Evm2.Types.{Op, Instruction}
use temp_esas.Evm2.Disassembler.{reg_arg, addr_arg}
use temp_esas.Frontend.Patch.{patched, patch_branch_or_imm}
use temp_esas.Compile.Labels.{goto_label, call_label, Labels, find_label, find_labels}
use temp_esas.Compile.Marks.{Refers, find_labels-Refers}
use temp_esas.Compile.Instr.{Fixup}
use temp_esas.Compile.Program.{Mapping, find_index, patch_all}

-- `jumpEqual` to bit 0, and a `call` of bit 72.
abbrev references : List Instruction
references =
    record { opcode = Op.jump_eq; bit_offset = 0; args = addr_arg 0 ∷ reg_arg 1 ∷ reg_arg 2 ∷ [] }
    ∷ record { opcode = Op.call; bit_offset = 47; args = addr_arg 72 ∷ [] }
    ∷ []

abbrev marks : Labels
marks = (72, call_label) ∷ (0, goto_label) ∷ []

references-marks : find_labels references [] ≡ some marks
unfolding find_labels find_label
references-marks = refl

find_labels-Refers_example :
    ((find_label 72 marks ≡ some call_label) ↔ Refers 72 call_label references)
    × ¬ (Refers 72 goto_label references × Refers 72 call_label references)
find_labels-Refers_example = find_labels-Refers references marks 72 call_label references-marks

-- A conditional branch at word 1 to bit 0, and a call at word 3 of bit 72.
abbrev placeholders : List ℕ
placeholders = gen_nop ∷ gen_bcond cond_eq 7 ∷ gen_nop ∷ gen_bl 9 ∷ []

abbrev places : Mapping
places = (0, 0) ∷ (72, 2) ∷ []

abbrev two_fixups : List Fixup
two_fixups = (1, 0) ∷ (3, 72) ∷ []

abbrev filled : List ℕ
filled = gen_nop ∷ gen_bcond cond_eq (2 ^ 32 - 1) ∷ gen_nop ∷ gen_bl (2 ^ 32 - 1) ∷ []

placeholders-filled : patch_all places two_fixups placeholders ≡ some filled
unfolding patch_all find_index patch_branch_or_imm patched gen_bcond gen_bl gen_nop
placeholders-filled = refl

abbrev branch_word : ℕ
branch_word = gen_bl 9

places-small : (a index : ℕ) → find_index a places ≡ some index → index < 2 ^ 18
unfolding find_index
places-small a index e = ground arith
