-- ===== src/Frontend/Patch.antt =====
-- `patchBranchOrImm` (jit_arm64_fe.h).
pub mod Words
pub mod Lands
use temp_esas.Prelude.{
  ℕ, ◌-◌, ◌%◌, ◌^◌, List, Option, none, some, ◌==◌, if◌then◌else◌, get_elem?, set,
}
use temp_esas.Bits.{◌<<<◌, ◌|||◌, ◌&&&◌}
use temp_esas.Arm64.Word.{sub32}

-- `~x` of a 32-bit pattern.
abbrev pub not32 : ℕ → ℕ
not32 x = 2 ^ 32 - 1 - x

abbrev patch_imm : ℕ → ℕ → Option ℕ
patch_imm inst target_index =
    if (target_index &&& 0xffff) == target_index
    then some (inst &&& not32 (0xffff <<< 5) ||| (target_index &&& 0xffff) <<< 5)
    else none

-- The word with its new target; `none` is the `assert` on an entry point that does not fit.
unfoldable pub patched : ℕ → ℕ → ℕ → Option ℕ
patched inst branch_index target_index =
    let offset = sub32 (target_index % 2 ^ 32) (branch_index % 2 ^ 32) in
    if (inst &&& 0xFF000000) == 0xD2000000
    then patch_imm inst target_index
    else if (inst &&& 0xFF000000) == 0x54000000
    then some (inst &&& 0xFF00001F ||| (offset &&& 0x7FFFF) <<< 5)
    else if (inst &&& 0xFC000000) == 0x14000000
    then some (inst &&& 0xFC000000 ||| offset &&& 0x3FFFFFF)
    else if (inst &&& 0xFC000000) == 0x94000000
    then some (inst &&& 0xFC000000 ||| offset &&& 0x3FFFFFF)
    else some inst

-- An index past the end is let through.
unfoldable pub patch_branch_or_imm : ℕ → ℕ → List ℕ → Option (List ℕ)
patch_branch_or_imm branch_index target_index code = elim (get_elem? code branch_index) [
  | none ↦ some code
  | some inst ↦ elim (patched inst branch_index target_index) [
    | none ↦ none
    | some word ↦ some (set code branch_index word)
  ]
]
