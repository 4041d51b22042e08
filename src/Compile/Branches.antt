-- ===== src/Compile/Branches.antt =====
-- Where the branches of compiled code go, after the last loop of `Compile` (compile.h).
use temp_esas.Prelude.{ℕ, ◌^◌, ◌<◌, ◌≡◌, ◌∙◌, ap, sym, List, Option, some, ◌>>=◌, get_elem?}
use temp_esas.Arm64.Backend.{ConditionCode, gen_bcond, gen_b, gen_bl}
use temp_esas.Arm64.Isa.{word_target}
use temp_esas.Frontend.Patch.{patched}
use temp_esas.Frontend.Patch.Lands.{patched-lands}
use temp_esas.Compile.Instr.{Fixup}
use temp_esas.Compile.Program.{Mapping, find_index, patch_all}
use temp_esas.Compile.Patches.{Listed, AreApart, patch_all-IsPatched}

-- A placeholder of `branchIfEqual`, `jump` or `call`, or any other branch that was emitted.
pub data IsBranch : ℕ → Type 0 where
  cond_branch : (c : ConditionCode) (old : ℕ) → IsBranch (gen_bcond c old)
  plain_branch : (old : ℕ) → IsBranch (gen_b old)
  link_branch : (old : ℕ) → IsBranch (gen_bl old)

pub branch_target :
    (w n index : ℕ)
    → IsBranch w
    → n < 2 ^ 18
    → index < 2 ^ 18
    → (patched w n index >>= word_target n) ≡ some index
branch_target _ n index (cond_branch c old) hn hi =
    let (e, _, _) = patched-lands c old n index hn hi in e
branch_target _ n index (plain_branch old) hn hi =
    let (_, e, _) = patched-lands ConditionCode.cond_eq old n index hn hi in e
branch_target _ n index (link_branch old) hn hi =
    let (_, _, e) = patched-lands ConditionCode.cond_eq old n index hn hi in e

-- When the last loop of `Compile` succeeds on fixups at different places, a `b.cond`, `b` or `bl`
-- that a fixup names ends up as a branch to the place that the mapping has for its target, if its
-- own place and every place in the mapping are below 2^18.
pub patch_all-lands :
    (mapping : Mapping) (fixups : List Fixup) (code code' : List ℕ) (n t w : ℕ)
    → patch_all mapping fixups code ≡ some code'
    → AreApart fixups
    → Listed n t fixups
    → get_elem? code n ≡ some w
    → IsBranch w
    → n < 2 ^ 18
    → ((a index : ℕ) → find_index a mapping ≡ some index → index < 2 ^ 18)
    → (index : ℕ) × (find_index t mapping ≡ some index)
      × ((get_elem? code' n >>= word_target n) ≡ some index)
patch_all-lands mapping fixups code code' n t w e apart listed found branch hn small =
    let (index, w', at, turned, here) =
      patch_all-IsPatched mapping fixups code code' n t w e apart listed found in
    let goes = branch_target w n index branch hn (small t index at) in
    (index, at, ap (λ (r : Option ℕ). r >>= word_target n) (here ∙ sym turned) ∙ goes)
