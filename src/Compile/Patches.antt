-- ===== src/Compile/Patches.antt =====
-- The last loop of `Compile` (compile.h): every fixup is patched, and nothing else.
use temp_esas.Prelude.{
  ℕ, ◌≡◌, ◌≢◌, ◌⊎◌, ◌∙◌, inl, inr, ap, sym, subst, arith, List, [], ◌∷◌, none, some, Option-cases,
  get_elem?, get_elem?-set_same, get_elem?-set_other, set, length, length-set,
}
use temp_esas.Frontend.Patch.{patched, patch_branch_or_imm}
use temp_esas.Compile.Instr.{Fixup}
use temp_esas.Compile.Program.{Mapping, find_index, patch_all}

abbrev pub Listed : ℕ → ℕ → List Fixup → Type 0
Listed n t [] = ⊥
Listed n t ((m, u) ∷ fixups) = ((n ≡ m) × (t ≡ u)) ⊎ Listed n t fixups

-- No fixup is at `n`.
abbrev pub IsFree : ℕ → List Fixup → Type 0
IsFree n [] = Unit {0}
IsFree n ((m, u) ∷ fixups) = (n ≢ m) × IsFree n fixups

-- Each instruction is patched once.
abbrev pub AreApart : List Fixup → Type 0
AreApart [] = Unit {0}
AreApart ((m, u) ∷ fixups) = IsFree m fixups × AreApart fixups

module _ (n index : ℕ) (code code' : List ℕ)
    (e : patch_branch_or_imm n index code ≡ some code') where
  patch-set :
      (w : ℕ)
      → get_elem? code n ≡ some w
      → (w' : ℕ) × (patched w n index ≡ some w') × (code' ≡ set code n w')
  unfolding patch_branch_or_imm
  patch-set w found = elim (Option-cases (patched w n index)) [
    | inl stop ↦ absurd (ground (arith, found, stop))
    | inr (w', p) ↦ (w', p, ground (arith, found, p))
  ]

  patch-past : get_elem? code n ≡ none → code' ≡ code
  unfolding patch_branch_or_imm
  patch-past past = ground (arith, past)

  patch-other : (m : ℕ) → m ≢ n → get_elem? code' m ≡ get_elem? code m
  patch-other m apart = elim (Option-cases (get_elem? code n)) [
    | inl past ↦ ap (λ (c : List ℕ). get_elem? c m) (patch-past past)
    | inr (w, found) ↦
        let (w', p, now) = patch-set w found in
        ap (λ (c : List ℕ). get_elem? c m) now ∙ get_elem?-set_other code m n w' apart
  ]

  patch-word :
      (w : ℕ)
      → get_elem? code n ≡ some w
      → (w' : ℕ) × (patched w n index ≡ some w') × (get_elem? code' n ≡ some w')
  patch-word w found =
      let (w', p, now) = patch-set w found in
      (w', p, ap (λ (c : List ℕ). get_elem? c n) now ∙ get_elem?-set_same code n w' w found)

  patch-length : length code' ≡ length code
  patch-length = elim (Option-cases (get_elem? code n)) [
    | inl past ↦ ap (λ (c : List ℕ). length c) (patch-past past)
    | inr (w, found) ↦
        let (w', p, now) = patch-set w found in
        ap (λ (c : List ℕ). length c) now ∙ length-set code n w'
  ]

-- One step of the loop.
patch_all-step :
    (mapping : Mapping) (m u : ℕ) (fixups : List Fixup) (code code' : List ℕ)
    → patch_all mapping ((m, u) ∷ fixups) code ≡ some code'
    → (index : ℕ) × (next : List ℕ) × (find_index u mapping ≡ some index)
      × (patch_branch_or_imm m index code ≡ some next)
      × (patch_all mapping fixups next ≡ some code')
unfolding patch_all
patch_all-step mapping m u fixups code code' e = elim (Option-cases (find_index u mapping)) [
  | inl none_at ↦ absurd (ground (arith, none_at))
  | inr (index, at) ↦ elim (Option-cases (patch_branch_or_imm m index code)) [
    | inl stop ↦ absurd (ground (arith, at, stop))
    | inr (next, now) ↦ (index, next, at, now, ground (arith, at, now))
  ]
]

-- When the last loop of `Compile` succeeds, a word that no fixup names is as it was.
pub patch_all-free :
    (mapping : Mapping) (fixups : List Fixup) (code code' : List ℕ) (n : ℕ)
    → patch_all mapping fixups code ≡ some code'
    → IsFree n fixups
    → get_elem? code' n ≡ get_elem? code n
unfolding patch_all
patch_all-free mapping [] code code' n e free = ground arith
patch_all-free mapping ((m, u) ∷ fixups) code code' n e (apart, free) =
    let (index, next, at, now, rest) = patch_all-step mapping m u fixups code code' e in
    patch_all-free mapping fixups next code' n rest free ∙ patch-other m index code next now n apart

-- The last loop keeps the number of words.
pub patch_all-length :
    (mapping : Mapping) (fixups : List Fixup) (code code' : List ℕ)
    → patch_all mapping fixups code ≡ some code'
    → length code' ≡ length code
unfolding patch_all
patch_all-length mapping [] code code' e = ground (arith, e)
patch_all-length mapping ((m, u) ∷ fixups) code code' e =
    let (index, next, at, now, rest) = patch_all-step mapping m u fixups code code' e in
    patch_all-length mapping fixups next code' rest ∙ patch-length m index code next now

-- A fixup that is listed is not at a free place.
apart_from : (m n t : ℕ) (fixups : List Fixup) → IsFree m fixups → Listed n t fixups → n ≢ m
apart_from m n t [] free listed = absurd listed
apart_from m n t ((k, u) ∷ fixups) (apart, free) listed = elim listed [
  | inl (p, q) ↦ λ e. apart (sym e ∙ p)
  | inr later ↦ apart_from m n t fixups free later
]

-- The word at `n` is `w`, patched with the place that the target has in the mapping.
abbrev pub IsPatched : Mapping → List ℕ → ℕ → ℕ → ℕ → Type 0
IsPatched mapping code' n t w =
    (index : ℕ) × (w' : ℕ) × (find_index t mapping ≡ some index)
    × (patched w n index ≡ some w')
    × (get_elem? code' n ≡ some w')

-- When the last loop of `Compile` succeeds on fixups at different places, the word that a fixup
-- names is the word from before, patched once with the place that the mapping has for its target.
pub patch_all-IsPatched :
    (mapping : Mapping) (fixups : List Fixup) (code code' : List ℕ) (n t w : ℕ)
    → patch_all mapping fixups code ≡ some code'
    → AreApart fixups
    → Listed n t fixups
    → get_elem? code n ≡ some w
    → IsPatched mapping code' n t w
patch_all-IsPatched mapping [] code code' n t w e apart listed found = absurd listed
patch_all-IsPatched mapping ((m, u) ∷ fixups) code code' n t w e (free, apart) listed found =
    let (index, next, at, now, rest) = patch_all-step mapping m u fixups code code' e in
    elim listed [
      | inl (p, q) ↦
          let here : get_elem? code m ≡ some w =
            subst (λ (k : ℕ). get_elem? code k ≡ some w) p found in
          let (w', turned, there) = patch-word m index code next now w here in
          let kept = patch_all-free mapping fixups next code' m rest free ∙ there in
          subst (λ (k : ℕ). IsPatched mapping code' k t w) (sym p)
            (subst (λ (v : ℕ). IsPatched mapping code' m v w) (sym q) (index, w', at, turned, kept))
      | inr later ↦
          patch_all-IsPatched mapping fixups next code' n t w rest apart later
            (patch-other m index code next now n (apart_from m n t fixups free later) ∙ found)
    ]

-- When the last loop of `Compile` succeeds on fixups at different places, the word that a fixup
-- names is the word from before, patched once with the place that the mapping has for its target,
-- and a word that no fixup names is as it was.
pub patch_all-words :
    (mapping : Mapping) (fixups : List Fixup) (code code' : List ℕ) (n t w m : ℕ)
    → patch_all mapping fixups code ≡ some code'
    → AreApart fixups
    → Listed n t fixups
    → get_elem? code n ≡ some w
    → IsFree m fixups
    → IsPatched mapping code' n t w × (get_elem? code' m ≡ get_elem? code m)
patch_all-words mapping fixups code code' n t w m e apart listed found free = (
  patch_all-IsPatched mapping fixups code code' n t w e apart listed found,
  patch_all-free mapping fixups code code' m e free,
)
