-- ===== src/Compile/Entries.antt =====
-- What `fixups.push_back` and `mapping.insert` (compile.h) leave of the entries from before.
use temp_esas.Prelude.{
  ℕ, ◌≤◌, ◌<◌, ◌≡◌, ◌≢◌, ◌⊎◌, sym, refl, arith, inl, inr, List, [], ◌∷◌, ◌++◌, Option, none, some,
  Option-cases, Bool-cases, ◌==◌,
}
use temp_esas.Compile.Instr.{Fixup}
use temp_esas.Compile.Program.{Mapping, find_index, insert_index, add_fixup}
use temp_esas.Compile.Patches.{Listed, IsFree, AreApart}

Listed-snoc :
    (n t m u : ℕ) (fixups : List Fixup)
    → Listed n t (fixups ++ (m, u) ∷ [])
    → Listed n t fixups ⊎ ((n ≡ m) × (t ≡ u))
Listed-snoc n t m u [] (inl same) = inr same
Listed-snoc n t m u [] (inr later) = absurd later
Listed-snoc n t m u ((k, v) ∷ fixups) (inl same) = inl (inl same)
Listed-snoc n t m u ((k, v) ∷ fixups) (inr later) = elim (Listed-snoc n t m u fixups later) [
  | inl old ↦ inl (inr old)
  | inr new ↦ inr new
]

pub Listed-add :
    (n t : ℕ) (f : Option Fixup) (fixups : List Fixup)
    → Listed n t (add_fixup f fixups)
    → Listed n t fixups ⊎ (f ≡ some (n, t))
Listed-add n t none fixups listed = inl listed
Listed-add n t (some (m, u)) fixups listed = elim (Listed-snoc n t m u fixups listed) [
  | inl old ↦ inl old
  | inr (p, q) ↦ inr (λ i. some (sym p i, sym q i))
]

Listed-kept_snoc :
    (n t m u : ℕ) (fixups : List Fixup) → Listed n t fixups → Listed n t (fixups ++ (m, u) ∷ [])
Listed-kept_snoc n t m u [] listed = absurd listed
Listed-kept_snoc n t m u (f ∷ fixups) (inl same) = inl same
Listed-kept_snoc n t m u (f ∷ fixups) (inr later) = inr (Listed-kept_snoc n t m u fixups later)

pub Listed-kept :
    (n t : ℕ) (f : Option Fixup) (fixups : List Fixup)
    → Listed n t fixups
    → Listed n t (add_fixup f fixups)
Listed-kept n t none fixups listed = listed
Listed-kept n t (some (m, u)) fixups listed = Listed-kept_snoc n t m u fixups listed

pub Listed-new : (n t : ℕ) (fixups : List Fixup) → Listed n t (add_fixup (some (n, t)) fixups)
Listed-new n t [] = inl (refl, refl)
Listed-new n t (f ∷ fixups) = inr (Listed-new n t fixups)

-- A place behind all that are listed.
IsFree-from :
    (n bound : ℕ) (fixups : List Fixup)
    → ((m t : ℕ) → Listed m t fixups → m < bound)
    → bound ≤ n
    → IsFree n fixups
IsFree-from n bound [] below h = tt
IsFree-from n bound ((m, u) ∷ fixups) below h = (
  λ same. ground (arith, same, h, below m u (inl (refl, refl))),
  IsFree-from n bound fixups (λ k t later. below k t (inr later)) h,
)

IsFree-snoc :
    (m n t : ℕ) (fixups : List Fixup) → m ≢ n → IsFree m fixups → IsFree m (fixups ++ (n, t) ∷ [])
IsFree-snoc m n t [] apart free = (apart, tt)
IsFree-snoc m n t ((k, u) ∷ fixups) apart (other, free) =
    (other, IsFree-snoc m n t fixups apart free)

AreApart-snoc :
    (n t : ℕ) (fixups : List Fixup)
    → AreApart fixups
    → IsFree n fixups
    → AreApart (fixups ++ (n, t) ∷ [])
AreApart-snoc n t [] apart free = (tt, tt)
AreApart-snoc n t ((m, u) ∷ fixups) (free_m, apart) (other, free) = (
  IsFree-snoc m n t fixups (λ same. other (sym same)) free_m,
  AreApart-snoc n t fixups apart free,
)

pub AreApart-add :
    (bound : ℕ) (f : Option Fixup) (fixups : List Fixup)
    → AreApart fixups
    → ((m t : ℕ) → Listed m t fixups → m < bound)
    → ((n t : ℕ) → f ≡ some (n, t) → bound ≤ n)
    → AreApart (add_fixup f fixups)
AreApart-add bound none fixups apart below above = apart
AreApart-add bound (some (n, t)) fixups apart below above =
    AreApart-snoc n t fixups apart (IsFree-from n bound fixups below (above n t refl))

find_index-snoc :
    (a b index at : ℕ) (mapping : Mapping)
    → find_index a (mapping ++ (b, at) ∷ []) ≡ some index
    → (find_index a mapping ≡ some index) ⊎ ((a ≡ b) × (index ≡ at))
unfolding find_index
find_index-snoc a b index at [] e = inr (ground (arith, e), ground (arith, e))
find_index-snoc a b index at ((k, v) ∷ mapping) e = elim (Bool-cases (k == a)) [
  | inl here ↦ inl (ground (arith, e, here))
  | inr past ↦ elim (find_index-snoc a b index at mapping (ground (arith, e, past))) [
    | inl old ↦ inl (ground (arith, old, past))
    | inr new ↦ inr new
  ]
]

pub find_index-insert :
    (a b index at : ℕ) (mapping : Mapping)
    → find_index a (insert_index b at mapping) ≡ some index
    → (find_index a mapping ≡ some index) ⊎ ((a ≡ b) × (index ≡ at))
unfolding insert_index
find_index-insert a b index at mapping e = elim (Option-cases (find_index b mapping)) [
  | inl new ↦ find_index-snoc a b index at mapping (ground (arith, e, new))
  | inr (old, there) ↦ inl (ground (arith, e, there))
]

find_index-kept_snoc :
    (a b index at : ℕ) (mapping : Mapping)
    → find_index a mapping ≡ some index
    → find_index a (mapping ++ (b, at) ∷ []) ≡ some index
unfolding find_index
find_index-kept_snoc a b index at [] e = absurd (ground (arith, e))
find_index-kept_snoc a b index at ((k, v) ∷ mapping) e = elim (Bool-cases (k == a)) [
  | inl here ↦ ground (arith, e, here)
  | inr past ↦
      let rest = find_index-kept_snoc a b index at mapping (ground (arith, e, past)) in
      ground (arith, past, rest)
]

pub find_index-kept :
    (a b index at : ℕ) (mapping : Mapping)
    → find_index a mapping ≡ some index
    → find_index a (insert_index b at mapping) ≡ some index
unfolding insert_index
find_index-kept a b index at mapping e = elim (Option-cases (find_index b mapping)) [
  | inl new ↦ rw (insert_index, new) (find_index-kept_snoc a b index at mapping e)
  | inr (old, there) ↦ ground (arith, e, there)
]
