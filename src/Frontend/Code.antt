-- ===== src/Frontend/Code.antt =====
-- `ARM64JITFrontend::code` (jit_arm64_fe.h): the vector as the state of a step that may stop at an
-- `assert`, which is `none`.
use temp_esas.Prelude.{ℕ, List, [], ◌∷◌, ◌++◌, Option, none, some, Bool, true, false, length}

abbrev pub Jit : Type 0 → Type 0
Jit A = List ℕ → Option (A × List ℕ)

infixl 5 ◌>>=◌ ◌>>◌
abbrev pub ◌>>=◌ : {A B : Type 0} → Jit A → (A → Jit B) → Jit B
◌>>=◌ m f code = elim (m code) [ none ↦ none | some (a, code') ↦ f a code' ]

abbrev pub ◌>>◌ : {B : Type 0} → Jit (Unit {0}) → Jit B → Jit B
m >> k = m >>= λ _. k

abbrev pub return : {A : Type 0} → A → Jit A
return a code = some (a, code)

-- `assert(0)`.
abbrev pub fail : {A : Type 0} → Jit A
fail code = none

abbrev pub assert : Bool → Jit (Unit {0})
assert holds = elim holds [ true ↦ return tt | false ↦ fail ]

abbrev pub done : Jit (Unit {0})
done = return tt

-- `emit` returns the index of the word.
abbrev pub emit : ℕ → Jit ℕ
emit instruction code = some (length code, code ++ instruction ∷ [])

-- `emit` where the index is not used.
abbrev pub put : ℕ → Jit (Unit {0})
put instruction code = some (tt, code ++ instruction ∷ [])

abbrev pub get_current_index : Jit ℕ
get_current_index code = some (length code, code)
