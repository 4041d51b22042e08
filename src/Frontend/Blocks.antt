-- ===== src/Frontend/Blocks.antt =====
-- Code that a step of the front end emits, as a block that takes the machine from one state to
-- another.
pub mod Operands
pub mod Immediate
pub mod Results
pub mod Alu
use temp_esas.Prelude.{
  ℕ, List, [], ◌∷◌, ◌++◌, Option, none, some, ◌>>=◌, ◌≡◌, ◌∙◌, refl, ap, sym, arith,
}
use mathlib.Core.List.{append_assoc, append-nil}
use temp_esas.Frontend.Code
use temp_esas.Frontend.Code.{Jit, ◌>>◌, put, done, return}
use temp_esas.Frontend.Emit.{put_checked}
use temp_esas.Arm64.Isa.{Insn, decode}
use temp_esas.Machine.{State, step, run, run-append}

-- Whatever code is there already, `m` succeeds with `a` and puts words behind it that take `s` to
-- `s'`.
abbrev pub Gives : {A : Type 0} → Jit A → A → State → State → Type 0
Gives m a s s' =
    (code : List ℕ)
    → (words : List ℕ) × (m code ≡ some (a, code ++ words)) × (run words s ≡ some s')

pub Gives-return : {A : Type 0} (a : A) (s : State) → Gives (return a) a s s
unfolding run
Gives-return a s code = ([], ap (λ (c : List ℕ). some (a, c)) (sym (append-nil code)), refl)

pub Gives-then :
    {A B : Type 0} (m : Jit A) (f : A → Jit B) (a : A) (b : B) (s s' s'' : State)
    → Gives m a s s'
    → Gives (f a) b s' s''
    → Gives (Code.◌>>=◌ m f) b s s''
Gives-then m f a b s s' s'' first next code =
    let (xs, e₁, r₁) = first code in
    let (ys, e₂, r₂) = next (code ++ xs) in
    (
      xs ++ ys,
      rw (e₁, Code.◌>>=◌) (e₂ ∙ ap (λ (c : List ℕ). some (b, c)) (append_assoc code xs ys)),
      run-append xs ys s s' r₁ ∙ r₂,
    )

abbrev pub Does : Jit (Unit {0}) → State → State → Type 0
Does m s s' = Gives m tt s s'

pub Does-done : (s : State) → Does done s s
unfolding run
Does-done s code = ([], ap (λ (c : List ℕ). some (tt, c)) (sym (append-nil code)), refl)

pub Does-put :
    (word : ℕ) (insn : Insn) (s s' : State)
    → decode word ≡ some insn
    → step insn s ≡ some s'
    → Does (put word) s s'
unfolding run
Does-put word insn s s' found moved code = (word ∷ [], refl, ground (arith, found, moved))

-- A word that an encoder may refuse.
pub Does-put_checked :
    (r : Option ℕ) (insn : Insn) (s s' : State)
    → (r >>= decode) ≡ some insn
    → step insn s ≡ some s'
    → Does (put_checked r) s s'
Does-put_checked none insn s s' found moved = ground arith
Does-put_checked (some word) insn s s' found moved = Does-put word insn s s' found moved

pub Does-then :
    (m k : Jit (Unit {0})) (s s' s'' : State) → Does m s s' → Does k s' s'' → Does (m >> k) s s''
Does-then m k s s' s'' first next = Gives-then m (λ _. k) tt tt s s' s'' first next
