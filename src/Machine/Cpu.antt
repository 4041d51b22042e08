-- ===== src/Machine/Cpu.antt =====
-- Compiled code on a processor with a program counter, a link register and a stack of saved frames.
-- This is the specification that whole programs are held against, and no code of the repository.
use temp_esas.Prelude.{
  ℕ, suc, ◌+◌, List, [], ◌∷◌, ◌++◌, Option, none, some, ◌>>=◌, ◌&&◌, ◌==◌, if◌then◌else◌, ◌≡◌, refl,
  ap, subst, arith, Option-cases, length, get_elem?, ◌≤◌, ◌<◌, inl, inr,
}
use mathlib.Core.List.{append_assoc}
use temp_esas.Arm64.Isa.{
  Insn, b, bl, b_cond, blr, ret, stp_pre, ldp_post, add_imm, decode, branch_target,
}
use temp_esas.Machine.{State, holds, step, run}

-- Addresses of code are indices of words. A frame is what a function prologue stores: x16 and x30.
pub record Cpu : Type 0 where
  pub pc : ℕ
  pub state : State
  pub frames : List (ℕ × ℕ)

abbrev pub link_register : ℕ
link_register = 30

-- A register is given an index of a word, or what was saved.
abbrev pub put_x : ℕ → ℕ → State → State
put_x n v s = record s { x = λ m. if m == n then v else s.x m }

abbrev pub goto : ℕ → Cpu → Cpu
goto pc cpu = record cpu { pc = pc }

-- What the function at an address does to the processor before it returns, if it does.
abbrev pub Functions : Type 0
Functions = ℕ → State → Option State

abbrev pub pop_frame : List (ℕ × ℕ) → Cpu → Option Cpu
pop_frame [] cpu = none
pop_frame ((a, l) ∷ frames) cpu = some (record {
  pc = suc cpu.pc;
  state = put_x link_register l (put_x 16 a cpu.state);
  frames = frames;
})

-- The instructions that branch or move the stack pointer, in the forms that the front end uses.
abbrev pub control : Functions → Insn → Cpu → Option Cpu
control functions (b field) cpu = some (goto (branch_target 26 field cpu.pc) cpu)
control functions (bl field) cpu = some (record cpu {
  pc = branch_target 26 field cpu.pc;
  state = put_x link_register (suc cpu.pc) cpu.state;
})
control functions (b_cond cond field) cpu =
    some (
      goto (if holds cond cpu.state.compared then branch_target 19 field cpu.pc else suc cpu.pc)
        cpu)
control functions (blr rn) cpu = do
  s ← functions (cpu.state.x rn) (put_x link_register (suc cpu.pc) cpu.state)
  some (record cpu { pc = suc cpu.pc; state = s })
control functions (ret rn) cpu =
    if rn == link_register then some (goto (cpu.state.x rn) cpu) else none
control functions (stp_pre rt rt2 rn imm) cpu =
    if rt == 16 && rt2 == link_register && rn == 31 && imm == 0x7E
    then some (record cpu {
      pc = suc cpu.pc;
      frames = (cpu.state.x 16, cpu.state.x link_register) ∷ cpu.frames;
    })
    else none
control functions (ldp_post rt rt2 rn imm) cpu =
    if rt == 16 && rt2 == link_register && rn == 31 && imm == 2
    then pop_frame cpu.frames cpu
    else none
control functions (add_imm rd rn imm) cpu =
    if rd == 29 && rn == 31 && imm == 0 then some (goto (suc cpu.pc) cpu) else none
control functions _ cpu = none

-- An instruction that computes goes on with the next word.
unfoldable pub perform : Functions → Insn → Cpu → Option Cpu
perform functions insn cpu = elim (step insn cpu.state) [
  | some s ↦ some (record cpu { pc = suc cpu.pc; state = s })
  | none ↦ control functions insn cpu
]

unfoldable pub cpu_step : Functions → List ℕ → Cpu → Option Cpu
cpu_step functions code cpu = do
  word ← get_elem? code cpu.pc
  insn ← decode word
  perform functions insn cpu

-- The processor gets from one state to another.
pub data Reaches (functions : Functions) (code : List ℕ) : Cpu → Cpu → Type 0 where
  stays : (cpu : Cpu) → Reaches functions code cpu cpu
  steps :
      (cpu cpu' cpu'' : Cpu)
      → cpu_step functions code cpu ≡ some cpu'
      → Reaches functions code cpu' cpu''
      → Reaches functions code cpu cpu''

pub Reaches-trans :
    (functions : Functions) (code : List ℕ) (a c d : Cpu)
    → Reaches functions code a c
    → Reaches functions code c d
    → Reaches functions code a d
Reaches-trans functions code _ _ d (stays a) more = more
Reaches-trans functions code _ _ d (steps a a' c e rest) more =
    steps a a' d e (Reaches-trans functions code a' c d rest more)

-- One step more.
pub Reaches-step :
    (functions : Functions) (code : List ℕ) (a c d : Cpu)
    → Reaches functions code a c
    → cpu_step functions code c ≡ some d
    → Reaches functions code a d
Reaches-step functions code a c d before e =
    Reaches-trans functions code a c d before (steps c d d e (stays d))

-- The words stand in the code, from a place on.
abbrev pub Holds : List ℕ → ℕ → List ℕ → Type 0
Holds code p [] = Unit {0}
Holds code p (w ∷ words) = (get_elem? code p ≡ some w) × Holds code (suc p) words

add_zero : (p : ℕ) → p ≡ p + 0
add_zero p = omega arith

pub add_suc : (p n : ℕ) → suc p + n ≡ p + suc n
add_suc p n = omega arith

pub Holds-append :
    (code : List ℕ) (p : ℕ) (xs ys : List ℕ)
    → Holds code p (xs ++ ys)
    → Holds code p xs × Holds code (p + length xs) ys
Holds-append code p [] ys h = (tt, subst (λ (n : ℕ). Holds code n ys) (add_zero p) h)
Holds-append code p (x ∷ xs) ys (here, rest) =
    let (front, back) = Holds-append code (suc p) xs ys rest in
    ((here, front), subst (λ (n : ℕ). Holds code n ys) (add_suc p (length xs)) back)

-- Words that compute, run in place.
pub run-Reaches :
    (functions : Functions) (code words : List ℕ) (p : ℕ) (s s' : State) (frames : List (ℕ × ℕ))
    → Holds code p words
    → run words s ≡ some s'
    → Reaches functions code
        (record { pc = p; state = s; frames = frames })
        (record { pc = p + length words; state = s'; frames = frames })
unfolding run cpu_step perform
run-Reaches functions code [] p s s' frames h e =
    let now : record { pc = p; state = s; frames = frames }
        ≡ record { pc = p + 0; state = s'; frames = frames } =
      ground arith in
    subst (λ (c : Cpu). Reaches functions code (record { pc = p; state = s; frames = frames }) c)
      now (stays (record { pc = p; state = s; frames = frames }))
run-Reaches functions code (w ∷ words) p s s' frames (here, rest) e =
    elim (Option-cases (decode w)) [
      | inl stop ↦ absurd (ground (arith, stop))
      | inr (insn, found) ↦ elim (Option-cases (step insn s)) [
        | inl stop ↦ absurd (ground (arith, found, stop))
        | inr (t, moved) ↦
            let now : Cpu = record { pc = p; state = s; frames = frames } in
            let next : Cpu = record { pc = suc p; state = t; frames = frames } in
            let more =
              run-Reaches functions code words (suc p) t s' frames rest
                (ground (arith, found, moved)) in
            steps now next (record { pc = p + suc (length words); state = s'; frames = frames })
              (ground (arith, here, found, moved))
              (subst
                (λ (n : ℕ).
                  Reaches functions code next (record { pc = n; state = s'; frames = frames }))
                (add_suc p (length words)) more)
      ]
    ]

get_elem?-middle :
    (xs : List ℕ) (w : ℕ) (ys : List ℕ) → get_elem? (xs ++ w ∷ ys) (length xs) ≡ some w
get_elem?-middle [] w ys = refl
get_elem?-middle (x ∷ xs) w ys = get_elem?-middle xs w ys

length-snoc : (xs : List ℕ) (w : ℕ) → length (xs ++ w ∷ []) ≡ suc (length xs)
length-snoc [] w = refl
length-snoc (x ∷ xs) w = ap suc (length-snoc xs w)

-- Words that are behind others.
pub Holds-end : (front words : List ℕ) → Holds (front ++ words) (length front) words
Holds-end front [] = tt
Holds-end front (w ∷ words) = (
  get_elem?-middle front w words,
  subst (λ (n : ℕ). Holds (front ++ w ∷ words) n words) (length-snoc front w)
      (subst (λ (l : List ℕ). Holds l (length (front ++ w ∷ [])) words)
        (append_assoc front (w ∷ []) words) (Holds-end (front ++ w ∷ []) words)),
)

-- Words that are the same in other code.
pub Holds-same :
    (code code' words : List ℕ) (p : ℕ)
    → ((m w : ℕ)
        → p ≤ m
        → m < p + length words
        → get_elem? code m ≡ some w
        → get_elem? code' m ≡ some w)
    → Holds code p words
    → Holds code' p words
Holds-same code code' [] p same h = tt
Holds-same code code' (w ∷ words) p same (here, rest) = (
  same p w (omega arith) (omega arith) here,
  Holds-same code code' words (suc p) (λ m v low high. same m v (omega arith) (omega arith)) rest,
)
