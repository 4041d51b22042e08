-- ===== src/Compile/Fixups.antt =====
-- The fixups of the second loop of `Compile` (compile.h) are at words that the instruction has put,
-- and for a branch there is the branch.
pub mod Cases
use temp_esas.Prelude.{
  ℕ, ◌≤◌, ◌<◌, ◌≡◌, ◌∙◌, ap, sym, refl, arith, List, [], ◌∷◌, ◌++◌, Option, none, some, Bool, true,
  false, length, length-append, get_elem?, get_elem?-end, suc,
}
use temp_esas.Evm2.Types.{Op, Kind, Arg, default_arg}
use temp_esas.Arm64.Backend.{cond_eq, gen_bcond, gen_b, gen_bl}
use temp_esas.Frontend.Code.{Jit, ◌>>=◌, ◌>>◌, return, fail, assert, emit}
use temp_esas.Frontend.Emit.{AluOp, offset_to, jump, call, branch_if_equal}
use temp_esas.Frontend.Growth.{
  Grows, Extends, then-some, compare_operands-Grows, Grows-assert, Grows-then, Grows-return,
  Grows-fail,
}
use temp_esas.Frontend.Growth.Calls.{Extends-length, host_call-index}
use temp_esas.Compile.Instr.{
  Interface, Fixup, is_kind_addr, alu_case, load_const_case, console_read_case, jump_eq_case,
  compare_case, mov_case, jump_case, call_case, create_thread_case, one_arg_case, read_case,
  write_case, no_fixup, host_call, compile_op,
}
use temp_esas.Compile.Branches.{IsBranch, cond_branch, plain_branch, link_branch}

-- A fixup that `m` gives is at a word that `m` has put.
abbrev pub Records : Jit (Option Fixup) → Type 0
Records m =
    (code code' : List ℕ) (f : Option Fixup)
    → m code ≡ some (f, code')
    → (n t : ℕ) → f ≡ some (n, t)
    → (length code ≤ n) × (n < length code')

Records-return : Records (return none)
Records-return code code' f e n t at = absurd (ground (arith, e, at))

Records-fail : Records fail
Records-fail code code' f e n t at = absurd (ground (arith, e))

pub Records-then :
    {A : Type 0} (m : Jit A) (k : A → Jit (Option Fixup))
    → Grows m
    → ((a : A) → Records (k a))
    → Records (m >>= k)
Records-then m k gm rk code code'' f e n t at =
    let (a, code', e₁, e₂) = then-some m k code code'' f e in
    let (low, high) = rk a code' code'' f e₂ n t at in
    (omega (arith, Extends-length code code' (gm code code' a e₁)), high)

-- `m` gives the index of its first word.
abbrev pub IsIndexed : Jit ℕ → Type 0
IsIndexed m =
    (code code' : List ℕ) (a : ℕ)
    → m code ≡ some (a, code')
    → (a ≡ length code) × (length code < length code')

abbrev pub fixup_for : Jit ℕ → ℕ → Jit (Option Fixup)
fixup_for m target = do branch ← m; return (some (branch, target))

Records-fixup : (m : Jit ℕ) (target : ℕ) → IsIndexed m → Records (fixup_for m target)
Records-fixup m target indexed code code'' f e n t at =
    let (a, code', e₁, e₂) =
      then-some m (λ branch. return (some (branch, target))) code code'' f e in
    let (index, longer) = indexed code code' a e₁ in
    let at_a : f ≡ some (a, target) = ground (arith, e₂) in
    let same : code'' ≡ code' = ground (arith, e₂) in
    ground (arith, at, at_a, index, longer, ap (λ (l : List ℕ). length l) same)

-- Whenever `m` succeeds, it has put words behind the code, and a fixup that it gives is at one of them.
abbrev pub Appends : Jit (Option Fixup) → Type 0
Appends m = Grows m × Records m

pub Appends-return : Appends (return none)
Appends-return = (Grows-return none, Records-return)

pub Appends-fail : Appends fail
Appends-fail = (Grows-fail, Records-fail)

pub Appends-then :
    {A : Type 0} (m : Jit A) (k : A → Jit (Option Fixup))
    → Grows m
    → ((a : A) → Appends (k a))
    → Appends (m >>= k)
Appends-then m k gm ak = (
  Grows-then m k gm (λ a. let (grows, records) = ak a in grows),
  Records-then m k gm (λ a. let (grows, records) = ak a in records),
)

pub Appends-and :
    (m : Jit (Unit {0})) (k : Jit (Option Fixup)) → Grows m → Appends k → Appends (m >> k)
Appends-and m k gm ak = Appends-then m (λ _. k) gm (λ _. ak)

pub Appends-fixup : (m : Jit ℕ) (target : ℕ) → Grows m → IsIndexed m → Appends (fixup_for m target)
Appends-fixup m target gm indexed = (
  Grows-then m (λ branch. return (some (branch, target))) gm (λ branch. Grows-return _),
  Records-fixup m target indexed,
)

-- `m` puts one branch, and gives its index.
abbrev pub EmitsBranch : Jit ℕ → Type 0
EmitsBranch m =
    (code code' : List ℕ) (a : ℕ)
    → m code ≡ some (a, code')
    → (w : ℕ) × (a ≡ length code) × (code' ≡ code ++ w ∷ []) × IsBranch w

emit-EmitsBranch :
    (word : ℕ → ℕ)
    → ((size : ℕ) → IsBranch (word size))
    → EmitsBranch (λ code. emit (word (length code)) code)
emit-EmitsBranch word branch code code' a e =
    (word (length code), ground (arith, e), ground (arith, e), branch (length code))

pub EmitsBranch-IsIndexed : (m : Jit ℕ) → EmitsBranch m → IsIndexed m
EmitsBranch-IsIndexed m emits code code' a e =
    let (w, index, now, branch) = emits code code' a e in
    (index, omega (arith, ap (λ (l : List ℕ). length l) now, length-append code (w ∷ [])))

-- `m` gives a fixup for `t` at a word that is as `P` says.
abbrev pub Points : (ℕ → Type 0) → Jit (Option Fixup) → ℕ → Type 0
Points P m t =
    (code code' : List ℕ) (f : Option Fixup)
    → m code ≡ some (f, code')
    → (n : ℕ) × (w : ℕ) × (f ≡ some (n, t)) × (get_elem? code' n ≡ some w) × P w

pub Points-then :
    {A : Type 0} (P : ℕ → Type 0) (m : Jit A) (k : A → Jit (Option Fixup)) (t : ℕ)
    → ((a : A) → Points P (k a) t)
    → Points P (m >>= k) t
Points-then P m k t bk code code'' f e =
    let (a, code', e₁, e₂) = then-some m k code code'' f e in bk a code' code'' f e₂

pub Points-fixup :
    (m : Jit ℕ) (target : ℕ) → EmitsBranch m → Points IsBranch (fixup_for m target) target
Points-fixup m target emits code code'' f e =
    let (a, code', e₁, e₂) =
      then-some m (λ branch. return (some (branch, target))) code code'' f e in
    let (w, index, now, branch) = emits code code' a e₁ in
    let same : code'' ≡ code' = ground (arith, e₂) in
    (
      a,
      w,
      ground (arith, e₂),
      ap (λ (c : List ℕ). get_elem? c a) (same ∙ now)
          ∙ ap (λ (i : ℕ). get_elem? (code ++ w ∷ []) i) index
          ∙ get_elem?-end code w,
      branch,
    )

pub jump-EmitsBranch : EmitsBranch (jump 0)
unfolding jump
jump-EmitsBranch = emit-EmitsBranch (λ size. gen_b (offset_to 0 size)) (λ size. plain_branch _)

pub call-EmitsBranch : EmitsBranch (call 0)
unfolding call
call-EmitsBranch = emit-EmitsBranch (λ size. gen_bl (offset_to 0 size)) (λ size. link_branch _)

pub branch_if_equal-EmitsBranch : EmitsBranch (branch_if_equal 0)
unfolding branch_if_equal
branch_if_equal-EmitsBranch =
    emit-EmitsBranch (λ size. gen_bcond cond_eq (offset_to 0 size)) (λ size. cond_branch _ _)
