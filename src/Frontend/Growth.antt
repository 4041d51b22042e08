-- ===== src/Frontend/Growth.antt =====
-- The methods of `ARM64JITFrontend` (jit_arm64_fe.h) put words behind the code and change none of it.
pub mod Calls
use temp_esas.Prelude.{
  ℕ, zero, suc, ◌+◌, ◌-◌, ◌*◌, ◌<◌, ◌≡◌, ◌∙◌, ◌==◌, refl, ap, sym, arith, inl, inr, List, [], ◌∷◌,
  ◌++◌, Option, none, some, Bool, true, false, length, Option-cases, Bool-cases,
}
use mathlib.Core.List.{append_assoc, append-nil}
use temp_esas.Evm2.Types.{Arg, Kind}
use temp_esas.Arm64.Backend.{
  gen_mov_x, gen_movk_x, gen_reg_mem, gen_ldr_x_imm, gen_cmp_x, gen_ldp_x, gen_add_x_imm, gen_ret,
  gen_bcond, gen_b, gen_bl, cond_eq,
}
use temp_esas.Frontend.Code.{Jit, ◌>>=◌, ◌>>◌, return, fail, assert, emit, put, get_current_index}
use temp_esas.Frontend.Emit.{
  imm_part, put_parts, load_from, first_part, emit_load_imm64, put_checked, load_kind, load_operand,
  store_kind, store_operand, mov_operands, load_immediate, AluOp, alu_words, alu, compare_operands,
  nop, func_prologue, func_epilogue, ret, offset_to, jump, call, branch_if_equal, end,
}

abbrev pub Extends : List ℕ → List ℕ → Type 0
Extends code code' = (words : List ℕ) × (code' ≡ code ++ words)

pub Extends-refl : (code : List ℕ) → Extends code code
Extends-refl code = ([], sym (append-nil code))

pub Extends-trans : (a b c : List ℕ) → Extends a b → Extends b c → Extends a c
Extends-trans a b c (xs, p) (ys, q) =
    (xs ++ ys, q ∙ ap (λ (l : List ℕ). l ++ ys) p ∙ append_assoc a xs ys)

-- Whenever `m` succeeds.
abbrev pub Grows : {A : Type 0} → Jit A → Type 0
Grows {A} m = (code code' : List ℕ) (a : A) → m code ≡ some (a, code') → Extends code code'

pub then-some :
    {A B : Type 0} (m : Jit A) (f : A → Jit B) (code code'' : List ℕ) (b : B)
    → (m >>= f) code ≡ some (b, code'')
    → (a : A) × (code' : List ℕ) × (m code ≡ some (a, code')) × (f a code' ≡ some (b, code''))
then-some m f code code'' b e = elim (Option-cases (m code)) [
  | inl stop ↦ absurd (ground (arith, stop))
  | inr ((a, code'), go) ↦ (a, code', go, ground (arith, go))
]

pub Grows-then :
    {A B : Type 0} (m : Jit A) (f : A → Jit B) → Grows m → ((a : A) → Grows (f a)) → Grows (m >>= f)
Grows-then m f gm gf code code'' b e =
    let (a, code', e₁, e₂) = then-some m f code code'' b e in
    Extends-trans code code' code'' (gm code code' a e₁) (gf a code' code'' b e₂)

pub Grows-and : {B : Type 0} (m : Jit (Unit {0})) (k : Jit B) → Grows m → Grows k → Grows (m >> k)
Grows-and m k gm gk = Grows-then m (λ _. k) gm (λ _. gk)

pub code_of :
    {A : Type 0} (a b : A) (c c' : List ℕ)
    → ◌≡◌ {A = Option (A × List ℕ)} (some (a, c)) (some (b, c'))
    → c' ≡ c
code_of {A} a b c c' e =
    sym (ap (λ (r : Option (A × List ℕ)). elim r [ none ↦ c | some (x, l) ↦ l ]) e)

pub Grows-return : {A : Type 0} (a : A) → Grows (return a)
Grows-return a code code' b e = ([], code_of a b code code' e ∙ sym (append-nil code))

pub Grows-fail : {A : Type 0} → Grows (fail {A = A})
Grows-fail code code' a e = absurd (ground (arith, e))

pub Grows-put : (word : ℕ) → Grows (put word)
Grows-put word code code' a e = (word ∷ [], code_of tt a (code ++ word ∷ []) code' e)

Grows-emit : (word : ℕ) → Grows (emit word)
Grows-emit word code code' a e = (word ∷ [], code_of (length code) a (code ++ word ∷ []) code' e)

pub Grows-index : Grows get_current_index
Grows-index code code' a e = Grows-return (length code) code code' a e

pub Grows-assert : (b : Bool) → Grows (assert b)
Grows-assert true = Grows-return tt
Grows-assert false = Grows-fail

Grows-elim :
    (b : Bool) (m k : Jit (Unit {0})) → Grows m → Grows k → Grows (elim b [ true ↦ m | false ↦ k ])
Grows-elim true m k gm gk = gm
Grows-elim false m k gm gk = gk

pub put_parts-Grows : (left i reg value : ℕ) → Grows (put_parts left i reg value)
unfolding put_parts
put_parts-Grows zero i reg value = Grows-return tt
put_parts-Grows (suc left) i reg value =
    Grows-elim (imm_part value i == 0) _ _ (put_parts-Grows left (i + 1) reg value) (
      Grows-and _ _ (Grows-put (gen_movk_x reg (imm_part value i) (i * 16)))
        (put_parts-Grows left (i + 1) reg value))

load_from-Grows : (reg value : ℕ) (first : Option ℕ) → Grows (load_from reg value first)
load_from-Grows reg value none = Grows-put _
load_from-Grows reg value (some first) = Grows-and _ _ (Grows-put _) (put_parts-Grows _ _ _ _)

pub emit_load_imm64-Grows : (reg value : ℕ) → Grows (emit_load_imm64 reg value)
unfolding emit_load_imm64
emit_load_imm64-Grows reg value = load_from-Grows reg value (first_part 4 0 value)

put_checked-Grows : (r : Option ℕ) → Grows (put_checked r)
put_checked-Grows none = Grows-fail
put_checked-Grows (some word) = Grows-put word

load_kind-Grows : (k : Kind) (op : Arg) (r : ℕ) → Grows (load_kind k op r)
load_kind-Grows Kind.absent op r = Grows-return tt
load_kind-Grows Kind.reg op r = Grows-put _
load_kind-Grows Kind.mem op r = Grows-and _ _ (Grows-put _) (put_checked-Grows _)
load_kind-Grows Kind.addr op r = emit_load_imm64-Grows r op.address
load_kind-Grows Kind.const op r = Grows-fail

pub load_operand-Grows : (op : Arg) (r : ℕ) → Grows (load_operand op r)
unfolding load_operand
load_operand-Grows op r = load_kind-Grows op.kind op r

store_kind-Grows : (k : Kind) (op : Arg) (r : ℕ) → Grows (store_kind k op r)
store_kind-Grows Kind.absent op r = Grows-return tt
store_kind-Grows Kind.reg op r = Grows-put _
store_kind-Grows Kind.mem op r =
    Grows-and _ _ (Grows-assert _) (Grows-and _ _ (Grows-put _) (put_checked-Grows _))
store_kind-Grows Kind.addr op r = Grows-fail
store_kind-Grows Kind.const op r = Grows-fail

pub store_operand-Grows : (op : Arg) (r : ℕ) → Grows (store_operand op r)
unfolding store_operand
store_operand-Grows op r = store_kind-Grows op.kind op r

pub mov_operands-Grows : (op1 op2 : Arg) → Grows (mov_operands op1 op2)
unfolding mov_operands
mov_operands-Grows op1 op2 = Grows-and _ _ (load_operand-Grows op2 2) (store_operand-Grows op1 2)

pub load_immediate-Grows : (dest : Arg) (value : ℕ) → Grows (load_immediate dest value)
unfolding load_immediate
load_immediate-Grows dest value = Grows-then _ _ Grows-index λ pos.
    Grows-and _ _ (emit_load_imm64-Grows 2 value)
      (Grows-and _ _ (store_operand-Grows dest 2) (Grows-return pos))

alu_words-Grows : (op : AluOp) → Grows (alu_words op)
unfolding alu_words
alu_words-Grows AluOp.add = Grows-put _
alu_words-Grows AluOp.sub = Grows-put _
alu_words-Grows AluOp.mul = Grows-put _
alu_words-Grows AluOp.div = Grows-put _
alu_words-Grows AluOp.modulo = Grows-and _ _ (Grows-put _) (Grows-put _)
alu_words-Grows AluOp.signum = Grows-and _ _ (Grows-put _) (
    Grows-and _ _ (Grows-put _)
      (Grows-and _ _ (Grows-put _) (Grows-and _ _ (Grows-put _) (Grows-put _))))

pub alu-Grows : (op : AluOp) (dest src1 src2 : Arg) → Grows (alu op dest src1 src2)
unfolding alu
alu-Grows op dest src1 src2 = Grows-and _ _ (load_operand-Grows src1 2) (
    Grows-and _ _ (load_operand-Grows src2 3)
      (Grows-and _ _ (alu_words-Grows op) (store_operand-Grows dest 2)))

pub compare_operands-Grows : (op1 op2 : Arg) → Grows (compare_operands op1 op2)
unfolding compare_operands
compare_operands-Grows op1 op2 = Grows-then _ _ Grows-index λ pos.
    Grows-and _ _ (load_operand-Grows op1 2) (
      Grows-and _ _ (load_operand-Grows op2 3)
        (Grows-and _ _ (Grows-put (gen_cmp_x 2 3)) (Grows-return pos)))

pub nop-Grows : Grows nop
unfolding nop
nop-Grows = Grows-put _

pub func_prologue-Grows : Grows func_prologue
unfolding func_prologue
func_prologue-Grows = Grows-and _ _ (Grows-put _) (Grows-put _)

pub func_epilogue-Grows : Grows func_epilogue
unfolding func_epilogue
func_epilogue-Grows = Grows-put _

pub ret-Grows : Grows ret
unfolding ret
ret-Grows = Grows-put _

pub jump-Grows : (target : ℕ) → Grows (jump target)
unfolding jump
jump-Grows target = Grows-then _ _ Grows-index λ size. Grows-emit (gen_b (offset_to target size))

pub call-Grows : (target : ℕ) → Grows (call target)
unfolding call
call-Grows target = Grows-then _ _ Grows-index λ size. Grows-emit (gen_bl (offset_to target size))

pub branch_if_equal-Grows : (target : ℕ) → Grows (branch_if_equal target)
unfolding branch_if_equal
branch_if_equal-Grows target =
    Grows-then _ _ Grows-index λ size. Grows-emit (gen_bcond cond_eq (offset_to target size))

pub end-Grows : Grows end
unfolding end
end-Grows = Grows-then _ _ Grows-index λ pos. Grows-and _ _ (Grows-put (gen_ldp_x 19 20 31 0)) (
    Grows-and _ _ (Grows-put (gen_add_x_imm 31 31 16)) (
      Grows-and _ _ (Grows-put (gen_ldp_x 29 30 31 0)) (
        Grows-and _ _ (Grows-put (gen_add_x_imm 31 31 16))
          (Grows-and _ _ (Grows-put gen_ret) (Grows-return pos)))))
