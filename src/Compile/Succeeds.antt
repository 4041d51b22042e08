-- ===== src/Compile/Succeeds.antt =====
-- Emitting methods of jit_arm64_fe.h that go through, for operands of the right kinds.
use temp_esas.Prelude.{
  ℕ, zero, suc, ◌+◌, ◌-◌, ◌*◌, ◌<◌, ◌≡◌, ◌==◌, refl, arith, inl, inr, List, [], ◌∷◌, ◌++◌, Option,
  none, some, Bool-cases, length,
}
use temp_esas.Evm2.Types.{Kind, Arg, default_arg}
use temp_esas.Arm64.Backend.{gen_movk_x, gen_movz_x, gen_blr, gen_cmp_x}
use temp_esas.Frontend.Code
use temp_esas.Frontend.Code.{Jit, ◌>>=◌, ◌>>◌, return, fail, assert, put, emit}
use temp_esas.Frontend.Emit.{
  AluOp, imm_part, first_part, put_parts, load_from, emit_load_imm64, load_operand, store_operand,
  mov_operands, load_immediate, alu, compare_operands, branch_if_equal, host_call_with_ops,
}
use temp_esas.Machine.{State}
use temp_esas.Machine.Operand.{IsOperand}
use temp_esas.Frontend.Growth.Calls.{call_words}
use temp_esas.Frontend.Blocks.{Gives}
use temp_esas.Frontend.Blocks.Operands.{load_operand-Does, store_operand-Does}
use temp_esas.Frontend.Blocks.Alu.{alu-Does, mov_operands-Does, signum-Does}
use temp_esas.Compile.Instr.{Fixup}

-- `m` goes through on whatever code is there.
abbrev pub Succeeds : {A : Type 0} → Jit A → Type 0
Succeeds {A} m = (code : List ℕ) → (a : A) × (code' : List ℕ) × (m code ≡ some (a, code'))

-- `m` stops at an assert on whatever code is there.
abbrev pub Stops : {A : Type 0} → Jit A → Type 0
Stops m = (code : List ℕ) → m code ≡ none

pub Succeeds-return : {A : Type 0} (a : A) → Succeeds (return a)
Succeeds-return a code = (a, code, refl)

Succeeds-put : (w : ℕ) → Succeeds (put w)
Succeeds-put w code = (tt, code ++ w ∷ [], refl)

pub Succeeds-then :
    {A B : Type 0} (m : Jit A) (f : A → Jit B)
    → Succeeds m
    → ((a : A) → Succeeds (f a))
    → Succeeds (Code.◌>>=◌ m f)
Succeeds-then m f first next code =
    let (a, code', e) = first code in
    let (b, code'', e') = next a code' in (b, code'', rw (e, Code.◌>>=◌) e')

Succeeds-Gives : {A : Type 0} (m : Jit A) (a : A) (s s' : State) → Gives m a s s' → Succeeds m
Succeeds-Gives m a s s' gives code = let (words, e, r) = gives code in (a, code ++ words, e)

-- A machine to run blocks on.
abbrev some_state : State
some_state = record {
  x = λ n. 0;
  compared = (0, 0);
  guest = record { slots = λ n. 0; memory = λ a. 0 };
}

pub load-Succeeds : (a : Arg) (reg : ℕ) → reg < 16 → IsOperand a → Succeeds (load_operand a reg)
load-Succeeds a reg h ha =
    Succeeds-Gives (load_operand a reg) tt some_state _ (load_operand-Does reg h a some_state ha)

pub absent_load-Succeeds : (reg : ℕ) → Succeeds (load_operand default_arg reg)
unfolding load_operand
absent_load-Succeeds reg = Succeeds-return tt

pub store-Succeeds : (a : Arg) → IsOperand a → Succeeds (store_operand a 0)
store-Succeeds a ha =
    let (s', same, does) = store_operand-Does 0 (omega arith) (omega arith) a some_state ha in
    Succeeds-Gives (store_operand a 0) tt some_state s' does

store_two-Succeeds : (a : Arg) → IsOperand a → Succeeds (store_operand a 2)
store_two-Succeeds a ha =
    let (s', same, does) = store_operand-Does 2 (omega arith) (omega arith) a some_state ha in
    Succeeds-Gives (store_operand a 2) tt some_state s' does

pub absent_store-Succeeds : Succeeds (store_operand default_arg 0)
unfolding store_operand
absent_store-Succeeds = Succeeds-return tt

put_parts-Succeeds : (left i reg v : ℕ) → Succeeds (put_parts left i reg v)
unfolding put_parts
put_parts-Succeeds zero i reg v = Succeeds-return tt
put_parts-Succeeds (suc left) i reg v = elim (Bool-cases (imm_part v i == 0)) [
  | inl none_at ↦ rw (none_at, put_parts) (put_parts-Succeeds left (i + 1) reg v)
  | inr part ↦
      rw (part, put_parts)
        (Succeeds-then (put (gen_movk_x reg (imm_part v i) (i * 16)))
          (λ _. put_parts left (i + 1) reg v)
          (Succeeds-put (gen_movk_x reg (imm_part v i) (i * 16)))
          λ _. put_parts-Succeeds left (i + 1) reg v)
]

load_from-Succeeds : (reg v : ℕ) (f : Option ℕ) → Succeeds (load_from reg v f)
load_from-Succeeds reg v none = Succeeds-put (gen_movz_x reg 0 0)
load_from-Succeeds reg v (some first) =
    Succeeds-then (put (gen_movz_x reg (imm_part v first) (first * 16))) _
      (Succeeds-put (gen_movz_x reg (imm_part v first) (first * 16)))
      λ _. put_parts-Succeeds (4 - (first + 1)) (first + 1) reg v

immediate-Succeeds : (reg v : ℕ) → Succeeds (emit_load_imm64 reg v)
unfolding emit_load_imm64
immediate-Succeeds reg v = load_from-Succeeds reg v (first_part 4 0 v)

pub address_load-Succeeds : (t : Arg) (reg : ℕ) → t.kind ≡ Kind.addr → Succeeds (load_operand t reg)
unfolding load_operand
address_load-Succeeds t reg kind = rw kind (immediate-Succeeds reg t.address)

module _ (func_ptr : ℕ) (result op1 op2 op3 : Arg) (stores : Succeeds (store_operand result 0))
    (one : Succeeds (load_operand op1 0)) (two : Succeeds (load_operand op2 1))
    (three : Succeeds (load_operand op3 2)) where
  call_words-Succeeds :
      (pos : ℕ) → Succeeds (call_words func_ptr result op1 op2 op3 default_arg pos)
  call_words-Succeeds pos = Succeeds-then (load_operand op1 0) _ one λ _.
      Succeeds-then (load_operand op2 1) _ two λ _. Succeeds-then (load_operand op3 2) _ three λ _.
        Succeeds-then (load_operand default_arg 3) _ (absent_load-Succeeds 3) λ _.
          Succeeds-then (emit_load_imm64 9 func_ptr) _ (immediate-Succeeds 9 func_ptr) λ _.
            Succeeds-then (put (gen_blr 9)) _ (Succeeds-put (gen_blr 9))
              λ _. Succeeds-then (store_operand result 0) _ stores λ _. Succeeds-return pos

  call-Succeeds : Succeeds (host_call_with_ops func_ptr result op1 op2 op3 default_arg)
  unfolding host_call_with_ops
  call-Succeeds code = call_words-Succeeds (length code) code

  pub fixup_call-Succeeds :
      (f : ℕ → Option Fixup)
      → Succeeds (
          Code.◌>>=◌
            (host_call_with_ops func_ptr result op1 op2 op3 default_arg)
            λ pos. return (f pos))
  fixup_call-Succeeds f =
      Succeeds-then (host_call_with_ops func_ptr result op1 op2 op3 default_arg)
        (λ pos. return (f pos)) call-Succeeds λ pos. Succeeds-return (f pos)

-- A call that hands over nothing, or one operand, and stores nothing.
pub one_operand-Succeeds :
    (func_ptr : ℕ) (a : Arg)
    → IsOperand a
    → Succeeds {A = Option Fixup} (
        Code.◌>>=◌
          (host_call_with_ops func_ptr default_arg a default_arg default_arg default_arg)
          λ pos. return none)
one_operand-Succeeds func_ptr a ha =
    fixup_call-Succeeds func_ptr default_arg a default_arg default_arg absent_store-Succeeds
      (load-Succeeds a 0 (omega arith) ha) (absent_load-Succeeds 1) (absent_load-Succeeds 2)
      λ pos. none

pub alu-Succeeds :
    (op : AluOp) (d a b : Arg) → IsOperand d → IsOperand a → IsOperand b → Succeeds (alu op d a b)
alu-Succeeds op d a b hd ha hb =
    let (s', same, does) = alu-Does op d a b some_state hd ha hb in
    Succeeds-Gives (alu op d a b) tt some_state s' does

pub signum-Succeeds : (c : Arg) → IsOperand c → Succeeds (alu AluOp.signum c c default_arg)
signum-Succeeds c hc =
    let (s', same, does) = signum-Does c c some_state hc hc in
    Succeeds-Gives (alu AluOp.signum c c default_arg) tt some_state s' does

pub mov-Succeeds : (d a : Arg) → IsOperand d → IsOperand a → Succeeds (mov_operands d a)
mov-Succeeds d a hd ha =
    let (s', same, does) = mov_operands-Does d a some_state hd ha in
    Succeeds-Gives (mov_operands d a) tt some_state s' does

pub no_fixup-Succeeds :
    (m : Jit (Unit {0})) → Succeeds m → Succeeds {A = Option Fixup} (m >> return none)
no_fixup-Succeeds m h = Succeeds-then m _ h λ _. Succeeds-return none

pub load_immediate-Succeeds : (d : Arg) (v : ℕ) → IsOperand d → Succeeds (load_immediate d v)
unfolding load_immediate
load_immediate-Succeeds d v hd code =
    Succeeds-then (emit_load_imm64 2 v) _ (immediate-Succeeds 2 v)
      (λ _.
        Succeeds-then (store_operand d 2) _ (store_two-Succeeds d hd)
          λ _. Succeeds-return (length code))
      code

pub compare_operands-Succeeds :
    (a b : Arg) → IsOperand a → IsOperand b → Succeeds (compare_operands a b)
unfolding compare_operands
compare_operands-Succeeds a b ha hb code =
    Succeeds-then (load_operand a 2) _ (load-Succeeds a 2 (omega arith) ha)
      (λ _. Succeeds-then (load_operand b 3) _ (load-Succeeds b 3 (omega arith) hb) λ _.
        Succeeds-then (put (gen_cmp_x 2 3)) _ (Succeeds-put (gen_cmp_x 2 3))
          λ _. Succeeds-return (length code))
      code

pub branch-Succeeds : Succeeds (branch_if_equal 0)
unfolding branch_if_equal
branch-Succeeds code = (length code, code ++ _ ∷ [], refl)
