-- ===== src/Compile/Fixups/Cases.antt =====
-- The cases of the `switch` in `Compile` (compile.h), by the fixups that they give.
use temp_esas.Prelude.{ℕ, List, [], ◌∷◌}
use temp_esas.Evm2.Types.{Op, Arg, default_arg}
use temp_esas.Frontend.Code.{Jit, assert}
use temp_esas.Frontend.Emit.{AluOp, jump, call, compare_operands, branch_if_equal}
use temp_esas.Frontend.Growth.{
  Grows, Grows-assert, mov_operands-Grows, load_immediate-Grows, alu-Grows, compare_operands-Grows,
  func_epilogue-Grows, ret-Grows, jump-Grows, call-Grows, branch_if_equal-Grows,
}
use temp_esas.Frontend.Growth.Calls.{host_call-Grows, host_call-index}
use temp_esas.Compile.Instr.{
  Interface, is_kind_addr, alu_case, load_const_case, console_read_case, jump_eq_case, compare_case,
  mov_case, jump_case, call_case, create_thread_case, one_arg_case, read_case, write_case, no_fixup,
  host_call, compile_op,
}
use temp_esas.Compile.Branches.{IsBranch}
use temp_esas.Compile.Fixups.{
  Appends, Appends-return, Appends-fail, Appends-then, Appends-and, Appends-fixup,
  EmitsBranch-IsIndexed, Points, Points-then, Points-fixup, jump-EmitsBranch, call-EmitsBranch,
  branch_if_equal-EmitsBranch,
}

no_fixup-Appends : (m : Jit (Unit {0})) → Grows m → Appends (no_fixup m)
no_fixup-Appends m g = Appends-and _ _ g Appends-return

host_call-Appends :
    (func_ptr : ℕ) (result op1 op2 op3 : Arg) → Appends (host_call func_ptr result op1 op2 op3)
host_call-Appends func_ptr result op1 op2 op3 =
    Appends-then _ _ (host_call-Grows func_ptr result op1 op2 op3 default_arg) λ pos. Appends-return

alu_case-Appends : (op : AluOp) (args : List Arg) → Appends (alu_case op args)
alu_case-Appends op (a ∷ b ∷ c ∷ []) = no_fixup-Appends _ (alu-Grows op c a b)
alu_case-Appends op _ = Appends-fail

load_const_case-Appends : (args : List Arg) → Appends (load_const_case args)
load_const_case-Appends (c ∷ d ∷ []) = Appends-and _ _ (Grows-assert _) (
    Appends-and _ _ (Grows-assert _)
      (Appends-then _ _ (load_immediate-Grows d c.const_value) λ pos. Appends-return))
load_const_case-Appends _ = Appends-fail

console_read_case-Appends :
    (iface : Interface) (args : List Arg) → Appends (console_read_case iface args)
console_read_case-Appends iface (a ∷ []) =
    Appends-and _ _ (Grows-assert _)
      (host_call-Appends iface.read_value a default_arg default_arg default_arg)
console_read_case-Appends iface _ = Appends-fail

jump_eq_case-Appends : (args : List Arg) → Appends (jump_eq_case args)
jump_eq_case-Appends (t ∷ a ∷ b ∷ []) = Appends-and _ _ (Grows-assert _) (
    Appends-then _ _ (compare_operands-Grows a b) λ pos.
      Appends-fixup (branch_if_equal 0) t.address (branch_if_equal-Grows 0)
        (EmitsBranch-IsIndexed (branch_if_equal 0) branch_if_equal-EmitsBranch))
jump_eq_case-Appends _ = Appends-fail

compare_case-Appends : (args : List Arg) → Appends (compare_case args)
compare_case-Appends (a ∷ b ∷ c ∷ []) =
    Appends-and _ _ (alu-Grows AluOp.sub c a b)
      (Appends-and _ _ (alu-Grows AluOp.signum c c default_arg) Appends-return)
compare_case-Appends _ = Appends-fail

mov_case-Appends : (args : List Arg) → Appends (mov_case args)
mov_case-Appends (a ∷ b ∷ []) = no_fixup-Appends _ (mov_operands-Grows b a)
mov_case-Appends _ = Appends-fail

jump_case-Appends : (args : List Arg) → Appends (jump_case args)
jump_case-Appends (t ∷ []) = Appends-and _ _ (Grows-assert _) (
    Appends-fixup (jump 0) t.address (jump-Grows 0)
      (EmitsBranch-IsIndexed (jump 0) jump-EmitsBranch))
jump_case-Appends _ = Appends-fail

call_case-Appends : (args : List Arg) → Appends (call_case args)
call_case-Appends (t ∷ []) = Appends-and _ _ (Grows-assert _) (
    Appends-fixup (call 0) t.address (call-Grows 0)
      (EmitsBranch-IsIndexed (call 0) call-EmitsBranch))
call_case-Appends _ = Appends-fail

create_thread_case-Appends :
    (iface : Interface) (args : List Arg) → Appends (create_thread_case iface args)
create_thread_case-Appends iface (t ∷ a ∷ []) = Appends-and _ _ (Grows-assert _) (
    Appends-fixup _ t.address
      (host_call-Grows iface.thread_create a t default_arg default_arg default_arg)
      (host_call-index iface.thread_create a t default_arg default_arg default_arg))
create_thread_case-Appends iface _ = Appends-fail

one_arg_case-Appends : (func_ptr : ℕ) (args : List Arg) → Appends (one_arg_case func_ptr args)
one_arg_case-Appends func_ptr (a ∷ []) =
    host_call-Appends func_ptr default_arg a default_arg default_arg
one_arg_case-Appends func_ptr _ = Appends-fail

read_case-Appends : (iface : Interface) (args : List Arg) → Appends (read_case iface args)
read_case-Appends iface (a ∷ b ∷ c ∷ d ∷ []) = host_call-Appends iface.file_read d a b c
read_case-Appends iface _ = Appends-fail

write_case-Appends : (iface : Interface) (args : List Arg) → Appends (write_case iface args)
write_case-Appends iface (a ∷ b ∷ c ∷ []) = host_call-Appends iface.file_write default_arg a b c
write_case-Appends iface _ = Appends-fail

pub compile_op-Appends :
    (iface : Interface) (op : Op) (args : List Arg) → Appends (compile_op iface op args)
unfolding compile_op
compile_op-Appends iface Op.load_const args = load_const_case-Appends args
compile_op-Appends iface Op.console_read args = console_read_case-Appends iface args
compile_op-Appends iface Op.jump_eq args = jump_eq_case-Appends args
compile_op-Appends iface Op.add args = alu_case-Appends AluOp.add args
compile_op-Appends iface Op.sub args = alu_case-Appends AluOp.sub args
compile_op-Appends iface Op.mul args = alu_case-Appends AluOp.mul args
compile_op-Appends iface Op.div args = alu_case-Appends AluOp.div args
compile_op-Appends iface Op.modulo args = alu_case-Appends AluOp.modulo args
compile_op-Appends iface Op.compare args = compare_case-Appends args
compile_op-Appends iface Op.mov args = mov_case-Appends args
compile_op-Appends iface Op.console_write args = one_arg_case-Appends iface.print_value args
compile_op-Appends iface Op.jump args = jump_case-Appends args
compile_op-Appends iface Op.hlt args =
    host_call-Appends iface.terminate default_arg default_arg default_arg default_arg
compile_op-Appends iface Op.call args = call_case-Appends args
compile_op-Appends iface Op.ret args =
    Appends-and _ _ func_epilogue-Grows (Appends-and _ _ ret-Grows Appends-return)
compile_op-Appends iface Op.create_thread args = create_thread_case-Appends iface args
compile_op-Appends iface Op.join_thread args = one_arg_case-Appends iface.thread_join args
compile_op-Appends iface Op.lock args = one_arg_case-Appends iface.thread_lock args
compile_op-Appends iface Op.unlock args = one_arg_case-Appends iface.thread_unlock args
compile_op-Appends iface Op.sleep args = one_arg_case-Appends iface.thread_sleep args
compile_op-Appends iface Op.read args = read_case-Appends iface args
compile_op-Appends iface Op.write args = write_case-Appends iface args
compile_op-Appends iface Op.unknown args = Appends-fail

-- The instructions with a branch, by the bit address that it is to go to.
pub data BranchesTo : Op → List Arg → ℕ → Type 0 where
  jumps : (t : Arg) → BranchesTo Op.jump (t ∷ []) t.address
  jumps_if_equal : (t a b : Arg) → BranchesTo Op.jump_eq (t ∷ a ∷ b ∷ []) t.address
  calls : (t : Arg) → BranchesTo Op.call (t ∷ []) t.address

pub compile_op-Points :
    (iface : Interface) (op : Op) (args : List Arg) (t : ℕ)
    → BranchesTo op args t
    → Points IsBranch (compile_op iface op args) t
unfolding compile_op
compile_op-Points iface _ _ _ (jumps t) =
    Points-then IsBranch (assert (is_kind_addr t)) _ t.address
      λ _. Points-fixup (jump 0) t.address jump-EmitsBranch
compile_op-Points iface _ _ _ (jumps_if_equal t a b) =
    Points-then IsBranch (assert (is_kind_addr t)) _ t.address λ _.
      Points-then IsBranch (compare_operands a b) _ t.address
        λ pos. Points-fixup (branch_if_equal 0) t.address branch_if_equal-EmitsBranch
compile_op-Points iface _ _ _ (calls t) =
    Points-then IsBranch (assert (is_kind_addr t)) _ t.address
      λ _. Points-fixup (call 0) t.address call-EmitsBranch
