-- ===== src/Compile/Instr.antt =====
-- The second pass of `Compile` (compile.h), one instruction.
use temp_esas.Prelude.{ℕ, List, [], ◌∷◌, Option, none, some, Bool, true, false}
use temp_esas.Evm2.Types.{Op, Kind, Arg, default_arg}
use temp_esas.Frontend.Code.{Jit, ◌>>=◌, ◌>>◌, return, fail, assert}
use temp_esas.Frontend.Emit.{
  mov_operands, load_immediate, AluOp, alu, compare_operands, branch_if_equal, jump, call, ret,
  func_epilogue, host_call_with_ops,
}

-- `JITInterface_t`: the addresses of the host's functions.
pub record Interface : Type 0 where
  pub print_value : ℕ
  pub read_value : ℕ
  pub terminate : ℕ
  pub thread_create : ℕ
  pub thread_join : ℕ
  pub thread_sleep : ℕ
  pub thread_lock : ℕ
  pub thread_unlock : ℕ
  pub file_read : ℕ
  pub file_write : ℕ

-- A branch or immediate to patch, by its index in the code, and the bit address that it is for.
abbrev pub Fixup : Type 0
Fixup = ℕ × ℕ

abbrev pub is_kind_addr : Arg → Bool
is_kind_addr a = elim a.kind [ Kind.addr ↦ true | _ ↦ false ]

abbrev pub is_kind_reg : Arg → Bool
is_kind_reg a = elim a.kind [ Kind.reg ↦ true | _ ↦ false ]

abbrev pub is_kind_const : Arg → Bool
is_kind_const a = elim a.kind [ Kind.const ↦ true | _ ↦ false ]

abbrev pub no_fixup : Jit (Unit {0}) → Jit (Option Fixup)
no_fixup m = do m; return none

-- A host call of `iface` whose index is not needed.
abbrev pub host_call : ℕ → Arg → Arg → Arg → Arg → Jit (Option Fixup)
host_call func_ptr result op1 op2 op3 = do
  pos ← host_call_with_ops func_ptr result op1 op2 op3 default_arg
  return none

-- The cases of the `switch`; a list of arguments of another length stops at the case's `assert`.
abbrev pub alu_case : AluOp → List Arg → Jit (Option Fixup)
alu_case op (a ∷ b ∷ c ∷ []) = no_fixup (alu op c a b)
alu_case op _ = fail

abbrev pub load_const_case : List Arg → Jit (Option Fixup)
load_const_case (c ∷ d ∷ []) = do
  assert (is_kind_const c)
  assert (is_kind_reg d)
  pos ← load_immediate d c.const_value
  return none
load_const_case _ = fail

abbrev pub console_read_case : Interface → List Arg → Jit (Option Fixup)
console_read_case iface (a ∷ []) = do
  assert (is_kind_reg a)
  host_call iface.read_value a default_arg default_arg default_arg
console_read_case iface _ = fail

abbrev pub jump_eq_case : List Arg → Jit (Option Fixup)
jump_eq_case (t ∷ a ∷ b ∷ []) = do
  assert (is_kind_addr t)
  pos ← compare_operands a b
  branch ← branch_if_equal 0
  return (some (branch, t.address))
jump_eq_case _ = fail

abbrev pub compare_case : List Arg → Jit (Option Fixup)
compare_case (a ∷ b ∷ c ∷ []) = do
  alu AluOp.sub c a b
  alu AluOp.signum c c default_arg
  return none
compare_case _ = fail

abbrev pub mov_case : List Arg → Jit (Option Fixup)
mov_case (a ∷ b ∷ []) = no_fixup (mov_operands b a)
mov_case _ = fail

abbrev pub jump_case : List Arg → Jit (Option Fixup)
jump_case (t ∷ []) = do assert (is_kind_addr t); branch ← jump 0; return (some (branch, t.address))
jump_case _ = fail

abbrev pub call_case : List Arg → Jit (Option Fixup)
call_case (t ∷ []) = do assert (is_kind_addr t); branch ← call 0; return (some (branch, t.address))
call_case _ = fail

abbrev pub create_thread_case : Interface → List Arg → Jit (Option Fixup)
create_thread_case iface (t ∷ a ∷ []) = do
  assert (is_kind_addr t)
  pos ← host_call_with_ops iface.thread_create a t default_arg default_arg default_arg
  return (some (pos, t.address))
create_thread_case iface _ = fail

-- The cases that hand one argument to the host.
abbrev pub one_arg_case : ℕ → List Arg → Jit (Option Fixup)
one_arg_case func_ptr (a ∷ []) = host_call func_ptr default_arg a default_arg default_arg
one_arg_case func_ptr _ = fail

abbrev pub read_case : Interface → List Arg → Jit (Option Fixup)
read_case iface (a ∷ b ∷ c ∷ d ∷ []) = host_call iface.file_read d a b c
read_case iface _ = fail

abbrev pub write_case : Interface → List Arg → Jit (Option Fixup)
write_case iface (a ∷ b ∷ c ∷ []) = host_call iface.file_write default_arg a b c
write_case iface _ = fail

unfoldable pub compile_op : Interface → Op → List Arg → Jit (Option Fixup)
compile_op iface Op.load_const args = load_const_case args
compile_op iface Op.console_read args = console_read_case iface args
compile_op iface Op.jump_eq args = jump_eq_case args
compile_op iface Op.add args = alu_case AluOp.add args
compile_op iface Op.sub args = alu_case AluOp.sub args
compile_op iface Op.mul args = alu_case AluOp.mul args
compile_op iface Op.div args = alu_case AluOp.div args
compile_op iface Op.modulo args = alu_case AluOp.modulo args
compile_op iface Op.compare args = compare_case args
compile_op iface Op.mov args = mov_case args
compile_op iface Op.console_write args = one_arg_case iface.print_value args
compile_op iface Op.jump args = jump_case args
compile_op iface Op.hlt args =
    host_call iface.terminate default_arg default_arg default_arg default_arg
compile_op iface Op.call args = call_case args
compile_op iface Op.ret args = do func_epilogue; ret; return none
compile_op iface Op.create_thread args = create_thread_case iface args
compile_op iface Op.join_thread args = one_arg_case iface.thread_join args
compile_op iface Op.lock args = one_arg_case iface.thread_lock args
compile_op iface Op.unlock args = one_arg_case iface.thread_unlock args
compile_op iface Op.sleep args = one_arg_case iface.thread_sleep args
compile_op iface Op.read args = read_case iface args
compile_op iface Op.write args = write_case iface args
compile_op iface Op.unknown args = fail
