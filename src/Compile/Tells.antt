-- ===== src/Compile/Tells.antt =====
-- The bit address that a fixup of the `switch` in `Compile` (compile.h) is for: the one that the
-- instruction names.
use temp_esas.Prelude.{ℕ, ◌≡◌, ◌∙◌, arith, List, ◌∷◌, Option, none, some}
use temp_esas.Evm2.Types.{Op, Arg, default_arg}
use temp_esas.Frontend.Code
use temp_esas.Frontend.Code.{Jit, assert}
use temp_esas.Frontend.Growth.{then-some}
use temp_esas.Frontend.Emit.{
  nop, AluOp, mov_operands, load_immediate, alu, compare_operands, branch_if_equal, jump, call, ret,
  func_epilogue, host_call_with_ops,
}
use temp_esas.Evm2.Types.{Instruction}
use temp_esas.Compile.Labels.{Labels, find_label}
use temp_esas.Compile.Instr.{Interface, Fixup, is_kind_addr, is_kind_reg, is_kind_const, compile_op}
use temp_esas.Compile.Program.{emit_instruction, prologue_for}
use temp_esas.Compile.Typed.{
  Typed, mov_typed, load_const_typed, jump_typed, jump_eq_typed, call_typed, create_thread_typed,
  read_typed, hlt_typed, ret_typed, add_typed, sub_typed, mul_typed, div_typed, modulo_typed,
  compare_typed, write_typed, console_read_typed, console_write_typed, join_thread_typed,
  sleep_typed, lock_typed, unlock_typed,
}

-- The address that an instruction names.
abbrev pub target_of : Op → List Arg → Option ℕ
target_of Op.jump (t ∷ args) = some t.address
target_of Op.jump_eq (t ∷ args) = some t.address
target_of Op.call (t ∷ args) = some t.address
target_of Op.create_thread (t ∷ args) = some t.address
target_of _ args = none

-- A fixup of `m` is for `target`.
abbrev pub Tells : Option ℕ → Jit (Option Fixup) → Type 0
Tells target m =
    (code code' : List ℕ) (f : Option Fixup) (n t : ℕ)
    → m code ≡ some (f, code')
    → f ≡ some (n, t)
    → target ≡ some t

Tells-none : (target : Option ℕ) → Tells target (Code.return none)
Tells-none target code code' f n t e same = absurd (ground (arith, e, same))

Tells-some : (k u : ℕ) → Tells (some u) (Code.return (some (k, u)))
Tells-some k u code code' f n t e same = ground (arith, e, same)

Tells-then :
    {A : Type 0} (target : Option ℕ) (m : Jit A) (f : A → Jit (Option Fixup))
    → ((a : A) → Tells target (f a))
    → Tells target (Code.◌>>=◌ m f)
Tells-then target m f next code code'' g n t e same =
    let (a, code', e₁, e₂) = then-some m f code code'' g e in next a code' code'' g n t e₂ same

-- A step that comes behind one that gives a fixup, and hands it on.
Tells-first :
    (target : Option ℕ) (m : Jit (Option Fixup))
    → Tells target m
    → Tells target (Code.◌>>=◌ m λ f. Code.◌>>=◌ nop λ _. Code.return f)
Tells-first target m tells code code'' g n t e same =
    let (f, code', e₁, e₂) = then-some m (λ f. Code.◌>>=◌ nop λ _. Code.return f) code code'' g e in
    let (u, code₁, e₃, e₄) = then-some nop (λ _. Code.return f) code' code'' g e₂ in
    let given : f ≡ g = ground (arith, e₄) in tells code code' f n t e₁ (given ∙ same)

pub compile_op-Tells :
    (iface : Interface) (op : Op) (args : List Arg)
    → Typed op args
    → Tells (target_of op args) (compile_op iface op args)
unfolding compile_op
compile_op-Tells iface _ _ (mov_typed a b ha hb) =
    Tells-then _ (mov_operands b a) _ λ _. Tells-none _
compile_op-Tells iface _ _ (load_const_typed c d hc hd) =
    Tells-then _ (assert (is_kind_const c)) _ λ _.
      Tells-then _ (assert (is_kind_reg d)) _
        λ _. Tells-then _ (load_immediate d c.const_value) _ λ _. Tells-none _
compile_op-Tells iface _ _ (jump_typed t ht) =
    Tells-then _ (assert (is_kind_addr t)) _
      λ _. Tells-then _ (jump 0) _ λ k. Tells-some k t.address
compile_op-Tells iface _ _ (call_typed t ht) =
    Tells-then _ (assert (is_kind_addr t)) _
      λ _. Tells-then _ (call 0) _ λ k. Tells-some k t.address
compile_op-Tells iface _ _ (jump_eq_typed t a b ht ha hb) =
    Tells-then _ (assert (is_kind_addr t)) _ λ _.
      Tells-then _ (compare_operands a b) _
        λ _. Tells-then _ (branch_if_equal 0) _ λ k. Tells-some k t.address
compile_op-Tells iface _ _ (create_thread_typed t a ht ha) =
    Tells-then _ (assert (is_kind_addr t)) _ λ _.
      Tells-then _ (host_call_with_ops iface.thread_create a t default_arg default_arg default_arg)
        _ λ k. Tells-some k t.address
compile_op-Tells iface _ _ (read_typed a b c d ha hb hc hd) =
    Tells-then _ (host_call_with_ops iface.file_read d a b c default_arg) _ λ _. Tells-none _
compile_op-Tells iface _ _ (write_typed a b c ha hb hc) =
    Tells-then _ (host_call_with_ops iface.file_write default_arg a b c default_arg) _
      λ _. Tells-none _
compile_op-Tells iface _ _ hlt_typed =
    Tells-then _
      (host_call_with_ops iface.terminate default_arg default_arg default_arg default_arg
        default_arg)
      _ λ _. Tells-none _
compile_op-Tells iface _ _ ret_typed =
    Tells-then _ (func_epilogue) _ λ _. Tells-then _ (ret) _ λ _. Tells-none _
compile_op-Tells iface _ _ (compare_typed a b c ha hb hc) =
    Tells-then _ (alu AluOp.sub c a b) _
      λ _. Tells-then _ (alu AluOp.signum c c default_arg) _ λ _. Tells-none _
compile_op-Tells iface _ _ (console_read_typed a ha) = Tells-then _ (assert (is_kind_reg a)) _ λ _.
    Tells-then _
      (host_call_with_ops iface.read_value a default_arg default_arg default_arg default_arg) _
      λ _. Tells-none _
compile_op-Tells iface _ _ (add_typed a b c ha hb hc) =
    Tells-then _ (alu AluOp.add c a b) _ λ _. Tells-none _
compile_op-Tells iface _ _ (sub_typed a b c ha hb hc) =
    Tells-then _ (alu AluOp.sub c a b) _ λ _. Tells-none _
compile_op-Tells iface _ _ (mul_typed a b c ha hb hc) =
    Tells-then _ (alu AluOp.mul c a b) _ λ _. Tells-none _
compile_op-Tells iface _ _ (div_typed a b c ha hb hc) =
    Tells-then _ (alu AluOp.div c a b) _ λ _. Tells-none _
compile_op-Tells iface _ _ (modulo_typed a b c ha hb hc) =
    Tells-then _ (alu AluOp.modulo c a b) _ λ _. Tells-none _
compile_op-Tells iface _ _ (console_write_typed a ha) =
    Tells-then _
      (host_call_with_ops iface.print_value default_arg a default_arg default_arg default_arg) _
      λ _. Tells-none _
compile_op-Tells iface _ _ (join_thread_typed a ha) =
    Tells-then _
      (host_call_with_ops iface.thread_join default_arg a default_arg default_arg default_arg) _
      λ _. Tells-none _
compile_op-Tells iface _ _ (sleep_typed a ha) =
    Tells-then _
      (host_call_with_ops iface.thread_sleep default_arg a default_arg default_arg default_arg) _
      λ _. Tells-none _
compile_op-Tells iface _ _ (lock_typed a ha) =
    Tells-then _
      (host_call_with_ops iface.thread_lock default_arg a default_arg default_arg default_arg) _
      λ _. Tells-none _
compile_op-Tells iface _ _ (unlock_typed a ha) =
    Tells-then _
      (host_call_with_ops iface.thread_unlock default_arg a default_arg default_arg default_arg) _
      λ _. Tells-none _

pub emit_instruction-Tells :
    (iface : Interface) (labels : Labels) (i : Instruction)
    → Typed i.opcode i.args
    → Tells (target_of i.opcode i.args) (emit_instruction iface labels i)
unfolding emit_instruction
emit_instruction-Tells iface labels i typed =
    Tells-then (target_of i.opcode i.args) (prologue_for (find_label i.bit_offset labels)) _ λ _.
      Tells-first (target_of i.opcode i.args) (compile_op iface i.opcode i.args)
        (compile_op-Tells iface i.opcode i.args typed)
