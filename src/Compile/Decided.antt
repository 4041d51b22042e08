-- ===== src/Compile/Decided.antt =====
-- Which of the instructions that the disassembler reads the `switch` of `Compile` (compile.h) takes.
use temp_esas.Prelude.{
  ◌≡◌, ◌⊎◌, refl, arith, inl, inr, List, [], ◌∷◌, none, some, Bool, true, false, Bool-cases,
}
use temp_esas.Evm2.Types.{Op, Kind, Arg, default_arg, Instruction}
use temp_esas.Evm2.BitReader.{BitReader}
use temp_esas.Evm2.Disassembler.{read_instruction}
use temp_esas.Frontend.Code
use temp_esas.Frontend.Emit.{
  AluOp, alu, mov_operands, load_immediate, compare_operands, branch_if_equal,
}
use temp_esas.Machine.Operand.{IsOperand}
use temp_esas.Compile.Instr.{Interface, is_kind_addr, is_kind_reg, is_kind_const, compile_op}
use temp_esas.Compile.Run.Words.{jump-words, call-words, ret-words}
use temp_esas.Compile.Typed.{
  Typed, mov_typed, load_const_typed, jump_typed, jump_eq_typed, call_typed, create_thread_typed,
  read_typed, hlt_typed, ret_typed, add_typed, sub_typed, mul_typed, div_typed, modulo_typed,
  compare_typed, write_typed, console_read_typed, console_write_typed, join_thread_typed,
  sleep_typed, lock_typed, unlock_typed, read_instruction-Typed,
}
use temp_esas.Compile.Succeeds.{
  Succeeds, Stops, Succeeds-then, Succeeds-return, no_fixup-Succeeds, one_operand-Succeeds,
  fixup_call-Succeeds, alu-Succeeds, signum-Succeeds, mov-Succeeds, load_immediate-Succeeds,
  compare_operands-Succeeds, branch-Succeeds, load-Succeeds, store-Succeeds, absent_load-Succeeds,
  absent_store-Succeeds, address_load-Succeeds,
}

-- What `loadConst` and `consoleRead` give must go to a register.
abbrev pub stores_to_register : Op → List Arg → Bool
stores_to_register Op.console_read (a ∷ []) = is_kind_reg a
stores_to_register Op.load_const (c ∷ d ∷ []) = is_kind_reg d
stores_to_register _ _ = true

-- The case goes through whatever code is there, or stops at an assert whatever code is there.
abbrev pub Decided : Interface → Op → List Arg → Type 0
Decided iface op args =
    ((stores_to_register op args ≡ true) × Succeeds (compile_op iface op args))
    ⊎ ((stores_to_register op args ≡ false) × Stops (compile_op iface op args))

kind_addr-true : (t : Arg) → t.kind ≡ Kind.addr → is_kind_addr t ≡ true
kind_addr-true t h = rw h refl

kind_const-true : (c : Arg) → c.kind ≡ Kind.const → is_kind_const c ≡ true
kind_const-true c h = rw h refl

module _ (iface : Interface) where
  load_const-Decided :
      (c d : Arg) → c.kind ≡ Kind.const → IsOperand d → Decided iface Op.load_const (c ∷ d ∷ [])
  unfolding compile_op
  load_const-Decided c d hc hd = elim (Bool-cases (is_kind_reg d)) [
    | inl reg ↦ inl (
      reg,
      rw (kind_const-true c hc, reg)
          (Succeeds-then (load_immediate d c.const_value) (λ pos. Code.return none)
            (load_immediate-Succeeds d c.const_value hd) λ pos. Succeeds-return none),
    )
    | inr other ↦ inr (other, λ code. rw (kind_const-true c hc, other) refl)
  ]

  console_read-Decided : (a : Arg) → IsOperand a → Decided iface Op.console_read (a ∷ [])
  unfolding compile_op
  console_read-Decided a ha = elim (Bool-cases (is_kind_reg a)) [
    | inl reg ↦ inl (
      reg,
      rw reg (
          fixup_call-Succeeds iface.read_value a default_arg default_arg default_arg
            (store-Succeeds a ha) (absent_load-Succeeds 0) (absent_load-Succeeds 1)
            (absent_load-Succeeds 2) λ pos. none),
    )
    | inr other ↦ inr (other, λ code. rw other refl)
  ]

  pub Typed-Decided : (op : Op) (args : List Arg) → Typed op args → Decided iface op args
  unfolding compile_op
  Typed-Decided _ _ (mov_typed a b ha hb) =
      inl (refl, no_fixup-Succeeds (mov_operands b a) (mov-Succeeds b a hb ha))
  Typed-Decided _ _ (load_const_typed c d hc hd) = load_const-Decided c d hc hd
  Typed-Decided _ _ (jump_typed t ht) =
      inl (refl, λ code. (_, _, jump-words iface code t (kind_addr-true t ht)))
  Typed-Decided _ _ (call_typed t ht) =
      inl (refl, λ code. (_, _, call-words iface code t (kind_addr-true t ht)))
  Typed-Decided _ _ (jump_eq_typed t a b ht ha hb) = inl (
    refl,
    rw (kind_addr-true t ht) (
        Succeeds-then (compare_operands a b) _ (compare_operands-Succeeds a b ha hb) λ pos.
          Succeeds-then (branch_if_equal 0) (λ branch. Code.return (some (branch, t.address)))
            branch-Succeeds λ branch. Succeeds-return (some (branch, t.address))),
  )
  Typed-Decided _ _ (create_thread_typed t a ht ha) = inl (
    refl,
    rw (kind_addr-true t ht) (
        fixup_call-Succeeds iface.thread_create a t default_arg default_arg (store-Succeeds a ha)
          (address_load-Succeeds t 0 ht) (absent_load-Succeeds 1) (absent_load-Succeeds 2)
          λ pos. some (pos, t.address)),
  )
  Typed-Decided _ _ (read_typed a b c d ha hb hc hd) = inl (
    refl,
    fixup_call-Succeeds iface.file_read d a b c (store-Succeeds d hd)
        (load-Succeeds a 0 (omega arith) ha) (load-Succeeds b 1 (omega arith) hb)
        (load-Succeeds c 2 (omega arith) hc) λ pos. none,
  )
  Typed-Decided _ _ (write_typed a b c ha hb hc) = inl (
    refl,
    fixup_call-Succeeds iface.file_write default_arg a b c absent_store-Succeeds
        (load-Succeeds a 0 (omega arith) ha) (load-Succeeds b 1 (omega arith) hb)
        (load-Succeeds c 2 (omega arith) hc) λ pos. none,
  )
  Typed-Decided _ _ hlt_typed = inl (
    refl,
    fixup_call-Succeeds iface.terminate default_arg default_arg default_arg default_arg
        absent_store-Succeeds (absent_load-Succeeds 0) (absent_load-Succeeds 1)
        (absent_load-Succeeds 2) λ pos. none,
  )
  Typed-Decided _ _ ret_typed = inl (refl, λ code. (_, _, ret-words iface code []))
  Typed-Decided _ _ (compare_typed a b c ha hb hc) = inl (
    refl,
    Succeeds-then (alu AluOp.sub c a b) _ (alu-Succeeds AluOp.sub c a b hc ha hb)
        λ _. no_fixup-Succeeds (alu AluOp.signum c c default_arg) (signum-Succeeds c hc),
  )
  Typed-Decided _ _ (add_typed a b c ha hb hc) =
      inl (refl, no_fixup-Succeeds (alu AluOp.add c a b) (alu-Succeeds AluOp.add c a b hc ha hb))
  Typed-Decided _ _ (sub_typed a b c ha hb hc) =
      inl (refl, no_fixup-Succeeds (alu AluOp.sub c a b) (alu-Succeeds AluOp.sub c a b hc ha hb))
  Typed-Decided _ _ (mul_typed a b c ha hb hc) =
      inl (refl, no_fixup-Succeeds (alu AluOp.mul c a b) (alu-Succeeds AluOp.mul c a b hc ha hb))
  Typed-Decided _ _ (div_typed a b c ha hb hc) =
      inl (refl, no_fixup-Succeeds (alu AluOp.div c a b) (alu-Succeeds AluOp.div c a b hc ha hb))
  Typed-Decided _ _ (modulo_typed a b c ha hb hc) =
      inl (
        refl,
        no_fixup-Succeeds (alu AluOp.modulo c a b) (alu-Succeeds AluOp.modulo c a b hc ha hb),
      )
  Typed-Decided _ _ (console_read_typed a ha) = console_read-Decided a ha
  Typed-Decided _ _ (console_write_typed a ha) =
      inl (refl, one_operand-Succeeds iface.print_value a ha)
  Typed-Decided _ _ (join_thread_typed a ha) =
      inl (refl, one_operand-Succeeds iface.thread_join a ha)
  Typed-Decided _ _ (sleep_typed a ha) = inl (refl, one_operand-Succeeds iface.thread_sleep a ha)
  Typed-Decided _ _ (lock_typed a ha) = inl (refl, one_operand-Succeeds iface.thread_lock a ha)
  Typed-Decided _ _ (unlock_typed a ha) = inl (refl, one_operand-Succeeds iface.thread_unlock a ha)

  -- For every instruction that the disassembler reads from any stream, the `switch` of `Compile`
  -- either goes through whatever code is there, or stops at an assert whatever code is there; the
  -- second exactly for a `loadConst` or `consoleRead` whose result does not go to a register.
  pub read_instruction-Decided :
      (br br' : BitReader) (i : Instruction)
      → read_instruction br ≡ some (i, br')
      → Decided iface i.opcode i.args
  read_instruction-Decided br br' i e =
      Typed-Decided i.opcode i.args (read_instruction-Typed br br' i e)
