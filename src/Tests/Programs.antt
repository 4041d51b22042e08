-- ===== src/Tests/Programs.antt =====
-- A whole program with a branch forwards and a branch back.
use temp_esas.Prelude.{ℕ, ◌+◌, ◌*◌, ◌≡◌, refl, arith, List, [], ◌∷◌, ◌++◌, none, some, length}
use temp_esas.Evm2.Types.{Op, Instruction}
use temp_esas.Evm2.Disassembler.{reg_arg, addr_arg}
use temp_esas.Arm64.Backend.{
  gen_ldr_x_imm, gen_str_x_imm, gen_mov_x, gen_stp_x, gen_ldp_x, gen_add_x_imm, gen_sub_x_imm,
  gen_add_x_reg, gen_lsl_x_imm, gen_adr, gen_br, gen_ret, gen_nop, gen_b, gen_bcond, gen_cmp_x,
  gen_movz_x, gen_movk_x, gen_blr,
}
use temp_esas.Frontend.Emit.{
  entry, emit_load_imm64, put_parts, host_call_with_ops, begin, end, nop, load_operand,
  store_operand, mov_operands, compare_operands, branch_if_equal, jump,
}
use temp_esas.Frontend.Patch.{patched, patch_branch_or_imm}
use temp_esas.Compile.Labels.{find_label, find_labels}
use temp_esas.Compile.Instr.{compile_op}
use temp_esas.Compile.Program.{
  find_index, insert_index, emit_instruction, compile_instruction, compile_all, patch_all, compile,
}
use temp_esas.Compile.Fixups.Cases.{jumps_if_equal}
use temp_esas.Compile.Lands.{
  BranchLands, compile-BranchLands, ThreadStarts, creates, compile-ThreadStarts,
}
use temp_esas.Machine.Entry.{enter}
use temp_esas.Host.JitThread.{JitThread, new_thread, copy_thread, call_registers, begin-enter}
use temp_esas.Tests.Blocks.{host}

-- `jump` to bit 50, and `mov r1, r2`.
abbrev lead : List Instruction
lead =
    record { opcode = Op.jump; bit_offset = 0; args = addr_arg 50 ∷ [] }
    ∷ record { opcode = Op.mov; bit_offset = 37; args = reg_arg 1 ∷ reg_arg 2 ∷ [] }
    ∷ []

-- `jumpEqual` to bit 37.
abbrev back : Instruction
back = record {
  opcode = Op.jump_eq;
  bit_offset = 50;
  args = addr_arg 37 ∷ reg_arg 1 ∷ reg_arg 2 ∷ [];
}

abbrev output : List ℕ
output = elim (compile host (lead ++ back ∷ [])) [ none ↦ [] | some code ↦ code ]

output-compile : (compile host (lead ++ back ∷ []) ≡ some output) × (length output ≡ 26)
unfolding compile find_labels find_label begin end nop compile_all compile_instruction
    emit_instruction compile_op insert_index find_index patch_all patch_branch_or_imm patched
    load_operand store_operand mov_operands compare_operands branch_if_equal jump gen_ldr_x_imm
    gen_str_x_imm gen_mov_x gen_stp_x gen_ldp_x gen_add_x_imm gen_sub_x_imm gen_add_x_reg
    gen_lsl_x_imm gen_adr gen_br gen_ret gen_nop gen_b gen_bcond gen_cmp_x
output-compile = (refl, refl)

compile-BranchLands_example : BranchLands host (lead ++ back ∷ []) lead back 37 output
compile-BranchLands_example =
    let (e, size) = output-compile in
    compile-BranchLands host lead [] back 37 output e (omega (arith, size))
      (jumps_if_equal (addr_arg 37) (reg_arg 1) (reg_arg 2))

-- `createThread` with the code at bit 50, and `mov r1, r2` there.
abbrev creation : Instruction
creation = record { opcode = Op.create_thread; bit_offset = 0; args = addr_arg 50 ∷ reg_arg 1 ∷ [] }

abbrev thread_code : List Instruction
thread_code = record { opcode = Op.mov; bit_offset = 50; args = reg_arg 1 ∷ reg_arg 2 ∷ [] } ∷ []

abbrev thread_output : List ℕ
thread_output = elim (compile host (creation ∷ thread_code)) [ none ↦ [] | some code ↦ code ]

thread_output-compile :
    (compile host (creation ∷ thread_code) ≡ some thread_output) × (length thread_output ≡ 24)
unfolding compile find_labels find_label begin end nop compile_all compile_instruction
    emit_instruction compile_op insert_index find_index patch_all patch_branch_or_imm patched
    load_operand store_operand mov_operands compare_operands branch_if_equal jump gen_ldr_x_imm
    gen_str_x_imm gen_mov_x gen_stp_x gen_ldp_x gen_add_x_imm gen_sub_x_imm gen_add_x_reg
    gen_lsl_x_imm gen_adr gen_br gen_ret gen_nop gen_b gen_bcond gen_cmp_x gen_movz_x gen_movk_x
    gen_blr emit_load_imm64 put_parts host_call_with_ops
thread_output-compile = (refl, refl)

compile-ThreadStarts_example :
    ThreadStarts host (creation ∷ thread_code) [] creation 50 thread_output
compile-ThreadStarts_example =
    let (e, size) = thread_output-compile in
    compile-ThreadStarts host [] thread_code creation 50 thread_output e (omega (arith, size))
      (creates (addr_arg 50) (reg_arg 1) (omega arith))

-- A thread that begins at word 24 of code at 0x10000.
abbrev worker : JitThread
worker = copy_thread (new_thread 0x100000000 0x10000 11 0x2000) 24 0x3000

begin-enter_example :
    (words : List ℕ) × (target : ℕ) × (x : ℕ → ℕ) × (begin [] ≡ some (tt, words))
    × (length words ≡ entry)
    × (enter 0x10000 (words ++ []) (call_registers worker (λ n. 0)) ≡ some (target, x))
    × (target ≡ 0x10000 + 4 * worker.entry_point)
    × (x 19 ≡ worker.shared_memory)
    × (x 20 ≡ worker.registers_address)
begin-enter_example =
    begin-enter worker (λ n. 0) 0x10000 [] (omega arith) (omega arith) (omega arith)
