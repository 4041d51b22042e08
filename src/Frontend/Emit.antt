-- ===== src/Frontend/Emit.antt =====
-- The emitting methods of `ARM64JITFrontend` (jit_arm64_fe.h), in the source's order.
use temp_esas.Prelude.{
  ℕ, zero, suc, ◌+◌, ◌-◌, ◌*◌, ◌%◌, ◌^◌, [], Option, none, some, true, false, not, ◌==◌,
}
use temp_esas.Bits.{◌>>>◌, ◌&&&◌}
use temp_esas.Arm64.Word.{sub32}
use temp_esas.Arm64.Backend.{
  cond_eq, cond_lt, cond_gt, gen_movz_x, gen_movk_x, gen_mov_x, gen_ldr_x_imm, gen_str_x_imm,
  gen_reg_mem, gen_stp_x, gen_ldp_x, gen_add_x_reg, gen_add_x_imm, gen_sub_x_reg, gen_sub_x_imm,
  gen_sdiv_x, gen_udiv_x, gen_mul_x, gen_msub_x, gen_cmp_x, gen_cset_x, gen_bcond, gen_b, gen_bl,
  gen_br, gen_blr, gen_adr, gen_lsl_x_imm, gen_ret, gen_nop, gen_prologue1, gen_prologue2,
  gen_epilogue,
}
use temp_esas.Evm2.Types.{Arg, Kind}
use temp_esas.Frontend.Code.{
  Jit, ◌>>=◌, ◌>>◌, return, fail, assert, done, emit, put, get_current_index,
}

-- The four 16-bit parts of an immediate, the lowest first.
abbrev pub imm_part : ℕ → ℕ → ℕ
imm_part value i = value >>> (16 * i) &&& 0xFFFF

-- The search for the first part that is not zero, from part `i` with `left` parts to go.
abbrev pub first_part : ℕ → ℕ → ℕ → Option ℕ
first_part zero i value = none
first_part (suc left) i value = elim (imm_part value i == 0) [
  | false ↦ some i
  | true ↦ first_part left (i + 1) value
]

-- `movk` for the parts above the first.
unfoldable pub put_parts : ℕ → ℕ → ℕ → ℕ → Jit (Unit {0})
put_parts zero i reg value = done
put_parts (suc left) i reg value = elim (imm_part value i == 0) [
  | true ↦ put_parts left (i + 1) reg value
  | false ↦ put (gen_movk_x reg (imm_part value i) (i * 16)) >> put_parts left (i + 1) reg value
]

-- The instructions once the first part is known; a value of no part is zero.
abbrev pub load_from : ℕ → ℕ → Option ℕ → Jit (Unit {0})
load_from reg value none = put (gen_movz_x reg 0 0)
load_from reg value (some first) =
    put (gen_movz_x reg (imm_part value first) (first * 16))
    >> put_parts (4 - (first + 1)) (first + 1) reg value

unfoldable pub emit_load_imm64 : ℕ → ℕ → Jit (Unit {0})
emit_load_imm64 reg value = load_from reg value (first_part 4 0 value)

-- The index of the first instruction after the main prologue.
abbrev pub entry : ℕ
entry = 11

-- `begin` clears the vector; what was in it is lost.
unfoldable pub begin : Jit (Unit {0})
begin code =
    (do
      put (gen_sub_x_imm 31 31 16)
      put (gen_stp_x 29 30 31 0)
      put (gen_add_x_imm 29 31 0)
      put (gen_sub_x_imm 31 31 16)
      put (gen_stp_x 19 20 31 0)
      put (gen_mov_x 19 0)
      put (gen_mov_x 20 1)
      put (gen_lsl_x_imm 9 2 2)
      put (gen_adr 10 (sub32 12 (entry * 4)))
      put (gen_add_x_reg 9 10 9)
      put (gen_br 9))
      []

unfoldable pub end : Jit ℕ
end = do
  pos ← get_current_index
  put (gen_ldp_x 19 20 31 0)
  put (gen_add_x_imm 31 31 16)
  put (gen_ldp_x 29 30 31 0)
  put (gen_add_x_imm 31 31 16)
  put gen_ret
  return pos

-- `emit` of an encoder with an `assert` of its own.
abbrev pub put_checked : Option ℕ → Jit (Unit {0})
put_checked none = fail
put_checked (some word) = put word

abbrev pub load_kind : Kind → Arg → ℕ → Jit (Unit {0})
load_kind Kind.absent op temp_reg = done
load_kind Kind.reg op temp_reg = put (gen_ldr_x_imm temp_reg 20 op.register)
load_kind Kind.mem op temp_reg = do
  put (gen_ldr_x_imm temp_reg 20 op.register)
  put_checked (gen_reg_mem temp_reg 19 temp_reg true (op.size_bytes * 8))
load_kind Kind.addr op temp_reg = emit_load_imm64 temp_reg op.address
load_kind Kind.const op temp_reg = fail

unfoldable pub load_operand : Arg → ℕ → Jit (Unit {0})
load_operand op temp_reg = load_kind op.kind op temp_reg

abbrev pub store_kind : Kind → Arg → ℕ → Jit (Unit {0})
store_kind Kind.absent op r = done
store_kind Kind.reg op r = put (gen_str_x_imm r 20 op.register)
store_kind Kind.mem op r = do
  assert (not (r == 3))
  put (gen_ldr_x_imm 3 20 op.register)
  put_checked (gen_reg_mem r 19 3 false (op.size_bytes * 8))
store_kind Kind.addr op r = fail
store_kind Kind.const op r = fail

unfoldable pub store_operand : Arg → ℕ → Jit (Unit {0})
store_operand op r = store_kind op.kind op r

-- The method `mov`: the value of the second operand goes to the first.
unfoldable pub mov_operands : Arg → Arg → Jit (Unit {0})
mov_operands op1 op2 = do load_operand op2 2; store_operand op1 2

unfoldable pub load_immediate : Arg → ℕ → Jit ℕ
load_immediate dest value = do
  pos ← get_current_index
  emit_load_imm64 2 value
  store_operand dest 2
  return pos

pub data AluOp : Type 0 where
  add sub mul div modulo signum : AluOp

-- The `switch` of `alu`, on x2 and x3 into x2.
unfoldable pub alu_words : AluOp → Jit (Unit {0})
alu_words add = put (gen_add_x_reg 2 2 3)
alu_words sub = put (gen_sub_x_reg 2 2 3)
alu_words mul = put (gen_mul_x 2 2 3)
alu_words div = put (gen_sdiv_x 2 2 3)
alu_words modulo = do put (gen_udiv_x 4 2 3); put (gen_msub_x 2 4 3 2)
alu_words signum = do
  put (gen_cmp_x 2 31)
  put (gen_cset_x 3 cond_gt)
  put (gen_cmp_x 2 31)
  put (gen_cset_x 4 cond_lt)
  put (gen_sub_x_reg 2 3 4)

unfoldable pub alu : AluOp → Arg → Arg → Arg → Jit (Unit {0})
alu op dest src1 src2 = do
  load_operand src1 2
  load_operand src2 3
  alu_words op
  store_operand dest 2

-- The method `compare`.
unfoldable pub compare_operands : Arg → Arg → Jit ℕ
compare_operands op1 op2 = do
  pos ← get_current_index
  load_operand op1 2
  load_operand op2 3
  put (gen_cmp_x 2 3)
  return pos

-- `(int32_t)target_index - (int32_t)code.size()`, as a pattern.
abbrev pub offset_to : ℕ → ℕ → ℕ
offset_to target_index size = sub32 (target_index % 2 ^ 32) (size % 2 ^ 32)

unfoldable pub branch_if_equal : ℕ → Jit ℕ
branch_if_equal target_index = do
  size ← get_current_index
  emit (gen_bcond cond_eq (offset_to target_index size))

unfoldable pub jump : ℕ → Jit ℕ
jump target_index = do size ← get_current_index; emit (gen_b (offset_to target_index size))

unfoldable pub call : ℕ → Jit ℕ
call target_index = do size ← get_current_index; emit (gen_bl (offset_to target_index size))

unfoldable pub ret : Jit (Unit {0})
ret = put gen_ret

unfoldable pub nop : Jit (Unit {0})
nop = put gen_nop

unfoldable pub func_prologue : Jit (Unit {0})
func_prologue = do put gen_prologue1; put gen_prologue2

unfoldable pub func_epilogue : Jit (Unit {0})
func_epilogue = put gen_epilogue

unfoldable pub host_call_with_ops : ℕ → Arg → Arg → Arg → Arg → Arg → Jit ℕ
host_call_with_ops func_ptr result op1 op2 op3 op4 = do
  pos ← get_current_index
  load_operand op1 0
  load_operand op2 1
  load_operand op3 2
  load_operand op4 3
  emit_load_imm64 9 func_ptr
  put (gen_blr 9)
  store_operand result 0
  return pos
