-- ===== src/Tests/Runs.antt =====
-- A whole program on the processor: a call, a function that computes and prints, and the end.
use temp_esas.Prelude.{
  ℕ, ◌≡◌, refl, arith, List, [], ◌∷◌, none, some, true, length, take, ◌<◌, ◌^◌, ◌==◌, if◌then◌else◌,
}
use temp_esas.Evm2.Types.{Op, default_arg, Instruction}
use temp_esas.Evm2.Disassembler.{reg_arg, const_arg, addr_arg}
use temp_esas.Arm64.Backend.{
  gen_ldr_x_imm, gen_str_x_imm, gen_mov_x, gen_stp_x, gen_ldp_x, gen_add_x_imm, gen_sub_x_imm,
  gen_add_x_reg, gen_lsl_x_imm, gen_adr, gen_br, gen_ret, gen_nop, gen_bl, gen_movz_x, gen_movk_x,
  gen_blr, gen_prologue1, gen_prologue2, gen_epilogue,
}
use temp_esas.Frontend.Emit.{
  entry, emit_load_imm64, put_parts, host_call_with_ops, begin, end, nop, load_operand,
  store_operand, load_immediate, alu, alu_words, call, ret, func_prologue, func_epilogue,
}
use temp_esas.Frontend.Patch.{patched, patch_branch_or_imm}
use temp_esas.Machine.{set_x}
use temp_esas.Machine.Operand.{Guest, write_operand}
use temp_esas.Machine.Cpu.{Functions, Cpu, Reaches}
use temp_esas.Compile.Labels.{Labels, call_label, find_label, find_labels}
use temp_esas.Compile.Instr.{compile_op}
use temp_esas.Compile.Program.{
  find_index, insert_index, emit_instruction, compile_instruction, compile_all, patch_all, compile,
}
use temp_esas.Compile.Execute.{execute, load_const_computes, add_computes}
use temp_esas.Compile.Resolve.{place}
use temp_esas.Compile.Typed.{
  load_const_typed, create_thread_typed, call_typed, hlt_typed, add_typed, console_write_typed,
  ret_typed,
}
use temp_esas.Compile.Total.{AreTaken, compile-some}
use temp_esas.Compile.Run.Block.{cpu_at}
use temp_esas.Compile.Run.Meaning.{
  print_value, read_value, thread_join, thread_sleep, thread_lock, thread_unlock, file_read,
  file_write, Services, prints, index_at, instr, Runs, rests, goes, computes, asks, calls_to,
  returns, creates, Creations,
}
use temp_esas.Compile.Run.Service.{Serves, HasServices, HasAddresses}
use temp_esas.Compile.Run.Creates.{CreatesAt}
use temp_esas.Compile.Run.Entered.{only_called}
use temp_esas.Compile.Run.Straights.{evm_at}
use temp_esas.Compile.Run.Simulates.{compile-Simulates}
use temp_esas.Compile.Run.Halts.{Terminates, compile-Terminates}
use temp_esas.Tests.Blocks.{host, start}

-- `loadConst 5, r1`, `createThread 200, r3`, `call 100`, `hlt`, at bit 100 `add r1, r1, r2`,
-- `consoleWrite r2`, `ret`, and at bit 200 `hlt`.
abbrev program : List Instruction
program =
    instr Op.load_const 0 (const_arg 5 ∷ reg_arg 1 ∷ [])
    ∷ instr Op.create_thread 40 (addr_arg 200 ∷ reg_arg 3 ∷ [])
    ∷ instr Op.call 70 (addr_arg 100 ∷ [])
    ∷ instr Op.hlt 90 []
    ∷ instr Op.add 100 (reg_arg 1 ∷ reg_arg 1 ∷ reg_arg 2 ∷ [])
    ∷ instr Op.console_write 120 (reg_arg 2 ∷ [])
    ∷ instr Op.ret 140 []
    ∷ instr Op.hlt 200 []
    ∷ []

abbrev output : List ℕ
output = elim (compile host program) [ none ↦ [] | some code ↦ code ]

output-compile : (compile host program ≡ some output) × (length output ≡ 46)
unfolding compile find_labels find_label begin end nop compile_all compile_instruction
    emit_instruction compile_op insert_index find_index patch_all patch_branch_or_imm patched
    load_operand store_operand load_immediate alu alu_words call ret func_prologue func_epilogue
    gen_ldr_x_imm gen_str_x_imm gen_mov_x gen_stp_x gen_ldp_x gen_add_x_imm gen_sub_x_imm
    gen_add_x_reg gen_lsl_x_imm gen_adr gen_br gen_ret gen_nop gen_bl gen_movz_x gen_movk_x gen_blr
    gen_prologue1 gen_prologue2 gen_epilogue emit_load_imm64 put_parts host_call_with_ops
output-compile = (refl, refl)

abbrev marks : Labels
marks = (100, call_label) ∷ []

program-find_labels : find_labels program [] ≡ some marks
unfolding find_labels find_label
program-find_labels = refl

program-only_called : only_called marks true program ≡ true
unfolding only_called find_label
program-only_called = refl

-- A host that prints, and nothing else.
abbrev services : Services
services f vs g = elim f [ print_value ↦ some (0, g) | _ ↦ none ]

-- Creating a thread gives the handle 7.
abbrev creations : Creations
creations m g = some (7, g)

abbrev functions : Functions
functions address s = some (set_x 0 (if address == host.thread_create then 7 else 0) s)

no_answer : {A : Type 0} (x : A) → none ≡ some x → ⊥
no_answer x e = ground arith

functions-Serves : Serves host services functions
functions-Serves print_value vs s r g e h = (set_x 0 0 s, refl, ground arith, ground arith)
functions-Serves read_value vs s r g e h = absurd (no_answer (r, g) e)
functions-Serves thread_join vs s r g e h = absurd (no_answer (r, g) e)
functions-Serves thread_sleep vs s r g e h = absurd (no_answer (r, g) e)
functions-Serves thread_lock vs s r g e h = absurd (no_answer (r, g) e)
functions-Serves thread_unlock vs s r g e h = absurd (no_answer (r, g) e)
functions-Serves file_read vs s r g e h = absurd (no_answer (r, g) e)
functions-Serves file_write vs s r g e h = absurd (no_answer (r, g) e)

host-HasServices : HasServices host
host-HasServices print_value = omega arith
host-HasServices read_value = omega arith
host-HasServices thread_join = omega arith
host-HasServices thread_sleep = omega arith
host-HasServices thread_lock = omega arith
host-HasServices thread_unlock = omega arith
host-HasServices file_read = omega arith
host-HasServices file_write = omega arith

host-HasAddresses : HasAddresses host
host-HasAddresses = (host-HasServices, omega arith)

functions-CreatesAt : CreatesAt host program creations functions
functions-CreatesAt m index s r g e begins at = (set_x 0 7 s, refl, ground arith, ground arith)

program-place : place host program [] ≡ some entry
unfolding place find_labels find_label begin compile_all gen_stp_x gen_add_x_imm gen_sub_x_imm
    gen_mov_x gen_add_x_reg gen_lsl_x_imm gen_adr gen_br
program-place = refl

abbrev loaded : Guest
loaded = execute Op.load_const (const_arg 5 ∷ reg_arg 1 ∷ []) start.guest

abbrev created : Guest
created = write_operand (reg_arg 3) 7 loaded

abbrev added : Guest
added = execute Op.add (reg_arg 1 ∷ reg_arg 1 ∷ reg_arg 2 ∷ []) created

program-Runs : Runs services creations program (evm_at 0 start.guest []) (evm_at 3 added [])
unfolding index_at
program-Runs =
    goes (evm_at 0 start.guest []) (evm_at 1 loaded []) (evm_at 3 added [])
      (computes (instr Op.load_const 0 (const_arg 5 ∷ reg_arg 1 ∷ [])) 0 start.guest [] refl
        (load_const_computes (const_arg 5) (reg_arg 1) refl (omega arith) refl (omega arith)))
      (goes (evm_at 1 loaded []) (evm_at 2 created []) (evm_at 3 added [])
        (creates 40 (addr_arg 200) (reg_arg 3) 7 1 7 loaded loaded [] refl refl (omega arith)
          (omega arith) refl refl)
        (goes (evm_at 2 created []) (evm_at 4 created (3 ∷ [])) (evm_at 3 added [])
          (calls_to 70 (addr_arg 100) 2 4 created [] refl refl refl)
          (goes (evm_at 4 created (3 ∷ [])) (evm_at 5 added (3 ∷ [])) (evm_at 3 added [])
            (computes (instr Op.add 100 (reg_arg 1 ∷ reg_arg 1 ∷ reg_arg 2 ∷ [])) 4 created (3 ∷ [])
              refl
              (add_computes (reg_arg 1) (reg_arg 1) (reg_arg 2) (omega arith) (omega arith)
                (omega arith)))
            (goes (evm_at 5 added (3 ∷ [])) (evm_at 6 added (3 ∷ [])) (evm_at 3 added [])
              (asks (instr Op.console_write 120 (reg_arg 2 ∷ [])) print_value _ default_arg 0 5
                added added (3 ∷ []) refl (prints (reg_arg 2) (omega arith)) refl)
              (goes (evm_at 6 added (3 ∷ [])) (evm_at 3 added []) (evm_at 3 added [])
                (returns 140 [] 6 3 added [] refl) (rests (evm_at 3 added [])))))))

compile-Simulates_example :
    (cpu : Cpu) × Reaches functions output (cpu_at entry start []) cpu
    × (place host program (take 3 program) ≡ some cpu.pc)
    × (cpu.state.guest ≡ added)
unfolding find_label
compile-Simulates_example =
    let (e, size) = output-compile in
    compile-Simulates host services creations functions program output marks 0 entry start []
      (evm_at 3 added []) e (omega (arith, size)) program-find_labels program-only_called
      functions-Serves host-HasAddresses functions-CreatesAt program-place refl program-Runs

compile-Terminates_example :
    (cpu : Cpu) × Reaches functions output (cpu_at entry start []) cpu
    × Terminates host output added cpu
compile-Terminates_example =
    let (e, size) = output-compile in
    compile-Terminates host services creations functions program output marks start []
      (evm_at 3 added []) 90 [] e (omega (arith, size)) program-find_labels program-only_called
      functions-Serves host-HasAddresses functions-CreatesAt (omega arith) program-Runs refl

program-size : place host program program ≡ some 41
unfolding place find_labels find_label begin end nop compile_all compile_instruction
    emit_instruction compile_op insert_index find_index load_operand store_operand load_immediate
    alu alu_words call ret func_prologue func_epilogue gen_ldr_x_imm gen_str_x_imm gen_mov_x
    gen_stp_x gen_ldp_x gen_add_x_imm gen_sub_x_imm gen_add_x_reg gen_lsl_x_imm gen_adr gen_br
    gen_ret gen_nop gen_bl gen_movz_x gen_movk_x gen_blr gen_prologue1 gen_prologue2 gen_epilogue
    emit_load_imm64 put_parts host_call_with_ops
program-size = refl

program-fits : (size : ℕ) → place host program program ≡ some size → size < 2 ^ 16
program-fits size e = ground (arith, e, program-size)

program-AreTaken : AreTaken program program
unfolding index_at
program-AreTaken = (
  load_const_typed (const_arg 5) (reg_arg 1) refl (omega arith),
  refl,
  tt,
  (
    create_thread_typed (addr_arg 200) (reg_arg 3) refl (omega arith),
    refl,
    (7, refl),
    (
      call_typed (addr_arg 100) refl,
      refl,
      (4, refl),
      (
        hlt_typed,
        refl,
        tt,
        (
          add_typed (reg_arg 1) (reg_arg 1) (reg_arg 2) (omega arith) (omega arith) (omega arith),
          refl,
          tt,
          (
            console_write_typed (reg_arg 2) (omega arith),
            refl,
            tt,
            (ret_typed, refl, tt, (hlt_typed, refl, tt, tt)),
          ),
        ),
      ),
    ),
  ),
)

compile-some_example : (code : List ℕ) × (compile host program ≡ some code)
compile-some_example =
    compile-some host program marks program-find_labels program-AreTaken program-fits
