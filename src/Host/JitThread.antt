-- ===== src/Host/JitThread.antt =====
-- `JitThread` (main.cpp): what a thread hands to compiled code, and where the code begins with it.
use temp_esas.Prelude.{
  ℕ, ◌+◌, ◌*◌, ◌^◌, ◌<◌, ◌≡◌, refl, arith, List, [], ◌++◌, some, ◌==◌, if◌then◌else◌, length,
}
use temp_esas.Arm64.Backend.{
  gen_sub_x_imm, gen_stp_x, gen_add_x_imm, gen_mov_x, gen_lsl_x_imm, gen_adr, gen_add_x_reg, gen_br,
}
use temp_esas.Arm64.Isa.{decode}
use temp_esas.Frontend.Emit.{begin, entry}
use temp_esas.Machine.Entry.{enter, enter_step}

-- The registers as they stand, and the addresses of the memory and of the array that holds them.
pub record JitThread : Type 0 where
  pub registers : ℕ → ℕ
  pub registers_address : ℕ
  pub shared_memory : ℕ
  pub jit_func : ℕ
  pub entry_point : ℕ

-- The constructor of the main thread: its registers are zero.
abbrev pub new_thread : ℕ → ℕ → ℕ → ℕ → JitThread
new_thread mem func entry_point registers_address = record {
  registers = λ r. 0;
  registers_address = registers_address;
  shared_memory = mem;
  jit_func = func;
  entry_point = entry_point;
}

-- The constructor that `thread_create` calls: a copy of the creator's registers in an array of its own.
abbrev pub copy_thread : JitThread → ℕ → ℕ → JitThread
copy_thread jt entry_point registers_address = record jt {
  registers_address = registers_address;
  entry_point = entry_point;
}

-- `jitFunc(sharedMemory, registers, entry)`: the three arguments are in x0, x1 and x2.
abbrev pub call_registers : JitThread → (ℕ → ℕ) → ℕ → ℕ
call_registers jt x n =
    if n == 0
    then jt.shared_memory
    else if n == 1
    then jt.registers_address
    else if n == 2
    then jt.entry_point
    else x n

-- The result of `config->run`: `setjmp` comes back with 1 after the `longjmp` of `terminate`.
pub data RunEnd : Type 0 where
  returned halted : RunEnd

abbrev pub run_result : RunEnd → ℕ
run_result returned = 0
run_result halted = 1

module _ (jt : JitThread) (x : ℕ → ℕ) (base : ℕ) (rest : List ℕ) where
  -- If its addresses are 64-bit numbers and its entry point is inside the address space, a thread
  -- that calls the code at an address runs the prologue, which is as many words as the default
  -- entry point says, and jumps to the word at the entry point, with the addresses of the memory
  -- and of its registers in x19 and x20. Entry points are counted from the first word of the
  -- prologue, so that 0 is the prologue itself and the default entry point the word behind it.
  pub begin-enter :
      jt.shared_memory < 2 ^ 64
      → jt.registers_address < 2 ^ 64
      → base + 4 * jt.entry_point < 2 ^ 64
      → (words : List ℕ) × (target : ℕ) × (x' : ℕ → ℕ) × (begin [] ≡ some (tt, words))
        × (length words ≡ entry)
        × (enter base (words ++ rest) (call_registers jt x) ≡ some (target, x'))
        × (target ≡ base + 4 * jt.entry_point)
        × (x' 19 ≡ jt.shared_memory)
        × (x' 20 ≡ jt.registers_address)
  unfolding begin enter enter_step decode gen_sub_x_imm gen_stp_x gen_add_x_imm gen_mov_x
      gen_lsl_x_imm gen_adr gen_add_x_reg gen_br
  begin-enter hm hr hb = (_, _, _, refl, refl, refl, omega arith, ground arith, ground arith)
