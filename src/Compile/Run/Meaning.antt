-- ===== src/Compile/Run/Meaning.antt =====
-- What a program means: an interpreter of its instructions, as a relation on its states. This is the
-- specification that `Compile` (compile.h) is held against, and no code of the repository.
use temp_esas.Prelude.{
  ℕ, suc, List, [], ◌∷◌, Option, none, some, true, false, ◌≡◌, ◌==◌, if◌then◌else◌, get_elem?, ◌<◌,
  ◌^◌,
}
use temp_esas.Evm2.Types.{Op, Arg, default_arg, Instruction}
use temp_esas.Machine.Operand.{Guest, IsOperand, read_operand, write_operand}
use temp_esas.Compile.Instr.{is_kind_addr, is_kind_reg}
use temp_esas.Compile.Execute.{Computes, execute}

-- Where the program is, by the number of the instruction, and the instructions to return to.
pub record Evm : Type 0 where
  pub at : ℕ
  pub guest : Guest
  pub calls : List ℕ

-- The first instruction at a bit address.
unfoldable pub index_at : ℕ → List Instruction → Option ℕ
index_at a [] = none
index_at a (i ∷ instructions) = elim (i.bit_offset == a) [
  | true ↦ some 0
  | false ↦ elim (index_at a instructions) [ none ↦ none | some n ↦ some (suc n) ]
]

abbrev pub instr : Op → ℕ → List Arg → Instruction
instr op o args = record { opcode = op; bit_offset = o; args = args }

-- What a program can ask the host for.
pub data Service : Type 0 where
  print_value read_value thread_join thread_sleep thread_lock thread_unlock : Service
  file_read file_write : Service

-- What a service gives back for its arguments, and what it makes of the guest; `none` does not
-- return.
abbrev pub Services : Type 0
Services = Service → List ℕ → Guest → Option (ℕ × Guest)

-- The instruction asks for a service with these arguments, and its answer goes to the operand.
pub data Asks (g : Guest) : Op → List Arg → Service → List ℕ → Arg → Type 0 where
  asks_value :
      (a : Arg)
      → is_kind_reg a ≡ true
      → IsOperand a
      → Asks g Op.console_read (a ∷ []) read_value [] a
  prints :
      (a : Arg)
      → IsOperand a
      → Asks g Op.console_write (a ∷ []) print_value (read_operand a g ∷ []) default_arg
  joins :
      (a : Arg)
      → IsOperand a
      → Asks g Op.join_thread (a ∷ []) thread_join (read_operand a g ∷ []) default_arg
  sleeps :
      (a : Arg)
      → IsOperand a
      → Asks g Op.sleep (a ∷ []) thread_sleep (read_operand a g ∷ []) default_arg
  locks :
      (a : Arg)
      → IsOperand a
      → Asks g Op.lock (a ∷ []) thread_lock (read_operand a g ∷ []) default_arg
  unlocks :
      (a : Arg)
      → IsOperand a
      → Asks g Op.unlock (a ∷ []) thread_unlock (read_operand a g ∷ []) default_arg
  reads_file :
      (a b c d : Arg)
      → IsOperand a
      → IsOperand b
      → IsOperand c
      → IsOperand d
      → Asks g Op.read
          (a ∷ b ∷ c ∷ d ∷ [])
          file_read
          (read_operand a g ∷ read_operand b g ∷ read_operand c g ∷ [])
          d
  writes_file :
      (a b c : Arg)
      → IsOperand a
      → IsOperand b
      → IsOperand c
      → Asks g Op.write
          (a ∷ b ∷ c ∷ [])
          file_write
          (read_operand a g ∷ read_operand b g ∷ read_operand c g ∷ [])
          default_arg

-- What creating a thread at an instruction gives back, and what it makes of the guest.
abbrev pub Creations : Type 0
Creations = ℕ → Guest → Option (ℕ × Guest)

-- One instruction of the program. A return with nothing to return to has no step.
pub data Steps (services : Services) (creations : Creations) (instructions : List Instruction)
    : Evm → Evm → Type 0 where
  computes :
      (i : Instruction) (n : ℕ) (g : Guest) (calls : List ℕ)
      → get_elem? instructions n ≡ some i
      → Computes i.opcode i.args
      → Steps services creations instructions
          (record { at = n; guest = g; calls = calls })
          (record { at = suc n; guest = execute i.opcode i.args g; calls = calls })
  asks :
      (i : Instruction) (f : Service) (vs : List ℕ) (dest : Arg) (r n : ℕ) (g g' : Guest)
      (calls : List ℕ)
      → get_elem? instructions n ≡ some i
      → Asks g i.opcode i.args f vs dest
      → services f vs g ≡ some (r, g')
      → Steps services creations instructions
          (record { at = n; guest = g; calls = calls })
          (record { at = suc n; guest = write_operand dest r g'; calls = calls })
  creates :
      (o : ℕ) (t a : Arg) (r n m : ℕ) (g g' : Guest) (calls : List ℕ)
      → get_elem? instructions n ≡ some (instr Op.create_thread o (t ∷ a ∷ []))
      → is_kind_addr t ≡ true
      → t.address < 2 ^ 16
      → IsOperand a
      → index_at t.address instructions ≡ some m
      → creations m g ≡ some (r, g')
      → Steps services creations instructions
          (record { at = n; guest = g; calls = calls })
          (record { at = suc n; guest = write_operand a r g'; calls = calls })
  jumps :
      (o : ℕ) (t : Arg) (n m : ℕ) (g : Guest) (calls : List ℕ)
      → get_elem? instructions n ≡ some (instr Op.jump o (t ∷ []))
      → is_kind_addr t ≡ true
      → index_at t.address instructions ≡ some m
      → Steps services creations instructions
          (record { at = n; guest = g; calls = calls })
          (record { at = m; guest = g; calls = calls })
  jumps_if_equal :
      (o : ℕ) (t a b : Arg) (n m : ℕ) (g : Guest) (calls : List ℕ)
      → get_elem? instructions n ≡ some (instr Op.jump_eq o (t ∷ a ∷ b ∷ []))
      → is_kind_addr t ≡ true
      → IsOperand a
      → IsOperand b
      → index_at t.address instructions ≡ some m
      → Steps services creations instructions
          (record { at = n; guest = g; calls = calls })
          (record {
            at = if read_operand a g == read_operand b g then m else suc n;
            guest = g;
            calls = calls;
          })
  calls_to :
      (o : ℕ) (t : Arg) (n m : ℕ) (g : Guest) (calls : List ℕ)
      → get_elem? instructions n ≡ some (instr Op.call o (t ∷ []))
      → is_kind_addr t ≡ true
      → index_at t.address instructions ≡ some m
      → Steps services creations instructions
          (record { at = n; guest = g; calls = calls })
          (record { at = m; guest = g; calls = suc n ∷ calls })
  returns :
      (o : ℕ) (args : List Arg) (n r : ℕ) (g : Guest) (calls : List ℕ)
      → get_elem? instructions n ≡ some (instr Op.ret o args)
      → Steps services creations instructions
          (record { at = n; guest = g; calls = r ∷ calls })
          (record { at = r; guest = g; calls = calls })

-- Any number of instructions.
pub data Runs (services : Services) (creations : Creations) (instructions : List Instruction)
    : Evm → Evm → Type 0 where
  rests : (e : Evm) → Runs services creations instructions e e
  goes :
      (e e' e'' : Evm)
      → Steps services creations instructions e e'
      → Runs services creations instructions e' e''
      → Runs services creations instructions e e''
