-- ===== src/Assembler/Mnemonics.antt =====
-- The keys of `Assembler.Opcodes` (res/compiler.py), the mnemonics of the assembler's language, and
-- the names that the disassembler prints.
use Prim.Native.String.{String}
use text.Mathlib.Text
use temp_esas.Prelude.{ℕ, List, [], ◌∷◌, Option, none, some, ◌≡◌, ◌≢◌, refl, true, false}
use temp_esas.Evm2.Types.{
  Op, mov, load_const, add, sub, div, modulo, mul, compare, jump, jump_eq, read, write,
  console_read, console_write, create_thread, join_thread, hlt, sleep, call, ret, lock, unlock,
  unknown,
}
use temp_esas.Evm2.Names.{op_to_string}
use temp_esas.Evm2.Opcode.{find_op, opcode_table}
use temp_esas.Assembler.Encode.{
  ArgType, register_type, constant_type, label_type, op_code, arg_types,
}

-- What `Opcode` is made of.
abbrev pub Opcode : Type 0
Opcode = List ℕ × List ArgType

abbrev pub opcodes : List (String × Opcode)
opcodes =
    ("mov", (0 ∷ 0 ∷ 0 ∷ [], register_type ∷ register_type ∷ []))
    ∷ ("loadConst", (0 ∷ 0 ∷ 1 ∷ [], constant_type ∷ register_type ∷ []))
    ∷ ("add", (0 ∷ 1 ∷ 0 ∷ 0 ∷ 0 ∷ 1 ∷ [], register_type ∷ register_type ∷ register_type ∷ []))
    ∷ ("sub", (0 ∷ 1 ∷ 0 ∷ 0 ∷ 1 ∷ 0 ∷ [], register_type ∷ register_type ∷ register_type ∷ []))
    ∷ ("div", (0 ∷ 1 ∷ 0 ∷ 0 ∷ 1 ∷ 1 ∷ [], register_type ∷ register_type ∷ register_type ∷ []))
    ∷ ("mod", (0 ∷ 1 ∷ 0 ∷ 1 ∷ 0 ∷ 0 ∷ [], register_type ∷ register_type ∷ register_type ∷ []))
    ∷ ("mul", (0 ∷ 1 ∷ 0 ∷ 1 ∷ 0 ∷ 1 ∷ [], register_type ∷ register_type ∷ register_type ∷ []))
    ∷ ("compare", (0 ∷ 1 ∷ 1 ∷ 0 ∷ 0 ∷ [], register_type ∷ register_type ∷ register_type ∷ []))
    ∷ ("jump", (0 ∷ 1 ∷ 1 ∷ 0 ∷ 1 ∷ [], label_type ∷ []))
    ∷ ("jumpEqual", (0 ∷ 1 ∷ 1 ∷ 1 ∷ 0 ∷ [], label_type ∷ register_type ∷ register_type ∷ []))
    ∷ (
      "read",
      (1 ∷ 0 ∷ 0 ∷ 0 ∷ 0 ∷ [], register_type ∷ register_type ∷ register_type ∷ register_type ∷ []),
    )
    ∷ ("write", (1 ∷ 0 ∷ 0 ∷ 0 ∷ 1 ∷ [], register_type ∷ register_type ∷ register_type ∷ []))
    ∷ ("consoleRead", (1 ∷ 0 ∷ 0 ∷ 1 ∷ 0 ∷ [], register_type ∷ []))
    ∷ ("consoleWrite", (1 ∷ 0 ∷ 0 ∷ 1 ∷ 1 ∷ [], register_type ∷ []))
    ∷ ("createThread", (1 ∷ 0 ∷ 1 ∷ 0 ∷ 0 ∷ [], label_type ∷ register_type ∷ []))
    ∷ ("joinThread", (1 ∷ 0 ∷ 1 ∷ 0 ∷ 1 ∷ [], register_type ∷ []))
    ∷ ("hlt", (1 ∷ 0 ∷ 1 ∷ 1 ∷ 0 ∷ [], []))
    ∷ ("sleep", (1 ∷ 0 ∷ 1 ∷ 1 ∷ 1 ∷ [], register_type ∷ []))
    ∷ ("call", (1 ∷ 1 ∷ 0 ∷ 0 ∷ [], label_type ∷ []))
    ∷ ("ret", (1 ∷ 1 ∷ 0 ∷ 1 ∷ [], []))
    ∷ ("lock", (1 ∷ 1 ∷ 1 ∷ 0 ∷ [], register_type ∷ []))
    ∷ ("unlock", (1 ∷ 1 ∷ 1 ∷ 1 ∷ [], register_type ∷ []))
    ∷ []

-- `self.Opcodes[name]`; a missing key is an error of the program that is assembled.
abbrev pub find_opcode : String → List (String × Opcode) → Option Opcode
find_opcode name [] = none
find_opcode name ((key, opcode) ∷ table) = elim (Text.◌==◌ key name) [
  | true ↦ some opcode
  | false ↦ find_opcode name table
]

-- For every opcode but `unknown`, the name that the disassembler prints is the mnemonic in the
-- table of the assembler whose bits the table of the disassembler reads as that opcode, and whose
-- arguments are those of the opcode.
pub op_to_string-find_opcode :
    (op : Op)
    → op ≢ unknown
    → (find_opcode (op_to_string op) opcodes ≡ some (op_code op, arg_types op))
      × (find_op (op_code op) opcode_table ≡ some op)
unfolding op_to_string
op_to_string-find_opcode mov h = (refl, refl)
op_to_string-find_opcode load_const h = (refl, refl)
op_to_string-find_opcode add h = (refl, refl)
op_to_string-find_opcode sub h = (refl, refl)
op_to_string-find_opcode div h = (refl, refl)
op_to_string-find_opcode modulo h = (refl, refl)
op_to_string-find_opcode mul h = (refl, refl)
op_to_string-find_opcode compare h = (refl, refl)
op_to_string-find_opcode jump h = (refl, refl)
op_to_string-find_opcode jump_eq h = (refl, refl)
op_to_string-find_opcode read h = (refl, refl)
op_to_string-find_opcode write h = (refl, refl)
op_to_string-find_opcode console_read h = (refl, refl)
op_to_string-find_opcode console_write h = (refl, refl)
op_to_string-find_opcode create_thread h = (refl, refl)
op_to_string-find_opcode join_thread h = (refl, refl)
op_to_string-find_opcode hlt h = (refl, refl)
op_to_string-find_opcode sleep h = (refl, refl)
op_to_string-find_opcode call h = (refl, refl)
op_to_string-find_opcode ret h = (refl, refl)
op_to_string-find_opcode lock h = (refl, refl)
op_to_string-find_opcode unlock h = (refl, refl)
op_to_string-find_opcode unknown h = absurd (h refl)
