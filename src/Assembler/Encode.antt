-- ===== src/Assembler/Encode.antt =====
-- `Assembler.Opcodes`, the two `__assemble_*` functions for values and the body of the loop in
-- `build` (res/compiler.py). A bit is the number 0 or 1.
use temp_esas.Prelude.{ℕ, zero, suc, ◌/◌, ◌%◌, ◌^◌, List, [], ◌∷◌, ◌++◌, ◌==◌, true, false}
use temp_esas.Evm2.Stream.Bits.{le_bits}
use temp_esas.Evm2.Types.{
  Op, mov, load_const, add, sub, div, modulo, mul, compare, jump, jump_eq, read, write,
  console_read, console_write, create_thread, join_thread, hlt, sleep, call, ret, lock, unlock,
  unknown,
}

-- The letters of an `Opcode`'s argument string: R, C and L.
pub data ArgType : Type 0 where
  register_type constant_type label_type : ArgType

-- The keys of `DataAccessTypes`; a plain register has no reference type.
pub data Access : Type 0 where
  direct byte word dword qword : Access

pub data AsmArg : Type 0 where
  register : ℕ → Access → AsmArg
  constant : ℕ → AsmArg
  label : ℕ → AsmArg

pub record AsmInstr : Type 0 where
  pub opcode : Op
  pub args : List AsmArg

-- The `code` of each entry of `Opcodes`.
abbrev pub op_code : Op → List ℕ
op_code mov = 0 ∷ 0 ∷ 0 ∷ []
op_code load_const = 0 ∷ 0 ∷ 1 ∷ []
op_code add = 0 ∷ 1 ∷ 0 ∷ 0 ∷ 0 ∷ 1 ∷ []
op_code sub = 0 ∷ 1 ∷ 0 ∷ 0 ∷ 1 ∷ 0 ∷ []
op_code div = 0 ∷ 1 ∷ 0 ∷ 0 ∷ 1 ∷ 1 ∷ []
op_code modulo = 0 ∷ 1 ∷ 0 ∷ 1 ∷ 0 ∷ 0 ∷ []
op_code mul = 0 ∷ 1 ∷ 0 ∷ 1 ∷ 0 ∷ 1 ∷ []
op_code compare = 0 ∷ 1 ∷ 1 ∷ 0 ∷ 0 ∷ []
op_code jump = 0 ∷ 1 ∷ 1 ∷ 0 ∷ 1 ∷ []
op_code jump_eq = 0 ∷ 1 ∷ 1 ∷ 1 ∷ 0 ∷ []
op_code read = 1 ∷ 0 ∷ 0 ∷ 0 ∷ 0 ∷ []
op_code write = 1 ∷ 0 ∷ 0 ∷ 0 ∷ 1 ∷ []
op_code console_read = 1 ∷ 0 ∷ 0 ∷ 1 ∷ 0 ∷ []
op_code console_write = 1 ∷ 0 ∷ 0 ∷ 1 ∷ 1 ∷ []
op_code create_thread = 1 ∷ 0 ∷ 1 ∷ 0 ∷ 0 ∷ []
op_code join_thread = 1 ∷ 0 ∷ 1 ∷ 0 ∷ 1 ∷ []
op_code hlt = 1 ∷ 0 ∷ 1 ∷ 1 ∷ 0 ∷ []
op_code sleep = 1 ∷ 0 ∷ 1 ∷ 1 ∷ 1 ∷ []
op_code call = 1 ∷ 1 ∷ 0 ∷ 0 ∷ []
op_code ret = 1 ∷ 1 ∷ 0 ∷ 1 ∷ []
op_code lock = 1 ∷ 1 ∷ 1 ∷ 0 ∷ []
op_code unlock = 1 ∷ 1 ∷ 1 ∷ 1 ∷ []
op_code unknown = []

-- The `args` of each entry of `Opcodes`.
abbrev pub arg_types : Op → List ArgType
arg_types mov = register_type ∷ register_type ∷ []
arg_types load_const = constant_type ∷ register_type ∷ []
arg_types add = register_type ∷ register_type ∷ register_type ∷ []
arg_types sub = register_type ∷ register_type ∷ register_type ∷ []
arg_types div = register_type ∷ register_type ∷ register_type ∷ []
arg_types modulo = register_type ∷ register_type ∷ register_type ∷ []
arg_types mul = register_type ∷ register_type ∷ register_type ∷ []
arg_types compare = register_type ∷ register_type ∷ register_type ∷ []
arg_types jump = label_type ∷ []
arg_types jump_eq = label_type ∷ register_type ∷ register_type ∷ []
arg_types read = register_type ∷ register_type ∷ register_type ∷ register_type ∷ []
arg_types write = register_type ∷ register_type ∷ register_type ∷ []
arg_types console_read = register_type ∷ []
arg_types console_write = register_type ∷ []
arg_types create_thread = label_type ∷ register_type ∷ []
arg_types join_thread = register_type ∷ []
arg_types hlt = []
arg_types sleep = register_type ∷ []
arg_types call = label_type ∷ []
arg_types ret = []
arg_types lock = register_type ∷ []
arg_types unlock = register_type ∷ []
arg_types unknown = []

-- The binary digits of a number, the lowest first; none for 0. The number itself is fuel enough.
abbrev pub digits_rev : ℕ → ℕ → List ℕ
digits_rev zero v = []
digits_rev (suc fuel) v = elim (v == 0) [ true ↦ [] | false ↦ v % 2 ∷ digits_rev fuel (v / 2) ]

-- `"{0:0wb}".format(v)[::-1]`: at least `w` digits, and more where the value needs them.
unfoldable pub format_rev : ℕ → ℕ → List ℕ
format_rev w v = le_bits w v ++ digits_rev (v / 2 ^ w) (v / 2 ^ w)

-- `DataAccessTypes[reference_type][::-1]`.
abbrev pub access_bits : Access → List ℕ
access_bits direct = []
access_bits byte = 0 ∷ 0 ∷ []
access_bits word = 1 ∷ 0 ∷ []
access_bits dword = 0 ∷ 1 ∷ []
access_bits qword = 1 ∷ 1 ∷ []

-- `__assemble_register`.
unfoldable pub assemble_register : ℕ → Access → List ℕ
assemble_register id direct = 0 ∷ format_rev 4 id
assemble_register id ref = 1 ∷ (access_bits ref ++ format_rev 4 id)

-- The arguments of one instruction, with the bit address that a label has in the end.
unfoldable pub assemble_args : (ℕ → ℕ) → List AsmArg → List ℕ
assemble_args address [] = []
assemble_args address (register id ref ∷ args) =
    assemble_register id ref ++ assemble_args address args
assemble_args address (constant v ∷ args) = format_rev 64 v ++ assemble_args address args
assemble_args address (label l ∷ args) = format_rev 32 (address l) ++ assemble_args address args

unfoldable pub assemble_instr : (ℕ → ℕ) → AsmInstr → List ℕ
assemble_instr address i = op_code i.opcode ++ assemble_args address i.args
