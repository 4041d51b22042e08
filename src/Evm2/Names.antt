-- ===== src/Evm2/Names.antt =====
-- `opToString` (evm2.h).
use Prim.Native.String.{String}
use temp_esas.Evm2.Types.{
  Op, mov, load_const, add, sub, div, modulo, mul, compare, jump, jump_eq, read, write,
  console_read, console_write, create_thread, join_thread, hlt, sleep, call, ret, lock, unlock,
  unknown,
}

unfoldable pub op_to_string : Op → String
op_to_string mov = "mov"
op_to_string load_const = "loadConst"
op_to_string add = "add"
op_to_string sub = "sub"
op_to_string div = "div"
op_to_string modulo = "mod"
op_to_string mul = "mul"
op_to_string compare = "compare"
op_to_string jump = "jump"
op_to_string jump_eq = "jumpEqual"
op_to_string read = "read"
op_to_string write = "write"
op_to_string console_read = "consoleRead"
op_to_string console_write = "consoleWrite"
op_to_string create_thread = "createThread"
op_to_string join_thread = "joinThread"
op_to_string hlt = "hlt"
op_to_string sleep = "sleep"
op_to_string call = "call"
op_to_string ret = "ret"
op_to_string lock = "lock"
op_to_string unlock = "unlock"
op_to_string unknown = "unknown"
