-- ===== src/Machine/Operand.antt =====
-- The guest: sixteen registers and a memory, as the front end's operands see them (evm2.h's `Arg`),
-- and the values that the operations of `AluOp` are to have.
use temp_esas.Prelude.{
  ℕ, zero, suc, ◌+◌, ◌-◌, ◌*◌, ◌/◌, ◌%◌, ◌^◌, ◌<◌, ◌≡◌, ◌==◌, ltb, if◌then◌else◌,
}
use temp_esas.Evm2.Types.{Kind, Arg}
use temp_esas.Frontend.Emit.{AluOp}

pub record Guest : Type 0 where
  pub slots : ℕ → ℕ
  pub memory : ℕ → ℕ

abbrev pub set_slot : ℕ → ℕ → Guest → Guest
set_slot n v g = record g { slots = λ m. if m == n then v else g.slots m }

abbrev pub set_memory : (ℕ → ℕ) → Guest → Guest
set_memory memory g = record g { memory = memory }

-- `size` bytes from `a` up, the lowest first.
unfoldable pub load_bytes : ℕ → ℕ → (ℕ → ℕ) → ℕ
load_bytes zero a memory = 0
load_bytes (suc size) a memory = memory a % 256 + 256 * load_bytes size (a + 1) memory

unfoldable pub store_bytes : ℕ → ℕ → ℕ → (ℕ → ℕ) → ℕ → ℕ
store_bytes zero a v memory at = memory at
store_bytes (suc size) a v memory at =
    if at == a then v % 256 else store_bytes size (a + 1) (v / 256) memory at

-- Order on 64-bit patterns as signed numbers.
abbrev pub signed : ℕ → ℕ
signed a = (a + 2 ^ 63) % 2 ^ 64

abbrev pub magnitude : ℕ → ℕ
magnitude a = if ltb a (2 ^ 63) then a else 2 ^ 64 - a

-- Signed division towards zero; a division by zero gives zero.
abbrev pub quotient : ℕ → ℕ → ℕ
quotient a b =
    if b == 0
    then 0
    else if (if ltb a (2 ^ 63) then ltb b (2 ^ 63) else ltb (2 ^ 63 - 1) b)
    then magnitude a / magnitude b
    else 2 ^ 64 - magnitude a / magnitude b

-- A guest register as a 64-bit number, and as an address of the guest's memory.
abbrev pub slot : ℕ → Guest → ℕ
slot n g = g.slots n % 2 ^ 64

abbrev pub read_kind : Kind → Arg → Guest → ℕ
read_kind Kind.reg a g = slot a.register g
read_kind Kind.mem a g = load_bytes a.size_bytes (slot a.register g % 2 ^ 32) g.memory % 2 ^ 64
read_kind _ a g = 0

-- The value of an operand.
abbrev pub read_operand : Arg → Guest → ℕ
read_operand a g = read_kind a.kind a g

abbrev pub write_kind : Kind → Arg → ℕ → Guest → Guest
write_kind Kind.reg a v g = set_slot a.register v g
write_kind Kind.mem a v g =
    set_memory (store_bytes a.size_bytes (slot a.register g % 2 ^ 32) v g.memory) g
write_kind _ a v g = g

abbrev pub write_operand : Arg → ℕ → Guest → Guest
write_operand a v g = write_kind a.kind a v g

-- A register, or 1, 2, 4 or 8 bytes of memory.
abbrev pub FitsKind : Kind → Arg → Type 0
FitsKind Kind.reg a = a.register < 16
FitsKind Kind.mem a = (a.register < 16) × ((mo : ℕ) × (mo < 4) × (a.size_bytes ≡ 2 ^ mo))
FitsKind _ a = ⊥

abbrev pub IsOperand : Arg → Type 0
IsOperand a = FitsKind a.kind a

-- The sign of a 64-bit pattern: 1, 0 or -1.
abbrev pub sign : ℕ → ℕ
sign a = if a == 0 then 0 else if ltb a (2 ^ 63) then 1 else 2 ^ 64 - 1

-- What an operation is to give: signed division, unsigned remainder, and the rest modulo 2^64.
abbrev pub alu_value : AluOp → ℕ → ℕ → ℕ
alu_value AluOp.add a b = (a + b) % 2 ^ 64
alu_value AluOp.sub a b = (a + 2 ^ 64 - b) % 2 ^ 64
alu_value AluOp.mul a b = a * b % 2 ^ 64
alu_value AluOp.div a b = quotient a b % 2 ^ 64
alu_value AluOp.modulo a b = if b == 0 then a else a % b
alu_value AluOp.signum a b = sign a
