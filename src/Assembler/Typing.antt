-- ===== src/Assembler/Typing.antt =====
-- Instructions that the parser lets through, and what the disassembler is to make of them.
use temp_esas.Prelude.{ℕ, ◌^◌, ◌<◌, List, [], ◌∷◌}
use temp_esas.Evm2.Types.{Arg}
use temp_esas.Evm2.Disassembler.{reg_arg, mem_arg, const_arg, addr_arg}
use temp_esas.Assembler.Encode.{
  ArgType, register_type, constant_type, label_type, Access, direct, byte, word, dword, qword,
  AsmArg, register, constant, label,
}

abbrev pub access_size : Access → ℕ
access_size direct = 0
access_size byte = 1
access_size word = 2
access_size dword = 4
access_size qword = 8

-- The argument as the disassembler gives it.
abbrev pub lower_arg : (ℕ → ℕ) → AsmArg → Arg
lower_arg address (register id direct) = reg_arg id
lower_arg address (register id ref) = mem_arg (access_size ref) id
lower_arg address (constant v) = const_arg v
lower_arg address (label l) = addr_arg (address l)

-- The arguments match the types, and every number fits its field.
abbrev pub Fits : (ℕ → ℕ) → List ArgType → List AsmArg → Type 0
Fits address [] [] = Unit {0}
Fits address (register_type ∷ ts) (register id ref ∷ args) = (id < 16) × Fits address ts args
Fits address (constant_type ∷ ts) (constant v ∷ args) = (v < 2 ^ 64) × Fits address ts args
Fits address (label_type ∷ ts) (label l ∷ args) = (address l < 2 ^ 32) × Fits address ts args
Fits address _ _ = ⊥
