-- ===== src/Assembler/Operands.antt =====
-- Each operand that the assembler writes is read back as what it was.
use mathlib.Core.List.{append-nil}
use mathlib.Core.Path.{fun_ext}
use temp_esas.Prelude.{
  ℕ, ◌/◌, ◌^◌, ◌<◌, ◌≡◌, refl, subst, arith, Option, none, some, false, List, [], ◌∷◌, ◌++◌, map,
  if◌then◌else◌, ◌==◌,
}
use temp_esas.Bits.{and_low, ◌&&&◌}
use temp_esas.Evm2.Types.{
  Op, mov, load_const, add, sub, div, modulo, mul, compare, jump, jump_eq, read, write,
  console_read, console_write, create_thread, join_thread, hlt, sleep, call, ret, lock, unlock,
  unknown, Arg,
}
use temp_esas.Evm2.BitReader.{BitReader, M, ◌>>=◌, return, read_bit, read_bits_le}
use temp_esas.Evm2.Stream.Bits.{le_bits}
use temp_esas.Evm2.Stream.Reads.{
  Parses, Parses-bind, Parses-return, Parses-read_bit, read_bits_le-Parses,
}
use temp_esas.Evm2.Disassembler.{
  read_reg, read_mem, reg_arg, mem_arg, const_arg, addr_arg, size_of_ss, read_data_arg, read_addr,
  read_const, read_operands, is_unknown,
}
use temp_esas.Assembler.Encode.{
  ArgType, register_type, constant_type, label_type, Access, direct, byte, word, dword, qword,
  AsmArg, register, constant, label, arg_types, format_rev, assemble_register, assemble_args,
}
use temp_esas.Assembler.Typing.{lower_arg, Fits}

pub format_rev-fits : (w v : ℕ) → v < 2 ^ w → format_rev w v ≡ le_bits w v
unfolding format_rev
format_rev-fits w v h = rw (none_left) (append-nil _)
  where
    none_left : v / 2 ^ w ≡ 0
    none_left = grind arith

mask_index : (id : ℕ) → id < 16 → (id &&& 0xF) ≡ id
mask_index id h = omega (arith, and_low 4 id)

register_field :
    (make : ℕ → Arg) (id : ℕ)
    → id < 16
    → Parses (do idx ← read_bits_le 4; return (make (idx &&& 0xF))) (le_bits 4 id ++ []) (make id)
register_field make id h =
    Parses-bind (read_bits_le 4) (λ idx. return (make (idx &&& 0xF))) (le_bits 4 id) []
      (read_bits_le-Parses 4 id (omega arith) (omega arith))
      (rw (mask_index id h) (Parses-return (make id)))

-- The two bits of each access type give its size.
access_field :
    (ss n : ℕ) (id : ℕ)
    → ss < 4
    → size_of_ss ss ≡ n
    → id < 16
    → Parses read_data_arg (1 ∷ (le_bits 2 ss ++ (le_bits 4 id ++ []))) (mem_arg n id)
unfolding read_data_arg
access_field ss n id hs e h =
    Parses-bind read_bit _ (1 ∷ []) (le_bits 2 ss ++ (le_bits 4 id ++ [])) (Parses-read_bit 1) (
      Parses-bind (read_bits_le 2) _ (le_bits 2 ss) (le_bits 4 id ++ [])
        (read_bits_le-Parses 2 ss (omega arith) (omega arith))
        (rw e (register_field (mem_arg n) id h)))

plain_field :
    (id : ℕ)
    → id < 16
    → Parses (if 0 == 0 then read_reg else read_mem) (format_rev 4 id) (reg_arg id)
unfolding read_data_arg
plain_field id h = rw (format_rev-fits 4 id h) (register_field reg_arg id h)

assemble_register-Parses :
    (address : ℕ → ℕ) (id : ℕ) (ref : Access)
    → id < 16
    → Parses read_data_arg (assemble_register id ref) (lower_arg address (register id ref))
unfolding assemble_register read_data_arg
assemble_register-Parses address id direct h =
    Parses-bind read_bit _ (0 ∷ []) (format_rev 4 id) (Parses-read_bit 0) (plain_field id h)
assemble_register-Parses address id byte h =
    rw (format_rev-fits 4 id h) (access_field 0 1 id (omega arith) refl h)
assemble_register-Parses address id word h =
    rw (format_rev-fits 4 id h) (access_field 1 2 id (omega arith) refl h)
assemble_register-Parses address id dword h =
    rw (format_rev-fits 4 id h) (access_field 2 4 id (omega arith) refl h)
assemble_register-Parses address id qword h =
    rw (format_rev-fits 4 id h) (access_field 3 8 id (omega arith) refl h)

-- `m` reads the operand type `t`.
abbrev read_one : ArgType → M Arg
read_one register_type = read_data_arg
read_one constant_type = read_const
read_one label_type = read_addr

abbrev read_all : List ArgType → M (List Arg)
read_all [] = return []
read_all (t ∷ ts) = do a ← read_one t; rest ← read_all ts; return (a ∷ rest)

abbrev go_on : {X Y : Type 0} → Option (X × BitReader) → (X → M Y) → Option (Y × BitReader)
go_on o k = elim o [ none ↦ none | some (x, br) ↦ k x br ]

module _ {A B C : Type 0} (f : A → M B) (g : B → M C) where
  after : (o : Option (A × BitReader)) → go_on (go_on o f) g ≡ go_on o (λ a. f a >>= g)
  after none = refl
  after (some (a, br)) = refl

  bind_assoc : (m : M A) → ((m >>= f) >>= g) ≡ (m >>= λ a. f a >>= g)
  bind_assoc m = fun_ext (λ br. after (m br))

read_operands-read_all :
    (op : Op) → is_unknown op ≡ false → read_operands op ≡ read_all (arg_types op)
unfolding read_operands
read_operands-read_all mov h = simp bind_assoc
read_operands-read_all load_const h = simp bind_assoc
read_operands-read_all add h = simp bind_assoc
read_operands-read_all sub h = simp bind_assoc
read_operands-read_all div h = simp bind_assoc
read_operands-read_all modulo h = simp bind_assoc
read_operands-read_all mul h = simp bind_assoc
read_operands-read_all compare h = simp bind_assoc
read_operands-read_all jump_eq h = simp bind_assoc
read_operands-read_all read h = simp bind_assoc
read_operands-read_all write h = simp bind_assoc
read_operands-read_all create_thread h = simp bind_assoc
read_operands-read_all jump h = refl
read_operands-read_all console_read h = refl
read_operands-read_all console_write h = refl
read_operands-read_all join_thread h = refl
read_operands-read_all hlt h = refl
read_operands-read_all sleep h = refl
read_operands-read_all call h = refl
read_operands-read_all ret h = refl
read_operands-read_all lock h = refl
read_operands-read_all unlock h = refl
read_operands-read_all unknown h = cc

one_more :
    (m : M Arg) (ms : M (List Arg)) (xs ys : List ℕ) (a : Arg) (as' : List Arg)
    → Parses m xs a
    → Parses ms ys as'
    → Parses (do first ← m; rest ← ms; return (first ∷ rest)) (xs ++ ys) (a ∷ as')
one_more m ms xs ys a as' h k =
    Parses-bind m (λ first. ms >>= λ rest. return (first ∷ rest)) xs ys h
      (subst (λ (bits : List ℕ). Parses (ms >>= λ rest. return (a ∷ rest)) bits (a ∷ as'))
        (append-nil ys)
        (Parses-bind ms (λ rest. return (a ∷ rest)) ys [] k (Parses-return (a ∷ as'))))

read_const-Parses : (v : ℕ) → v < 2 ^ 64 → Parses read_const (format_rev 64 v) (const_arg v)
unfolding read_const
read_const-Parses v h = rw (format_rev-fits 64 v h) (
    Parses-bind (read_bits_le 64) _ (le_bits 64 v) [] (read_bits_le-Parses 64 v (omega arith) h)
      (Parses-return (const_arg v)))

read_addr-Parses : (v : ℕ) → v < 2 ^ 32 → Parses read_addr (format_rev 32 v) (addr_arg v)
unfolding read_addr
read_addr-Parses v h = rw (format_rev-fits 32 v h) (
    Parses-bind (read_bits_le 32) _ (le_bits 32 v) [] (read_bits_le-Parses 32 v (omega arith) h)
      (Parses-return (addr_arg v)))

read_all-Parses :
    (address : ℕ → ℕ) (ts : List ArgType) (args : List AsmArg)
    → Fits address ts args
    → Parses (read_all ts) (assemble_args address args) (map (lower_arg address) args)
unfolding assemble_args
read_all-Parses address [] [] h = Parses-return []
read_all-Parses address (register_type ∷ ts) (register id ref ∷ args) (hid, more) =
    one_more read_data_arg (read_all ts) (assemble_register id ref) (assemble_args address args)
      (lower_arg address (register id ref)) (map (lower_arg address) args)
      (assemble_register-Parses address id ref hid) (read_all-Parses address ts args more)
read_all-Parses address (constant_type ∷ ts) (constant v ∷ args) (hv, more) =
    one_more read_const (read_all ts) (format_rev 64 v) (assemble_args address args) (const_arg v)
      (map (lower_arg address) args) (read_const-Parses v hv) (read_all-Parses address ts args more)
read_all-Parses address (label_type ∷ ts) (label l ∷ args) (hl, more) =
    one_more read_addr (read_all ts) (format_rev 32 (address l)) (assemble_args address args)
      (addr_arg (address l)) (map (lower_arg address) args) (read_addr-Parses (address l) hl)
      (read_all-Parses address ts args more)
read_all-Parses address _ _ h = absurd h

-- The operands of every opcode are read back as the assembler was given them.
pub read_operands-assemble_args :
    (address : ℕ → ℕ) (op : Op) (args : List AsmArg)
    → is_unknown op ≡ false
    → Fits address (arg_types op) args
    → Parses (read_operands op) (assemble_args address args) (map (lower_arg address) args)
read_operands-assemble_args address op args known h =
    rw (read_operands-read_all op known) (read_all-Parses address (arg_types op) args h)
