-- ===== src/Compile/Typed.antt =====
-- The arguments that `disassembleCode` (evm2.h) gives to each opcode.
use temp_esas.Prelude.{
  ℕ, ◌≡◌, refl, subst, arith, List, [], ◌∷◌, none, some, Option-cases, Bool-cases, inl, inr,
}
use temp_esas.Evm2.Types.{Op, Kind, Arg, Instruction}
use temp_esas.Evm2.BitReader.{BitReader, M, ◌>>=◌, read_bits_le}
use temp_esas.Evm2.Opcode.{read_opcode}
use temp_esas.Evm2.Disassembler.{
  read_data_arg, read_addr, read_const, one_arg, three_args, read_operands, is_unknown,
  finish_instruction, read_instruction, addr_arg, const_arg,
}
use temp_esas.Machine.Operand.{IsOperand}
use temp_esas.Compile.Accepted.{Ensures, Ensures-return, read_data_arg-IsOperand}

pub data Typed : Op → List Arg → Type 0 where
  mov_typed : (a b : Arg) → IsOperand a → IsOperand b → Typed Op.mov (a ∷ b ∷ [])
  load_const_typed :
      (c d : Arg) → c.kind ≡ Kind.const → IsOperand d → Typed Op.load_const (c ∷ d ∷ [])
  jump_typed : (t : Arg) → t.kind ≡ Kind.addr → Typed Op.jump (t ∷ [])
  jump_eq_typed :
      (t a b : Arg)
      → t.kind ≡ Kind.addr
      → IsOperand a
      → IsOperand b
      → Typed Op.jump_eq (t ∷ a ∷ b ∷ [])
  call_typed : (t : Arg) → t.kind ≡ Kind.addr → Typed Op.call (t ∷ [])
  create_thread_typed :
      (t a : Arg) → t.kind ≡ Kind.addr → IsOperand a → Typed Op.create_thread (t ∷ a ∷ [])
  read_typed :
      (a b c d : Arg)
      → IsOperand a
      → IsOperand b
      → IsOperand c
      → IsOperand d
      → Typed Op.read (a ∷ b ∷ c ∷ d ∷ [])
  hlt_typed : Typed Op.hlt []
  ret_typed : Typed Op.ret []
  add_typed :
      (a b c : Arg) → IsOperand a → IsOperand b → IsOperand c → Typed Op.add (a ∷ b ∷ c ∷ [])
  sub_typed :
      (a b c : Arg) → IsOperand a → IsOperand b → IsOperand c → Typed Op.sub (a ∷ b ∷ c ∷ [])
  mul_typed :
      (a b c : Arg) → IsOperand a → IsOperand b → IsOperand c → Typed Op.mul (a ∷ b ∷ c ∷ [])
  div_typed :
      (a b c : Arg) → IsOperand a → IsOperand b → IsOperand c → Typed Op.div (a ∷ b ∷ c ∷ [])
  modulo_typed :
      (a b c : Arg) → IsOperand a → IsOperand b → IsOperand c → Typed Op.modulo (a ∷ b ∷ c ∷ [])
  compare_typed :
      (a b c : Arg) → IsOperand a → IsOperand b → IsOperand c → Typed Op.compare (a ∷ b ∷ c ∷ [])
  write_typed :
      (a b c : Arg) → IsOperand a → IsOperand b → IsOperand c → Typed Op.write (a ∷ b ∷ c ∷ [])
  console_read_typed : (a : Arg) → IsOperand a → Typed Op.console_read (a ∷ [])
  console_write_typed : (a : Arg) → IsOperand a → Typed Op.console_write (a ∷ [])
  join_thread_typed : (a : Arg) → IsOperand a → Typed Op.join_thread (a ∷ [])
  sleep_typed : (a : Arg) → IsOperand a → Typed Op.sleep (a ∷ [])
  lock_typed : (a : Arg) → IsOperand a → Typed Op.lock (a ∷ [])
  unlock_typed : (a : Arg) → IsOperand a → Typed Op.unlock (a ∷ [])

bind-operand :
    {B : Type 0} (P : B → Type 0) (f : Arg → M B)
    → ((a : Arg) → IsOperand a → Ensures P (f a))
    → Ensures P (read_data_arg >>= f)
bind-operand P f h br br' b e = elim (Option-cases (read_data_arg br)) [
  | inl stop ↦ absurd (ground (arith, stop))
  | inr ((a, br₁), got) ↦
      h a (read_data_arg-IsOperand br br₁ a got) br₁ br' b (rw (got, ◌>>=◌) at e)
]

bind-addr :
    {B : Type 0} (P : B → Type 0) (f : Arg → M B)
    → ((t : Arg) → t.kind ≡ Kind.addr → Ensures P (f t))
    → Ensures P (read_addr >>= f)
unfolding read_addr
bind-addr P f h br br' b e = elim (Option-cases (read_bits_le 32 br)) [
  | inl stop ↦ absurd (ground (arith, stop))
  | inr ((a, br₁), got) ↦ h (addr_arg a) refl br₁ br' b (rw (got, ◌>>=◌) at e)
]

bind-const :
    {B : Type 0} (P : B → Type 0) (f : Arg → M B)
    → ((c : Arg) → c.kind ≡ Kind.const → Ensures P (f c))
    → Ensures P (read_const >>= f)
unfolding read_const
bind-const P f h br br' b e = elim (Option-cases (read_bits_le 64 br)) [
  | inl stop ↦ absurd (ground (arith, stop))
  | inr ((a, br₁), got) ↦ h (const_arg a) refl br₁ br' b (rw (got, ◌>>=◌) at e)
]

module _ (op : Op) where
  one-Typed :
      ((a : Arg) → IsOperand a → Typed op (a ∷ [])) → Ensures (λ args. Typed op args) one_arg
  one-Typed typed =
      bind-operand (λ args. Typed op args) _
        λ a ha. Ensures-return (λ args. Typed op args) (a ∷ []) (typed a ha)

  three-Typed :
      ((a b c : Arg) → IsOperand a → IsOperand b → IsOperand c → Typed op (a ∷ b ∷ c ∷ []))
      → Ensures (λ args. Typed op args) three_args
  three-Typed typed =
      bind-operand (λ args. Typed op args) _
        λ a ha.
          bind-operand (λ args. Typed op args) _
            λ b hb.
              bind-operand (λ args. Typed op args) _
                λ c hc.
                  Ensures-return (λ args. Typed op args) (a ∷ b ∷ c ∷ []) (typed a b c ha hb hc)

nothing_read : {A : Type 0} {x : A} → none ≡ some x → ⊥
nothing_read e = ground arith

read_operands-Typed : (op : Op) → Ensures (λ args. Typed op args) (read_operands op)
unfolding read_operands
read_operands-Typed Op.mov =
    bind-operand (λ args. Typed Op.mov args) _
      λ a ha.
        bind-operand (λ args. Typed Op.mov args) _
          λ b hb. Ensures-return (λ args. Typed Op.mov args) (a ∷ b ∷ []) (mov_typed a b ha hb)
read_operands-Typed Op.load_const =
    bind-const (λ args. Typed Op.load_const args) _
      λ c hc.
        bind-operand (λ args. Typed Op.load_const args) _
          λ d hd.
            Ensures-return (λ args. Typed Op.load_const args) (c ∷ d ∷ [])
              (load_const_typed c d hc hd)
read_operands-Typed Op.jump =
    bind-addr (λ args. Typed Op.jump args) _
      λ t ht. Ensures-return (λ args. Typed Op.jump args) (t ∷ []) (jump_typed t ht)
read_operands-Typed Op.call =
    bind-addr (λ args. Typed Op.call args) _
      λ t ht. Ensures-return (λ args. Typed Op.call args) (t ∷ []) (call_typed t ht)
read_operands-Typed Op.jump_eq =
    bind-addr (λ args. Typed Op.jump_eq args) _
      λ t ht.
        bind-operand (λ args. Typed Op.jump_eq args) _
          λ a ha.
            bind-operand (λ args. Typed Op.jump_eq args) _
              λ b hb.
                Ensures-return (λ args. Typed Op.jump_eq args) (t ∷ a ∷ b ∷ [])
                  (jump_eq_typed t a b ht ha hb)
read_operands-Typed Op.create_thread =
    bind-addr (λ args. Typed Op.create_thread args) _
      λ t ht.
        bind-operand (λ args. Typed Op.create_thread args) _
          λ a ha.
            Ensures-return (λ args. Typed Op.create_thread args) (t ∷ a ∷ [])
              (create_thread_typed t a ht ha)
read_operands-Typed Op.read =
    bind-operand (λ args. Typed Op.read args) _
      λ a ha.
        bind-operand (λ args. Typed Op.read args) _
          λ b hb.
            bind-operand (λ args. Typed Op.read args) _
              λ c hc.
                bind-operand (λ args. Typed Op.read args) _
                  λ d hd.
                    Ensures-return (λ args. Typed Op.read args) (a ∷ b ∷ c ∷ d ∷ [])
                      (read_typed a b c d ha hb hc hd)
read_operands-Typed Op.hlt = Ensures-return (λ args. Typed Op.hlt args) [] hlt_typed
read_operands-Typed Op.ret = Ensures-return (λ args. Typed Op.ret args) [] ret_typed
read_operands-Typed Op.unknown = λ br br' args e. absurd (nothing_read e)
read_operands-Typed Op.add = three-Typed Op.add add_typed
read_operands-Typed Op.sub = three-Typed Op.sub sub_typed
read_operands-Typed Op.mul = three-Typed Op.mul mul_typed
read_operands-Typed Op.div = three-Typed Op.div div_typed
read_operands-Typed Op.modulo = three-Typed Op.modulo modulo_typed
read_operands-Typed Op.compare = three-Typed Op.compare compare_typed
read_operands-Typed Op.write = three-Typed Op.write write_typed
read_operands-Typed Op.console_read = one-Typed Op.console_read console_read_typed
read_operands-Typed Op.console_write = one-Typed Op.console_write console_write_typed
read_operands-Typed Op.join_thread = one-Typed Op.join_thread join_thread_typed
read_operands-Typed Op.sleep = one-Typed Op.sleep sleep_typed
read_operands-Typed Op.lock = one-Typed Op.lock lock_typed
read_operands-Typed Op.unlock = one-Typed Op.unlock unlock_typed

finish_instruction-Typed :
    (start consumed : ℕ) (op : Op) (br br' : BitReader) (i : Instruction)
    → finish_instruction start ((op, consumed), br) ≡ some (i, br')
    → Typed i.opcode i.args
unfolding finish_instruction
finish_instruction-Typed start consumed op br br' i e = elim (Bool-cases (is_unknown op)) [
  | inl stop ↦ absurd (ground (arith, e, stop))
  | inr known ↦ elim (Option-cases (read_operands op br)) [
    | inl stop ↦ absurd (ground (arith, e, known, stop))
    | inr ((args, br₁), got) ↦
        let same : op ≡ i.opcode = ground (arith, e, known, got) in
        let given : args ≡ i.args = ground (arith, e, known, got) in
        subst (λ (o : Op). Typed o i.args) same
          (subst (λ (l : List Arg). Typed op l) given (read_operands-Typed op br br₁ args got))
  ]
]

-- What the disassembler reads has the arguments of its opcode.
pub read_instruction-Typed :
    (br br' : BitReader) (i : Instruction)
    → read_instruction br ≡ some (i, br')
    → Typed i.opcode i.args
unfolding read_instruction
read_instruction-Typed br br' i e =
    let ((op, consumed), br₁) = read_opcode br in
    finish_instruction-Typed br.pos consumed op br₁ br' i e
