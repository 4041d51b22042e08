-- ===== src/Compile/Execute.antt =====
-- The cases of the `switch` in `Compile` (compile.h) that compute: what an instruction is to do to the
-- guest, and that its words do it.
use temp_esas.Prelude.{
  ℕ, ◌^◌, ◌<◌, ◌≡◌, ◌∙◌, refl, ap, arith, List, [], ◌∷◌, Option, none, some, Bool, true, false,
  ◌++◌, length,
}
use temp_esas.Evm2.Types.{Op, Kind, Arg, default_arg}
use temp_esas.Frontend.Code.{Jit, ◌>>=◌, ◌>>◌, return}
use temp_esas.Frontend.Emit.{
  AluOp, alu, mov_operands, load_immediate, emit_load_imm64, store_operand,
}
use temp_esas.Machine.{run, State, set_x}
use temp_esas.Machine.Operand.{
  Guest, IsOperand, read_operand, write_operand, alu_value, sign, read_kind, write_kind,
}
use temp_esas.Frontend.Blocks.{Does, Gives, Gives-return, Gives-then}
use temp_esas.Frontend.Blocks.Operands.{store_operand-Does}
use temp_esas.Frontend.Blocks.Immediate.{emit_load_imm64-Does}
use temp_esas.Frontend.Blocks.Alu.{alu-Does, mov_operands-Does, signum-Does}
use temp_esas.Compile.Instr.{
  Interface, Fixup, is_kind_const, is_kind_reg, load_const_case, compare_case, alu_case, compile_op,
}

abbrev is_reg : Kind → Bool
is_reg k = elim k [ Kind.reg ↦ true | _ ↦ false ]

-- The value of an instruction with three operands.
abbrev pub result : AluOp → Arg → Arg → Arg → Guest → Guest
result op a b c g = write_operand c (alu_value op (read_operand a g) (read_operand b g)) g

-- An interpreter of the instructions that compute.
abbrev pub execute : Op → List Arg → Guest → Guest
execute Op.mov (a ∷ b ∷ []) g = write_operand b (read_operand a g) g
execute Op.load_const (c ∷ d ∷ []) g = write_operand d c.const_value g
execute Op.add (a ∷ b ∷ c ∷ []) g = result AluOp.add a b c g
execute Op.sub (a ∷ b ∷ c ∷ []) g = result AluOp.sub a b c g
execute Op.mul (a ∷ b ∷ c ∷ []) g = result AluOp.mul a b c g
execute Op.div (a ∷ b ∷ c ∷ []) g = result AluOp.div a b c g
execute Op.modulo (a ∷ b ∷ c ∷ []) g = result AluOp.modulo a b c g
execute Op.compare (a ∷ b ∷ c ∷ []) g =
    write_operand c (sign (alu_value AluOp.sub (read_operand a g) (read_operand b g))) g
execute _ _ g = g

-- The instructions that compute, with arguments as the disassembler gives them; the result of a
-- comparison goes to a register.
pub data Computes : Op → List Arg → Type 0 where
  mov_computes : (a b : Arg) → IsOperand a → IsOperand b → Computes Op.mov (a ∷ b ∷ [])
  load_const_computes :
      (c d : Arg)
      → is_kind_const c ≡ true
      → c.const_value < 2 ^ 64
      → is_kind_reg d ≡ true
      → IsOperand d
      → Computes Op.load_const (c ∷ d ∷ [])
  add_computes :
      (a b c : Arg) → IsOperand a → IsOperand b → IsOperand c → Computes Op.add (a ∷ b ∷ c ∷ [])
  sub_computes :
      (a b c : Arg) → IsOperand a → IsOperand b → IsOperand c → Computes Op.sub (a ∷ b ∷ c ∷ [])
  mul_computes :
      (a b c : Arg) → IsOperand a → IsOperand b → IsOperand c → Computes Op.mul (a ∷ b ∷ c ∷ [])
  div_computes :
      (a b c : Arg) → IsOperand a → IsOperand b → IsOperand c → Computes Op.div (a ∷ b ∷ c ∷ [])
  modulo_computes :
      (a b c : Arg) → IsOperand a → IsOperand b → IsOperand c → Computes Op.modulo (a ∷ b ∷ c ∷ [])
  compare_computes :
      (a b c : Arg)
      → IsOperand a
      → IsOperand b
      → IsOperand c
      → is_kind_reg c ≡ true
      → Computes Op.compare (a ∷ b ∷ c ∷ [])

-- The words of `m` take a guest as it is in `s` to `g`, and there is nothing to patch.
abbrev Turns : Jit (Option Fixup) → State → Guest → Type 0
Turns m s g = (s' : State) × (s'.guest ≡ g) × Gives m none s s'

no_fixup-Turns :
    (m : Jit (Unit {0})) (s : State) (g : Guest)
    → (s' : State) × (s'.guest ≡ g) × Does m s s'
    → Turns (m >> return none) s g
no_fixup-Turns m s g (s', e, d) =
    (s', e, Gives-then m (λ _. return none) tt none s s' s' d (Gives-return none s'))

-- `loadImmediate` gives back where its words begin.
load_immediate-Does :
    (d : Arg) (v : ℕ) (s s' : State)
    → v < 2 ^ 64
    → Does (store_operand d 2) (set_x 2 v s) s'
    → (code : List ℕ)
    → (words : List ℕ) × (load_immediate d v code ≡ some (length code, code ++ words))
      × (run words s ≡ some s')
unfolding load_immediate
load_immediate-Does d v s s' hv stored code =
    let pos = length code in
    Gives-then (emit_load_imm64 2 v) (λ _. store_operand d 2 >> return pos) tt pos s (set_x 2 v s)
      s' (emit_load_imm64-Does 2 v (omega arith) hv s)
      (Gives-then (store_operand d 2) (λ _. return pos) tt pos (set_x 2 v s) s' s' stored
        (Gives-return pos s'))
      code

load_const-Turns :
    (c d : Arg) (s : State)
    → is_kind_const c ≡ true
    → c.const_value < 2 ^ 64
    → is_kind_reg d ≡ true
    → IsOperand d
    → Turns (load_const_case (c ∷ d ∷ [])) s (write_operand d c.const_value s.guest)
load_const-Turns c d s hc hv hd od =
    let s₁ = set_x 2 c.const_value s in
    let (s', e, stored) = store_operand-Does 2 (omega arith) (omega arith) d s₁ od in
    (
      s',
      e ∙ ap (λ (v : ℕ). write_operand d v s.guest) (omega arith),
      λ code.
          let (words, emitted, r) = load_immediate-Does d c.const_value s s' hv stored code in
          (words, rw (hc, hd) (rw (emitted, ◌>>=◌) refl), r),
    )

write_kind-twice :
    (k : Kind) (a : Arg) (u v : ℕ) (g : Guest)
    → is_reg k ≡ true
    → write_kind k a v (write_kind k a u g) ≡ write_kind k a v g
write_kind-twice Kind.reg a u v g h = λ i. record g { slots = λ m. same m i }
  where
    same :
        (m : ℕ)
        → (write_kind Kind.reg a v (write_kind Kind.reg a u g)).slots m
          ≡ (write_kind Kind.reg a v g).slots m
    same m = ground arith
write_kind-twice Kind.mem a u v g h = cc
write_kind-twice Kind.addr a u v g h = cc
write_kind-twice Kind.const a u v g h = cc
write_kind-twice Kind.absent a u v g h = cc

read_kind-write_kind :
    (k : Kind) (a : Arg) (u : ℕ) (g : Guest)
    → is_reg k ≡ true
    → u < 2 ^ 64
    → read_kind k a (write_kind k a u g) ≡ u
read_kind-write_kind Kind.reg a u g h hu = ground arith
read_kind-write_kind Kind.mem a u g h hu = cc
read_kind-write_kind Kind.addr a u g h hu = cc
read_kind-write_kind Kind.const a u g h hu = cc
read_kind-write_kind Kind.absent a u g h hu = cc

compare-Turns :
    (a b c : Arg) (s : State)
    → IsOperand a
    → IsOperand b
    → IsOperand c
    → is_kind_reg c ≡ true
    → Turns (compare_case (a ∷ b ∷ c ∷ [])) s (execute Op.compare (a ∷ b ∷ c ∷ []) s.guest)
compare-Turns a b c s ha hb hc reg_c =
    let u = alu_value AluOp.sub (read_operand a s.guest) (read_operand b s.guest) in
    let (s₁, e₁, d₁) = alu-Does AluOp.sub c a b s hc ha hb in
    let (s₂, e₂, d₂) = signum-Does c c s₁ hc hc in
    let back : read_operand c s₁.guest ≡ u =
      ap (λ (g : Guest). read_operand c g) e₁
      ∙ read_kind-write_kind c.kind c u s.guest reg_c (omega arith) in
    (
      s₂,
      e₂
          ∙ ap (λ (v : ℕ). write_operand c (sign v) s₁.guest) back
          ∙ ap (λ (g : Guest). write_operand c (sign u) g) e₁
          ∙ write_kind-twice c.kind c u (sign u) s.guest reg_c,
      Gives-then (alu AluOp.sub c a b) (λ _. alu AluOp.signum c c default_arg >> return none) tt
          none s s₁ s₂ d₁
          (Gives-then (alu AluOp.signum c c default_arg) (λ _. return none) tt none s₁ s₂ s₂ d₂
            (Gives-return none s₂)),
    )

alu-Turns :
    (op : AluOp) (a b c : Arg) (s : State)
    → IsOperand a × IsOperand b × IsOperand c
    → Turns (alu_case op (a ∷ b ∷ c ∷ [])) s (result op a b c s.guest)
alu-Turns op a b c s (ha, hb, hc) =
    no_fixup-Turns (alu op c a b) s (result op a b c s.guest) (alu-Does op c a b s hc ha hb)

-- For `mov`, `add`, `sub`, `mul`, `div` and `mod` on register and memory operands, `loadConst` of
-- a 64-bit pattern into a register and `compare` into a register, the `switch` of `Compile`
-- succeeds on whatever code is there, leaves nothing to patch, and the words that it emits, run
-- on any machine, turn the guest registers and memory into what the interpreter makes of them.
pub compile_op-execute :
    (iface : Interface) (op : Op) (args : List Arg) (s : State)
    → Computes op args
    → (s' : State) × (s'.guest ≡ execute op args s.guest)
      × Gives (compile_op iface op args) none s s'
unfolding compile_op
compile_op-execute iface _ _ s (mov_computes a b ha hb) =
    no_fixup-Turns (mov_operands b a) s _ (mov_operands-Does b a s hb ha)
compile_op-execute iface _ _ s (load_const_computes c d hc hv hd od) =
    load_const-Turns c d s hc hv hd od
compile_op-execute iface _ _ s (add_computes a b c ha hb hc) =
    alu-Turns AluOp.add a b c s (ha, hb, hc)
compile_op-execute iface _ _ s (sub_computes a b c ha hb hc) =
    alu-Turns AluOp.sub a b c s (ha, hb, hc)
compile_op-execute iface _ _ s (mul_computes a b c ha hb hc) =
    alu-Turns AluOp.mul a b c s (ha, hb, hc)
compile_op-execute iface _ _ s (div_computes a b c ha hb hc) =
    alu-Turns AluOp.div a b c s (ha, hb, hc)
compile_op-execute iface _ _ s (modulo_computes a b c ha hb hc) =
    alu-Turns AluOp.modulo a b c s (ha, hb, hc)
compile_op-execute iface _ _ s (compare_computes a b c ha hb hc hr) =
    compare-Turns a b c s ha hb hc hr
