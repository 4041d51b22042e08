-- ===== src/Frontend/Blocks/Alu.antt =====
-- `mov` and `alu` (jit_arm64_fe.h) as blocks, from the operands to the store.
use temp_esas.Prelude.{ℕ, ◌%◌, ◌^◌, ◌<◌, ◌≡◌, ◌∙◌, ap, arith}
use temp_esas.Evm2.Types.{Kind, Arg, default_arg}
use temp_esas.Frontend.Code.{◌>>◌, done}
use temp_esas.Frontend.Emit.{AluOp, alu_words, alu, mov_operands, load_operand, store_operand}
use temp_esas.Machine.{State, set_x}
use temp_esas.Machine.Operand.{
  IsOperand, read_kind, read_operand, write_operand, alu_value, sign, Guest,
}
use temp_esas.Frontend.Blocks.{Does, Does-done, Does-then}
use temp_esas.Frontend.Blocks.Results.{words-Result}
use temp_esas.Frontend.Blocks.Operands.{load_operand-Does, store_operand-Does}

-- The value of an operand has 64 bits.
pub read_kind-lt : (k : Kind) (a : Arg) (g : Guest) → read_kind k a g < 2 ^ 64
read_kind-lt Kind.reg a g = omega arith
read_kind-lt Kind.mem a g = omega arith
read_kind-lt Kind.absent a g = omega arith
read_kind-lt Kind.const a g = omega arith
read_kind-lt Kind.addr a g = omega arith

module _ (a : Arg) (g : Guest) where
  read_operand-lt : read_operand a g < 2 ^ 64
  read_operand-lt = read_kind-lt a.kind a g

  read_operand-mod : read_operand a g % 2 ^ 64 ≡ read_operand a g
  read_operand-mod = omega (arith, read_operand-lt)

-- For register and memory operands, `mov` copies the value of its second operand to the first.
pub mov_operands-Does :
    (dest src : Arg) (s : State)
    → IsOperand dest
    → IsOperand src
    → (s' : State) × (s'.guest ≡ write_operand dest (read_operand src s.guest) s.guest)
      × Does (mov_operands dest src) s s'
unfolding mov_operands
mov_operands-Does dest src s hd hs =
    let s₁ = set_x 2 (read_operand src s.guest) s in
    let (s', e, d) = store_operand-Does 2 (omega arith) (omega arith) dest s₁ hd in
    (
      s',
      e ∙ ap (λ (v : ℕ). write_operand dest v s.guest) (read_operand-mod src s.guest),
      Does-then (load_operand src 2) (store_operand dest 2) s s₁ s'
          (load_operand-Does 2 (omega arith) src s hs) d,
    )

-- The operation and the store, from the operands on.
words_store :
    (op : AluOp) (dest : Arg) (s : State)
    → s.x 2 < 2 ^ 64
    → IsOperand dest
    → (s' : State) × (s'.guest ≡ write_operand dest (alu_value op (s.x 2) (s.x 3)) s.guest)
      × Does (do alu_words op; store_operand dest 2) s s'
words_store op dest s h₂ hd =
    let (s₁, g, v, d) = words-Result s h₂ op in
    let (s', e, d') = store_operand-Does 2 (omega arith) (omega arith) dest s₁ hd in
    (
      s',
      e
          ∙ ap (λ (w : ℕ). write_operand dest w s₁.guest) v
          ∙ ap (λ (h : Guest). write_operand dest (alu_value op (s.x 2) (s.x 3)) h) g,
      Does-then (alu_words op) (store_operand dest 2) s s₁ s' d d',
    )

-- For register and memory operands, `alu` puts the value of its operation into `dest`.
pub alu-Does :
    (op : AluOp) (dest src1 src2 : Arg) (s : State)
    → IsOperand dest
    → IsOperand src1
    → IsOperand src2
    → (s' : State) × (s'.guest
        ≡ write_operand dest
            (alu_value op (read_operand src1 s.guest) (read_operand src2 s.guest))
            s.guest)
      × Does (alu op dest src1 src2) s s'
unfolding alu
alu-Does op dest src1 src2 s hd h1 h2 =
    let s₁ = set_x 2 (read_operand src1 s.guest) s in
    let s₂ = set_x 3 (read_operand src2 s.guest) s₁ in
    let (s', e, d) = words_store op dest s₂ (omega arith) hd in
    (
      s',
      e
          ∙ ap (λ (v : ℕ). write_operand dest (alu_value op v (s₂.x 3)) s.guest)
              (read_operand-mod src1 s.guest)
          ∙ ap (λ (v : ℕ). write_operand dest (alu_value op (read_operand src1 s.guest) v) s.guest)
              (read_operand-mod src2 s.guest),
      Does-then (load_operand src1 2) _ s s₁ s' (load_operand-Does 2 (omega arith) src1 s h1) (
          Does-then (load_operand src2 3) _ s₁ s₂ s' (load_operand-Does 3 (omega arith) src2 s₁ h2)
            d),
    )

-- For a register or memory operand, the sign of `src` goes to `dest`; there is no second operand.
pub signum-Does :
    (dest src : Arg) (s : State)
    → IsOperand dest
    → IsOperand src
    → (s' : State) × (s'.guest ≡ write_operand dest (sign (read_operand src s.guest)) s.guest)
      × Does (alu AluOp.signum dest src default_arg) s s'
unfolding alu load_operand
signum-Does dest src s hd hs =
    let s₁ = set_x 2 (read_operand src s.guest) s in
    let (s', e, d) = words_store AluOp.signum dest s₁ (omega arith) hd in
    (
      s',
      e ∙ ap (λ (v : ℕ). write_operand dest (sign v) s.guest) (read_operand-mod src s.guest),
      Does-then (load_operand src 2) _ s s₁ s' (load_operand-Does 2 (omega arith) src s hs)
          (Does-then done _ s₁ s₁ s' (Does-done s₁) d),
    )
