-- ===== src/Compile/Run/Words.antt =====
-- What the second loop of `Compile` (compile.h) emits for one instruction, piece by piece.
use temp_esas.Prelude.{
  ℕ, ◌≡◌, ◌∙◌, refl, ap, sym, arith, List, [], ◌∷◌, ◌++◌, Option, none, some, Bool, true, false,
  length,
}
use mathlib.Core.List.{append_assoc, append-nil}
use temp_esas.Arm64.Backend.{
  cond_eq, gen_nop, gen_prologue1, gen_prologue2, gen_epilogue, gen_ret, gen_b, gen_bl, gen_bcond,
  gen_cmp_x,
}
use temp_esas.Arm64.Isa.{subs_reg}
use temp_esas.Arm64.Encoding.Arith.{decode-gen_registers}
use temp_esas.Evm2.Types.{Op, Arg, Instruction}
use temp_esas.Frontend.Code
use temp_esas.Frontend.Code.{Jit, return, put}
use temp_esas.Frontend.Emit.{
  nop, func_prologue, func_epilogue, ret, offset_to, jump, call, branch_if_equal, compare_operands,
  load_operand,
}
use temp_esas.Frontend.Blocks.{Gives-then, Gives-return, Does-put}
use temp_esas.Frontend.Blocks.Operands.{load_operand-Does}
use temp_esas.Frontend.Blocks.Alu.{read_kind-lt}
use temp_esas.Machine.{State, step, run, set_x}
use temp_esas.Machine.Operand.{IsOperand, read_operand}
use temp_esas.Compile.Labels.{Label, goto_label, call_label, Labels, find_label}
use temp_esas.Compile.Instr.{Interface, Fixup, is_kind_addr, compile_op}
use temp_esas.Compile.Program.{prologue_for, emit_instruction}
use temp_esas.Compile.Straight.{is_called}

abbrev pub prologue_words : Bool → List ℕ
prologue_words false = []
prologue_words true = gen_prologue1 ∷ gen_prologue2 ∷ []

prologue_for-words :
    (l : Option Label) (code : List ℕ)
    → prologue_for l code ≡ some (tt, code ++ prologue_words (is_called l))
unfolding func_prologue
prologue_for-words none code = ap (λ (c : List ℕ). some (tt, c)) (sym (append-nil code))
prologue_for-words (some goto_label) code =
    ap (λ (c : List ℕ). some (tt, c)) (sym (append-nil code))
prologue_for-words (some call_label) code =
    ap (λ (c : List ℕ). some (tt, c)) (append_assoc code (gen_prologue1 ∷ []) (gen_prologue2 ∷ []))

-- The prologue, the words of the case and a `nop`.
pub emit_instruction-words :
    (iface : Interface) (labels : Labels) (i : Instruction) (code body : List ℕ) (f : Option Fixup)
    → compile_op iface i.opcode i.args
        (code ++ prologue_words (is_called (find_label i.bit_offset labels)))
      ≡ some (f, (code ++ prologue_words (is_called (find_label i.bit_offset labels))) ++ body)
    → emit_instruction iface labels i code
      ≡ some (
        f,
        code
            ++ (prologue_words (is_called (find_label i.bit_offset labels))
                ++ (body ++ gen_nop ∷ [])),
      )
unfolding emit_instruction nop
emit_instruction-words iface labels i code body f e =
    let l = find_label i.bit_offset labels in
    let pre = prologue_words (is_called l) in
    rw (prologue_for-words l code, Code.◌>>=◌)
      (rw (e, Code.◌>>=◌)
        (ap (λ (c : List ℕ). some (f, c))
          (append_assoc (code ++ pre) body (gen_nop ∷ [])
            ∙ append_assoc code pre (body ++ gen_nop ∷ []))))

module _ (iface : Interface) (code : List ℕ) where
  pub jump-words :
      (t : Arg)
      → is_kind_addr t ≡ true
      → compile_op iface Op.jump (t ∷ []) code
        ≡ some (some (length code, t.address), code ++ gen_b (offset_to 0 (length code)) ∷ [])
  unfolding compile_op jump
  jump-words t kind = rw kind refl

  pub call-words :
      (t : Arg)
      → is_kind_addr t ≡ true
      → compile_op iface Op.call (t ∷ []) code
        ≡ some (some (length code, t.address), code ++ gen_bl (offset_to 0 (length code)) ∷ [])
  unfolding compile_op call
  call-words t kind = rw kind refl

  pub ret-words :
      (args : List Arg)
      → compile_op iface Op.ret args code ≡ some (none, code ++ gen_epilogue ∷ gen_ret ∷ [])
  unfolding compile_op func_epilogue ret
  ret-words args =
      ap (λ (c : List ℕ). some (none, c)) (append_assoc code (gen_epilogue ∷ []) (gen_ret ∷ []))

-- What is compared.
compare_operands-run :
    (a b : Arg) (s : State) (code : List ℕ)
    → IsOperand a
    → IsOperand b
    → (s' : State) × (words : List ℕ) × (s'.guest ≡ s.guest)
      × (s'.compared ≡ (read_operand a s.guest, read_operand b s.guest))
      × (compare_operands a b code ≡ some (length code, code ++ words))
      × (run words s ≡ some s')
unfolding compare_operands step
compare_operands-run a b s code ha hb =
    let u = read_operand a s.guest in
    let v = read_operand b s.guest in
    let pos = length code in
    let (_, _, _, _, _, _, d, _) =
      decode-gen_registers 2 2 3 0 (omega arith) (omega arith) (omega arith) (omega arith) in
    let s₁ = set_x 2 u s in
    let s₂ = set_x 3 v s₁ in
    let s₃ : State = record s₂ { compared = (s₂.x 2, s₂.x 3) } in
    let in_two : s₂.x 2 ≡ u = omega (arith, read_kind-lt a.kind a s.guest) in
    let in_three : s₂.x 3 ≡ v = omega (arith, read_kind-lt b.kind b s.guest) in
    let (words, e, r) =
      Gives-then (load_operand a 2)
        (λ _. Code.◌>>=◌ (load_operand b 3) λ _. Code.◌>>=◌ (put (gen_cmp_x 2 3)) λ _. return pos)
        tt pos s s₁ s₃ (load_operand-Does 2 (omega arith) a s ha)
        (Gives-then (load_operand b 3) (λ _. Code.◌>>=◌ (put (gen_cmp_x 2 3)) λ _. return pos) tt
          pos s₁ s₂ s₃ (load_operand-Does 3 (omega arith) b s₁ hb)
          (Gives-then (put (gen_cmp_x 2 3)) (λ _. return pos) tt pos s₂ s₃ s₃
            (Does-put (gen_cmp_x 2 3) (subs_reg 31 2 3) s₂ s₃ d refl) (Gives-return pos s₃)))
        code in
    (s₃, words, refl, (λ i. (in_two i, in_three i)), e, r)

-- The comparison and the branch of `jumpEqual`.
pub jump_eq-words :
    (iface : Interface) (code : List ℕ) (t a b : Arg) (s : State)
    → is_kind_addr t ≡ true
    → IsOperand a
    → IsOperand b
    → (s' : State) × (words : List ℕ) × (s'.guest ≡ s.guest)
      × (s'.compared ≡ (read_operand a s.guest, read_operand b s.guest))
      × (run words s ≡ some s')
      × (compile_op iface Op.jump_eq (t ∷ a ∷ b ∷ []) code
          ≡ some (
            some (length (code ++ words), t.address),
            code ++ (words ++ gen_bcond cond_eq (offset_to 0 (length (code ++ words))) ∷ []),
          ))
unfolding compile_op branch_if_equal
jump_eq-words iface code t a b s kind ha hb =
    let (s', words, guest, compared, e, r) = compare_operands-run a b s code ha hb in
    let branch = gen_bcond cond_eq (offset_to 0 (length (code ++ words))) in
    (
      s',
      words,
      guest,
      compared,
      r,
      rw kind (
          rw (e, Code.◌>>=◌)
            (ap (λ (c : List ℕ). some (some (length (code ++ words), t.address), c))
              (append_assoc code words (branch ∷ [])))),
    )
