-- ===== src/Compile/Straight.antt =====
-- The second loop of `Compile` (compile.h) on code that only computes: no branches, and no address
-- of it is called.
use temp_esas.Prelude.{
  ℕ, ◌≡◌, ◌∙◌, refl, ap, sym, arith, List, [], ◌∷◌, ◌++◌, Option, none, some, ◌>>=◌, Bool, true,
  false, length,
}
use mathlib.Core.List.{append_assoc, append-nil}
use temp_esas.Arm64.Backend.{cond_eq, gen_nop}
use temp_esas.Arm64.Isa
use temp_esas.Arm64.Encoding.Branch.{decode-gen_branches}
use temp_esas.Evm2.Types.{Instruction}
use temp_esas.Frontend.Emit.{nop}
use temp_esas.Machine.{State, run, run-append, step}
use temp_esas.Machine.Operand.{Guest}
use temp_esas.Frontend.Blocks.{Gives, Gives-return, Gives-then, Does, Does-done, Does-put}
use temp_esas.Compile.Labels.{Label, goto_label, call_label, Labels, find_label}
use temp_esas.Compile.Instr.{Interface, compile_op}
use temp_esas.Compile.Program.{
  insert_index, Compiler, prologue_for, emit_instruction, compile_instruction, compile_all,
}
use temp_esas.Compile.Execute.{Computes, execute, compile_op-execute}

abbrev pub is_called : Option Label → Bool
is_called none = false
is_called (some goto_label) = false
is_called (some call_label) = true

-- Every instruction computes, and no one is a `CALL` target.
abbrev pub AreStraight : Labels → List Instruction → Type 0
AreStraight labels [] = Unit {0}
AreStraight labels (i ∷ instructions) =
    Computes i.opcode i.args
    × (is_called (find_label i.bit_offset labels) ≡ false)
    × AreStraight labels instructions

abbrev pub execute_all : List Instruction → Guest → Guest
execute_all [] g = g
execute_all (i ∷ instructions) g = execute_all instructions (execute i.opcode i.args g)

no_prologue : (l : Option Label) (s : State) → is_called l ≡ false → Does (prologue_for l) s s
no_prologue none s h = Does-done s
no_prologue (some goto_label) s h = Does-done s
no_prologue (some call_label) s h = cc

nop-Does : (s : State) → Does nop s s
unfolding nop step
nop-Does s =
    let (_, _, _, _, _, _, _, e) = decode-gen_branches cond_eq 0 0 (omega arith) (omega arith) in
    Does-put gen_nop Isa.nop s s e refl

-- One instruction with its `nop`.
emit_instruction-execute :
    (iface : Interface) (labels : Labels) (i : Instruction) (s : State)
    → Computes i.opcode i.args
    → is_called (find_label i.bit_offset labels) ≡ false
    → (s' : State) × (s'.guest ≡ execute i.opcode i.args s.guest)
      × Gives (emit_instruction iface labels i) none s s'
unfolding emit_instruction
emit_instruction-execute iface labels i s h free =
    let (s', e, d) = compile_op-execute iface i.opcode i.args s h in
    (
      s',
      e,
      Gives-then (prologue_for (find_label i.bit_offset labels)) _ tt none s s s'
          (no_prologue (find_label i.bit_offset labels) s free)
          (Gives-then (compile_op iface i.opcode i.args) _ none none s s' s' d
            (Gives-then nop _ tt none s' s' s' (nop-Does s') (Gives-return none s'))),
    )

-- For instructions that only compute (see `compile_op-execute`) and are not marked as `CALL`
-- targets, the second loop of `Compile` succeeds on whatever code is there, leaves the list of
-- fixups as it is, and the words that it puts behind the code, run on any machine, turn the guest
-- into what the interpreter makes of it, one instruction after the other.
pub compile_all-execute :
    (iface : Interface) (labels : Labels) (instructions : List Instruction) (c : Compiler)
    (s : State)
    → AreStraight labels instructions
    → (c' : Compiler) × (words : List ℕ) × (s' : State) × (compile_all iface labels instructions c
        ≡ some c')
      × (c'.code ≡ c.code ++ words)
      × (c'.fixups ≡ c.fixups)
      × (run words s ≡ some s')
      × (s'.guest ≡ execute_all instructions s.guest)
unfolding compile_all compile_instruction run
compile_all-execute iface labels [] c s h =
    (c, [], s, refl, sym (append-nil c.code), refl, refl, refl)
compile_all-execute iface labels (i ∷ instructions) c s (h, free, more) =
    let (s₁, g₁, d) = emit_instruction-execute iface labels i s h free in
    let (xs, e₁, r₁) = d c.code in
    let c₁ : Compiler = record {
      code = c.code ++ xs;
      mapping = insert_index i.bit_offset (length c.code) c.mapping;
      fixups = c.fixups;
    } in
    let (c', ys, s', e₂, code, fixups, r₂, g₂) =
      compile_all-execute iface labels instructions c₁ s₁ more in
    (
      c',
      xs ++ ys,
      s',
      rw (e₁, ◌>>=◌) e₂,
      code ∙ append_assoc c.code xs ys,
      fixups,
      run-append xs ys s s₁ r₁ ∙ r₂,
      g₂ ∙ ap (λ (g : Guest). execute_all instructions g) g₁,
    )
