-- ===== src/Compile/Run/Halts.antt =====
-- The end of a program: `HLT` calls the host's `terminate` (the case of compile.h).
use temp_esas.Prelude.{
  ℕ, ◌+◌, ◌^◌, ◌<◌, ◌≡◌, ap, arith, List, [], ◌∷◌, ◌++◌, none, some, true, length, get_elem?,
}
use mathlib.Core.List.{append_assoc}
use temp_esas.Arm64.Backend.{gen_blr}
use temp_esas.Evm2.Types.{Op, Arg, Instruction}
use temp_esas.Frontend.Code
use temp_esas.Frontend.Code.{◌>>=◌}
use temp_esas.Frontend.Emit.{load_operand, store_operand, host_call_with_ops, entry}
use temp_esas.Frontend.Blocks.Immediate.{emit_load_imm64-Does}
use temp_esas.Machine.{State, set_x, run}
use temp_esas.Machine.Operand.{Guest}
use temp_esas.Machine.Cpu.{Functions, Cpu, Reaches, Reaches-trans, run-Reaches, Holds-append}
use temp_esas.Compile.Labels.{Labels, find_label, find_labels}
use temp_esas.Compile.Instr.{Interface, compile_op}
use temp_esas.Compile.Program.{compile}
use temp_esas.Compile.Straight.{is_called}
use temp_esas.Compile.Resolve.{Parts, compile-Parts}
use temp_esas.Compile.Run.Final.{instruction-Placed}
use temp_esas.Compile.Run.Block.{Frames, cpu_at}
use temp_esas.Compile.Run.Meaning.{Evm, Services, Creations, Runs, instr}
use temp_esas.Compile.Run.Service.{Serves, HasAddresses}
use temp_esas.Compile.Run.Creates.{CreatesAt}
use temp_esas.Compile.Run.Entered.{only_called, first-called_at}
use temp_esas.Compile.Run.Words.{prologue_words}
use temp_esas.Compile.Run.Layout.{instruction-Plain}
use temp_esas.Compile.Run.Matching.{Matches}
use temp_esas.Compile.Run.Straights.{evm_at, enters}
use temp_esas.Compile.Run.Simulates.{compile-Follows, place-entry}

-- The address of `terminate` into x9, and the call.
hlt-words :
    (iface : Interface) (args : List Arg) (s : State) (code : List ℕ)
    → iface.terminate < 2 ^ 64
    → (words : List ℕ) × (run words s ≡ some (set_x 9 iface.terminate s))
      × (compile_op iface Op.hlt args code ≡ some (none, code ++ (words ++ gen_blr 9 ∷ [])))
unfolding compile_op host_call_with_ops load_operand store_operand
hlt-words iface args s code far =
    let (words, e, r) = emit_load_imm64-Does 9 iface.terminate (omega arith) far s code in
    (
      words,
      r,
      rw (e, Code.◌>>=◌)
          (ap (λ (c : List ℕ). some (none, c)) (append_assoc code words (gen_blr 9 ∷ []))),
    )

-- The processor is about to call `terminate`, with this guest.
pub record Terminates (iface : Interface) (code : List ℕ) (g : Guest) (cpu : Cpu) : Type 0 where
  pub at : get_elem? code cpu.pc ≡ some (gen_blr 9)
  pub calls : cpu.state.x 9 ≡ iface.terminate
  pub same : cpu.state.guest ≡ g

hlt-Reaches :
    (iface : Interface) (instructions : List Instruction) (code : List ℕ)
    (p : Parts iface instructions code) (functions : Functions) (n o : ℕ) (args : List Arg)
    (g : Guest) (calls : List ℕ) (cpu : Cpu)
    → iface.terminate < 2 ^ 64
    → get_elem? instructions n ≡ some (instr Op.hlt o args)
    → Matches iface instructions code p (evm_at n g calls) cpu
    → (cpu' : Cpu) × Reaches functions code cpu cpu' × Terminates iface code g cpu'
hlt-Reaches iface instructions code p functions n o args g calls cpu far at matches =
    let i = instr Op.hlt o args in
    let q = instruction-Placed iface instructions code p n i at in
    let lead = prologue_words (is_called (find_label o p.labels)) in
    let (words, ran, e) = hlt-words iface args cpu.state (q.before ++ lead) far in
    let plain = instruction-Plain iface instructions code p n i q (words ++ gen_blr 9 ∷ []) e in
    let here = length q.before + length lead in
    let (loading, (blr_at, end)) = Holds-append code here words (gen_blr 9 ∷ []) plain.words in
    let (frames, linked, entering) =
      enters iface instructions code p functions n i g calls cpu at matches (length q.before)
        q.begins plain.prologue in
    let s' = set_x 9 iface.terminate cpu.state in
    (
      cpu_at (here + length words) s' frames,
      Reaches-trans functions code cpu (cpu_at here cpu.state frames)
          (cpu_at (here + length words) s' frames) entering
          (run-Reaches functions code words here cpu.state s' frames loading ran),
      record { at = blr_at; calls = omega (arith, far); same = matches.same },
    )

-- For a program and a host as in `compile-Simulates`, and an address of `terminate` below 2^64:
-- when the interpreter, started at the first instruction, gets to an `hlt`, the processor,
-- started at word 11 of the code with the same guest, gets to a call of the function at the
-- address of `terminate`, with the guest registers and memory that the interpreter ends with.
pub compile-Terminates :
    (iface : Interface) (services : Services) (creations : Creations) (functions : Functions)
    (instructions : List Instruction) (code : List ℕ) (labels : Labels) (s : State)
    (frames : Frames) (e : Evm) (o : ℕ) (args : List Arg)
    → compile iface instructions ≡ some code
    → length code < 2 ^ 18
    → find_labels instructions [] ≡ some labels
    → only_called labels true instructions ≡ true
    → Serves iface services functions
    → HasAddresses iface
    → CreatesAt iface instructions creations functions
    → iface.terminate < 2 ^ 64
    → Runs services creations instructions (evm_at 0 s.guest []) e
    → get_elem? instructions e.at ≡ some (instr Op.hlt o args)
    → (cpu : Cpu) × Reaches functions code (cpu_at entry s frames) cpu
      × Terminates iface code e.guest cpu
compile-Terminates iface services creations functions instructions code labels s frames e o args
      compiled small marked apart serves far creates_at far_end runs at =
    let p = compile-Parts iface instructions code compiled in
    let (cpu, reaches, matches) =
      compile-Follows iface services creations functions instructions code labels 0 entry s frames e
        p small marked apart serves far creates_at (place-entry iface instructions code p)
        (first-called_at labels instructions apart) runs in
    let (cpu', more, ends) =
      hlt-Reaches iface instructions code p functions e.at o args e.guest e.calls cpu far_end at
        matches in
    (cpu', Reaches-trans functions code (cpu_at entry s frames) cpu cpu' reaches more, ends)
