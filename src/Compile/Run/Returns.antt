-- ===== src/Compile/Run/Returns.antt =====
-- The return of a program: compiled code and the interpreter stay at the same point.
use temp_esas.Prelude.{
  ℕ, suc, ◌+◌, ◌≡◌, sym, subst, List, [], ◌∷◌, ◌++◌, some, Bool, length, get_elem?,
}
use temp_esas.Evm2.Types.{Op, Arg, Instruction}
use temp_esas.Machine.{State}
use temp_esas.Machine.Operand.{Guest}
use temp_esas.Machine.Cpu.{Functions, Cpu, put_x, link_register, stays, steps, Reaches-trans}
use temp_esas.Compile.Labels.{find_label}
use temp_esas.Compile.Instr.{Interface}
use temp_esas.Compile.Straight.{is_called}
use temp_esas.Compile.Resolve.{Parts}
use temp_esas.Compile.Run.Control.{nop-step, ret-step, epilogue-step}
use temp_esas.Compile.Run.Final.{instruction-Placed}
use temp_esas.Compile.Run.Block.{Frames, cpu_at}
use temp_esas.Compile.Run.Meaning.{instr}
use temp_esas.Compile.Run.Words.{prologue_words, ret-words}
use temp_esas.Compile.Run.Layout.{instruction-Plain}
use temp_esas.Compile.Run.Matching.{Matches, IsEntered, AreLinked}
use temp_esas.Compile.Run.Straights.{evm_at, Follows, enters}
use temp_esas.Arm64.Backend.{gen_epilogue, gen_ret}

module _ (iface : Interface) (instructions : List Instruction) (code : List ℕ)
    (p : Parts iface instructions code) (functions : Functions) where
  -- What the epilogue and the return do to the innermost frame.
  leaves :
      (g : Guest) (r : ℕ) (calls : List ℕ) (pc : ℕ) (s : State) (frames : Frames)
      → get_elem? code pc ≡ some gen_epilogue
      → get_elem? code (suc pc) ≡ some gen_ret
      → s.guest ≡ g
      → AreLinked iface instructions code p (r ∷ calls) frames
      → Follows iface instructions code p functions (cpu_at pc s frames) (evm_at r g calls)
  leaves g r calls pc s [] first second guest linked = absurd linked
  leaves g r calls pc s ((a, link) ∷ frames) first second guest (linked, rest) =
      let s' = put_x link_register link (put_x 16 a s) in
      let popped = epilogue-step functions code (cpu_at pc s ((a, link) ∷ frames)) first in
      let back = ret-step functions code (cpu_at (suc pc) s' frames) second in
      let padding = nop-step functions code (cpu_at link s' frames) linked.padding in
      (
        cpu_at (suc link) s' frames,
        steps (cpu_at pc s ((a, link) ∷ frames)) (cpu_at (suc pc) s' frames)
            (cpu_at (suc link) s' frames) popped
            (steps (cpu_at (suc pc) s' frames) (cpu_at link s' frames) (cpu_at (suc link) s' frames)
              back
              (steps (cpu_at link s' frames) (cpu_at (suc link) s' frames)
                (cpu_at (suc link) s' frames) padding (stays (cpu_at (suc link) s' frames)))),
        record {
          begins = linked.behind;
          same = guest;
          entered =
              subst
                (λ (b : Bool).
                  IsEntered iface instructions code p b calls (s'.x link_register) frames)
                (sym linked.uncalled) rest;
        },
      )

  pub ret-Follows :
      (n o r : ℕ) (args : List Arg) (g : Guest) (calls : List ℕ) (cpu : Cpu)
      → get_elem? instructions n ≡ some (instr Op.ret o args)
      → Matches iface instructions code p (evm_at n g (r ∷ calls)) cpu
      → Follows iface instructions code p functions cpu (evm_at r g calls)
  ret-Follows n o r args g calls cpu at matches =
      let i = instr Op.ret o args in
      let q = instruction-Placed iface instructions code p n i at in
      let lead = prologue_words (is_called (find_label o p.labels)) in
      let plain =
        instruction-Plain iface instructions code p n i q (gen_epilogue ∷ gen_ret ∷ [])
          (ret-words iface (q.before ++ lead) args) in
      let (first, (second, end)) = plain.words in
      let here = length q.before + length lead in
      let (frames, linked, entering) =
        enters iface instructions code p functions n i g (r ∷ calls) cpu at matches
          (length q.before) q.begins plain.prologue in
      let (cpu', leaving, matching) =
        leaves g r calls here cpu.state frames first second matches.same linked in
      (
        cpu',
        Reaches-trans functions code cpu (cpu_at here cpu.state frames) cpu' entering leaving,
        matching,
      )
