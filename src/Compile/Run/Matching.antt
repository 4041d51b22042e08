-- ===== src/Compile/Run/Matching.antt =====
-- When a processor that runs compiled code and an interpreter of the program are at the same point
-- between two instructions.
use temp_esas.Prelude.{
  ℕ, suc, ◌+◌, ◌≡◌, subst, arith, List, [], ◌∷◌, some, Bool, true, false, length, get_elem?, take,
}
use temp_esas.Arm64.Backend.{gen_nop}
use temp_esas.Evm2.Types.{Instruction}
use temp_esas.Machine.{State}
use temp_esas.Machine.Cpu.{Functions, Cpu, link_register, Reaches, stays, steps, Holds}
use temp_esas.Compile.Instr.{Interface}
use temp_esas.Compile.Resolve.{Parts, place}
use temp_esas.Compile.Run.Block.{Frames, cpu_at}
use temp_esas.Compile.Run.Control.{prologue-step, frame-step}
use temp_esas.Compile.Run.Meaning.{Evm}
use temp_esas.Compile.Run.Entered.{called_at}
use temp_esas.Compile.Run.Words.{prologue_words}

module _ (iface : Interface) (instructions : List Instruction) (code : List ℕ)
    (p : Parts iface instructions code) where
  -- The address `link` is that of the `nop` before the code of instruction `r`.
  pub record Linked (r link : ℕ) : Type 0 where
    pub padding : get_elem? code link ≡ some gen_nop
    pub behind : place iface instructions (take r instructions) ≡ some (suc link)
    pub uncalled : called_at p.labels instructions r ≡ false

  -- The saved frames are those of the calls, the innermost first; there may be others below.
  abbrev pub AreLinked : List ℕ → Frames → Type 0
  AreLinked [] frames = Unit {0}
  AreLinked (r ∷ calls) [] = ⊥
  AreLinked (r ∷ calls) ((a, link) ∷ frames) = Linked r link × AreLinked calls frames

  -- At an instruction that is called the innermost link is still in its register.
  abbrev pub IsEntered : Bool → List ℕ → ℕ → Frames → Type 0
  IsEntered false calls link frames = AreLinked calls frames
  IsEntered true [] link frames = ⊥
  IsEntered true (r ∷ calls) link frames = Linked r link × AreLinked calls frames

  pub record Matches (e : Evm) (cpu : Cpu) : Type 0 where
    pub begins : place iface instructions (take e.at instructions) ≡ some cpu.pc
    pub same : cpu.state.guest ≡ e.guest
    pub entered :
        IsEntered
          (called_at p.labels instructions e.at)
          e.calls
          (cpu.state.x link_register)
          cpu.frames

  -- The prologue of an instruction saves the link.
  pub prologue-Reaches :
      (functions : Functions) (called : Bool) (calls : List ℕ) (start : ℕ) (s : State)
      (frames : Frames)
      → Holds code start (prologue_words called)
      → IsEntered called calls (s.x link_register) frames
      → (frames' : Frames) × AreLinked calls frames'
        × Reaches functions code
            (cpu_at start s frames)
            (cpu_at (start + length (prologue_words called)) s frames')
  prologue-Reaches functions false calls start s frames holds entered =
      let same : start ≡ start + 0 = omega arith in
      (
        frames,
        entered,
        subst (λ (n : ℕ). Reaches functions code (cpu_at start s frames) (cpu_at n s frames)) same
            (stays (cpu_at start s frames)),
      )
  prologue-Reaches functions true [] start s frames holds entered = absurd entered
  prologue-Reaches functions true (r ∷ calls) start s frames (first, (second, end)) entered =
      let frames' : Frames = (s.x 16, s.x link_register) ∷ frames in
      let last : suc (suc start) ≡ start + 2 = omega arith in
      (
        frames',
        entered,
        steps (cpu_at start s frames) (cpu_at (suc start) s frames') (cpu_at (start + 2) s frames')
            (prologue-step functions code (cpu_at start s frames) first)
            (steps (cpu_at (suc start) s frames') (cpu_at (suc (suc start)) s frames')
              (cpu_at (start + 2) s frames')
              (frame-step functions code (cpu_at (suc start) s frames') second)
              (subst
                (λ (n : ℕ).
                  Reaches functions code (cpu_at (suc (suc start)) s frames') (cpu_at n s frames'))
                last (stays (cpu_at (suc (suc start)) s frames')))),
      )
