-- ===== src/Compile/Run/Control.antt =====
-- The words of compiled code that leave the straight line, once they are patched: the branches, and
-- the entry and the end of a function (jit_arm64_fe.h).
use temp_esas.Prelude.{
  ℕ, suc, ◌%◌, ◌^◌, ◌<◌, ◌≡◌, ◌∙◌, refl, ap, arith, List, ◌∷◌, none, some, ◌>>=◌, ◌==◌,
  if◌then◌else◌, get_elem?,
}
use temp_esas.Arm64.Backend.{
  cond_eq, cond_bits, gen_bcond, gen_b, gen_bl, gen_ret, gen_nop, gen_prologue1, gen_prologue2,
  gen_epilogue,
}
use temp_esas.Arm64.Isa.{Insn, decode, branch_target, b, bl, b_cond}
use temp_esas.Arm64.Isa
use temp_esas.Arm64.Encoding.Branch.{decode-gen_branches, decode-gen_frame}
use temp_esas.Frontend.Patch.{patched}
use temp_esas.Frontend.Patch.Words.{displacement}
use temp_esas.Frontend.Patch.Lands.{patched-gen_branches}
use temp_esas.Machine.{step, holds}
use temp_esas.Machine.Cpu.{
  Functions, Cpu, goto, put_x, link_register, control, pop_frame, perform, cpu_step,
}

-- A branch by the displacement goes to the target.
branch_target-displacement :
    (index target : ℕ)
    → index < 2 ^ 18
    → target < 2 ^ 18
    → (branch_target 26 (displacement index target % 2 ^ 26) index ≡ target)
      × (branch_target 19 (displacement index target % 2 ^ 19) index ≡ target)
branch_target-displacement index target hi ht = (ground arith, ground arith)

module _ (functions : Functions) (code : List ℕ) (cpu : Cpu) where
  pub control-step :
      (w : ℕ) (insn : Insn)
      → get_elem? code cpu.pc ≡ some w
      → decode w ≡ some insn
      → step insn cpu.state ≡ none
      → cpu_step functions code cpu ≡ control functions insn cpu
  unfolding cpu_step perform
  control-step w insn at found stop = ground (arith, at, found, stop)

  pub nop-step :
      get_elem? code cpu.pc ≡ some gen_nop
      → cpu_step functions code cpu ≡ some (goto (suc cpu.pc) cpu)
  unfolding cpu_step perform step
  nop-step at =
      let (_, _, _, _, _, _, _, d) = decode-gen_branches cond_eq 0 0 (omega arith) (omega arith) in
      rw (at, d, ◌>>=◌) refl

  pub ret-step :
      get_elem? code cpu.pc ≡ some gen_ret
      → cpu_step functions code cpu ≡ some (goto (cpu.state.x link_register) cpu)
  unfolding step
  ret-step at =
      let (_, _, _, _, _, _, d, _) = decode-gen_branches cond_eq 0 0 (omega arith) (omega arith) in
      control-step gen_ret (Isa.ret 30) at d refl

  pub prologue-step :
      get_elem? code cpu.pc ≡ some gen_prologue1
      → cpu_step functions code cpu
        ≡ some (record cpu {
          pc = suc cpu.pc;
          frames = (cpu.state.x 16, cpu.state.x link_register) ∷ cpu.frames;
        })
  unfolding step
  prologue-step at =
      let (d, _, _) = decode-gen_frame in
      control-step gen_prologue1 (Isa.stp_pre 16 30 31 0x7E) at d refl

  pub frame-step :
      get_elem? code cpu.pc ≡ some gen_prologue2
      → cpu_step functions code cpu ≡ some (goto (suc cpu.pc) cpu)
  unfolding step
  frame-step at =
      let (_, d, _) = decode-gen_frame in control-step gen_prologue2 (Isa.add_imm 29 31 0) at d refl

  pub epilogue-step :
      get_elem? code cpu.pc ≡ some gen_epilogue
      → cpu_step functions code cpu ≡ pop_frame cpu.frames cpu
  unfolding step
  epilogue-step at =
      let (_, _, d) = decode-gen_frame in
      control-step gen_epilogue (Isa.ldp_post 16 30 31 2) at d refl

  module _ (old target w : ℕ) (at : get_elem? code cpu.pc ≡ some w) (here : cpu.pc < 2 ^ 18)
      (there : target < 2 ^ 18) where
    pub jump-step :
        patched (gen_b old) cpu.pc target ≡ some w
        → cpu_step functions code cpu ≡ some (goto target cpu)
    unfolding step
    jump-step turned =
        let off = displacement cpu.pc target in
        let (_, p, _) = patched-gen_branches cond_eq old cpu.pc target in
        let (_, d, _, _, _, _, _, _) =
          decode-gen_branches cond_eq off 0 (omega arith) (omega arith) in
        let (lands, _) = branch_target-displacement cpu.pc target here there in
        let same : w ≡ gen_b off = ground (arith, turned, p) in
        control-step w (b (off % 2 ^ 26)) at (ap decode same ∙ d) refl
        ∙ ap (λ (n : ℕ). some (goto n cpu)) lands

    pub call-step :
        patched (gen_bl old) cpu.pc target ≡ some w
        → cpu_step functions code cpu
          ≡ some (record cpu { pc = target; state = put_x link_register (suc cpu.pc) cpu.state })
    unfolding step
    call-step turned =
        let off = displacement cpu.pc target in
        let (_, _, p) = patched-gen_branches cond_eq old cpu.pc target in
        let (_, _, d, _, _, _, _, _) =
          decode-gen_branches cond_eq off 0 (omega arith) (omega arith) in
        let (lands, _) = branch_target-displacement cpu.pc target here there in
        let same : w ≡ gen_bl off = ground (arith, turned, p) in
        control-step w (bl (off % 2 ^ 26)) at (ap decode same ∙ d) refl
        ∙ ap
            (λ (n : ℕ).
              some (record cpu { pc = n; state = put_x link_register (suc cpu.pc) cpu.state }))
            lands

    pub equal-step :
        (x y : ℕ)
        → cpu.state.compared ≡ (x, y)
        → patched (gen_bcond cond_eq old) cpu.pc target ≡ some w
        → cpu_step functions code cpu ≡ some (goto (if x == y then target else suc cpu.pc) cpu)
    unfolding step
    equal-step x y compared turned =
        let off = displacement cpu.pc target in
        let (p, _, _) = patched-gen_branches cond_eq old cpu.pc target in
        let (d, _, _, _, _, _, _, _) =
          decode-gen_branches cond_eq off 0 (omega arith) (omega arith) in
        let (_, lands) = branch_target-displacement cpu.pc target here there in
        let same : w ≡ gen_bcond cond_eq off = ground (arith, turned, p) in
        control-step w (b_cond (cond_bits cond_eq) (off % 2 ^ 19)) at (ap decode same ∙ d) refl
        ∙ ap (λ (n : ℕ). some (goto (if holds 0 cpu.state.compared then n else suc cpu.pc) cpu))
            lands
        ∙ ap (λ (c : ℕ × ℕ). some (goto (if holds 0 c then target else suc cpu.pc) cpu)) compared
