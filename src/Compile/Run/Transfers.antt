-- ===== src/Compile/Run/Transfers.antt =====
-- The instructions of a program that branch, call and return: compiled code and the interpreter stay
-- at the same point.
use temp_esas.Prelude.{
  ℕ, suc, ◌+◌, ◌^◌, ◌<◌, ◌≡◌, ◌∙◌, refl, ap, sym, subst, arith, List, [], ◌∷◌, ◌++◌, some, Bool,
  true, false, ◌==◌, if◌then◌else◌, Bool-cases, length, get_elem?, take, inl, inr,
}
use mathlib.Core.List.{append-nil}
use temp_esas.Arm64.Backend.{cond_eq, gen_b, gen_bl, gen_bcond}
use temp_esas.Evm2.Types.{Op, Arg, Instruction}
use temp_esas.Frontend.Emit.{offset_to}
use temp_esas.Machine.{State, run}
use temp_esas.Machine.Operand.{Guest, IsOperand, read_operand}
use temp_esas.Machine.Cpu.{
  Functions, Cpu, put_x, link_register, Reaches, Reaches-trans, Reaches-step, run-Reaches,
}
use temp_esas.Compile.Labels.{find_label}
use temp_esas.Compile.Instr.{Interface, is_kind_addr}
use temp_esas.Compile.Program.{find_index}
use temp_esas.Compile.Straight.{is_called}
use temp_esas.Compile.Resolve.{Parts, place}
use temp_esas.Compile.Run.Control.{nop-step, jump-step, call-step, equal-step}
use temp_esas.Compile.Run.Final.{Placed, instruction-Placed}
use temp_esas.Compile.Run.Block.{Frames, cpu_at}
use temp_esas.Compile.Run.Meaning.{index_at, instr}
use temp_esas.Compile.Run.Targets.{mapping-place}
use temp_esas.Compile.Run.Words.{prologue_words, jump-words, call-words, jump_eq-words}
use temp_esas.Compile.Run.Layout.{Branching, instruction-Branching}
use temp_esas.Compile.Run.Entered.{
  called_at, only_called, next-called_at, jump-called_at, jump_eq-called_at, call-called_at,
}
use temp_esas.Compile.Run.Matching.{Matches, IsEntered, AreLinked, Linked}
use temp_esas.Compile.Run.Straights.{evm_at, Follows, enters, same_place}

length-nil : (xs : List ℕ) → length xs ≡ length (xs ++ [])
length-nil xs = ap (λ (l : List ℕ). length l) (sym (append-nil xs))

module _ (iface : Interface) (instructions : List Instruction) (code : List ℕ)
    (p : Parts iface instructions code) (functions : Functions) (small : length code < 2 ^ 18)
    (g : Guest) (calls : List ℕ) (cpu : Cpu) (n : ℕ)
    (matches : Matches iface instructions code p (evm_at n g calls) cpu) where
  -- At an instruction that is not called, with the frames of the calls.
  arrives :
      (m : ℕ) (s : State) (frames : Frames) (target : ℕ)
      → place iface instructions (take m instructions) ≡ some target
      → s.guest ≡ g
      → called_at p.labels instructions m ≡ false
      → AreLinked iface instructions code p calls frames
      → Matches iface instructions code p (evm_at m g calls) (cpu_at target s frames)
  arrives m s frames target begins guest uncalled linked = record {
    begins = begins;
    same = guest;
    entered =
        subst (λ (b : Bool). IsEntered iface instructions code p b calls (s.x link_register) frames)
          (sym uncalled) linked;
  }

  -- The place that is patched in is that of the instruction at the address.
  target_place :
      (t m target : ℕ)
      → index_at t instructions ≡ some m
      → find_index t p.c.mapping ≡ some target
      → place iface instructions (take m instructions) ≡ some target
  target_place t m target goes found =
      let (index, at, begins) = mapping-place iface instructions code p t m goes in
      begins ∙ ap some (same_place (find_index t p.c.mapping) index target at found)

  module _ (i : Instruction) (at : get_elem? instructions n ≡ some i)
      (q : Placed iface instructions code p n i) (body : List ℕ) (w t : ℕ)
      (b : Branching iface instructions code p n
        (length q.before)
        (is_called (find_label i.bit_offset p.labels))
        body
        w
        t) where
    -- The words before the branch.
    Reaches-branch :
        (s : State)
        → run body cpu.state ≡ some s
        → (frames : Frames) × AreLinked iface instructions code p calls frames
          × Reaches functions code cpu (cpu_at b.place s frames)
    Reaches-branch s ran =
        let here =
          length q.before
          + length (prologue_words (is_called (find_label i.bit_offset p.labels))) in
        let (frames, linked, entering) =
          enters iface instructions code p functions n i g calls cpu at matches (length q.before)
            q.begins b.prologue in
        (
          frames,
          linked,
          Reaches-trans functions code cpu (cpu_at here cpu.state frames) (cpu_at b.place s frames)
              entering
              (subst
                (λ (k : ℕ).
                  Reaches functions code (cpu_at here cpu.state frames) (cpu_at k s frames))
                (sym b.placed)
                (run-Reaches functions code body here cpu.state s frames b.words ran)),
        )

  pub jump-Follows :
      (o m : ℕ) (t : Arg)
      → get_elem? instructions n ≡ some (instr Op.jump o (t ∷ []))
      → is_kind_addr t ≡ true
      → index_at t.address instructions ≡ some m
      → Follows iface instructions code p functions cpu (evm_at m g calls)
  unfolding run
  jump-Follows o m t at kind goes =
      let i = instr Op.jump o (t ∷ []) in
      let q = instruction-Placed iface instructions code p n i at in
      let before = q.before ++ prologue_words (is_called (find_label o p.labels)) in
      let old = offset_to 0 (length before) in
      let b = instruction-Branching iface instructions code p n i q [] (gen_b old) t.address (
        jump-words iface before t kind
        ∙ ap (λ (k : ℕ). some (some (k, t.address), before ++ gen_b old ∷ []))
            (length-nil before)) in
      let (frames, linked, before_it) =
        Reaches-branch i at q [] (gen_b old) t.address b cpu.state refl in
      let jumped =
        jump-step functions code (cpu_at b.place cpu.state frames) old b.target b.word b.at
          (omega (arith, b.here)) (omega (arith, b.there)) b.turned in
      (
        cpu_at b.target cpu.state frames,
        Reaches-step functions code cpu (cpu_at b.place cpu.state frames)
            (cpu_at b.target cpu.state frames) before_it jumped,
        arrives m cpu.state frames b.target (target_place t.address m b.target goes b.found)
            matches.same (jump-called_at p.labels instructions p.found n m o t at kind goes) linked,
      )

  pub call-Follows :
      (o m : ℕ) (t : Arg)
      → only_called p.labels true instructions ≡ true
      → get_elem? instructions n ≡ some (instr Op.call o (t ∷ []))
      → is_kind_addr t ≡ true
      → index_at t.address instructions ≡ some m
      → Follows iface instructions code p functions cpu (evm_at m g (suc n ∷ calls))
  unfolding run
  call-Follows o m t apart at kind goes =
      let i = instr Op.call o (t ∷ []) in
      let q = instruction-Placed iface instructions code p n i at in
      let before = q.before ++ prologue_words (is_called (find_label o p.labels)) in
      let old = offset_to 0 (length before) in
      let b = instruction-Branching iface instructions code p n i q [] (gen_bl old) t.address (
        call-words iface before t kind
        ∙ ap (λ (k : ℕ). some (some (k, t.address), before ++ gen_bl old ∷ []))
            (length-nil before)) in
      let (frames, linked, before_it) =
        Reaches-branch i at q [] (gen_bl old) t.address b cpu.state refl in
      let s' = put_x link_register (suc b.place) cpu.state in
      let called =
        call-step functions code (cpu_at b.place cpu.state frames) old b.target b.word b.at
          (omega (arith, b.here)) (omega (arith, b.there)) b.turned in
      let link : Linked iface instructions code p (suc n) (suc b.place) = record {
        padding = b.padding;
        behind = b.ends;
        uncalled = next-called_at p.labels true instructions n i apart at refl;
      } in
      (
        cpu_at b.target s' frames,
        Reaches-step functions code cpu (cpu_at b.place cpu.state frames)
            (cpu_at b.target s' frames) before_it called,
        record {
          begins = target_place t.address m b.target goes b.found;
          same = matches.same;
          entered =
              subst
                (λ (c : Bool).
                  IsEntered iface instructions code p c (suc n ∷ calls) (suc b.place) frames)
                (sym (call-called_at p.labels instructions p.found n m o t at kind goes))
                (link, linked);
        },
      )

  -- Where a comparison goes.
  pub jump_eq-Follows :
      (o m : ℕ) (t x y : Arg)
      → only_called p.labels true instructions ≡ true
      → get_elem? instructions n ≡ some (instr Op.jump_eq o (t ∷ x ∷ y ∷ []))
      → is_kind_addr t ≡ true
      → IsOperand x
      → IsOperand y
      → index_at t.address instructions ≡ some m
      → Follows iface instructions code p functions cpu
          (evm_at (if read_operand x g == read_operand y g then m else suc n) g calls)
  jump_eq-Follows o m t x y apart at kind hx hy goes =
      let i = instr Op.jump_eq o (t ∷ x ∷ y ∷ []) in
      let q = instruction-Placed iface instructions code p n i at in
      let before = q.before ++ prologue_words (is_called (find_label o p.labels)) in
      let (s, body, guest, compared, ran, emitted) =
        jump_eq-words iface before t x y cpu.state kind hx hy in
      let old = offset_to 0 (length (before ++ body)) in
      let b =
        instruction-Branching iface instructions code p n i q body (gen_bcond cond_eq old) t.address
          emitted in
      let (frames, linked, before_it) =
        Reaches-branch i at q body (gen_bcond cond_eq old) t.address b s ran in
      let same : ◌≡◌ {A = ℕ × ℕ} (read_operand x cpu.state.guest, read_operand y cpu.state.guest)
          (read_operand x g, read_operand y g) =
        ap (λ (h : Guest). (read_operand x h, read_operand y h)) matches.same in
      let branched =
        equal-step functions code (cpu_at b.place s frames) old b.target b.word b.at
          (omega (arith, b.here)) (omega (arith, b.there)) (read_operand x g) (read_operand y g)
          (compared ∙ same) b.turned in
      elim (Bool-cases (read_operand x g == read_operand y g)) [
        | inl equal ↦ (
          cpu_at b.target s frames,
          Reaches-step functions code cpu (cpu_at b.place s frames) (cpu_at b.target s frames)
              before_it (rw equal at branched),
          rw equal (
              arrives m s frames b.target (target_place t.address m b.target goes b.found)
                (guest ∙ matches.same)
                (jump_eq-called_at p.labels instructions p.found n m o t x y at kind goes) linked),
        )
        | inr different ↦ (
          cpu_at (suc (suc b.place)) s frames,
          Reaches-step functions code cpu (cpu_at (suc b.place) s frames)
              (cpu_at (suc (suc b.place)) s frames)
              (Reaches-step functions code cpu (cpu_at b.place s frames)
                (cpu_at (suc b.place) s frames) before_it (rw different at branched))
              (nop-step functions code (cpu_at (suc b.place) s frames) b.padding),
          rw different (
              arrives (suc n) s frames (suc (suc b.place)) b.ends (guest ∙ matches.same)
                (next-called_at p.labels true instructions n i apart at refl) linked),
        )
      ]
