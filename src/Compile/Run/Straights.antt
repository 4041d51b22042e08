-- ===== src/Compile/Run/Straights.antt =====
-- The instructions of a program that go on with the next one: compiled code and the interpreter stay
-- at the same point.
use temp_esas.Prelude.{
  ℕ, suc, ◌+◌, ◌≡◌, ◌∙◌, refl, ap, sym, subst, arith, List, ◌++◌, Option, none, some, Bool, true,
  false, length, get_elem?, take,
}
use temp_esas.Evm2.Types.{Op, Arg, Instruction}
use temp_esas.Machine.Operand.{Guest, write_operand}
use temp_esas.Machine.Cpu.{
  Functions, Cpu, link_register, Reaches, stays, steps, Reaches-trans, Holds,
}
use temp_esas.Compile.Labels.{find_label}
use temp_esas.Compile.Instr.{Interface, compile_op}
use temp_esas.Compile.Straight.{is_called}
use temp_esas.Compile.Execute.{
  Computes, mov_computes, load_const_computes, add_computes, sub_computes, mul_computes,
  div_computes, modulo_computes, compare_computes, execute, compile_op-execute,
}
use temp_esas.Compile.Resolve.{Parts, place}
use temp_esas.Compile.Run.Control.{nop-step}
use temp_esas.Compile.Run.Final.{instruction-Placed}
use temp_esas.Compile.Run.Block.{Frames, cpu_at, Puts, Gives-Puts}
use temp_esas.Compile.Run.Meaning.{
  Evm, Service, Services, Asks, asks_value, prints, joins, sleeps, locks, unlocks, reads_file,
  writes_file,
}
use temp_esas.Compile.Run.Service.{Serves, HasServices, compile_op-Asks}
use temp_esas.Compile.Run.Words.{prologue_words}
use temp_esas.Compile.Run.Layout.{instruction-Plain}
use temp_esas.Compile.Run.Entered.{called_at, goes_on, only_called, next-called_at}
use temp_esas.Compile.Run.Matching.{Matches, IsEntered, AreLinked, prologue-Reaches}

abbrev pub evm_at : ℕ → Guest → List ℕ → Evm
evm_at n g calls = record { at = n; guest = g; calls = calls }

pub same_place : (r : Option ℕ) (a b : ℕ) → r ≡ some a → r ≡ some b → a ≡ b
same_place r a b ea eb = ground (arith, ea, eb)

Computes-goes_on : (op : Op) (args : List Arg) → Computes op args → goes_on op ≡ true
Computes-goes_on _ _ (mov_computes a b ha hb) = refl
Computes-goes_on _ _ (load_const_computes c d hc hv hd od) = refl
Computes-goes_on _ _ (add_computes a b c ha hb hc) = refl
Computes-goes_on _ _ (sub_computes a b c ha hb hc) = refl
Computes-goes_on _ _ (mul_computes a b c ha hb hc) = refl
Computes-goes_on _ _ (div_computes a b c ha hb hc) = refl
Computes-goes_on _ _ (modulo_computes a b c ha hb hc) = refl
Computes-goes_on _ _ (compare_computes a b c ha hb hc hr) = refl

Asks-goes_on :
    (g : Guest) (op : Op) (args : List Arg) (f : Service) (vs : List ℕ) (dest : Arg)
    → Asks g op args f vs dest
    → goes_on op ≡ true
Asks-goes_on g _ _ _ _ _ (asks_value a reg_a ha) = refl
Asks-goes_on g _ _ _ _ _ (prints a ha) = refl
Asks-goes_on g _ _ _ _ _ (joins a ha) = refl
Asks-goes_on g _ _ _ _ _ (sleeps a ha) = refl
Asks-goes_on g _ _ _ _ _ (locks a ha) = refl
Asks-goes_on g _ _ _ _ _ (unlocks a ha) = refl
Asks-goes_on g _ _ _ _ _ (reads_file a b c d ha hb hc hd) = refl
Asks-goes_on g _ _ _ _ _ (writes_file a b c ha hb hc) = refl

module _ (iface : Interface) (instructions : List Instruction) (code : List ℕ)
    (p : Parts iface instructions code) (functions : Functions) where
  -- The processor gets on to where the interpreter is.
  abbrev pub Follows : Cpu → Evm → Type 0
  Follows cpu e =
      (cpu' : Cpu) × Reaches functions code cpu cpu' × Matches iface instructions code p e cpu'

  module _ (n : ℕ) (i : Instruction) (g : Guest) (calls : List ℕ) (cpu : Cpu)
      (at : get_elem? instructions n ≡ some i)
      (matches : Matches iface instructions code p (evm_at n g calls) cpu) where
    abbrev called : Bool
    called = is_called (find_label i.bit_offset p.labels)

    -- From the start of the instruction to its case.
    pub enters :
        (start : ℕ)
        → place iface instructions (take n instructions) ≡ some start
        → Holds code start (prologue_words called)
        → (frames : Frames) × AreLinked iface instructions code p calls frames
          × Reaches functions code cpu
              (cpu_at (start + length (prologue_words called)) cpu.state frames)
    enters start begins holds =
        let pc : cpu.pc ≡ start =
          same_place (place iface instructions (take n instructions)) cpu.pc start matches.begins
            begins in
        let mark : called_at p.labels instructions n ≡ called =
          ap
            (λ (o : Option Instruction). elim o [
              | none ↦ false
              | some k ↦ is_called (find_label k.bit_offset p.labels)
            ])
            at in
        let entered : IsEntered iface instructions code p called calls (cpu.state.x link_register)
            cpu.frames =
          subst
            (λ (b : Bool).
              IsEntered iface instructions code p b calls (cpu.state.x link_register) cpu.frames)
            mark matches.entered in
        let (frames, linked, reaches) =
          prologue-Reaches iface instructions code p functions called calls start cpu.state
            cpu.frames holds entered in
        (
          frames,
          linked,
          subst
              (λ (k : ℕ).
                Reaches functions code (cpu_at k cpu.state cpu.frames)
                  (cpu_at (start + length (prologue_words called)) cpu.state frames))
              (sym pc) reaches,
        )

    -- An instruction whose words run in place.
    pub Puts-Follows :
        (g' : Guest)
        → only_called p.labels true instructions ≡ true
        → goes_on i.opcode ≡ true
        → Puts functions (compile_op iface i.opcode i.args) none cpu.state g'
        → Follows cpu (evm_at (suc n) g' calls)
    Puts-Follows g' apart on puts =
        let q = instruction-Placed iface instructions code p n i at in
        let start = length q.before in
        let lead = length (prologue_words called) in
        let (body, e, passes) = puts (q.before ++ prologue_words called) in
        let plain = instruction-Plain iface instructions code p n i q body e in
        let (frames, linked, entering) = enters start q.begins plain.prologue in
        let (s', guest, running) = passes code (start + lead) frames plain.words in
        let last = start + lead + length body in
        let padding = nop-step functions code (cpu_at last s' frames) plain.padding in
        (
          cpu_at (suc last) s' frames,
          Reaches-trans functions code cpu (cpu_at (start + lead) cpu.state frames)
              (cpu_at (suc last) s' frames) entering
              (Reaches-trans functions code (cpu_at (start + lead) cpu.state frames)
                (cpu_at last s' frames) (cpu_at (suc last) s' frames) running
                (steps (cpu_at last s' frames) (cpu_at (suc last) s' frames)
                  (cpu_at (suc last) s' frames) padding (stays (cpu_at (suc last) s' frames)))),
          record {
            begins = plain.ends;
            same = guest;
            entered =
                subst
                  (λ (b : Bool).
                    IsEntered iface instructions code p b calls (s'.x link_register) frames)
                  (sym (next-called_at p.labels true instructions n i apart at on)) linked;
          },
        )

    pub Computes-Follows :
        only_called p.labels true instructions ≡ true
        → Computes i.opcode i.args
        → Follows cpu (evm_at (suc n) (execute i.opcode i.args g) calls)
    Computes-Follows apart c =
        let (s', guest, gives) = compile_op-execute iface i.opcode i.args cpu.state c in
        Puts-Follows (execute i.opcode i.args g) apart (Computes-goes_on i.opcode i.args c) (
          Gives-Puts functions (compile_op iface i.opcode i.args) none cpu.state s'
            (execute i.opcode i.args g) gives
            (guest ∙ ap (λ (h : Guest). execute i.opcode i.args h) matches.same))

    pub Asks-Follows :
        (services : Services) (f : Service) (vs : List ℕ) (dest : Arg) (r : ℕ) (g' : Guest)
        → Serves iface services functions
        → HasServices iface
        → only_called p.labels true instructions ≡ true
        → Asks g i.opcode i.args f vs dest
        → services f vs g ≡ some (r, g')
        → Follows cpu (evm_at (suc n) (write_operand dest r g') calls)
    Asks-Follows services f vs dest r g' serves far apart asks answer =
        let back = sym matches.same in
        Puts-Follows (write_operand dest r g') apart (Asks-goes_on g i.opcode i.args f vs dest asks)
          (compile_op-Asks iface services functions serves far i.opcode i.args f vs dest r cpu.state
            g' (subst (λ (h : Guest). Asks h i.opcode i.args f vs dest) back asks)
            (subst (λ (h : Guest). services f vs h ≡ some (r, g')) back answer))
