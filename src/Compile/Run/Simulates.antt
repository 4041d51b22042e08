-- ===== src/Compile/Run/Simulates.antt =====
-- Compiled code on the processor does what the program means: the composition of the three passes of
-- `Compile` (compile.h) with all that they emit.
use temp_esas.Prelude.{
  ℕ, ◌^◌, ◌<◌, ◌≡◌, ◌∙◌, refl, ap, sym, subst, arith, List, [], some, Option, none, Bool, true,
  false, length, take,
}
use temp_esas.Evm2.Types.{Instruction}
use temp_esas.Frontend.Emit.{begin, entry}
use temp_esas.Machine.{State}
use temp_esas.Machine.Cpu.{Functions, Cpu, link_register, Reaches, stays, Reaches-trans}
use temp_esas.Compile.Labels.{Labels, find_labels}
use temp_esas.Compile.Instr.{Interface}
use temp_esas.Compile.Program.{compile, compile_all}
use temp_esas.Compile.Resolve.{Parts, compile-Parts, place, place_of, empty}
use temp_esas.Compile.Run.Block.{Frames, cpu_at}
use temp_esas.Compile.Run.Meaning.{
  Evm, Services, Creations, Steps, computes, asks, creates, jumps, jumps_if_equal, calls_to,
  returns, Runs, rests, goes,
}
use temp_esas.Compile.Run.Service.{Serves, HasAddresses}
use temp_esas.Compile.Run.Entered.{only_called, called_at}
use temp_esas.Compile.Run.Matching.{Matches, IsEntered}
use temp_esas.Compile.Run.Straights.{evm_at, Follows, Computes-Follows, Asks-Follows}
use temp_esas.Compile.Run.Transfers.{jump-Follows, call-Follows, jump_eq-Follows}
use temp_esas.Compile.Run.Creates.{CreatesAt}
use temp_esas.Compile.Run.Starting.{create_thread-Follows}
use temp_esas.Compile.Run.Returns.{ret-Follows}

module _ (iface : Interface) (services : Services) (creations : Creations) (functions : Functions)
    (instructions : List Instruction) (code : List ℕ) (serves : Serves iface services functions)
    (far : HasAddresses iface) (creates_at : CreatesAt iface instructions creations functions)
    (small : length code < 2 ^ 18) where
  module _ (p : Parts iface instructions code)
      (apart : only_called p.labels true instructions ≡ true) where
    step-Follows :
        (e e' : Evm) (cpu : Cpu)
        → Steps services creations instructions e e'
        → Matches iface instructions code p e cpu
        → Follows iface instructions code p functions cpu e'
    step-Follows _ _ cpu (computes i n g calls at c) matches =
        Computes-Follows iface instructions code p functions n i g calls cpu at matches apart c
    step-Follows _ _ cpu (asks i f vs dest r n g g' calls at a answer) matches =
        let (near, _) = far in
        Asks-Follows iface instructions code p functions n i g calls cpu at matches services f vs
          dest r g' serves near apart a answer
    step-Follows _ _ cpu (creates o t a r n m g g' calls at kind narrow ha target answer) matches =
        let (_, near) = far in
        create_thread-Follows iface instructions code p functions creations creates_at near n o m r
          t a g g' calls cpu at matches small apart kind narrow ha target answer
    step-Follows _ _ cpu (jumps o t n m g calls at kind target) matches =
        jump-Follows iface instructions code p functions small g calls cpu n matches o m t at kind
          target
    step-Follows _ _ cpu (jumps_if_equal o t a b n m g calls at kind ha hb target) matches =
        jump_eq-Follows iface instructions code p functions small g calls cpu n matches o m t a b
          apart at kind ha hb target
    step-Follows _ _ cpu (calls_to o t n m g calls at kind target) matches =
        call-Follows iface instructions code p functions small g calls cpu n matches o m t apart at
          kind target
    step-Follows _ _ cpu (returns o args n r g calls at) matches =
        ret-Follows iface instructions code p functions n o r args g calls cpu at matches

    run-Follows :
        (e e' : Evm) (cpu : Cpu)
        → Runs services creations instructions e e'
        → Matches iface instructions code p e cpu
        → Follows iface instructions code p functions cpu e'
    run-Follows _ _ cpu (rests e) matches = (cpu, stays cpu, matches)
    run-Follows _ _ cpu (goes e e' e'' step more) matches =
        let (cpu', reaches, there) = step-Follows e e' cpu step matches in
        let (cpu'', reaches', last) = run-Follows e' e'' cpu' more there in
        (cpu'', Reaches-trans functions code cpu cpu' cpu'' reaches reaches', last)

    start-Matches :
        (m pc : ℕ) (s : State) (frames : Frames)
        → place iface instructions (take m instructions) ≡ some pc
        → called_at p.labels instructions m ≡ false
        → Matches iface instructions code p (evm_at m s.guest []) (cpu_at pc s frames)
    start-Matches m pc s frames begins uncalled = record {
      begins = begins;
      same = refl;
      entered =
          subst (λ (b : Bool). IsEntered iface instructions code p b [] (s.x link_register) frames)
            (sym uncalled) tt;
    }

-- The code begins behind the main prologue.
pub place-entry :
    (iface : Interface) (instructions : List Instruction) (code : List ℕ)
    → Parts iface instructions code
    → place iface instructions [] ≡ some entry
unfolding begin compile_all
place-entry iface instructions code p =
    place_of iface instructions code p [] (empty p.prologue) refl
    ∙ ap
        (λ (o : Option (Unit {0} × List ℕ)). elim o [
          | none ↦ some entry
          | some (u, words) ↦ some (length words)
        ])
        (sym p.began)

-- From instruction `m` on, by the parts of `Compile`.
pub compile-Follows :
    (iface : Interface) (services : Services) (creations : Creations) (functions : Functions)
    (instructions : List Instruction) (code : List ℕ) (labels : Labels) (m pc : ℕ) (s : State)
    (frames : Frames) (e : Evm) (p : Parts iface instructions code)
    → length code < 2 ^ 18
    → find_labels instructions [] ≡ some labels
    → only_called labels true instructions ≡ true
    → Serves iface services functions
    → HasAddresses iface
    → CreatesAt iface instructions creations functions
    → place iface instructions (take m instructions) ≡ some pc
    → called_at labels instructions m ≡ false
    → Runs services creations instructions (evm_at m s.guest []) e
    → Follows iface instructions code p functions (cpu_at pc s frames) e
compile-Follows iface services creations functions instructions code labels m pc s frames e p small
      marked apart serves far creates_at begins uncalled runs =
    let same : labels ≡ p.labels = ground (arith, marked, p.found) in
    let apart' = subst (λ (l : Labels). only_called l true instructions ≡ true) same apart in
    let uncalled' = subst (λ (l : Labels). called_at l instructions m ≡ false) same uncalled in
    run-Follows iface services creations functions instructions code serves far creates_at small p
      apart' (evm_at m s.guest []) e (cpu_at pc s frames) runs
      (start-Matches iface services creations functions instructions code serves far creates_at
        small p apart' m pc s frames begins uncalled')

-- For a program that `Compile` accepts, with code of fewer than 2^18 words, in which no
-- instruction that is called comes first or right behind one that goes on with the next, and a
-- host at 64-bit addresses whose functions do what its services do and whose function for threads
-- gets the place of the code of the instruction that a thread begins at: whatever the interpreter
-- of the program, started at an instruction that is not called, can reach, the processor, started
-- at the place of its code with the same guest and any registers and stack, reaches too: it comes
-- to the place of the same instruction with the same guest registers and memory. The program may
-- compute, ask the host, create threads at bit addresses below 2^16, jump, compare and jump, call
-- and return.
pub compile-Simulates :
    (iface : Interface) (services : Services) (creations : Creations) (functions : Functions)
    (instructions : List Instruction) (code : List ℕ) (labels : Labels) (m pc : ℕ) (s : State)
    (frames : Frames) (e : Evm)
    → compile iface instructions ≡ some code
    → length code < 2 ^ 18
    → find_labels instructions [] ≡ some labels
    → only_called labels true instructions ≡ true
    → Serves iface services functions
    → HasAddresses iface
    → CreatesAt iface instructions creations functions
    → place iface instructions (take m instructions) ≡ some pc
    → called_at labels instructions m ≡ false
    → Runs services creations instructions (evm_at m s.guest []) e
    → (cpu : Cpu) × Reaches functions code (cpu_at pc s frames) cpu
      × (place iface instructions (take e.at instructions) ≡ some cpu.pc)
      × (cpu.state.guest ≡ e.guest)
compile-Simulates iface services creations functions instructions code labels m pc s frames e
      compiled small marked apart serves far creates_at begins uncalled runs =
    let p = compile-Parts iface instructions code compiled in
    let (cpu, reaches, matches) =
      compile-Follows iface services creations functions instructions code labels m pc s frames e p
        small marked apart serves far creates_at begins uncalled runs in
    (cpu, reaches, matches.begins, matches.same)
