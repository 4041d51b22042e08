-- ===== src/Compile/Run/Starting.antt =====
-- The instruction that creates a thread: compiled code and the interpreter stay at the same point, and
-- the host gets the place where the thread's code begins.
use temp_esas.Prelude.{
  ℕ, suc, ◌+◌, ◌*◌, ◌^◌, ◌<◌, ◌≡◌, ◌∙◌, refl, ap, sym, subst, arith, List, [], ◌∷◌, ◌++◌, some,
  true, Bool, ◌>>=◌, length, get_elem?, take,
}
use temp_esas.Arm64.Backend.{gen_movz_x}
use temp_esas.Arm64.Encoding.Arith.{decode-gen_immediates}
use temp_esas.Evm2.Types.{Op, Arg, Instruction}
use temp_esas.Frontend.Patch.Lands.{patched-gen_movz_x-some}
use temp_esas.Machine.{State, step, run, set_x}
use temp_esas.Machine.Operand.{Guest, IsOperand, write_operand}
use temp_esas.Machine.Cpu.{
  Functions, Cpu, put_x, link_register, Reaches, Reaches-trans, Reaches-step, run-Reaches,
}
use temp_esas.Compile.Labels.{find_label}
use temp_esas.Compile.Instr.{Interface, is_kind_addr}
use temp_esas.Compile.Program.{find_index}
use temp_esas.Compile.Straight.{is_called}
use temp_esas.Compile.Resolve.{Parts, place, loop-Sound, whole-length}
use temp_esas.Compile.Run.Control.{nop-step}
use temp_esas.Compile.Run.Final.{Placed, instruction-Placed}
use temp_esas.Compile.Run.Block.{cpu_at, Passes}
use temp_esas.Compile.Run.Meaning.{Creations, index_at, instr}
use temp_esas.Compile.Run.Targets.{mapping-place}
use temp_esas.Compile.Run.Words.{prologue_words}
use temp_esas.Compile.Run.Leading.{Leading, instruction-Leading}
use temp_esas.Compile.Run.Creates.{CreatesAt, create_thread-words}
use temp_esas.Compile.Run.Entered.{only_called, next-called_at}
use temp_esas.Compile.Run.Matching.{Matches, IsEntered}
use temp_esas.Compile.Run.Straights.{evm_at, Follows, enters, same_place}

-- The patched word, on a machine.
movz-run :
    (target : ℕ) (s : State)
    → target < 2 ^ 16
    → run (gen_movz_x 0 target 0 ∷ []) s ≡ some (set_x 0 target s)
unfolding run step
movz-run target s h =
    let (d, _, _, _, _, _) =
      decode-gen_immediates 0 0 target 0 0 (omega arith) (omega arith) h (omega arith)
        (omega arith) in
    let same : target * 1 ≡ target = omega arith in
    rw (d, ◌>>=◌) (ap (λ (v : ℕ). some (set_x 0 v s)) same)

module _ (iface : Interface) (instructions : List Instruction) (code : List ℕ)
    (p : Parts iface instructions code) (functions : Functions) (creations : Creations)
    (creates_at : CreatesAt iface instructions creations functions)
    (far : iface.thread_create < 2 ^ 64) (n o m r : ℕ) (t a : Arg) (g g' : Guest) (calls : List ℕ)
    (cpu : Cpu) (at : get_elem? instructions n ≡ some (instr Op.create_thread o (t ∷ a ∷ [])))
    (matches : Matches iface instructions code p (evm_at n g calls) cpu) where
  -- The call gets the place in x0.
  call_at :
      (index link : ℕ)
      → index < 2 ^ 64
      → creations m g ≡ some (r, g')
      → place iface instructions (take m instructions) ≡ some index
      → (t : State) × (functions iface.thread_create
            (put_x link_register link (set_x 9 iface.thread_create (set_x 0 index cpu.state)))
          ≡ some t)
        × (t.x 0 ≡ r)
        × (t.guest ≡ g')
  call_at index link short answer begins =
      creates_at m index
        (put_x link_register link (set_x 9 iface.thread_create (set_x 0 index cpu.state))) r g'
        (ap (λ (h : Guest). creations m h) matches.same ∙ answer) begins (omega (arith, short))

  -- From the instruction to the next one, once its pieces are known.
  Passes-Follows :
      (index : ℕ) (tail : List ℕ)
      (q : Placed iface instructions code p n (instr Op.create_thread o (t ∷ a ∷ [])))
      (b : Leading iface instructions code p n
        (length q.before)
        (is_called (find_label o p.labels))
        (gen_movz_x 0 t.address 0)
        t.address
        tail)
      → only_called p.labels true instructions ≡ true
      → t.address < 2 ^ 16
      → b.target ≡ index
      → Passes functions tail (set_x 0 index cpu.state) (write_operand a r g')
      → Follows iface instructions code p functions cpu
          (evm_at (suc n) (write_operand a r g') calls)
  Passes-Follows index tail q b apart narrow same passes =
      let i = instr Op.create_thread o (t ∷ a ∷ []) in
      let (fits, word) =
        patched-gen_movz_x-some 0 t.address b.place b.target b.word (omega arith) narrow b.turned in
      let s₁ = set_x 0 index cpu.state in
      let ran : run (b.word ∷ []) cpu.state ≡ some s₁ =
        ap (λ (w : ℕ). run (w ∷ []) cpu.state) word
        ∙ movz-run b.target cpu.state fits
        ∙ ap (λ (v : ℕ). some (set_x 0 v cpu.state)) same in
      let here = length q.before + length (prologue_words (is_called (find_label o p.labels))) in
      let (frames, linked, entering) =
        enters iface instructions code p functions n i g calls cpu at matches (length q.before)
          q.begins b.prologue in
      let at_place : Reaches functions code cpu (cpu_at b.place cpu.state frames) =
        subst (λ (k : ℕ). Reaches functions code cpu (cpu_at k cpu.state frames)) (sym b.placed)
          entering in
      let next : b.place + 1 ≡ suc b.place = omega arith in
      let loading : Reaches functions code (cpu_at b.place cpu.state frames)
          (cpu_at (suc b.place) s₁ frames) =
        subst
          (λ (k : ℕ). Reaches functions code (cpu_at b.place cpu.state frames) (cpu_at k s₁ frames))
          next
          (run-Reaches functions code (b.word ∷ []) b.place cpu.state s₁ frames (b.at, tt) ran) in
      let (s', guest, calling) = passes code (suc b.place) frames b.words in
      let last = suc b.place + length tail in
      (
        cpu_at (suc last) s' frames,
        Reaches-step functions code cpu (cpu_at last s' frames) (cpu_at (suc last) s' frames)
            (Reaches-trans functions code cpu (cpu_at (suc b.place) s₁ frames)
              (cpu_at last s' frames)
              (Reaches-trans functions code cpu (cpu_at b.place cpu.state frames)
                (cpu_at (suc b.place) s₁ frames) at_place loading)
              calling)
            (nop-step functions code (cpu_at last s' frames) b.padding),
        record {
          begins = b.ends;
          same = guest;
          entered =
              subst
                (λ (c : Bool).
                  IsEntered iface instructions code p c calls (s'.x link_register) frames)
                (sym (next-called_at p.labels true instructions n i apart at refl)) linked;
        },
      )

  pub create_thread-Follows :
      length code < 2 ^ 18
      → only_called p.labels true instructions ≡ true
      → is_kind_addr t ≡ true
      → t.address < 2 ^ 16
      → IsOperand a
      → index_at t.address instructions ≡ some m
      → creations m g ≡ some (r, g')
      → Follows iface instructions code p functions cpu
          (evm_at (suc n) (write_operand a r g') calls)
  create_thread-Follows small apart kind narrow ha goes answer =
      let i = instr Op.create_thread o (t ∷ a ∷ []) in
      let q = instruction-Placed iface instructions code p n i at in
      let lead = prologue_words (is_called (find_label o p.labels)) in
      let (index, mapped, begins) = mapping-place iface instructions code p t.address m goes in
      let sound = loop-Sound iface instructions code p in
      let short : index < 2 ^ 64 = omega (
        arith,
        small,
        sound.inside t.address index mapped,
        whole-length iface instructions code p,
      ) in
      let (tail, e, passes) =
        create_thread-words iface functions t a (q.before ++ lead) r (set_x 0 index cpu.state) g'
          kind narrow ha far (λ link. call_at index link short answer begins) in
      let b =
        instruction-Leading iface instructions code p n i q (gen_movz_x 0 t.address 0) t.address
          tail e in
      Passes-Follows index tail q b apart narrow
        (same_place (find_index t.address p.c.mapping) b.target index b.found mapped) passes
