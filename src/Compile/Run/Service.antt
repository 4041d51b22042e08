-- ===== src/Compile/Run/Service.antt =====
-- The instructions that ask the host (`hostCallWithOps` in jit_arm64_fe.h and the cases of the `switch`
-- in compile.h): their words ask for what they are to ask for.
use temp_esas.Prelude.{
  ℕ, suc, ◌^◌, ◌<◌, ◌≡◌, ◌∙◌, refl, ap, arith, List, [], ◌∷◌, none, some, length,
}
use temp_esas.Evm2.Types.{Op, Arg, default_arg}
use temp_esas.Arm64.Backend.{gen_blr}
use temp_esas.Frontend.Code.{◌>>=◌, ◌>>◌, return, put}
use temp_esas.Frontend.Emit.{emit_load_imm64, load_operand, store_operand, host_call_with_ops}
use temp_esas.Frontend.Growth.Calls.{call_words}
use temp_esas.Frontend.Blocks.{Does, Does-done, Gives-then, Gives-return}
use temp_esas.Frontend.Blocks.Operands.{load_operand-Does, store_operand-Does}
use temp_esas.Frontend.Blocks.Immediate.{emit_load_imm64-Does}
use temp_esas.Frontend.Blocks.Alu.{read_kind-lt}
use temp_esas.Machine.{State, set_x}
use temp_esas.Machine.Operand.{Guest, IsOperand, read_operand, write_operand}
use temp_esas.Machine.Cpu.{Functions, put_x, link_register}
use temp_esas.Compile.Instr.{Interface, host_call, compile_op}
use temp_esas.Compile.Run.Meaning.{
  Service, print_value, read_value, thread_join, thread_sleep, thread_lock, thread_unlock,
  file_read, file_write, Services, Asks, asks_value, prints, joins, sleeps, locks, unlocks,
  reads_file, writes_file,
}
use temp_esas.Compile.Run.Block.{Puts, Puts-then, call-Puts}

abbrev pub address_of : Interface → Service → ℕ
address_of iface print_value = iface.print_value
address_of iface read_value = iface.read_value
address_of iface thread_join = iface.thread_join
address_of iface thread_sleep = iface.thread_sleep
address_of iface thread_lock = iface.thread_lock
address_of iface thread_unlock = iface.thread_unlock
address_of iface file_read = iface.file_read
address_of iface file_write = iface.file_write

-- The arguments are in the registers from `n` up.
abbrev pub AreIn : ℕ → List ℕ → State → Type 0
AreIn n [] s = Unit {0}
AreIn n (v ∷ vs) s = (s.x n ≡ v) × AreIn (suc n) vs s

-- The functions at the addresses of the interface do what the services do, and keep the calling
-- convention: arguments from x0 up, the result in x0. They may change every register.
abbrev pub Serves : Interface → Services → Functions → Type 0
Serves iface services functions =
    (f : Service) (vs : List ℕ) (s : State) (r : ℕ) (g : Guest)
    → services f vs s.guest ≡ some (r, g)
    → AreIn 0 vs s
    → (t : State) × (functions (address_of iface f) s ≡ some t) × (t.x 0 ≡ r) × (t.guest ≡ g)

abbrev pub HasServices : Interface → Type 0
HasServices iface = (f : Service) → address_of iface f < 2 ^ 64

-- The addresses of the services, and of the function that creates threads, are 64-bit numbers.
abbrev pub HasAddresses : Interface → Type 0
HasAddresses iface = HasServices iface × (iface.thread_create < 2 ^ 64)

-- The result goes to the operand, if there is one.
abbrev pub Stores : Arg → Type 0
Stores a =
    (t : State)
    → (t' : State) × (t'.guest ≡ write_operand a (t.x 0) t.guest) × Does (store_operand a 0) t t'

pub operand-Stores : (a : Arg) → IsOperand a → Stores a
operand-Stores a ha t = store_operand-Does 0 (omega arith) (omega arith) a t ha

absent-Stores : Stores default_arg
unfolding store_operand
absent-Stores t = (t, refl, Does-done t)

pub absent-Does : (reg : ℕ) (s : State) → Does (load_operand default_arg reg) s s
unfolding load_operand
absent-Does reg s = Does-done s

-- A call of a function that answers, with its arguments in their registers.
pub call-answer :
    (functions : Functions) (address : ℕ) (dest : Arg) (pos r : ℕ) (s : State) (g : Guest)
    → address < 2 ^ 64
    → ((link : ℕ)
        → (t : State) × (functions address (put_x link_register link (set_x 9 address s)) ≡ some t)
          × (t.x 0 ≡ r)
          × (t.guest ≡ g))
    → Stores dest
    → Puts functions
        (emit_load_imm64 9 address >> (put (gen_blr 9) >> (store_operand dest 0 >> return pos)))
        pos
        s
        (write_operand dest r g)
call-answer functions address dest pos r s g far answers stores =
    let s₁ = set_x 9 address s in
    let same : s₁.x 9 ≡ address = omega (arith, far) in
    Puts-then functions (emit_load_imm64 9 address) _ tt pos s s₁ _
      (emit_load_imm64-Does 9 address (omega arith) far s)
      (call-Puts functions (store_operand dest 0 >> return pos) pos s₁ g (write_operand dest r g) r
        (λ link.
          let (t, e, value, guest) = answers link in
          (t, ap (λ (a : ℕ). functions a (put_x link_register link s₁)) same ∙ e, value, guest))
        (λ t value guest.
          let (t', stored, does) = stores t in
          (
            t',
            stored
                ∙ ap (λ (v : ℕ). write_operand dest v t.guest) value
                ∙ ap (λ (h : Guest). write_operand dest r h) guest,
            Gives-then (store_operand dest 0) _ tt pos t t' t' does (Gives-return pos t'),
          )))

module _ (iface : Interface) (services : Services) (functions : Functions)
    (serves : Serves iface services functions) (far : HasServices iface) where
  -- The call itself, with the arguments in their registers.
  call_with :
      (f : Service) (vs : List ℕ) (dest : Arg) (pos r : ℕ) (s : State) (g : Guest)
      → services f vs s.guest ≡ some (r, g)
      → ((link : ℕ) → AreIn 0 vs (put_x link_register link (set_x 9 (address_of iface f) s)))
      → Stores dest
      → Puts functions
          (emit_load_imm64 9 (address_of iface f)
            >> (put (gen_blr 9) >> (store_operand dest 0 >> return pos)))
          pos
          s
          (write_operand dest r g)
  call_with f vs dest pos r s g answer arguments stores =
      call-answer functions (address_of iface f) dest pos r s g (far f)
        (λ link.
          serves f vs (put_x link_register link (set_x 9 (address_of iface f) s)) r g answer
            (arguments link))
        stores

  -- The whole of `hostCallWithOps`, for operands that are loaded as they are to be.
  host_call-Puts :
      (f : Service) (vs : List ℕ) (dest a b c : Arg) (r : ℕ) (s s₁ s₂ s₃ : State) (g : Guest)
      → Does (load_operand a 0) s s₁
      → Does (load_operand b 1) s₁ s₂
      → Does (load_operand c 2) s₂ s₃
      → services f vs s₃.guest ≡ some (r, g)
      → ((link : ℕ) → AreIn 0 vs (put_x link_register link (set_x 9 (address_of iface f) s₃)))
      → Stores dest
      → Puts functions (host_call (address_of iface f) dest a b c) none s (write_operand dest r g)
  unfolding host_call_with_ops
  host_call-Puts f vs dest a b c r s s₁ s₂ s₃ g da db dc answer arguments stores code =
      let pos = length code in
      let block : Puts functions (call_words (address_of iface f) dest a b c default_arg pos) pos s
          (write_operand dest r g) =
        Puts-then functions (load_operand a 0) _ tt pos s s₁ _ da (
          Puts-then functions (load_operand b 1) _ tt pos s₁ s₂ _ db (
            Puts-then functions (load_operand c 2) _ tt pos s₂ s₃ _ dc (
              Puts-then functions (load_operand default_arg 3) _ tt pos s₃ s₃ _ (absent-Does 3 s₃)
                (call_with f vs dest pos r s₃ g answer arguments stores)))) in
      let (words, e, passes) = block code in (words, rw (e, ◌>>=◌) refl, passes)

  no_argument-Puts :
      (f : Service) (dest : Arg) (r : ℕ) (s : State) (g : Guest)
      → services f [] s.guest ≡ some (r, g)
      → Stores dest
      → Puts functions
          (host_call (address_of iface f) dest default_arg default_arg default_arg)
          none
          s
          (write_operand dest r g)
  no_argument-Puts f dest r s g answer stores =
      host_call-Puts f [] dest default_arg default_arg default_arg r s s s s g (absent-Does 0 s)
        (absent-Does 1 s) (absent-Does 2 s) answer (λ link. tt) stores

  one_argument-Puts :
      (f : Service) (a : Arg) (r : ℕ) (s : State) (g : Guest)
      → IsOperand a
      → services f (read_operand a s.guest ∷ []) s.guest ≡ some (r, g)
      → Puts functions
          (host_call (address_of iface f) default_arg a default_arg default_arg)
          none
          s
          g
  one_argument-Puts f a r s g ha answer =
      let s₁ = set_x 0 (read_operand a s.guest) s in
      host_call-Puts f (read_operand a s.guest ∷ []) default_arg a default_arg default_arg r s s₁ s₁
        s₁ g (load_operand-Does 0 (omega arith) a s ha) (absent-Does 1 s₁) (absent-Does 2 s₁) answer
        (λ link. (omega (arith, read_kind-lt a.kind a s.guest), tt)) absent-Stores

  three_arguments-Puts :
      (f : Service) (dest a b c : Arg) (r : ℕ) (s : State) (g : Guest)
      → IsOperand a
      → IsOperand b
      → IsOperand c
      → services f
          (read_operand a s.guest ∷ read_operand b s.guest ∷ read_operand c s.guest ∷ [])
          s.guest
        ≡ some (r, g)
      → Stores dest
      → Puts functions (host_call (address_of iface f) dest a b c) none s (write_operand dest r g)
  three_arguments-Puts f dest a b c r s g ha hb hc answer stores =
      let u = read_operand a s.guest in
      let v = read_operand b s.guest in
      let w = read_operand c s.guest in
      let s₁ = set_x 0 u s in
      let s₂ = set_x 1 v s₁ in
      let s₃ = set_x 2 w s₂ in
      host_call-Puts f (u ∷ v ∷ w ∷ []) dest a b c r s s₁ s₂ s₃ g
        (load_operand-Does 0 (omega arith) a s ha) (load_operand-Does 1 (omega arith) b s₁ hb)
        (load_operand-Does 2 (omega arith) c s₂ hc) answer
        (λ link. (
          omega (arith, read_kind-lt a.kind a s.guest),
          (
            omega (arith, read_kind-lt b.kind b s.guest),
            (omega (arith, read_kind-lt c.kind c s.guest), tt),
          ),
        ))
        stores

  -- The words of an instruction that asks for a service that answers give the guest the answer.
  pub compile_op-Asks :
      (op : Op) (args : List Arg) (f : Service) (vs : List ℕ) (dest : Arg) (r : ℕ) (s : State)
      (g : Guest)
      → Asks s.guest op args f vs dest
      → services f vs s.guest ≡ some (r, g)
      → Puts functions (compile_op iface op args) none s (write_operand dest r g)
  unfolding compile_op
  compile_op-Asks _ _ _ _ _ r s g (asks_value a reg_a ha) answer =
      rw reg_a (no_argument-Puts read_value a r s g answer (operand-Stores a ha))
  compile_op-Asks _ _ _ _ _ r s g (prints a ha) answer =
      one_argument-Puts print_value a r s g ha answer
  compile_op-Asks _ _ _ _ _ r s g (joins a ha) answer =
      one_argument-Puts thread_join a r s g ha answer
  compile_op-Asks _ _ _ _ _ r s g (sleeps a ha) answer =
      one_argument-Puts thread_sleep a r s g ha answer
  compile_op-Asks _ _ _ _ _ r s g (locks a ha) answer =
      one_argument-Puts thread_lock a r s g ha answer
  compile_op-Asks _ _ _ _ _ r s g (unlocks a ha) answer =
      one_argument-Puts thread_unlock a r s g ha answer
  compile_op-Asks _ _ _ _ _ r s g (reads_file a b c d ha hb hc hd) answer =
      three_arguments-Puts file_read d a b c r s g ha hb hc answer (operand-Stores d hd)
  compile_op-Asks _ _ _ _ _ r s g (writes_file a b c ha hb hc) answer =
      three_arguments-Puts file_write default_arg a b c r s g ha hb hc answer absent-Stores
