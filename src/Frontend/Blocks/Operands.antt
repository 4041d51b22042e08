-- ===== src/Frontend/Blocks/Operands.antt =====
-- `loadOperand` and `storeOperand` (jit_arm64_fe.h): an operand's value comes into a register, and a
-- register's goes to the operand.
use temp_esas.Prelude.{
  ℕ, ◌*◌, ◌%◌, ◌^◌, ◌<◌, ◌≡◌, ◌≢◌, ◌∙◌, refl, sym, subst, arith, some, ◌==◌, not, true, false,
}
use temp_esas.Arm64.Backend.{gen_reg_mem, gen_ldr_x_imm, gen_str_x_imm}
use temp_esas.Arm64.Isa.{ldr_imm, str_imm, ldr_uxtw, str_uxtw}
use temp_esas.Arm64.Encoding.Memory.{decode-gen_x_imm, decode-gen_reg_mem}
use temp_esas.Evm2.Types.{Kind, Arg}
use temp_esas.Frontend.Code.{put, assert}
use temp_esas.Frontend.Emit.{put_checked, load_kind, store_kind, load_operand, store_operand}
use temp_esas.Machine.{State, step, set_x}
use temp_esas.Machine.Operand.{
  set_slot, set_memory, store_bytes, FitsKind, IsOperand, read_kind, read_operand, write_kind,
  write_operand, load_bytes,
}
use temp_esas.Frontend.Blocks.{Does, Does-done, Does-put, Does-put_checked, Does-then}

-- Only the last value counts.
pub set_x-set_x : (n v w : ℕ) (s : State) → set_x n v (set_x n w s) ≡ set_x n v s
set_x-set_x n v w s = λ i. record s { x = λ m. same m i }
  where
    same : (m : ℕ) → (set_x n v (set_x n w s)).x m ≡ (set_x n v s).x m
    same m = ground arith

pub set_x-mod : (n v : ℕ) (s : State) → set_x n v s ≡ set_x n (v % 2 ^ 64) s
set_x-mod n v s = λ i. record s { x = λ m. same m i }
  where
    same : (m : ℕ) → (set_x n v s).x m ≡ (set_x n (v % 2 ^ 64) s).x m
    same m = ground arith

bits_of_bytes : (mo : ℕ) → 2 ^ mo * 8 ≡ 8 * 2 ^ mo
bits_of_bytes mo = omega arith

module _ (reg : ℕ) (h : reg < 16) where
  load_slot_step :
      (slot : ℕ) (s : State)
      → step (ldr_imm reg 20 slot) s ≡ some (set_x reg (s.guest.slots slot) s)
  unfolding step
  load_slot_step slot s = ground arith

  load_slot :
      (slot : ℕ) (s : State)
      → slot < 16
      → Does (put (gen_ldr_x_imm reg 20 slot)) s (set_x reg (s.guest.slots slot) s)
  load_slot slot s hs =
      let (e, _) = decode-gen_x_imm reg 20 slot (omega arith) (omega arith) (omega arith) in
      Does-put (gen_ldr_x_imm reg 20 slot) (ldr_imm reg 20 slot) s _ e (load_slot_step slot s)

  load_memory_step :
      (size : ℕ) (v : ℕ) (s : State)
      → step (ldr_uxtw size reg 19 reg) (set_x reg v s)
        ≡ some (set_x reg (load_bytes size (v % 2 ^ 64 % 2 ^ 32) s.guest.memory) (set_x reg v s))
  unfolding step
  load_memory_step size v s = ground arith

  load_memory :
      (mo v : ℕ) (s : State)
      → mo < 4
      → Does
          (put_checked (gen_reg_mem reg 19 reg true (2 ^ mo * 8)))
          (set_x reg v s)
          (set_x reg (load_bytes (2 ^ mo) (v % 2 ^ 64 % 2 ^ 32) s.guest.memory) (set_x reg v s))
  load_memory mo v s hm =
      Does-put_checked (gen_reg_mem reg 19 reg true (2 ^ mo * 8)) (ldr_uxtw (2 ^ mo) reg 19 reg) _ _
        (rw (bits_of_bytes mo)
          (decode-gen_reg_mem true mo reg 19 reg hm (omega arith) (omega arith) (omega arith)))
        (load_memory_step (2 ^ mo) v s)

  load_kind-Does :
      (k : Kind) (a : Arg) (s : State)
      → FitsKind k a
      → Does (load_kind k a reg) s (set_x reg (read_kind k a s.guest) s)
  load_kind-Does Kind.reg a s hr =
      subst (Does _ s) (set_x-mod reg (s.guest.slots a.register) s) (load_slot a.register s hr)
  load_kind-Does Kind.mem a s (hr, (mo, hm, e)) =
      let base = s.guest.slots a.register in
      let got = load_bytes a.size_bytes (base % 2 ^ 64 % 2 ^ 32) s.guest.memory in
      subst (Does _ s) (set_x-set_x reg got base s ∙ set_x-mod reg got s) (
        Does-then (put (gen_ldr_x_imm reg 20 a.register)) _ s (set_x reg base s) _
          (load_slot a.register s hr)
          (subst
            (λ (size : ℕ).
              Does (put_checked (gen_reg_mem reg 19 reg true (size * 8))) (set_x reg base s) (
                set_x reg (load_bytes size (base % 2 ^ 64 % 2 ^ 32) s.guest.memory)
                  (set_x reg base s)))
            (sym e) (load_memory mo base s hm)))
  load_kind-Does Kind.absent a s hr = elim hr [ ]
  load_kind-Does Kind.const a s hr = elim hr [ ]
  load_kind-Does Kind.addr a s hr = elim hr [ ]

  -- For a register below 16, `loadOperand` brings in the value of a register or memory operand, and
  -- changes nothing else.
  pub load_operand-Does :
      (a : Arg) (s : State)
      → IsOperand a
      → Does (load_operand a reg) s (set_x reg (read_operand a s.guest) s)
  unfolding load_operand
  load_operand-Does a s ha = load_kind-Does a.kind a s ha

module _ (reg : ℕ) (h : reg < 16) where
  store_slot :
      (slot : ℕ) (s : State)
      → slot < 16
      → Does
          (put (gen_str_x_imm reg 20 slot))
          s
          (record s { guest = set_slot slot (s.x reg) s.guest })
  unfolding step
  store_slot slot s hs =
      let (_, e) = decode-gen_x_imm reg 20 slot (omega arith) (omega arith) (omega arith) in
      Does-put (gen_str_x_imm reg 20 slot) (str_imm reg 20 slot) s _ e (ground arith)

  module _ (apart : reg ≢ 3) where
    store_memory_step :
        (size v : ℕ) (s : State)
        → step (str_uxtw size reg 19 3) (set_x 3 v s)
          ≡ some (record (set_x 3 v s) {
            guest =
                set_memory
                  (store_bytes size (v % 2 ^ 64 % 2 ^ 32) (s.x reg) s.guest.memory)
                  s.guest;
          })
    unfolding step
    store_memory_step size v s = ground arith

    store_memory :
        (mo v : ℕ) (s : State)
        → mo < 4
        → Does
            (put_checked (gen_reg_mem reg 19 3 false (2 ^ mo * 8)))
            (set_x 3 v s)
            (record (set_x 3 v s) {
              guest =
                  set_memory
                    (store_bytes (2 ^ mo) (v % 2 ^ 64 % 2 ^ 32) (s.x reg) s.guest.memory)
                    s.guest;
            })
    store_memory mo v s hm =
        Does-put_checked (gen_reg_mem reg 19 3 false (2 ^ mo * 8)) (str_uxtw (2 ^ mo) reg 19 3) _ _
          (rw (bits_of_bytes mo)
            (decode-gen_reg_mem false mo reg 19 3 hm (omega arith) (omega arith) (omega arith)))
          (store_memory_step (2 ^ mo) v s)

    three_free : true ≡ not (reg == 3)
    three_free = ground arith

    passes : (s : State) → Does (assert (not (reg == 3))) s s
    passes s = subst (λ b. Does (assert b) s s) three_free (Does-done s)

    store_kind-Does :
        (k : Kind) (a : Arg) (s : State)
        → FitsKind k a
        → (s' : State) × (s'.guest ≡ write_kind k a (s.x reg) s.guest)
          × Does (store_kind k a reg) s s'
    store_kind-Does Kind.reg a s hr = (_, refl, store_slot a.register s hr)
    store_kind-Does Kind.mem a s (hr, (mo, hm, e)) =
        let base = s.guest.slots a.register in
        let s' : State = record (set_x 3 base s) {
          guest =
              set_memory
                (store_bytes a.size_bytes (base % 2 ^ 64 % 2 ^ 32) (s.x reg) s.guest.memory)
                s.guest;
        } in
        (
          s',
          refl,
          Does-then (assert (not (reg == 3))) _ s s s' (passes s) (
              Does-then (put (gen_ldr_x_imm 3 20 a.register)) _ s (set_x 3 base s) s'
                (load_slot 3 (omega arith) a.register s hr)
                (subst
                  (λ (size : ℕ).
                    Does (put_checked (gen_reg_mem reg 19 3 false (size * 8))) (set_x 3 base s)
                      (record (set_x 3 base s) {
                        guest =
                            set_memory
                              (store_bytes size (base % 2 ^ 64 % 2 ^ 32) (s.x reg) s.guest.memory)
                              s.guest;
                      }))
                  (sym e) (store_memory mo base s hm))),
        )
    store_kind-Does Kind.absent a s hr = elim hr [ ]
    store_kind-Does Kind.const a s hr = elim hr [ ]
    store_kind-Does Kind.addr a s hr = elim hr [ ]

    -- For a register below 16 other than x3, `storeOperand` puts the register's value into a register or
    -- memory operand, and changes nothing else of the guest.
    pub store_operand-Does :
        (a : Arg) (s : State)
        → IsOperand a
        → (s' : State) × (s'.guest ≡ write_operand a (s.x reg) s.guest)
          × Does (store_operand a reg) s s'
    unfolding store_operand
    store_operand-Does a s ha = store_kind-Does a.kind a s ha
