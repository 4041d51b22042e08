-- ===== src/Compile/Starts.antt =====
-- The word that the entry of a new thread is patched into (`CREATETHREAD` in compile.h): the first
-- one that `hostCallWithOps` puts, if the address has no more than sixteen bits.
use temp_esas.Prelude.{
  ℕ, ◌^◌, ◌<◌, ◌≡◌, ◌⊎◌, ◌∙◌, ◌==◌, ap, sym, refl, subst, arith, inl, inr, List, [], ◌∷◌, ◌++◌,
  Option, some, Bool, true, false, Bool-cases, length, get_elem?, get_elem?-end,
}
use temp_esas.Evm2.Types.{Op, Kind, Arg, default_arg}
use temp_esas.Arm64.Backend.{gen_movz_x, gen_blr}
use temp_esas.Frontend.Code.{Jit, ◌>>◌, assert, put}
use temp_esas.Frontend.Emit.{
  imm_part, first_part, put_parts, load_from, emit_load_imm64, load_kind, load_operand,
  host_call_with_ops,
}
use temp_esas.Frontend.Growth.{
  Grows, code_of, then-some, Grows-and, Grows-put, Grows-return, put_parts-Grows,
  emit_load_imm64-Grows, load_operand-Grows, store_operand-Grows,
}
use temp_esas.Frontend.Growth.Calls.{call_words, host_call-index}
use temp_esas.Frontend.Blocks.Immediate.{imm_part_mod}
use temp_esas.Compile.Instr.{Interface, Fixup, is_kind_addr, compile_op}
use temp_esas.Compile.Fixups.{Points, fixup_for}
use temp_esas.Compile.Places.{Extends-get_elem?}

-- The first word that `m` puts.
abbrev Starts : {A : Type 0} → Jit A → ℕ → Type 0
Starts {A} m w =
    (code code' : List ℕ) (a : A)
    → m code ≡ some (a, code')
    → get_elem? code' (length code) ≡ some w

Starts-put : (w : ℕ) → Starts (put w) w
Starts-put w code code' a e =
    ap (λ (c : List ℕ). get_elem? c (length code)) (code_of tt a (code ++ w ∷ []) code' e)
    ∙ get_elem?-end code w

Starts-and :
    {B : Type 0} (m : Jit (Unit {0})) (k : Jit B) (w : ℕ) → Starts m w → Grows k → Starts (m >> k) w
Starts-and m k w sm gk code code'' b e =
    let (a, code', e₁, e₂) = then-some m (λ _. k) code code'' b e in
    Extends-get_elem? code' code'' (length code) w (gk code' code'' b e₂) (sm code code' a e₁)

pub low_part : (value : ℕ) → value < 2 ^ 16 → imm_part value 0 ≡ value
low_part value h = omega (arith, imm_part_mod value 0)

pub first_part_lem : (value : ℕ) → value < 2 ^ 16 → (value ≡ 0) ⊎ (first_part 4 0 value ≡ some 0)
first_part_lem value h = elim (Bool-cases (imm_part value 0 == 0)) [
  | inl zero_part ↦ inl (ground (arith, zero_part, low_part value h))
  | inr other ↦ inr (ground (arith, other))
]

load_from-Starts :
    (reg value : ℕ)
    → value < 2 ^ 16
    → Starts (load_from reg value (some 0)) (gen_movz_x reg value 0)
load_from-Starts reg value h =
    subst (λ (v : ℕ). Starts (load_from reg value (some 0)) (gen_movz_x reg v 0)) (low_part value h)
      (Starts-and (put (gen_movz_x reg (imm_part value 0) 0)) (put_parts 3 1 reg value) _
        (Starts-put (gen_movz_x reg (imm_part value 0) 0)) (put_parts-Grows 3 1 reg value))

emit_load_imm64-Starts :
    (reg value : ℕ) → value < 2 ^ 16 → Starts (emit_load_imm64 reg value) (gen_movz_x reg value 0)
unfolding emit_load_imm64
emit_load_imm64-Starts reg value h = elim (first_part_lem value h) [
  | inl nothing ↦
      subst (λ (v : ℕ). Starts (load_from reg v (first_part 4 0 v)) (gen_movz_x reg v 0))
        (sym nothing) (Starts-put (gen_movz_x reg 0 0))
  | inr first ↦
      subst (λ (f : Option ℕ). Starts (load_from reg value f) (gen_movz_x reg value 0)) (sym first)
        (load_from-Starts reg value h)
]

load_operand-Starts :
    (op : Arg) (reg : ℕ)
    → op.kind ≡ Kind.addr
    → op.address < 2 ^ 16
    → Starts (load_operand op reg) (gen_movz_x reg op.address 0)
unfolding load_operand
load_operand-Starts op reg kind h =
    subst (λ (k : Kind). Starts (load_kind k op reg) (gen_movz_x reg op.address 0)) (sym kind)
      (emit_load_imm64-Starts reg op.address h)

pub kind_addr : (k : Kind) → elim k [ Kind.addr ↦ true | _ ↦ false ] ≡ true → k ≡ Kind.addr
kind_addr Kind.addr e = refl
kind_addr Kind.absent e = cc
kind_addr Kind.reg e = cc
kind_addr Kind.mem e = cc
kind_addr Kind.const e = cc

assert_then :
    (b : Bool) (k : Jit (Option Fixup)) (code : List ℕ) (r : Option Fixup × List ℕ)
    → (assert b >> k) code ≡ some r
    → (b ≡ true) × (k code ≡ some r)
assert_then true k code r e = (refl, e)
assert_then false k code r e = absurd (ground (arith, e))

module _ (func_ptr : ℕ) (result op1 op2 op3 op4 : Arg) (kind : op1.kind ≡ Kind.addr)
    (h : op1.address < 2 ^ 16) where
  call_words-Starts :
      (pos : ℕ)
      → Starts (call_words func_ptr result op1 op2 op3 op4 pos) (gen_movz_x 0 op1.address 0)
  call_words-Starts pos = Starts-and (load_operand op1 0) _ _ (load_operand-Starts op1 0 kind h) (
      Grows-and _ _ (load_operand-Grows op2 1) (
        Grows-and _ _ (load_operand-Grows op3 2) (
          Grows-and _ _ (load_operand-Grows op4 3) (
            Grows-and _ _ (emit_load_imm64-Grows 9 func_ptr) (
              Grows-and _ _ (Grows-put (gen_blr 9))
                (Grows-and _ _ (store_operand-Grows result 0) (Grows-return pos)))))))

  host_call-Starts :
      Starts (host_call_with_ops func_ptr result op1 op2 op3 op4) (gen_movz_x 0 op1.address 0)
  unfolding host_call_with_ops
  host_call-Starts code code' pos e = call_words-Starts (length code) code code' pos e

-- `createThread` with an address below 2^16 gives a fixup at a `movz` of the address into x0.
pub create_thread-Points :
    (iface : Interface) (t a : Arg)
    → t.address < 2 ^ 16
    → Points
        (λ w. w ≡ gen_movz_x 0 t.address 0)
        (compile_op iface Op.create_thread (t ∷ a ∷ []))
        t.address
unfolding compile_op
create_thread-Points iface t a h code code'' f e =
    let m = host_call_with_ops iface.thread_create a t default_arg default_arg default_arg in
    let (is_addr, run) = assert_then (is_kind_addr t) (fixup_for m t.address) code (f, code'') e in
    let (pos, code', e₁, e₂) = then-some m _ code code'' f run in
    let (index, longer) =
      host_call-index iface.thread_create a t default_arg default_arg default_arg code code' pos
        e₁ in
    let word =
      host_call-Starts iface.thread_create a t default_arg default_arg default_arg
        (kind_addr t.kind is_addr) h code code' pos e₁ in
    let same : code'' ≡ code' = ground (arith, e₂) in
    (
      pos,
      gen_movz_x 0 t.address 0,
      ground (arith, e₂),
      ap (λ (c : List ℕ). get_elem? c pos) same ∙ ap (λ (n : ℕ). get_elem? code' n) index ∙ word,
      refl,
    )
