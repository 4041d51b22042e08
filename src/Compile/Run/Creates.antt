-- ===== src/Compile/Run/Creates.antt =====
-- What `Compile` (compile.h) emits to create a thread at a bit address of up to sixteen bits, and what
-- the words do once the first of them has the place of the thread's code.
use temp_esas.Prelude.{
  ℕ, suc, ◌+◌, ◌^◌, ◌<◌, ◌≡◌, ◌∙◌, ◌==◌, refl, ap, arith, List, [], ◌∷◌, ◌++◌, Option, some, true,
  length, take, inl, inr,
}
use mathlib.Core.List.{append_assoc}
use temp_esas.Arm64.Backend.{gen_movz_x, gen_blr}
use temp_esas.Evm2.Types.{Op, Arg}
use temp_esas.Frontend.Code
use temp_esas.Frontend.Code.{Jit, ◌>>◌, return, put}
use temp_esas.Frontend.Emit.{
  imm_part, put_parts, load_from, emit_load_imm64, load_operand, store_operand, host_call_with_ops,
}
use temp_esas.Frontend.Blocks.Immediate.{imm_part_mod}
use temp_esas.Machine.{State, set_x}
use temp_esas.Machine.Operand.{Guest, IsOperand, write_operand}
use temp_esas.Machine.Cpu.{Functions, put_x, link_register}
use temp_esas.Compile.Instr.{Interface, is_kind_addr, compile_op}
use temp_esas.Compile.Starts.{kind_addr, low_part, first_part_lem}
use temp_esas.Evm2.Types.{Instruction}
use temp_esas.Compile.Resolve.{place}
use temp_esas.Compile.Run.Block.{Passes}
use temp_esas.Compile.Run.Meaning.{Creations}
use temp_esas.Compile.Run.Service.{call-answer, operand-Stores}

-- The function that creates threads gets the place of the thread's code in x0.
abbrev pub CreatesAt : Interface → List Instruction → Creations → Functions → Type 0
CreatesAt iface instructions creations functions =
    (m index : ℕ) (s : State) (r : ℕ) (g : Guest)
    → creations m s.guest ≡ some (r, g)
    → place iface instructions (take m instructions) ≡ some index
    → s.x 0 ≡ index
    → (t : State) × (functions iface.thread_create s ≡ some t) × (t.x 0 ≡ r) × (t.guest ≡ g)

-- An immediate of one part is one word.
high_part-zero :
    (v : ℕ)
    → v < 2 ^ 16
    → ((imm_part v 1 == 0) ≡ true) × ((imm_part v 2 == 0) ≡ true) × ((imm_part v 3 == 0) ≡ true)
high_part-zero v h = (
  ground (arith, imm_part_mod v 1),
  ground (arith, imm_part_mod v 2),
  ground (arith, imm_part_mod v 3),
)

skip_part :
    (left i reg v : ℕ) (code : List ℕ)
    → (imm_part v i == 0) ≡ true
    → put_parts (suc left) i reg v code ≡ put_parts left (i + 1) reg v code
unfolding put_parts
skip_part left i reg v code z = rw (z, put_parts) refl

put_parts-none :
    (reg v : ℕ) (code : List ℕ) → v < 2 ^ 16 → put_parts 3 1 reg v code ≡ some (tt, code)
unfolding put_parts
put_parts-none reg v code h =
    let (one, two, three) = high_part-zero v h in
    skip_part 2 1 reg v code one ∙ skip_part 1 2 reg v code two ∙ skip_part 0 3 reg v code three

emit_load_imm64-word :
    (reg v : ℕ) (code : List ℕ)
    → v < 2 ^ 16
    → emit_load_imm64 reg v code ≡ some (tt, code ++ gen_movz_x reg v 0 ∷ [])
unfolding emit_load_imm64
emit_load_imm64-word reg v code h = elim (first_part_lem v h) [
  | inl nothing ↦ rw nothing refl
  | inr first ↦
      ap (λ (f : Option ℕ). load_from reg v f code) first
      ∙ put_parts-none reg v (code ++ gen_movz_x reg (imm_part v 0) 0 ∷ []) h
      ∙ ap (λ (w : ℕ). some (tt, code ++ gen_movz_x reg w 0 ∷ [])) (low_part v h)
]

module _ (iface : Interface) (functions : Functions) where
  -- The call, by the words behind the first.
  abbrev call_tail : Arg → ℕ → Jit ℕ
  call_tail a pos =
      emit_load_imm64 9 iface.thread_create
      >> (put (gen_blr 9) >> (store_operand a 0 >> return pos))

  pub create_thread-words :
      (t a : Arg) (code : List ℕ) (r : ℕ) (s : State) (g : Guest)
      → is_kind_addr t ≡ true
      → t.address < 2 ^ 16
      → IsOperand a
      → iface.thread_create < 2 ^ 64
      → ((link : ℕ)
          → (u : State) × (functions iface.thread_create
                (put_x link_register link (set_x 9 iface.thread_create s))
              ≡ some u)
            × (u.x 0 ≡ r)
            × (u.guest ≡ g))
      → (tail : List ℕ) × (compile_op iface Op.create_thread (t ∷ a ∷ []) code
          ≡ some (some (length code, t.address), code ++ gen_movz_x 0 t.address 0 ∷ tail))
        × Passes functions tail s (write_operand a r g)
  unfolding compile_op host_call_with_ops load_operand
  create_thread-words t a code r s g kind small ha far answers =
      let pos = length code in
      let front = code ++ gen_movz_x 0 t.address 0 ∷ [] in
      let (tail, e, passes) =
        call-answer functions iface.thread_create a pos r s g far answers (operand-Stores a ha)
          front in
      (
        tail,
        rw (kind, kind_addr t.kind kind, emit_load_imm64-word 0 t.address code small, Code.◌>>=◌)
            (rw (e, Code.◌>>=◌)
              (ap (λ (c : List ℕ). some (some (pos, t.address), c))
                (append_assoc code (gen_movz_x 0 t.address 0 ∷ []) tail))),
        passes,
      )
