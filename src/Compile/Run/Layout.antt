-- ===== src/Compile/Run/Layout.antt =====
-- Where the pieces of one instruction's code stand in what `Compile` (compile.h) hands over.
use temp_esas.Prelude.{
  ℕ, suc, ◌+◌, ◌≤◌, ◌<◌, ◌≡◌, ◌∙◌, ap, sym, refl, subst, arith, List, [], ◌∷◌, ◌++◌, Option, none,
  some, length, length-append, get_elem?, get_elem?-lt, take, Bool,
}
use temp_esas.Arm64.Backend.{gen_nop}
use temp_esas.Evm2.Types.{Instruction}
use temp_esas.Frontend.Patch.{patched}
use temp_esas.Machine.Cpu.{Holds, Holds-append, Holds-end, Holds-same}
use temp_esas.Compile.Labels.{find_label}
use temp_esas.Compile.Instr.{Interface, Fixup, compile_op}
use temp_esas.Compile.Program.{find_index}
use temp_esas.Compile.Straight.{is_called}
use temp_esas.Compile.Resolve.{Parts, place, loop-Sound, whole-length}
use temp_esas.Compile.Resolve
use temp_esas.Compile.Run.Final.{Placed}
use temp_esas.Compile.Run.Words.{prologue_words, emit_instruction-words}

-- An instruction's code with nothing to patch.
pub record Plain (iface : Interface) (instructions : List Instruction) (code : List ℕ)
    (p : Parts iface instructions code) (n start : ℕ) (called : Bool) (body : List ℕ) : Type 0 where
  pub prologue : Holds code start (prologue_words called)
  pub words : Holds code (start + length (prologue_words called)) body
  pub padding : get_elem? code (start + length (prologue_words called) + length body) ≡ some gen_nop
  pub ends :
      place iface instructions (take (suc n) instructions)
      ≡ some (suc (start + length (prologue_words called) + length body))

-- An instruction's code with a word `w` that is patched for the address `t`.
pub record Branching (iface : Interface) (instructions : List Instruction) (code : List ℕ)
    (p : Parts iface instructions code) (n start : ℕ) (called : Bool) (body : List ℕ) (w t : ℕ)
    : Type 0 where
  pub prologue : Holds code start (prologue_words called)
  pub words : Holds code (start + length (prologue_words called)) body
  pub place : ℕ
  pub placed : place ≡ start + length (prologue_words called) + length body
  pub target : ℕ
  pub word : ℕ
  pub found : find_index t p.c.mapping ≡ some target
  pub turned : patched w place target ≡ some word
  pub at : get_elem? code place ≡ some word
  pub padding : get_elem? code (suc place) ≡ some gen_nop
  pub ends : Resolve.place iface instructions (take (suc n) instructions) ≡ some (suc (suc place))
  pub here : place < length code
  pub there : target ≤ length code

module _ (iface : Interface) (instructions : List Instruction) (code : List ℕ)
    (p : Parts iface instructions code) (n : ℕ) (i : Instruction)
    (q : Placed iface instructions code p n i) where
  abbrev pub called : Bool
  called = is_called (find_label i.bit_offset p.labels)

  abbrev pub lead : List ℕ
  lead = prologue_words called

  -- What the emission was.
  pub emission :
      (body : List ℕ) (f : Option Fixup)
      → compile_op iface i.opcode i.args (q.before ++ lead) ≡ some (f, (q.before ++ lead) ++ body)
      → (q.fixup ≡ f) × (q.after ≡ q.before ++ (lead ++ (body ++ gen_nop ∷ [])))
  emission body f e =
      let same = sym q.emitted ∙ emit_instruction-words iface p.labels i q.before body f e in
      (
        ap (λ (o : Option (Option Fixup × List ℕ)). elim o [ none ↦ f | some (g, c) ↦ g ]) same,
        ap (λ (o : Option (Option Fixup × List ℕ)). elim o [ none ↦ q.after | some (g, c) ↦ c ])
            same,
      )

  pub three_lengths :
      (xs ys : List ℕ)
      → length (q.before ++ (lead ++ (xs ++ ys)))
        ≡ length q.before + length lead + length xs + length ys
  three_lengths xs ys = omega (
    arith,
    length-append {0} q.before (lead ++ (xs ++ ys)),
    length-append {0} lead (xs ++ ys),
    length-append {0} xs ys,
  )

  pub instruction-Plain :
      (body : List ℕ)
      → compile_op iface i.opcode i.args (q.before ++ lead)
        ≡ some (none, (q.before ++ lead) ++ body)
      → Plain iface instructions code p n (length q.before) called body
  instruction-Plain body e =
      let (no_fixup, all) = emission body none e in
      let words = lead ++ (body ++ gen_nop ∷ []) in
      let never : (m t : ℕ) → ¬ (q.fixup ≡ some (m, t)) =
        λ m t own. ground (arith, no_fixup, own) in
      let stands : Holds code (length q.before) words =
        Holds-same q.after code words (length q.before)
          (λ m w low high here. q.kept m w low (never m) here)
          (subst (λ (c : List ℕ). Holds c (length q.before) words) (sym all)
            (Holds-end q.before words)) in
      let (prologue, rest) =
        Holds-append code (length q.before) lead (body ++ gen_nop ∷ []) stands in
      let (middle, (padding, last)) =
        Holds-append code (length q.before + length lead) body (gen_nop ∷ []) rest in
      record {
        prologue = prologue;
        words = middle;
        padding = padding;
        ends =
            q.ends
            ∙ ap some (
                ap (λ (c : List ℕ). length c) all
                ∙ three_lengths body (gen_nop ∷ [])
                ∙ omega arith);
      }

  pub instruction-Branching :
      (body : List ℕ) (w t : ℕ)
      → compile_op iface i.opcode i.args (q.before ++ lead)
        ≡ some
            (some (length ((q.before ++ lead) ++ body), t), (q.before ++ lead) ++ (body ++ w ∷ []))
      → Branching iface instructions code p n (length q.before) called body w t
  instruction-Branching body w t e =
      let start = length q.before in
      let m = start + length lead + length body in
      let (own, all) =
        emission (body ++ w ∷ []) (some (length ((q.before ++ lead) ++ body), t)) e in
      let place_m : length ((q.before ++ lead) ++ body) ≡ m =
        omega (arith, length-append {0} (q.before ++ lead) body, length-append {0} q.before lead) in
      let owned : q.fixup ≡ some (m, t) = own ∙ ap (λ (k : ℕ). some (k, t)) place_m in
      let words = lead ++ ((body ++ w ∷ []) ++ gen_nop ∷ []) in
      let emitted : Holds q.after start words =
        subst (λ (c : List ℕ). Holds c start words) (sym all) (Holds-end q.before words) in
      let kept : (k v : ℕ)
          → start ≤ k
          → ¬ (k ≡ m)
          → get_elem? q.after k ≡ some v
          → get_elem? code k ≡ some v =
        λ k v low apart here. q.kept k v low (λ u mine. apart (ground (arith, owned, mine))) here in
      let (lead_at, rest) =
        Holds-append q.after start lead ((body ++ w ∷ []) ++ gen_nop ∷ []) emitted in
      let (both, (padding, last)) =
        Holds-append q.after (start + length lead) (body ++ w ∷ []) (gen_nop ∷ []) rest in
      let (body_at, (word_at, end)) =
        Holds-append q.after (start + length lead) body (w ∷ []) both in
      let next : start + length lead + length (body ++ w ∷ []) ≡ suc m =
        omega (arith, length-append {0} body (w ∷ [])) in
      let (target, word, found, turned, at) = q.fixed m t w owned word_at in
      let sound = loop-Sound iface instructions code p in
      record {
        prologue =
            Holds-same q.after code lead start
              (λ k v low high here. kept k v low (λ same. omega (arith, same, high)) here) lead_at;
        words =
            Holds-same q.after code body (start + length lead)
              (λ k v low high here.
                kept k v (omega (arith, low)) (λ same. omega (arith, same, high)) here)
              body_at;
        place = m;
        placed = refl;
        target = target;
        word = word;
        found = found;
        turned = turned;
        at = at;
        padding =
            kept (suc m) gen_nop (omega arith) (λ same. omega (arith, same))
              (subst (λ (k : ℕ). get_elem? q.after k ≡ some gen_nop) next padding);
        ends =
            q.ends
            ∙ ap some (
                ap (λ (c : List ℕ). length c) all
                ∙ three_lengths (body ++ w ∷ []) (gen_nop ∷ [])
                ∙ omega (arith, length-append {0} body (w ∷ [])));
        here = get_elem?-lt code m word at;
        there = omega (arith, sound.inside t target found, whole-length iface instructions code p);
      }
