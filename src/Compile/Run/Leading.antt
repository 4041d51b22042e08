-- ===== src/Compile/Run/Leading.antt =====
-- Where the code of a `CREATETHREAD` stands in what `Compile` (compile.h) hands over: its first word is
-- the one that is patched.
use temp_esas.Prelude.{
  ℕ, suc, ◌+◌, ◌≤◌, ◌≡◌, ◌∙◌, ap, sym, refl, subst, arith, List, [], ◌∷◌, ◌++◌, some, length,
  length-append, get_elem?, take, Bool,
}
use temp_esas.Arm64.Backend.{gen_nop}
use temp_esas.Evm2.Types.{Instruction}
use temp_esas.Frontend.Patch.{patched}
use temp_esas.Machine.Cpu.{Holds, Holds-append, Holds-end, Holds-same}
use temp_esas.Compile.Instr.{Interface, compile_op}
use temp_esas.Compile.Program.{find_index}
use temp_esas.Compile.Resolve
use temp_esas.Compile.Resolve.{Parts, loop-Sound, whole-length}
use temp_esas.Compile.Run.Final.{Placed}
use temp_esas.Compile.Run.Words.{prologue_words}
use temp_esas.Compile.Run.Layout.{called, lead, emission, three_lengths}

pub record Leading (iface : Interface) (instructions : List Instruction) (code : List ℕ)
    (p : Parts iface instructions code) (n start : ℕ) (is_called : Bool) (w t : ℕ) (tail : List ℕ)
    : Type 0 where
  pub prologue : Holds code start (prologue_words is_called)
  pub place : ℕ
  pub placed : place ≡ start + length (prologue_words is_called)
  pub target : ℕ
  pub word : ℕ
  pub found : find_index t p.c.mapping ≡ some target
  pub turned : patched w place target ≡ some word
  pub at : get_elem? code place ≡ some word
  pub words : Holds code (suc place) tail
  pub padding : get_elem? code (suc place + length tail) ≡ some gen_nop
  pub ends :
      Resolve.place iface instructions (take (suc n) instructions)
      ≡ some (suc (suc place + length tail))
  pub there : target ≤ length code

module _ (iface : Interface) (instructions : List Instruction) (code : List ℕ)
    (p : Parts iface instructions code) (n : ℕ) (i : Instruction)
    (q : Placed iface instructions code p n i) where
  pub instruction-Leading :
      (w t : ℕ) (tail : List ℕ)
      → compile_op iface i.opcode i.args (q.before ++ lead iface instructions code p n i q)
        ≡ some (
          some (length (q.before ++ lead iface instructions code p n i q), t),
          (q.before ++ lead iface instructions code p n i q) ++ (w ∷ tail),
        )
      → Leading iface instructions code p n
          (length q.before)
          (called iface instructions code p n i q)
          w
          t
          tail
  instruction-Leading w t tail e =
      let front = lead iface instructions code p n i q in
      let start = length q.before in
      let m = start + length front in
      let (own, all) =
        emission iface instructions code p n i q (w ∷ tail) (some (length (q.before ++ front), t))
          e in
      let owned : q.fixup ≡ some (m, t) =
        own ∙ ap (λ (k : ℕ). some (k, t)) (length-append {0} q.before front) in
      let words = front ++ ((w ∷ tail) ++ gen_nop ∷ []) in
      let emitted : Holds q.after start words =
        subst (λ (c : List ℕ). Holds c start words) (sym all) (Holds-end q.before words) in
      let kept : (k v : ℕ)
          → start ≤ k
          → ¬ (k ≡ m)
          → get_elem? q.after k ≡ some v
          → get_elem? code k ≡ some v =
        λ k v low apart here. q.kept k v low (λ u mine. apart (ground (arith, owned, mine))) here in
      let (front_at, (word_at, rest)) =
        Holds-append q.after start front ((w ∷ tail) ++ gen_nop ∷ []) emitted in
      let (tail_at, (padding, last)) = Holds-append q.after (suc m) tail (gen_nop ∷ []) rest in
      let (target, word, found, turned, at) = q.fixed m t w owned word_at in
      let sound = loop-Sound iface instructions code p in
      record {
        prologue =
            Holds-same q.after code front start
              (λ k v low high here. kept k v low (λ same. omega (arith, same, high)) here) front_at;
        place = m;
        placed = refl;
        target = target;
        word = word;
        found = found;
        turned = turned;
        at = at;
        words =
            Holds-same q.after code tail (suc m)
              (λ k v low high here.
                kept k v (omega (arith, low)) (λ same. omega (arith, same, low)) here)
              tail_at;
        padding =
            kept (suc m + length tail) gen_nop (omega arith) (λ same. omega (arith, same)) padding;
        ends =
            q.ends
            ∙ ap some (
                ap (λ (c : List ℕ). length c) all
                ∙ three_lengths iface instructions code p n i q (w ∷ tail) (gen_nop ∷ [])
                ∙ omega arith);
        there = omega (arith, sound.inside t target found, whole-length iface instructions code p);
      }
