-- ===== src/Compile/Resolve.antt =====
-- How the three passes of `Compile` (compile.h) together resolve the addresses of a program.
use temp_esas.Prelude.{
  ℕ, ◌≤◌, ◌<◌, ◌≡◌, ◌∙◌, ap, sym, refl, arith, inl, inr, List, [], ◌∷◌, ◌++◌, Option, some, ◌>>=◌,
  Option-cases, length, get_elem?,
}
use temp_esas.Frontend.Patch.{patched}
use temp_esas.Evm2.Types.{Instruction}
use temp_esas.Frontend.Emit.{begin, end}
use temp_esas.Frontend.Growth.{Extends, end-Grows}
use temp_esas.Frontend.Growth.Calls.{Extends-length}
use temp_esas.Compile.Labels.{Labels, find_labels}
use temp_esas.Compile.Instr.{Interface, compile_op}
use temp_esas.Compile.Program.{Compiler, find_index, compile_all, patch_all, compile}
use temp_esas.Compile.Patches.{Listed, IsPatched, patch_all-IsPatched, patch_all-length}
use temp_esas.Compile.Fixups.{Points}
use temp_esas.Compile.Places.{Extends-get_elem?}
use temp_esas.Compile.Loop.{
  Sound, step-Points, compile_all-append, compile_all-step, compile_all-snoc, compile_all-Continues,
  compile_all-Sound,
}
use temp_esas.Compile.Begins.{Begins, AllBegin, compile_all-AllBegin}

abbrev pub empty : List ℕ → Compiler
empty code = record { code = code; mapping = []; fixups = [] }

-- The index at which the code of what follows `before` begins, in the code for `instructions`.
unfoldable pub place : Interface → List Instruction → List Instruction → Option ℕ
place iface instructions before = do
  labels ← find_labels instructions []
  (_, code) ← begin []
  c ← compile_all iface labels before (empty code)
  some (length c.code)

-- The word `n` is among the code for `i`, which follows `xs`, and `target` is where the code for an
-- instruction at the bit address `t` begins.
pub record Resolved (iface : Interface) (instructions xs : List Instruction) (i : Instruction)
    (t n target : ℕ) : Type 0 where
  pub from : ℕ
  pub to : ℕ
  pub begins : place iface instructions xs ≡ some from
  pub ends : place iface instructions (xs ++ i ∷ []) ≡ some to
  pub inside : (from ≤ n) × (n < to)
  pub before : List Instruction
  pub after : List Instruction
  pub j : Instruction
  pub among : instructions ≡ before ++ j ∷ after
  pub addressed : j.bit_offset ≡ t
  pub target_begins : place iface instructions before ≡ some target

-- The parts of `Compile`.
pub record Parts (iface : Interface) (instructions : List Instruction) (code : List ℕ)
    : Type 0 where
  pub labels : Labels
  pub prologue : List ℕ
  pub c : Compiler
  pub pos : ℕ
  pub whole : List ℕ
  pub found : find_labels instructions [] ≡ some labels
  pub began : begin [] ≡ some (tt, prologue)
  pub compiled : compile_all iface labels instructions (empty prologue) ≡ some c
  pub ended : end c.code ≡ some (pos, whole)
  pub patched : patch_all c.mapping c.fixups whole ≡ some code

pub compile-Parts :
    (iface : Interface) (instructions : List Instruction) (code : List ℕ)
    → compile iface instructions ≡ some code
    → Parts iface instructions code
unfolding compile
compile-Parts iface instructions code e = elim (Option-cases (find_labels instructions [])) [
  | inl stop ↦ absurd (ground (arith, stop))
  | inr (labels, found) ↦ elim (Option-cases (begin [])) [
    | inl stop ↦ absurd (ground (arith, found, stop))
    | inr ((u, prologue), began) ↦
        elim (Option-cases (compile_all iface labels instructions (empty prologue))) [
          | inl stop ↦ absurd (ground (arith, found, began, stop))
          | inr (c, compiled) ↦ elim (Option-cases (end c.code)) [
            | inl stop ↦ absurd (ground (arith, found, began, compiled, stop))
            | inr ((pos, whole), ended) ↦ record {
              labels = labels;
              prologue = prologue;
              c = c;
              pos = pos;
              whole = whole;
              found = found;
              began = began;
              compiled = compiled;
              ended = ended;
              patched = ground (arith, found, began, compiled, ended);
            }
          ]
        ]
  ]
]

pub empty-Sound : (code : List ℕ) → Sound (empty code)
unfolding find_index
empty-Sound code = record {
  apart = tt;
  below = λ n t listed. absurd listed;
  inside = λ a index found. absurd (ground (arith, found));
}

empty-AllBegin :
    (iface : Interface) (labels : Labels) (code : List ℕ) → AllBegin iface labels (empty code) [] []
unfolding find_index
empty-AllBegin iface labels code t index found = absurd (ground (arith, found))

module _ (iface : Interface) (instructions : List Instruction) (code : List ℕ)
    (p : Parts iface instructions code) where
  pub place_of :
      (before : List Instruction) (c : Compiler)
      → compile_all iface p.labels before (empty p.prologue) ≡ some c
      → place iface instructions before ≡ some (length c.code)
  unfolding place
  place_of before c e = rw (p.found, p.began, e, ◌>>=◌) refl

  pub loop-Sound : Sound p.c
  loop-Sound =
      compile_all-Sound iface p.labels instructions (empty p.prologue) p.c p.compiled
        (empty-Sound p.prologue)

  pub whole-Extends : Extends p.c.code p.whole
  whole-Extends = end-Grows p.c.code p.whole p.pos p.ended

  pub whole-length : length p.c.code ≤ length code
  whole-length = omega (
    arith,
    Extends-length p.c.code p.whole whole-Extends,
    patch_all-length p.c.mapping p.c.fixups p.whole code p.patched,
  )

  target-Begins :
      (t index : ℕ)
      → find_index t p.c.mapping ≡ some index
      → Begins iface p.labels (empty p.prologue) instructions t index
  unfolding compile_all
  target-Begins t index found =
      compile_all-AllBegin iface p.labels (empty p.prologue) [] instructions (empty p.prologue) p.c
        refl p.compiled (empty-AllBegin iface p.labels p.prologue) t index found

  pub whole-IsPatched :
      (n t w : ℕ)
      → Listed n t p.c.fixups
      → get_elem? p.c.code n ≡ some w
      → IsPatched p.c.mapping code n t w
  whole-IsPatched n t w listed at =
      patch_all-IsPatched p.c.mapping p.c.fixups p.whole code n t w p.patched loop-Sound.apart
        listed (Extends-get_elem? p.c.code p.whole n w whole-Extends at)

-- When `Compile` succeeds, an instruction whose case gives a fixup for `t` at a word that is as `P`
-- says has that word patched with the place of the code for `t`.
pub compile-Resolved :
    (iface : Interface) (xs ys : List Instruction) (i : Instruction) (t : ℕ) (code : List ℕ)
    (P : ℕ → Type 0)
    → compile iface (xs ++ i ∷ ys) ≡ some code
    → Points P (compile_op iface i.opcode i.args) t
    → (n : ℕ) × (w : ℕ) × (w' : ℕ) × (target : ℕ) × Resolved iface (xs ++ i ∷ ys) xs i t n target
      × P w
      × (patched w n target ≡ some w')
      × (get_elem? code n ≡ some w')
      × (n < length code)
      × (target ≤ length code)
compile-Resolved iface xs ys i t code P e b =
    let p = compile-Parts iface (xs ++ i ∷ ys) code e in
    let (c₁, e₁, rest) =
      compile_all-append iface p.labels xs (i ∷ ys) (empty p.prologue) p.c p.compiled in
    let (c₂, e₂, later) = compile_all-step iface p.labels i ys c₁ p.c rest in
    let more = compile_all-Continues iface p.labels ys c₂ p.c later in
    let (n, w, listed, at, pw, low, high) = step-Points iface p.labels i c₁ c₂ e₂ P t b in
    let in_c : Listed n t p.c.fixups = more.fixups n t listed in
    let (target, w', found, turned, now) =
      whole-IsPatched iface (xs ++ i ∷ ys) code p n t w in_c
        (Extends-get_elem? c₂.code p.c.code n w more.code at) in
    let (before, after, j, c₃, among, addressed, e₃, here) =
      target-Begins iface (xs ++ i ∷ ys) code p t target found in
    let sound = loop-Sound iface (xs ++ i ∷ ys) code p in
    let room = whole-length iface (xs ++ i ∷ ys) code p in
    let resolved : Resolved iface (xs ++ i ∷ ys) xs i t n target = record {
      from = length c₁.code;
      to = length c₂.code;
      begins = place_of iface (xs ++ i ∷ ys) code p xs c₁ e₁;
      ends =
          place_of iface (xs ++ i ∷ ys) code p (xs ++ i ∷ []) c₂
            (compile_all-snoc iface p.labels xs i (empty p.prologue) c₁ c₂ e₁ e₂);
      inside = (low, high);
      before = before;
      after = after;
      j = j;
      among = among;
      addressed = addressed;
      target_begins = place_of iface (xs ++ i ∷ ys) code p before c₃ e₃ ∙ ap some (sym here);
    } in
    (
      n,
      w,
      w',
      target,
      resolved,
      pw,
      turned,
      now,
      omega (arith, sound.below n t in_c, room),
      omega (arith, sound.inside t target found, room),
    )
