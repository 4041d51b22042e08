-- ===== src/Compile/Run/Entered.antt =====
-- How the instructions of a program are entered: the ones that the first pass of `Compile` (compile.h)
-- marks as called have a function prologue, which only a call may run.
use temp_esas.Prelude.{
  ℕ, zero, suc, ◌≡◌, ◌∙◌, refl, ap, subst, arith, inl, inr, List, [], ◌∷◌, Option, none, some, Bool,
  true, false, not, ◌&&◌, get_elem?,
}
use temp_esas.Evm2.Types.{Op, Arg, Instruction}
use temp_esas.Compile.Labels.{
  Label, goto_label, call_label, Labels, find_label, find_labels, reference,
}
use temp_esas.Compile.Instr.{is_kind_addr}
use temp_esas.Compile.Marks.{Refers, find_labels-Refers}
use temp_esas.Compile.Straight.{is_called}
use temp_esas.Compile.Starts.{kind_addr}
use temp_esas.Compile.Run.Meaning.{instr, index_at}
use temp_esas.Compile.Run.Targets.{index_at-addressed}

-- The instruction is there and is marked as called.
abbrev pub called_at : Labels → List Instruction → ℕ → Bool
called_at labels instructions n = elim (get_elem? instructions n) [
  | none ↦ false
  | some i ↦ is_called (find_label i.bit_offset labels)
]

-- What goes on with the next instruction, at once or when a call comes back.
abbrev pub goes_on : Op → Bool
goes_on Op.jump = false
goes_on Op.ret = false
goes_on Op.hlt = false
goes_on _ = true

-- No instruction that is called is reached from the one before it; `reached` says whether the first
-- one is.
unfoldable pub only_called : Labels → Bool → List Instruction → Bool
only_called labels reached [] = true
only_called labels reached (i ∷ instructions) =
    not (reached && is_called (find_label i.bit_offset labels))
    && only_called labels (goes_on i.opcode) instructions

only_called-split :
    (labels : Labels) (reached : Bool) (i : Instruction) (instructions : List Instruction)
    → only_called labels reached (i ∷ instructions) ≡ true
    → (not (reached && is_called (find_label i.bit_offset labels)) ≡ true)
      × (only_called labels (goes_on i.opcode) instructions ≡ true)
unfolding only_called
only_called-split labels reached i instructions e = (ground (arith, e), ground (arith, e))

pub first-called_at :
    (labels : Labels) (instructions : List Instruction)
    → only_called labels true instructions ≡ true
    → called_at labels instructions 0 ≡ false
first-called_at labels [] e = refl
first-called_at labels (i ∷ instructions) e =
    let (here, rest) = only_called-split labels true i instructions e in ground (arith, here)

-- What an instruction goes on with is not marked as called.
pub next-called_at :
    (labels : Labels) (reached : Bool) (instructions : List Instruction) (n : ℕ) (i : Instruction)
    → only_called labels reached instructions ≡ true
    → get_elem? instructions n ≡ some i
    → goes_on i.opcode ≡ true
    → called_at labels instructions (suc n) ≡ false
next-called_at labels reached [] n i e at on = absurd (ground (arith, at))
next-called_at labels reached (j ∷ instructions) zero i e at on =
    let (here, rest) = only_called-split labels reached j instructions e in
    let same : j ≡ i = ground (arith, at) in
    first-called_at labels instructions (
      subst (λ (b : Bool). only_called labels b instructions ≡ true)
        (ap (λ (k : Instruction). goes_on k.opcode) same ∙ on) rest)
next-called_at labels reached (j ∷ instructions) (suc n) i e at on =
    let (here, rest) = only_called-split labels reached j instructions e in
    next-called_at labels (goes_on j.opcode) instructions n i rest at on

Refers-at :
    (instructions : List Instruction) (n : ℕ) (i : Instruction) (a : ℕ) (l : Label)
    → get_elem? instructions n ≡ some i
    → reference i.opcode i.args ≡ some (some (a, l))
    → Refers a l instructions
Refers-at [] n i a l at refers = absurd (ground (arith, at))
Refers-at (j ∷ instructions) zero i a l at refers =
    let same : j ≡ i = ground (arith, at) in
    inl (ap (λ (k : Instruction). reference k.opcode k.args) same ∙ refers)
Refers-at (j ∷ instructions) (suc n) i a l at refers =
    inr (Refers-at instructions n i a l at refers)

module _ (labels : Labels) (instructions : List Instruction)
    (found : find_labels instructions [] ≡ some labels) where
  target-called_at :
      (n m a : ℕ) (i : Instruction) (l : Label)
      → get_elem? instructions n ≡ some i
      → reference i.opcode i.args ≡ some (some (a, l))
      → index_at a instructions ≡ some m
      → called_at labels instructions m ≡ is_called (some l)
  target-called_at n m a i l at refers goes =
      let (j, there, addressed) = index_at-addressed a instructions m goes in
      let ((_, marked), _) = find_labels-Refers instructions labels a l found in
      let label = marked (Refers-at instructions n i a l at refers) in
      ap
        (λ (o : Option Instruction). elim o [
          | none ↦ false
          | some k ↦ is_called (find_label k.bit_offset labels)
        ])
        there
      ∙ ap (λ (b : ℕ). is_called (find_label b labels)) addressed
      ∙ ap is_called label

  -- What is jumped to is not marked as called, and what is called is.
  pub jump-called_at :
      (n m o : ℕ) (t : Arg)
      → get_elem? instructions n ≡ some (instr Op.jump o (t ∷ []))
      → is_kind_addr t ≡ true
      → index_at t.address instructions ≡ some m
      → called_at labels instructions m ≡ false
  jump-called_at n m o t at kind goes =
      target-called_at n m t.address (instr Op.jump o (t ∷ [])) goto_label at
        (rw (kind_addr t.kind kind) refl) goes

  pub jump_eq-called_at :
      (n m o : ℕ) (t a b : Arg)
      → get_elem? instructions n ≡ some (instr Op.jump_eq o (t ∷ a ∷ b ∷ []))
      → is_kind_addr t ≡ true
      → index_at t.address instructions ≡ some m
      → called_at labels instructions m ≡ false
  jump_eq-called_at n m o t a b at kind goes =
      target-called_at n m t.address (instr Op.jump_eq o (t ∷ a ∷ b ∷ [])) goto_label at
        (rw (kind_addr t.kind kind) refl) goes

  pub call-called_at :
      (n m o : ℕ) (t : Arg)
      → get_elem? instructions n ≡ some (instr Op.call o (t ∷ []))
      → is_kind_addr t ≡ true
      → index_at t.address instructions ≡ some m
      → called_at labels instructions m ≡ true
  call-called_at n m o t at kind goes =
      target-called_at n m t.address (instr Op.call o (t ∷ [])) call_label at
        (rw (kind_addr t.kind kind) refl) goes
