-- ===== src/Compile/Marks.antt =====
-- What the first pass of `Compile` (compile.h) finds out.
use temp_esas.Prelude.{
  ℕ, ◌≡◌, ◌∙◌, ◌↔◌, ◌⊎◌, inl, inr, ap, sym, subst, arith, List, [], ◌∷◌, Option, none, some, ◌>>=◌,
  Option-cases,
}
use temp_esas.Evm2.Types.{Instruction}
use temp_esas.Compile.Labels.{
  set_label, Label, goto_label, call_label, Labels, find_label, mark, reference, mark_reference,
  find_labels,
}

-- An instruction of the list jumps to `a`, or calls it.
abbrev pub Refers : ℕ → Label → List Instruction → Type 0
Refers a l [] = ⊥
Refers a l (i ∷ instructions) =
    (reference i.opcode i.args ≡ some (some (a, l))) ⊎ Refers a l instructions

-- A successful `mark` adds the entry, and finds none or the same.
mark-set_label :
    (b : ℕ) (m : Label) (labels labels' : Labels)
    → mark b m labels ≡ some labels'
    → (labels' ≡ set_label b m labels)
      × ((find_label b labels ≡ none) ⊎ (find_label b labels ≡ some m))
mark-set_label b goto_label labels labels' e = elim (Option-cases (find_label b labels)) [
  | inl free ↦ (ground (arith, free), inl free)
  | inr (goto_label, found) ↦ (ground (arith, found), inr found)
  | inr (call_label, found) ↦ absurd (ground (arith, found))
]
mark-set_label b call_label labels labels' e = elim (Option-cases (find_label b labels)) [
  | inl free ↦ (ground (arith, free), inl free)
  | inr (call_label, found) ↦ (ground (arith, found), inr found)
  | inr (goto_label, found) ↦ absurd (ground (arith, found))
]

-- What the new entry changes.
set_label-find_label :
    (b a : ℕ) (m l : Label) (labels : Labels)
    → (find_label b labels ≡ none) ⊎ (find_label b labels ≡ some m)
    → (find_label a (set_label b m labels) ≡ some l)
      ↔ ((find_label a labels ≡ some l) ⊎ ((b ≡ a) × (m ≡ l)))
unfolding find_label
set_label-find_label b a m l labels before = (λ e. ground arith, λ e. ground arith)

abbrev nothing : Option (ℕ × Label)
nothing = none

missing : {A : Type 0} (x : A) → none ≡ some x → ⊥
missing x e = ground arith

-- One instruction of the pass: what it refers to is marked, and nothing else.
mark_reference-find_label :
    (r : Option (ℕ × Label)) (a : ℕ) (l : Label) (labels labels' : Labels)
    → mark_reference r labels ≡ some labels'
    → (find_label a labels' ≡ some l) ↔ ((find_label a labels ≡ some l) ⊎ (r ≡ some (a, l)))
mark_reference-find_label none a l labels labels' e =
    let same : labels ≡ labels' = ground arith in
    let only : ((find_label a labels ≡ some l) ⊎ (nothing ≡ some (a, l)))
        → find_label a labels ≡ some l =
      λ h. elim h [ inl g ↦ g | inr g ↦ absurd (missing (a, l) g) ] in
    subst
      (λ (ls : Labels).
        (find_label a ls ≡ some l) ↔ ((find_label a labels ≡ some l) ⊎ (nothing ≡ some (a, l))))
      same (λ h. inl h, only)
mark_reference-find_label (some (b, m)) a l labels labels' e =
    let (set, before) = mark-set_label b m labels labels' e in
    let (to, from) = set_label-find_label b a m l labels before in
    (
      λ h. elim (to (subst (λ (ls : Labels). find_label a ls ≡ some l) set h)) [
        | inl g ↦ inl g
        | inr (p, q) ↦ inr (λ i. some (p i, q i))
      ],
      λ h.
          subst (λ (ls : Labels). find_label a ls ≡ some l) (sym set)
            (from (elim h [ inl g ↦ inl g | inr g ↦ inr (ground arith, ground arith) ])),
    )

find_labels-Refers_from :
    (instructions : List Instruction) (start labels : Labels) (a : ℕ) (l : Label)
    → find_labels instructions start ≡ some labels
    → (find_label a labels ≡ some l) ↔ ((find_label a start ≡ some l) ⊎ Refers a l instructions)
unfolding find_labels
find_labels-Refers_from [] start labels a l e =
    let same : start ≡ labels = ground arith in
    subst (λ (ls : Labels). (find_label a ls ≡ some l) ↔ ((find_label a start ≡ some l) ⊎ ⊥)) same
      (λ h. inl h, λ h. elim h [ inl g ↦ g | inr g ↦ absurd g ])
find_labels-Refers_from (i ∷ instructions) start labels a l e =
    elim (Option-cases (reference i.opcode i.args)) [
      | inl bad ↦ absurd (ground (arith, bad))
      | inr (r, good) ↦ elim (Option-cases (mark_reference r start)) [
        | inl clash ↦ absurd (ground (arith, good, clash))
        | inr (next, marked) ↦
            let (to₁, from₁) = mark_reference-find_label r a l start next marked in
            let (to₂, from₂) =
              find_labels-Refers_from instructions next labels a l
                (rw (good, marked, ◌>>=◌) at e) in
            (
              λ h. elim (to₂ h) [
                | inl g ↦ elim (to₁ g) [ inl k ↦ inl k | inr k ↦ inr (inl (good ∙ ap some k)) ]
                | inr g ↦ inr (inr g)
              ],
              λ h. from₂ (elim h [
                | inl g ↦ inl (from₁ (inl g))
                | inr (inl g) ↦ inl (from₁ (inr (ground (arith, good))))
                | inr (inr g) ↦ inr g
              ]),
            )
      ]
    ]

find_labels-Refers_at :
    (instructions : List Instruction) (labels : Labels) (a : ℕ) (l : Label)
    → find_labels instructions [] ≡ some labels
    → (find_label a labels ≡ some l) ↔ Refers a l instructions
unfolding find_label
find_labels-Refers_at instructions labels a l e =
    let (to, from) = find_labels-Refers_from instructions [] labels a l e in
    (λ h. elim (to h) [ inl g ↦ absurd (missing l g) | inr g ↦ g ], λ h. from (inr h))

-- When the first pass of `Compile` succeeds, an address is marked as jumped to or as called
-- exactly if an instruction jumps to it or calls it, and no address is both jumped to and called.
pub find_labels-Refers :
    (instructions : List Instruction) (labels : Labels) (a : ℕ) (l : Label)
    → find_labels instructions [] ≡ some labels
    → ((find_label a labels ≡ some l) ↔ Refers a l instructions)
      × ¬ (Refers a goto_label instructions × Refers a call_label instructions)
find_labels-Refers instructions labels a l e =
    let (jump_to, jump_from) = find_labels-Refers_at instructions labels a goto_label e in
    let (call_to, call_from) = find_labels-Refers_at instructions labels a call_label e in
    (
      find_labels-Refers_at instructions labels a l e,
      λ (jumps, calls).
          let g : find_label a labels ≡ some goto_label = jump_from jumps in
          let c : find_label a labels ≡ some call_label = call_from calls in ground (arith, g, c),
    )
