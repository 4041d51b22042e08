-- ===== src/Compile/Labels.antt =====
-- The first pass of `Compile` (compile.h): which addresses are jumped to and which are called.
use temp_esas.Prelude.{ℕ, List, [], ◌∷◌, Option, none, some, ◌>>=◌, ◌==◌, if◌then◌else◌}
use temp_esas.Evm2.Types.{Op, Kind, Arg, Instruction}

-- The `char`s 'G' and 'C' of the map `labels`; its default 0 is a missing entry.
pub data Label : Type 0 where
  goto_label call_label : Label

abbrev pub Labels : Type 0
Labels = List (ℕ × Label)

unfoldable pub find_label : ℕ → Labels → Option Label
find_label a [] = none
find_label a ((b, l) ∷ labels) = if b == a then some l else find_label a labels

-- `labels[a] = l`.
abbrev pub set_label : ℕ → Label → Labels → Labels
set_label a l labels = (a, l) ∷ labels

abbrev pub jump_target : List Arg → Option ℕ
jump_target [] = none
jump_target (t ∷ args) = elim t.kind [ Kind.addr ↦ some t.address | _ ↦ none ]

-- The asserts of a call want exactly one argument.
abbrev pub call_target : List Arg → Option ℕ
call_target (t ∷ []) = elim t.kind [ Kind.addr ↦ some t.address | _ ↦ none ]
call_target _ = none

-- `assert(labels[a] != other); labels[a] = l;`
abbrev pub mark : ℕ → Label → Labels → Option Labels
mark a goto_label labels = elim (find_label a labels) [
  | some l ↦ elim l [ call_label ↦ none | goto_label ↦ some (set_label a goto_label labels) ]
  | none ↦ some (set_label a goto_label labels)
]
mark a call_label labels = elim (find_label a labels) [
  | some l ↦ elim l [ goto_label ↦ none | call_label ↦ some (set_label a call_label labels) ]
  | none ↦ some (set_label a call_label labels)
]

-- What an instruction jumps to or calls; `none` is a failed assert on its arguments.
abbrev pub reference : Op → List Arg → Option (Option (ℕ × Label))
reference Op.jump args = do a ← jump_target args; some (some (a, goto_label))
reference Op.jump_eq args = do a ← jump_target args; some (some (a, goto_label))
reference Op.call args = do a ← call_target args; some (some (a, call_label))
reference _ args = some none

abbrev pub mark_reference : Option (ℕ × Label) → Labels → Option Labels
mark_reference none labels = some labels
mark_reference (some (a, l)) labels = mark a l labels

unfoldable pub find_labels : List Instruction → Labels → Option Labels
find_labels [] labels = some labels
find_labels (i ∷ instructions) labels = do
  r ← reference i.opcode i.args
  labels' ← mark_reference r labels
  find_labels instructions labels'
