-- ===== src/Compile/Run/Targets.antt =====
-- The mapping of `Compile` (compile.h) and the order of the program: the place of a bit address is
-- where the code of the first instruction at that address begins.
use temp_esas.Prelude.{
  ℕ, suc, ◌≡◌, ◌≢◌, refl, sym, subst, arith, inl, inr, List, [], ◌∷◌, ◌++◌, none, some, ◌>>=◌, ◌==◌,
  Bool-cases, Option-cases, length, get_elem?, take,
}
use temp_esas.Evm2.Types.{Instruction}
use temp_esas.Compile.Labels.{Labels}
use temp_esas.Compile.Instr.{Interface}
use temp_esas.Compile.Program.{Mapping, find_index, insert_index, Compiler, compile_all}
use temp_esas.Compile.Places.{compile_instruction-parts}
use temp_esas.Compile.Entries.{find_index-kept, find_index-insert}
use temp_esas.Compile.Loop.{compile_all-nil, compile_all-step}
use temp_esas.Compile.Resolve.{empty, Parts, place, place_of}
use temp_esas.Compile.Run.Meaning.{index_at}

find_index-new :
    (a index : ℕ) (mapping : Mapping)
    → find_index a (mapping ++ (a, index) ∷ [])
      ≡ (elim (find_index a mapping) [ none ↦ some index | some old ↦ some old ])
unfolding find_index
find_index-new a index [] = ground arith
find_index-new a index ((k, v) ∷ mapping) = ground (arith, find_index-new a index mapping)

insert_index-new :
    (a index : ℕ) (mapping : Mapping)
    → find_index a mapping ≡ none
    → find_index a (insert_index a index mapping) ≡ some index
unfolding insert_index
insert_index-new a index mapping new = ground (arith, new, find_index-new a index mapping)

insert_index-other :
    (a b index : ℕ) (mapping : Mapping)
    → a ≢ b
    → find_index a mapping ≡ none
    → find_index a (insert_index b index mapping) ≡ none
insert_index-other a b index mapping apart new =
    elim (Option-cases (find_index a (insert_index b index mapping))) [
      | inl still ↦ still
      | inr (at, found) ↦ elim (find_index-insert a b at index mapping found) [
        | inl old ↦ ground (arith, new, old)
        | inr (same, here) ↦ absurd (apart same)
      ]
    ]

pub index_at-addressed :
    (a : ℕ) (instructions : List Instruction) (n : ℕ)
    → index_at a instructions ≡ some n
    → (i : Instruction) × (get_elem? instructions n ≡ some i) × (i.bit_offset ≡ a)
unfolding index_at
index_at-addressed a [] n e = absurd (ground (arith, e))
index_at-addressed a (i ∷ instructions) n e = elim (Bool-cases (i.bit_offset == a)) [
  | inl here ↦
      let zero_n : n ≡ 0 = ground (arith, e, here) in
      (
        i,
        subst (λ (k : ℕ). get_elem? (i ∷ instructions) k ≡ some i) (sym zero_n) refl,
        ground (arith, here),
      )
  | inr past ↦ elim (Option-cases (index_at a instructions)) [
    | inl never ↦ absurd (ground (arith, e, past, never))
    | inr (m, found) ↦
        let (j, at, addressed) = index_at-addressed a instructions m found in
        let next : n ≡ suc m = ground (arith, e, past, found) in
        (j, subst (λ (k : ℕ). get_elem? (i ∷ instructions) k ≡ some j) (sym next) at, addressed)
  ]
]

module _ (iface : Interface) (labels : Labels) where
  kept_later :
      (instructions : List Instruction) (c c' : Compiler) (a index : ℕ)
      → compile_all iface labels instructions c ≡ some c'
      → find_index a c.mapping ≡ some index
      → find_index a c'.mapping ≡ some index
  kept_later [] c c' a index e found =
      subst (λ (x : Compiler). find_index a x.mapping ≡ some index)
        (compile_all-nil iface labels c c' e) found
  kept_later (i ∷ instructions) c c'' a index e found =
      let (c', e₁, e₂) = compile_all-step iface labels i instructions c c'' e in
      let (f, emitted, mapping, fixups) = compile_instruction-parts iface labels i c c' e₁ in
      kept_later instructions c' c'' a index e₂ (
        subst (λ (m : Mapping). find_index a m ≡ some index) (sym mapping)
          (find_index-kept a i.bit_offset index (length c.code) c.mapping found))

  pub first-find_index :
      (instructions : List Instruction) (c c' : Compiler) (a n : ℕ)
      → compile_all iface labels instructions c ≡ some c'
      → find_index a c.mapping ≡ none
      → index_at a instructions ≡ some n
      → (d : Compiler) × (compile_all iface labels (take n instructions) c ≡ some d)
        × (find_index a c'.mapping ≡ some (length d.code))
  unfolding compile_all index_at
  first-find_index [] c c' a n e new found = absurd (ground (arith, found))
  first-find_index (i ∷ instructions) c c'' a n e new found =
      let (c', e₁, e₂) = compile_all-step iface labels i instructions c c'' e in
      let (f, emitted, mapping, fixups) = compile_instruction-parts iface labels i c c' e₁ in
      elim (Bool-cases (i.bit_offset == a)) [
        | inl here ↦
            let zero_n : n ≡ 0 = ground (arith, found, here) in
            let same : i.bit_offset ≡ a = ground (arith, here) in
            (
              c,
              rw zero_n refl,
              kept_later instructions c' c'' a (length c.code) e₂ (
                  subst (λ (m : Mapping). find_index a m ≡ some (length c.code)) (sym mapping)
                    (subst
                      (λ (b : ℕ).
                        find_index a (insert_index b (length c.code) c.mapping)
                        ≡ some (length c.code))
                      (sym same) (insert_index-new a (length c.code) c.mapping new))),
            )
        | inr past ↦ elim (Option-cases (index_at a instructions)) [
          | inl never ↦ absurd (ground (arith, found, past, never))
          | inr (m, later) ↦
              let next : n ≡ suc m = ground (arith, found, past, later) in
              let (d, front, at) =
                first-find_index instructions c' c'' a m e₂
                  (subst (λ (l : Mapping). find_index a l ≡ none) (sym mapping)
                    (insert_index-other a i.bit_offset (length c.code) c.mapping
                      (ground (arith, past)) new))
                  later in
              (d, rw next (rw (e₁, ◌>>=◌) front), at)
        ]
      ]

-- The place that the mapping has for the address of instruction `n`, the first one there.
pub mapping-place :
    (iface : Interface) (instructions : List Instruction) (code : List ℕ)
    (p : Parts iface instructions code) (a n : ℕ)
    → index_at a instructions ≡ some n
    → (index : ℕ) × (find_index a p.c.mapping ≡ some index)
      × (place iface instructions (take n instructions) ≡ some index)
unfolding find_index
mapping-place iface instructions code p a n found =
    let (d, front, at) =
      first-find_index iface p.labels instructions (empty p.prologue) p.c a n p.compiled refl
        found in
    (length d.code, at, place_of iface instructions code p (take n instructions) d front)
