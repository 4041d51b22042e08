-- ===== src/Compile/Run/Block.antt =====
-- Code that a step of the front end emits, as a block that the processor runs in place, calls of the
-- host among it.
use temp_esas.Prelude.{
  ℕ, suc, ◌+◌, ◌≡◌, ◌∙◌, refl, ap, sym, subst, arith, List, [], ◌∷◌, ◌++◌, none, some, Option,
  ◌>>=◌, length, length-append, get_elem?, drop, drop-append,
}
use mathlib.Core.List.{append_assoc}
use temp_esas.Arm64.Backend.{cond_eq, gen_blr}
use temp_esas.Arm64.Isa.{blr}
use temp_esas.Arm64.Encoding.Branch.{decode-gen_branches}
use temp_esas.Frontend.Code
use temp_esas.Frontend.Code.{Jit, put, ◌>>◌}
use temp_esas.Frontend.Blocks.{Gives}
use temp_esas.Machine.{State, step, run}
use temp_esas.Machine.Operand.{Guest}
use temp_esas.Machine.Cpu.{
  Functions, Cpu, put_x, link_register, Reaches, stays, steps, Reaches-trans, Holds, Holds-append,
  run-Reaches, add_suc,
}
use temp_esas.Compile.Run.Control.{control-step}

abbrev pub Frames : Type 0
Frames = List (ℕ × ℕ)

abbrev pub cpu_at : ℕ → State → Frames → Cpu
cpu_at pc s frames = record { pc = pc; state = s; frames = frames }

-- Wherever the words stand, they take the processor from `s` at their start to a state with the
-- guest `g` at their end.
abbrev pub Passes : Functions → List ℕ → State → Guest → Type 0
Passes functions words s g =
    (code : List ℕ) (p : ℕ) (frames : Frames)
    → Holds code p words
    → (s' : State) × (s'.guest ≡ g)
      × Reaches functions code (cpu_at p s frames) (cpu_at (p + length words) s' frames)

-- Whatever code is there already, `m` succeeds with `a` and puts such words behind it.
abbrev pub Puts : {A : Type 0} → Functions → Jit A → A → State → Guest → Type 0
Puts functions m a s g =
    (code : List ℕ)
    → (words : List ℕ) × (m code ≡ some (a, code ++ words)) × Passes functions words s g

append-cancel : (xs ys zs : List ℕ) → xs ++ ys ≡ xs ++ zs → ys ≡ zs
append-cancel xs ys zs e =
    sym (drop-append xs ys) ∙ ap (λ (l : List ℕ). drop (length xs) l) e ∙ drop-append xs zs

module _ (functions : Functions) where
  pub Gives-Puts :
      {A : Type 0} (m : Jit A) (a : A) (s s' : State) (g : Guest)
      → Gives m a s s'
      → s'.guest ≡ g
      → Puts functions m a s g
  Gives-Puts m a s s' g gives same code =
      let (words, e, r) = gives code in
      (
        words,
        e,
        λ full p frames holds. (s', same, run-Reaches functions full words p s s' frames holds r),
      )

  Passes-append :
      (xs ys : List ℕ) (s s' : State) (g : Guest)
      → run xs s ≡ some s'
      → Passes functions ys s' g
      → Passes functions (xs ++ ys) s g
  Passes-append xs ys s s' g first next code p frames holds =
      let (front, back) = Holds-append code p xs ys holds in
      let (t, same, more) = next code (p + length xs) frames back in
      let at_end : p + length xs + length ys ≡ p + length (xs ++ ys) =
        omega (arith, length-append {0} xs ys) in
      (
        t,
        same,
        subst (λ (n : ℕ). Reaches functions code (cpu_at p s frames) (cpu_at n t frames)) at_end
            (Reaches-trans functions code (cpu_at p s frames) (cpu_at (p + length xs) s' frames)
              (cpu_at (p + length xs + length ys) t frames)
              (run-Reaches functions code xs p s s' frames front first) more),
      )

  -- Words that compute, and a block.
  pub Puts-then :
      {A B : Type 0} (m : Jit A) (f : A → Jit B) (a : A) (b : B) (s s' : State) (g : Guest)
      → Gives m a s s'
      → Puts functions (f a) b s' g
      → Puts functions (Code.◌>>=◌ m f) b s g
  Puts-then m f a b s s' g first next code =
      let (xs, e₁, r₁) = first code in
      let (ys, e₂, r₂) = next (code ++ xs) in
      (
        xs ++ ys,
        rw (e₁, Code.◌>>=◌) (e₂ ∙ ap (λ (c : List ℕ). some (b, c)) (append_assoc code xs ys)),
        Passes-append xs ys s s' g r₁ r₂,
      )

  -- A call of the function whose address is in x9.
  call-Reaches :
      (code : List ℕ) (p : ℕ) (s t : State) (frames : Frames)
      → get_elem? code p ≡ some (gen_blr 9)
      → functions (s.x 9) (put_x link_register (suc p) s) ≡ some t
      → Reaches functions code (cpu_at p s frames) (cpu_at (suc p) t frames)
  unfolding step
  call-Reaches code p s t frames here answer =
      let (_, _, _, _, d, _, _, _) = decode-gen_branches cond_eq 0 9 (omega arith) (omega arith) in
      steps (cpu_at p s frames) (cpu_at (suc p) t frames) (cpu_at (suc p) t frames)
        (control-step functions code (cpu_at p s frames) (gen_blr 9) (blr 9) here d refl
          ∙ rw (answer, ◌>>=◌) (ground arith))
        (stays (cpu_at (suc p) t frames))

  -- A call, and what is done with its result in x0; `after` ends with the guest `g`.
  pub call-Puts :
      {A : Type 0} (m : Jit A) (a : A) (s : State) (g g' : Guest) (r : ℕ)
      → ((link : ℕ)
          → (t : State) × (functions (s.x 9) (put_x link_register link s) ≡ some t)
            × (t.x 0 ≡ r)
            × (t.guest ≡ g))
      → ((t : State) → t.x 0 ≡ r → t.guest ≡ g → (t' : State) × (t'.guest ≡ g') × Gives m a t t')
      → Puts functions (put (gen_blr 9) >> m) a s g'
  call-Puts {A} m a s g g' r answers after code =
      let any : State = record { x = λ n. r; compared = (0, 0); guest = g } in
      let behind = code ++ gen_blr 9 ∷ [] in
      let (any', e', gives) = after any refl refl in
      let (words, emitted, _) = gives behind in
      (
        gen_blr 9 ∷ words,
        emitted ∙ ap (λ (c : List ℕ). some (a, c)) (append_assoc code (gen_blr 9 ∷ []) words),
        λ full p frames (here, rest).
            let (t, answer, value, same) = answers (suc p) in
            let (t', end, does) = after t value same in
            let (again, emitted', r') = does behind in
            let equal : again ≡ words = append-cancel behind again words (
              ap (λ (o : Option (A × List ℕ)). elim o [ none ↦ behind | some (b, c) ↦ c ])
                (sym emitted' ∙ emitted)) in
            let ran : run words t ≡ some t' =
              subst (λ (ws : List ℕ). run ws t ≡ some t') equal r' in
            (
              t',
              end,
              Reaches-trans functions full (cpu_at p s frames) (cpu_at (suc p) t frames)
                  (cpu_at (p + suc (length words)) t' frames)
                  (call-Reaches full p s t frames here answer)
                  (subst
                    (λ (n : ℕ).
                      Reaches functions full (cpu_at (suc p) t frames) (cpu_at n t' frames))
                    (add_suc p (length words))
                    (run-Reaches functions full words (suc p) t t' frames rest ran)),
            ),
      )
