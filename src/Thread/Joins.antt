-- ===== src/Thread/Joins.antt =====
-- When a piece of thread.h ends the process, and what becomes of a thread that joins itself.
use temp_esas.Prelude.{
  ℕ, zero, suc, ◌<◌, ◌≡◌, ◌⊎◌, ◌↔◌, inl, inr, refl, sym, subst, Bool, Bool-cases, true, false, some,
  arith,
}
use native.Mathlib.Decide.{dec_lt}
use temp_esas.Thread.State.{
  Pc, Native, absent, unassigned, joined_by, running, join_found, joining, returned, joinable,
  joined, System, has_pointer, is_held,
}
use temp_esas.Thread.Calls.{
  goes, waits, aborts, Call, call_host, create_enter, join_enter, halt, sleep, lock_enter,
  lock_leave, lock_acquire, unlock_enter, unlock_leave, create_start, create_assign, create_leave,
  join_start, join_leave, unregister, move_on, is_last_joinable, is_gone,
}
use temp_esas.Thread.Step.{Step, calls, moves, times_out, Reach, later}
use temp_esas.Thread.Invariant.{makes, Inv}
use temp_esas.Thread.Invariant.Moves.{subject}
use temp_esas.Thread.Safety.{Reach-Inv}

is_held_lem :
    (n t : ℕ) (s : System)
    → ((is_held n t s ≡ true) × (j : ℕ) × (has_pointer (s.pc j) t ≡ true))
      ⊎ ((is_held n t s ≡ false) × ((j : ℕ) → j < n → has_pointer (s.pc j) t ≡ false))
unfolding is_held
is_held_lem zero t s = inr (refl, λ j h. absurd (omega arith))
is_held_lem (suc n) t s = elim (is_held_lem n t s) [
  | inl (held, j, h) ↦ inl (ground (arith, held), j, h)
  | inr (free, others) ↦ elim (Bool-cases (has_pointer (s.pc n) t)) [
    | inl h ↦ inl (ground (arith, free, h), n, h)
    | inr h ↦ inr (
      ground (arith, free, h),
      λ j lt. elim (dec_lt j n) [
        | yes below ↦ others j below
        | no above ↦
            let same : j ≡ n = omega arith in
            subst (λ (k : ℕ). has_pointer (s.pc k) t ≡ false) (sym same) h
      ],
    )
  ]
]

-- A thread has come to the end of its code and nobody has a pointer to it, or it is about to join one
-- that cannot be joined.
abbrev pub EndsProcess : System → ℕ → Type 0
EndsProcess s i =
    ((s.pc i ≡ returned) × ((j : ℕ) → has_pointer (s.pc j) i ≡ false))
    ⊎ ((h : Bool) × (t : ℕ) × (s.pc i ≡ join_found h t)
        × ((s.native t ≡ joined) ⊎ ((j : ℕ) × (makes (s.pc j) ≡ some t))))

module _ {s : System} (r : Reach s) (i : ℕ) where
  inv : Inv s
  inv = Reach-Inv r

  -- A thread that nobody has a pointer to has a native thread that can be joined.
  native_returned :
      s.pc i ≡ returned
      → ((j : ℕ) → has_pointer (s.pc j) i ≡ false)
      → (n : Native) → s.native i ≡ n
      → n ≡ joinable
  native_returned at free absent e = ground (arith, at, e, inv.present i)
  native_returned at free (unassigned j) e = ground (arith, at, e, inv.made j i, free j)
  native_returned at free joinable e = refl
  native_returned at free (joined_by j) e = ground (arith, at, e, inv.joined_one j i, free j)
  native_returned at free joined e = ground (arith, at, e, inv.ended i)

  unregister-aborts_iff :
      s.pc i ≡ returned → (is_last_joinable i s ≡ true) ↔ ((j : ℕ) → has_pointer (s.pc j) i ≡ false)
  unfolding is_last_joinable
  unregister-aborts_iff at = elim (is_held_lem s.counter i s) [
    | inl (held, j, h) ↦
        (λ last. absurd (ground (arith, held, last)), λ free. absurd (ground (arith, h, free j)))
    | inr (free, others) ↦ (
      λ last. λ j. elim (dec_lt j s.counter) [
        | yes lt ↦ others j lt
        | no above ↦ ground (arith, inv.fresh j (omega arith))
      ],
      λ none_has. ground (arith, free, at, native_returned at none_has (s.native i) refl),
    )
  ]

  join_start-aborts :
      (h : Bool) (t : ℕ)
      → s.pc i ≡ join_found h t
      → (n : Native) → s.native t ≡ n
      → join_start i h t s ≡ aborts
      → (s.native t ≡ joined) ⊎ ((j : ℕ) × (makes (s.pc j) ≡ some t))
  unfolding join_start
  join_start-aborts h t at absent n e = absurd (ground (arith, at, n, inv.found i t))
  join_start-aborts h t at (unassigned j) n e = inr (j, inv.made j t n)
  join_start-aborts h t at joinable n e = absurd (ground (arith, n, e))
  join_start-aborts h t at (joined_by j) n e = absurd (ground (arith, n, e))
  join_start-aborts h t at joined n e = inl n

  joins_native :
      (h : Bool) (t : ℕ)
      → s.pc i ≡ join_found h t
      → (move_on (join_found h t) i s ≡ aborts)
        ↔ ((s.native t ≡ joined) ⊎ ((j : ℕ) × (makes (s.pc j) ≡ some t)))
  unfolding move_on join_start
  joins_native h t at = (
    λ e. join_start-aborts h t at (s.native t) refl e,
    λ why. elim why [
      | inl done ↦ ground (arith, done)
      | inr (j, making) ↦ ground (arith, inv.makers j t making)
    ],
  )

  aborts_iff : (p : Pc) → s.pc i ≡ p → (move_on p i s ≡ aborts) ↔ EndsProcess s i
  unfolding move_on lock_enter lock_leave lock_acquire unlock_enter unlock_leave create_start
      create_assign create_leave join_leave unregister
  aborts_iff returned at =
      let (to, from) = unregister-aborts_iff at in
      (
        λ e. inl (at, to (ground (arith, e))),
        λ why. elim why [
          | inl (same, free) ↦ ground (arith, from free)
          | inr (h, t, other, reason) ↦ absurd (ground (arith, at, other))
        ],
      )
  aborts_iff (join_found h t) at =
      let (to, from) = joins_native h t at in
      (
        λ e. inr (h, t, at, to e),
        λ why. elim why [
          | inl (other, free) ↦ absurd (ground (arith, at, other))
          | inr (h', t', same, reason) ↦
              let one : t' ≡ t = ground (arith, at, same) in
              from (
                subst (λ (u : ℕ). (s.native u ≡ joined) ⊎ ((j : ℕ) × (makes (s.pc j) ≡ some u))) one
                  reason)
        ],
      )
  aborts_iff p at = (
    λ e. absurd (ground (arith, e)),
    λ why. elim why [
      | inl (other, free) ↦ absurd (ground (arith, at, other))
      | inr (h, t, other, reason) ↦ absurd (ground (arith, at, other))
    ],
  )

  -- In a reachable state, the next piece of a thread ends the process exactly when the thread has
  -- come to the end of its code and no thread has a pointer to its object, so that unregistering
  -- it destroys the object, which joins the thread that it runs on; or the thread is about to
  -- join one that it has found in the registry, and that one has been joined already, or some
  -- thread is still inside `run` of it and has not assigned its `nativeThread`.
  pub move_on-aborts_iff : (move_on (s.pc i) i s ≡ aborts) ↔ EndsProcess s i
  move_on-aborts_iff = aborts_iff (s.pc i) refl

module _ (i : ℕ) (h : Bool) {s t : System} (inv : Inv s) (here : s.pc i ≡ joining h i) where
  call_joining :
      (k : ℕ) (c : Call) → s.pc k ≡ running → call_host c k s ≡ goes t → t.pc i ≡ joining h i
  unfolding call_host create_enter join_enter halt sleep
  call_joining k c at e = ground (arith, here, inv.fresh i)

  move_joining : (k : ℕ) (p : Pc) → s.pc k ≡ p → move_on p k s ≡ goes t → t.pc i ≡ joining h i
  unfolding move_on lock_enter lock_leave lock_acquire unlock_enter unlock_leave create_start
      create_assign create_leave join_start join_leave unregister is_gone
  move_joining k p at e = ground (arith, here, inv.waiting k (subject p))

Step-joining :
    (i : ℕ) (h : Bool) {s t : System}
    → Step s t
    → Inv s
    → s.pc i ≡ joining h i
    → t.pc i ≡ joining h i
Step-joining i h (calls k c at e) keeps here = call_joining i h keeps here k c at e
Step-joining i h {s} (moves k e) keeps here = move_joining i h keeps here k (s.pc k) refl e
Step-joining i h (times_out k) keeps here = here

-- What a state leads to.
pub data Leads (s : System) : System → Type 0 where
  stays : Leads s s
  leads : {t u : System} → Leads s t → Step t u → Leads s u

Leads-Reach : {s t : System} → Reach s → Leads s t → Reach t
Leads-Reach r stays = r
Leads-Reach r (leads l st) = later (Leads-Reach r l) st

joining-waits :
    (i : ℕ) (h : Bool) (s : System) → s.pc i ≡ joining h i → move_on (s.pc i) i s ≡ waits
unfolding move_on join_leave is_gone
joining-waits i h s here = ground (arith, here)

-- A guest thread that is inside a join of itself in a reachable state is there, waiting, in every
-- state that this one leads to: whatever the other threads do, it does not come back.
pub self_join-waits :
    {s t : System} (i : ℕ)
    → Reach s
    → s.pc i ≡ joining false i
    → Leads s t
    → (t.pc i ≡ joining false i) × (move_on (t.pc i) i t ≡ waits)
self_join-waits {s} i r here stays = (here, joining-waits i false s here)
self_join-waits {s} {t} i r here (leads {u} l st) =
    let (before, waiting) = self_join-waits i r here l in
    let after = Step-joining i false st (Reach-Inv (Leads-Reach r l)) before in
    (after, joining-waits i false t after)
