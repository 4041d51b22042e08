-- ===== src/Thread/Timeout/Waiting.antt =====
-- `future.wait_for` (thread.h), held against the states that the guest goes through.
use temp_esas.Prelude.{
  ℕ, zero, suc, ◌+◌, ◌≤◌, ◌≡◌, ◌⊎◌, inl, inr, refl, Bool, Option, none, some, arith, Option-cases,
}
use temp_esas.Thread.Timeout.{ready, timeout, wait_for}

module _ {ℓ} {Guest : Type ℓ} (tick : Bool → Guest → Guest) (result : Guest → Option ℕ) where
  -- The guest after some milliseconds.
  unfoldable pub after : ℕ → Bool → Guest → Guest
  after zero should_stop g = g
  after (suc ms) should_stop g = after ms should_stop (tick should_stop g)

  abbrev pub IsRunningFor : ℕ → Bool → Guest → Type 0
  IsRunningFor ms should_stop g = (k : ℕ) → k ≤ ms → result (after k should_stop g) ≡ none

  running-zero : (should_stop : Bool) (g : Guest) → result g ≡ none → IsRunningFor 0 should_stop g
  unfolding after
  running-zero should_stop g e zero h = e
  running-zero should_stop g e (suc k) h = absurd (omega arith)

  running-suc :
      (ms : ℕ) (should_stop : Bool) (g : Guest)
      → result g ≡ none
      → IsRunningFor ms should_stop (tick should_stop g)
      → IsRunningFor (suc ms) should_stop g
  unfolding after
  running-suc ms should_stop g e rest zero h = e
  running-suc ms should_stop g e rest (suc k) h = rest k (omega arith)

  -- `wait_for` comes back with the first result, or with the guest that still runs at the end.
  pub wait_for-cases :
      (ms elapsed : ℕ) (should_stop : Bool) (g : Guest)
      → ((k : ℕ) × (r : ℕ) × (k ≤ ms)
          × (result (after k should_stop g) ≡ some r)
          × (wait_for tick result ms elapsed should_stop g ≡ ready (elapsed + k) r))
        ⊎ (IsRunningFor ms should_stop g
            × (wait_for tick result ms elapsed should_stop g ≡ timeout (after ms should_stop g)))
  unfolding after wait_for
  wait_for-cases zero elapsed should_stop g = elim (Option-cases (result g)) [
    | inl e ↦ inr (running-zero should_stop g e, rw (wait_for, e) refl)
    | inr (r, e) ↦ inl (0, r, omega arith, e, rw (wait_for, e) (ground arith))
  ]
  wait_for-cases (suc ms) elapsed should_stop g =
      let rest = wait_for-cases ms (elapsed + 1) should_stop (tick should_stop g) in
      elim (Option-cases (result g)) [
        | inr (r, e) ↦ inl (0, r, omega arith, e, rw (wait_for, e) (ground arith))
        | inl e ↦ elim rest [
          | inl (k, r, h, done, w) ↦
              inl (suc k, r, omega arith, done, rw (wait_for, e, w) (ground arith))
          | inr (runs, w) ↦ inr (running-suc ms should_stop g e runs, rw (wait_for, e) w)
        ]
      ]
