-- ===== src/Thread/Timeout/Deadline.antt =====
-- When the native thread of thread.h ends, and when it ends the process.
use temp_esas.Prelude.{
  ℕ, ◌+◌, ◌≤◌, ◌≡◌, ◌≢◌, ◌⊎◌, ◌↔◌, ◌∙◌, inl, inr, refl, Bool, true, false, Option, none, some,
  arith,
}
use temp_esas.Thread.Timeout.{
  Message, unregistered, exited, timeout_soft_ms, timeout_hard_ms, result_message, stop_native,
  run_native,
}
use temp_esas.Thread.Timeout.Waiting.{after, IsRunningFor, wait_for-cases}

module _ {ℓ} {Guest : Type ℓ} (tick : Bool → Guest → Guest) (result : Guest → Option ℕ)
    (g : Guest) where
  -- The guest at the soft timeout.
  abbrev pub asked : Guest
  asked = after tick result timeout_soft_ms false g

  stop_native-cases :
      ((k : ℕ) × (k ≤ 2000)
        × (result (after tick result k true asked) ≢ none)
        × (stop_native tick result asked ≡ unregistered (timeout_soft_ms + k) none))
      ⊎ (IsRunningFor tick result 2000 true asked × (stop_native tick result asked ≡ exited 1))
  unfolding stop_native
  stop_native-cases = elim (wait_for-cases tick result 2000 timeout_soft_ms true asked) [
    | inl (k, r, h, done, w) ↦ inl (k, h, ground (arith, done), rw (stop_native, w) refl)
    | inr (runs, w) ↦ inr (runs, rw (stop_native, w) refl)
  ]

  run_native-cases :
      ((k : ℕ) × (r : ℕ) × (k ≤ timeout_soft_ms)
        × (result (after tick result k false g) ≡ some r)
        × (run_native tick result g ≡ unregistered k (result_message r)))
      ⊎ (IsRunningFor tick result timeout_soft_ms false g
          × (run_native tick result g ≡ stop_native tick result asked))
  unfolding run_native
  run_native-cases = elim (wait_for-cases tick result timeout_soft_ms 0 false g) [
    | inl (k, r, h, done, w) ↦ inl (k, r, h, done, rw (run_native, w) (ground arith))
    | inr (runs, w) ↦ inr (runs, rw (run_native, w) refl)
  ]

  exits :
      IsRunningFor tick result timeout_soft_ms false g
      → IsRunningFor tick result 2000 true asked
      → run_native tick result g ≡ exited 1
  exits soft hard = elim run_native-cases [
    | inl (k, r, h, done, e) ↦ absurd (ground (arith, done, soft k h))
    | inr (runs, e) ↦ elim stop_native-cases [
      | inl (k, h, done, e₂) ↦ absurd (done (hard k h))
      | inr (runs₂, e₂) ↦ e ∙ e₂
    ]
  ]

  was_running :
      run_native tick result g ≡ exited 1
      → IsRunningFor tick result timeout_soft_ms false g × IsRunningFor tick result 2000 true asked
  was_running exit = elim run_native-cases [
    | inl (k, r, h, done, e) ↦ absurd (ground (arith, exit, e))
    | inr (runs, e) ↦ elim stop_native-cases [
      | inl (k, h, done, e₂) ↦ absurd (ground (arith, exit, e, e₂))
      | inr (runs₂, e₂) ↦ (runs, runs₂)
    ]
  ]

  -- The native thread ends the process with code 1 exactly when the guest code has no result up
  -- to the soft timeout, and then none in another 2000 milliseconds after it is asked to stop.
  pub run_native-exited_iff : (run_native tick result g ≡ exited 1) ↔ (
      IsRunningFor tick result timeout_soft_ms false g × IsRunningFor tick result 2000 true asked)
  run_native-exited_iff = (was_running, λ (soft, hard). exits soft hard)

  -- If guest code, asked to stop at the soft timeout, has a result within 2000 milliseconds, then
  -- the native thread comes to its unregistering within 5000 milliseconds.
  pub run_native-unregistered :
      (k : ℕ)
      → k ≤ 2000
      → result (after tick result k true asked) ≢ none
      → (ms : ℕ) × (message : Option Message) × (ms ≤ timeout_hard_ms)
        × (run_native tick result g ≡ unregistered ms message)
  run_native-unregistered k h done = elim run_native-cases [
    | inl (ms, r, early, result_of, e) ↦ (ms, result_message r, omega arith, e)
    | inr (runs, e) ↦ elim stop_native-cases [
      | inl (more, early, ends, e₂) ↦ (timeout_soft_ms + more, none, omega arith, e ∙ e₂)
      | inr (runs₂, e₂) ↦ absurd (done (runs₂ k h))
    ]
  ]
