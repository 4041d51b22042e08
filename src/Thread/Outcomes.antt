-- ===== src/Thread/Outcomes.antt =====
-- How the pieces of thread.h can end in a state that the threads can reach.
use temp_esas.Prelude.{
  ℕ, ◌≡◌, ◌≢◌, ◌⊎◌, ◌↔◌, inl, inr, refl, true, false, none, some, arith, Bool-cases, Option-cases,
}
use temp_esas.Thread.State.{
  Pc, running, lock_found, lock_wait, unlock_found, gone, System, update, go_to,
}
use temp_esas.Thread.Calls.{
  goes, waits, undefined, thread_join, lock_leave, lock_acquire, unlock_leave, join_enter, move_on,
  call_host,
}
use temp_esas.Thread.Step.{Reach}
use temp_esas.Thread.Invariant.{in_section, Inv}
use temp_esas.Thread.Safety.{Reach-Inv}

module _ {s : System} (r : Reach s) (i : ℕ) where
  inv : Inv s
  inv = Reach-Inv r

  -- In a reachable state, a thread that has to wait for a lock waits for another thread that
  -- holds it.
  pub lock_wait-owned :
      (l : ℕ)
      → s.pc i ≡ lock_wait l
      → move_on (s.pc i) i s ≡ waits
      → (j : ℕ) × (s.holds j l ≡ true) × (j ≢ i)
  unfolding move_on lock_acquire
  lock_wait-owned l at e =
      let locked : s.mutexes l ≡ some true = ground (arith, at, e) in
      let (j, h) = inv.owned l locked in (j, h, λ same. ground (arith, at, e, h, same, locked))

  -- In a reachable state, locking a mutex is undefined exactly when the thread holds it already;
  -- the pointer to the mutex is always to an entry of the map.
  pub lock_wait-undefined_iff :
      (l : ℕ) → s.pc i ≡ lock_wait l → (move_on (s.pc i) i s ≡ undefined) ↔ (s.holds i l ≡ true)
  unfolding move_on lock_acquire
  lock_wait-undefined_iff l at =
      (λ e. ground (arith, at, e, inv.valid i l), λ h. ground (arith, at, h, inv.locked i l))

  unlock_leave-cases :
      (l : ℕ)
      → ((t : System) × (unlock_leave i l s ≡ goes t) × (t.sync_owner ≡ none))
        ⊎ ((s.mutexes l ≢ none) × (s.holds i l ≡ false))
  unfolding unlock_leave
  unlock_leave-cases l = elim (Option-cases (s.mutexes l)) [
    | inl missing ↦
        inl (go_to i running (record s { sync_owner = none }), ground (arith, missing), refl)
    | inr (locked, found) ↦ elim (Bool-cases (s.holds i l)) [
      | inl own ↦ inl (
        go_to i running (record s {
          sync_owner = none;
          mutexes = update s.mutexes l (some false);
          holds = update s.holds i (update (s.holds i) l false);
        }),
        ground (arith, found, own),
        refl,
      )
      | inr other ↦ inr (ground (arith, found), other)
    ]
  ]

  section_moves :
      (p : Pc)
      → s.pc i ≡ p
      → in_section p ≡ true
      → ((t : System) × (move_on p i s ≡ goes t) × (t.sync_owner ≡ none))
        ⊎ ((l : ℕ) × (p ≡ unlock_found l) × (s.mutexes l ≢ none) × (s.holds i l ≡ false))
  unfolding move_on lock_leave
  section_moves (lock_found l) at h =
      inl (go_to i (lock_wait l) (record s { sync_owner = none }), refl, refl)
  section_moves (unlock_found l) at h = elim (unlock_leave-cases l) [
    | inl leaves ↦ inl leaves
    | inr (found, other) ↦ inr (l, refl, found, other)
  ]
  section_moves _ at h = cc

  -- In a reachable state, the thread that has the registry of locks locked can go on, and its
  -- next piece unlocks it, unless it is an unlock of a lock that is in the registry and that it
  -- does not hold, which is undefined.
  pub section-leaves :
      s.sync_owner ≡ some i
      → ((t : System) × (move_on (s.pc i) i s ≡ goes t) × (t.sync_owner ≡ none))
        ⊎ ((l : ℕ) × (s.pc i ≡ unlock_found l) × (s.mutexes l ≢ none) × (s.holds i l ≡ false))
  section-leaves owner = section_moves (s.pc i) refl (inv.owner_section i owner)

  -- A thread that is gone may be joined at any time.
  pub join_ended :
      (t : ℕ) → s.pc i ≡ running → s.pc t ≡ gone → call_host (thread_join t) i s ≡ goes s
  unfolding call_host join_enter
  join_ended t at ended = ground (arith, at, ended, inv.registry t)
