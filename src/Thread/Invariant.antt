-- ===== src/Thread/Invariant.antt =====
-- What every order of steps keeps true.
pub mod Moves
pub mod Calls
use temp_esas.Prelude.{ℕ, ◌≤◌, ◌≡◌, ◌≢◌, Bool, true, false, Option, none, some}
use temp_esas.Thread.State.{
  Pc, unborn, created, running, lock_called, lock_found, lock_wait, unlock_called, unlock_found,
  starting, assigning, join_found, joining, gone, Native, absent, unassigned, joined_by, joined,
  System,
}

-- A thread that the registry is to have: it is registered, and has not come to `unregisterThread`.
abbrev pub is_live : Pc → Bool
is_live unborn = false
is_live gone = false
is_live (starting true c) = false
is_live (assigning true c) = false
is_live (join_found true t) = false
is_live (joining true t) = false
is_live _ = true

-- The child that a thread is to start.
abbrev pub starts : Pc → Option ℕ
starts (starting h c) = some c
starts _ = none

-- The object whose `nativeThread` a thread is to assign, the one that it is to join, and the one
-- that it is inside `join` of.
abbrev pub makes : Pc → Option ℕ
makes (starting h c) = some c
makes (assigning h c) = some c
makes _ = none

abbrev pub finds : Pc → Option ℕ
finds (join_found h t) = some t
finds _ = none

abbrev pub joins : Pc → Option ℕ
joins (joining h t) = some t
joins _ = none

-- Between the lock and the unlock of `syncObjectsMutex`.
abbrev pub in_section : Pc → Bool
in_section (lock_found l) = true
in_section (unlock_found l) = true
in_section _ = false

-- The lock that a thread has a pointer to.
abbrev pub pointer : Pc → Option ℕ
pointer (lock_found l) = some l
pointer (lock_wait l) = some l
pointer _ = none

pub record Inv (s : System) : Type 0 where
  pub fresh : (i : ℕ) → s.counter ≤ i → s.pc i ≡ unborn
  pub registry : (i : ℕ) → s.registered i ≡ is_live (s.pc i)
  pub section_owner : (i : ℕ) → in_section (s.pc i) ≡ true → s.sync_owner ≡ some i
  pub owner_section : (i : ℕ) → s.sync_owner ≡ some i → in_section (s.pc i) ≡ true
  pub valid : (i l : ℕ) → pointer (s.pc i) ≡ some l → s.mutexes l ≢ none
  pub locked : (i l : ℕ) → s.holds i l ≡ true → s.mutexes l ≡ some true
  pub exclusive : (i j l : ℕ) → s.holds i l ≡ true → s.holds j l ≡ true → i ≡ j
  pub owned : (l : ℕ) → s.mutexes l ≡ some true → (i : ℕ) × (s.holds i l ≡ true)
  pub ended : (i : ℕ) → s.native i ≡ joined → s.pc i ≡ gone
  pub present : (i : ℕ) → s.native i ≡ absent → is_live (s.pc i) ≡ false
  pub unused : (i : ℕ) → s.counter ≤ i → s.native i ≡ absent
  pub waiting : (i c : ℕ) → starts (s.pc i) ≡ some c → s.pc c ≡ created
  pub makers : (i c : ℕ) → makes (s.pc i) ≡ some c → s.native c ≡ unassigned i
  pub made : (i c : ℕ) → s.native c ≡ unassigned i → makes (s.pc i) ≡ some c
  pub found : (i t : ℕ) → finds (s.pc i) ≡ some t → s.native t ≢ absent
  pub joiners : (i t : ℕ) → joins (s.pc i) ≡ some t → s.native t ≡ joined_by i
  pub joined_one : (i t : ℕ) → s.native t ≡ joined_by i → joins (s.pc i) ≡ some t
