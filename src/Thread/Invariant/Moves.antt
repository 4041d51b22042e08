-- ===== src/Thread/Invariant/Moves.antt =====
-- The pieces of the functions of thread.h, one field of the invariant at a time.
use temp_esas.Prelude.{
  ℕ, ◌≤◌, ◌≡◌, ◌≢◌, ◌⊎◌, inl, inr, refl, Bool, true, false, Option, none, some, arith,
}
use temp_esas.Thread.State.{
  Pc, unborn, created, starting, assigning, creating, join_found, joining, gone, absent, unassigned,
  joined_by, joined, System,
}
use temp_esas.Thread.Calls.{
  goes, lock_enter, lock_leave, lock_acquire, unlock_enter, unlock_leave, create_start,
  create_assign, create_leave, join_start, join_leave, unregister, move_on, is_gone,
}
use temp_esas.Thread.Invariant.{is_live, in_section, pointer, starts, makes, finds, joins, Inv}

locked_or_not : (m : Option Bool) → (m ≡ some true) ⊎ (m ≢ some true)
locked_or_not none = inr (λ e. ground arith)
locked_or_not (some true) = inl refl
locked_or_not (some false) = inr (λ e. ground arith)

gone_lem : (p : Pc) → is_gone p ≡ true → p ≡ gone
unfolding is_gone
gone_lem gone h = refl
gone_lem _ h = cc

-- The thread that a piece of `run` or `join` is about.
abbrev pub subject : Pc → ℕ
subject (starting h c) = c
subject (assigning h c) = c
subject (creating c) = c
subject (join_found h t) = t
subject (joining h t) = t
subject _ = 0

module _ (i : ℕ) (s t : System) (inv : Inv s) where
  move_on-fresh :
      (p : Pc) → s.pc i ≡ p → move_on p i s ≡ goes t → (j : ℕ) → t.counter ≤ j → t.pc j ≡ unborn
  unfolding move_on lock_enter lock_leave lock_acquire unlock_enter unlock_leave create_start
      create_assign create_leave join_start join_leave unregister
  move_on-fresh p at e j h = ground (arith, inv.fresh j, inv.fresh i, inv.waiting i (subject p))

  move_on-registry :
      (p : Pc) → s.pc i ≡ p → move_on p i s ≡ goes t → (j : ℕ) → t.registered j ≡ is_live (t.pc j)
  unfolding move_on lock_enter lock_leave lock_acquire unlock_enter unlock_leave create_start
      create_assign create_leave join_start join_leave unregister
  move_on-registry (starting by_host child) at e j =
      ground (arith, inv.registry j, inv.registry i, inv.waiting i child)
  move_on-registry p at e j =
      ground (arith, inv.registry j, inv.registry i, inv.waiting i (subject p))

  move_on-section_owner :
      (p : Pc)
      → s.pc i ≡ p
      → move_on p i s ≡ goes t
      → (j : ℕ) → in_section (t.pc j) ≡ true
      → t.sync_owner ≡ some j
  unfolding move_on lock_enter lock_leave lock_acquire unlock_enter unlock_leave create_start
      create_assign create_leave join_start join_leave unregister
  move_on-section_owner p at e j h =
      ground (arith, inv.section_owner j, inv.section_owner i, inv.waiting i (subject p))

  move_on-owner_section :
      (p : Pc)
      → s.pc i ≡ p
      → move_on p i s ≡ goes t
      → (j : ℕ) → t.sync_owner ≡ some j
      → in_section (t.pc j) ≡ true
  unfolding move_on lock_enter lock_leave lock_acquire unlock_enter unlock_leave create_start
      create_assign create_leave join_start join_leave unregister
  move_on-owner_section p at e j h =
      ground (arith, inv.owner_section j, inv.section_owner i, inv.waiting i (subject p))

  move_on-valid :
      (p : Pc)
      → s.pc i ≡ p
      → move_on p i s ≡ goes t
      → (j l : ℕ) → pointer (t.pc j) ≡ some l
      → t.mutexes l ≢ none
  unfolding move_on lock_enter lock_leave lock_acquire unlock_enter unlock_leave create_start
      create_assign create_leave join_start join_leave unregister
  move_on-valid p at e j l h =
      ground (arith, inv.valid j l, inv.valid i l, inv.waiting i (subject p))

  move_on-locked :
      (p : Pc)
      → s.pc i ≡ p
      → move_on p i s ≡ goes t
      → (j l : ℕ) → t.holds j l ≡ true
      → t.mutexes l ≡ some true
  unfolding move_on lock_enter lock_leave lock_acquire unlock_enter unlock_leave create_start
      create_assign create_leave join_start join_leave unregister
  move_on-locked p at e j l h =
      ground (arith, inv.locked j l, inv.exclusive i j l, inv.exclusive j i l)

  move_on-exclusive :
      (p : Pc)
      → s.pc i ≡ p
      → move_on p i s ≡ goes t
      → (j k l : ℕ) → t.holds j l ≡ true
      → t.holds k l ≡ true
      → j ≡ k
  unfolding move_on lock_enter lock_leave lock_acquire unlock_enter unlock_leave create_start
      create_assign create_leave join_start join_leave unregister
  move_on-exclusive p at e j k l h₁ h₂ =
      ground (arith, inv.exclusive j k l, inv.locked j l, inv.locked k l)

  -- A lock that was locked before keeps its owner, unless it is the one that is unlocked.
  move_on-kept :
      (p : Pc)
      → s.pc i ≡ p
      → move_on p i s ≡ goes t
      → (l : ℕ) → s.mutexes l ≡ some true
      → t.mutexes l ≡ some true
      → (j : ℕ) → s.holds j l ≡ true
      → t.holds j l ≡ true
  unfolding move_on lock_enter lock_leave lock_acquire unlock_enter unlock_leave create_start
      create_assign create_leave join_start join_leave unregister
  move_on-kept p at e l before after j h = ground (arith, inv.exclusive i j l)

  -- A lock that is newly locked belongs to the thread that moves.
  move_on-taken :
      (p : Pc)
      → s.pc i ≡ p
      → move_on p i s ≡ goes t
      → (l : ℕ) → s.mutexes l ≢ some true
      → t.mutexes l ≡ some true
      → t.holds i l ≡ true
  unfolding move_on lock_enter lock_leave lock_acquire unlock_enter unlock_leave create_start
      create_assign create_leave join_start join_leave unregister
  move_on-taken p at e l before after = ground arith

  move_on-owned :
      (p : Pc)
      → s.pc i ≡ p
      → move_on p i s ≡ goes t
      → (l : ℕ) → t.mutexes l ≡ some true
      → (j : ℕ) × (t.holds j l ≡ true)
  move_on-owned p at e l after = elim (locked_or_not (s.mutexes l)) [
    | inl before ↦ let (j, h) = inv.owned l before in (j, move_on-kept p at e l before after j h)
    | inr before ↦ (i, move_on-taken p at e l before after)
  ]

  move_on-ended :
      (p : Pc) → s.pc i ≡ p → move_on p i s ≡ goes t → (j : ℕ) → t.native j ≡ joined → t.pc j ≡ gone
  unfolding move_on lock_enter lock_leave lock_acquire unlock_enter unlock_leave create_start
      create_assign create_leave join_start join_leave unregister
  move_on-ended p at e j h =
      ground
        (arith, inv.ended j, inv.ended i, gone_lem (s.pc (subject p)), inv.waiting i (subject p))

  move_on-present :
      (p : Pc)
      → s.pc i ≡ p
      → move_on p i s ≡ goes t
      → (j : ℕ) → t.native j ≡ absent
      → is_live (t.pc j) ≡ false
  unfolding move_on lock_enter lock_leave lock_acquire unlock_enter unlock_leave create_start
      create_assign create_leave join_start join_leave unregister
  move_on-present (starting by_host child) at e j h =
      ground (arith, inv.present j, inv.present i, inv.found i child, inv.waiting i child)
  move_on-present p at e j h =
      ground
        (arith, inv.present j, inv.present i, inv.found i (subject p), inv.waiting i (subject p))

  move_on-unused :
      (p : Pc) → s.pc i ≡ p → move_on p i s ≡ goes t → (j : ℕ) → t.counter ≤ j → t.native j ≡ absent
  unfolding move_on lock_enter lock_leave lock_acquire unlock_enter unlock_leave create_start
      create_assign create_leave join_start join_leave unregister
  move_on-unused p at e j h = ground (
    arith,
    inv.unused j,
    inv.unused (subject p),
    inv.fresh (subject p),
    inv.makers i (subject p),
    inv.joiners i (subject p),
  )

  move_on-waiting :
      (p : Pc)
      → s.pc i ≡ p
      → move_on p i s ≡ goes t
      → (j c : ℕ) → starts (t.pc j) ≡ some c
      → t.pc c ≡ created
  unfolding move_on lock_enter lock_leave lock_acquire unlock_enter unlock_leave create_start
      create_assign create_leave join_start join_leave unregister
  move_on-waiting p at e j c h = ground (
    arith,
    inv.waiting j c,
    inv.waiting i c,
    inv.waiting i (subject p),
    inv.makers i c,
    inv.makers j c,
  )

  move_on-makers :
      (p : Pc)
      → s.pc i ≡ p
      → move_on p i s ≡ goes t
      → (j c : ℕ) → makes (t.pc j) ≡ some c
      → t.native c ≡ unassigned j
  unfolding move_on lock_enter lock_leave lock_acquire unlock_enter unlock_leave create_start
      create_assign create_leave join_start join_leave unregister
  move_on-makers p at e j c h =
      ground (arith, inv.makers j c, inv.makers i c, inv.joiners i c, inv.waiting i (subject p))

  move_on-made :
      (p : Pc)
      → s.pc i ≡ p
      → move_on p i s ≡ goes t
      → (j c : ℕ) → t.native c ≡ unassigned j
      → makes (t.pc j) ≡ some c
  unfolding move_on lock_enter lock_leave lock_acquire unlock_enter unlock_leave create_start
      create_assign create_leave join_start join_leave unregister
  move_on-made p at e j c h =
      ground
        (arith, inv.made j c, inv.made i c, inv.waiting i (subject p), inv.makers i (subject p))

  move_on-found :
      (p : Pc)
      → s.pc i ≡ p
      → move_on p i s ≡ goes t
      → (j u : ℕ) → finds (t.pc j) ≡ some u
      → t.native u ≢ absent
  unfolding move_on lock_enter lock_leave lock_acquire unlock_enter unlock_leave create_start
      create_assign create_leave join_start join_leave unregister
  move_on-found p at e j u h =
      ground (arith, inv.found j u, inv.found i u, inv.waiting i (subject p), inv.makers i u)

  move_on-joiners :
      (p : Pc)
      → s.pc i ≡ p
      → move_on p i s ≡ goes t
      → (j u : ℕ) → joins (t.pc j) ≡ some u
      → t.native u ≡ joined_by j
  unfolding move_on lock_enter lock_leave lock_acquire unlock_enter unlock_leave create_start
      create_assign create_leave join_start join_leave unregister
  move_on-joiners p at e j u h =
      ground (arith, inv.joiners j u, inv.joiners i u, inv.waiting i (subject p), inv.makers i u)

  move_on-joined_one :
      (p : Pc)
      → s.pc i ≡ p
      → move_on p i s ≡ goes t
      → (j u : ℕ) → t.native u ≡ joined_by j
      → joins (t.pc j) ≡ some u
  unfolding move_on lock_enter lock_leave lock_acquire unlock_enter unlock_leave create_start
      create_assign create_leave join_start join_leave unregister
  move_on-joined_one (starting by_host child) at e j u h =
      ground
        (arith, inv.joined_one j u, inv.joined_one i u, inv.waiting i child, inv.joiners i child)
  move_on-joined_one p at e j u h = ground (
    arith,
    inv.joined_one j u,
    inv.joined_one i u,
    inv.waiting i (subject p),
    inv.joiners i (subject p),
  )

  pub move_on-Inv : (p : Pc) → s.pc i ≡ p → move_on p i s ≡ goes t → Inv t
  move_on-Inv p at e = record {
    fresh = move_on-fresh p at e;
    registry = move_on-registry p at e;
    section_owner = move_on-section_owner p at e;
    owner_section = move_on-owner_section p at e;
    valid = move_on-valid p at e;
    locked = move_on-locked p at e;
    exclusive = move_on-exclusive p at e;
    owned = move_on-owned p at e;
    ended = move_on-ended p at e;
    present = move_on-present p at e;
    unused = move_on-unused p at e;
    waiting = move_on-waiting p at e;
    makers = move_on-makers p at e;
    made = move_on-made p at e;
    found = move_on-found p at e;
    joiners = move_on-joiners p at e;
    joined_one = move_on-joined_one p at e;
  }
