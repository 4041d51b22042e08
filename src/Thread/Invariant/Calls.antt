-- ===== src/Thread/Invariant/Calls.antt =====
-- The calls that guest code makes (main.cpp), one field of the invariant at a time.
use temp_esas.Prelude.{ℕ, ◌≤◌, ◌≡◌, ◌≢◌, true, false, none, some, arith}
use temp_esas.Thread.State.{
  unborn, created, running, gone, absent, unassigned, joined_by, joined, System,
}
use temp_esas.Thread.Calls.{Call, goes, create_enter, join_enter, halt, sleep, call_host}
use temp_esas.Thread.Invariant.{is_live, in_section, pointer, starts, makes, finds, joins, Inv}

module _ (i : ℕ) (s t : System) (inv : Inv s) (at : s.pc i ≡ running) where
  -- The next id is no thread's yet.
  next_unborn : s.pc s.counter ≡ unborn
  next_unborn = inv.fresh s.counter (omega arith)

  call_host-fresh :
      (c : Call) → call_host c i s ≡ goes t → (j : ℕ) → t.counter ≤ j → t.pc j ≡ unborn
  unfolding call_host create_enter join_enter halt sleep
  call_host-fresh c e j h = ground (arith, inv.fresh j, inv.fresh i, next_unborn)

  call_host-registry :
      (c : Call) → call_host c i s ≡ goes t → (j : ℕ) → t.registered j ≡ is_live (t.pc j)
  unfolding call_host create_enter join_enter halt sleep
  call_host-registry c e j = ground (arith, inv.registry j, inv.registry i, next_unborn)

  call_host-section_owner :
      (c : Call)
      → call_host c i s ≡ goes t
      → (j : ℕ) → in_section (t.pc j) ≡ true
      → t.sync_owner ≡ some j
  unfolding call_host create_enter join_enter halt sleep
  call_host-section_owner c e j h = ground (arith, inv.section_owner j)

  call_host-owner_section :
      (c : Call)
      → call_host c i s ≡ goes t
      → (j : ℕ) → t.sync_owner ≡ some j
      → in_section (t.pc j) ≡ true
  unfolding call_host create_enter join_enter halt sleep
  call_host-owner_section c e j h = ground (arith, inv.owner_section j, next_unborn)

  call_host-valid :
      (c : Call)
      → call_host c i s ≡ goes t
      → (j l : ℕ) → pointer (t.pc j) ≡ some l
      → t.mutexes l ≢ none
  unfolding call_host create_enter join_enter halt sleep
  call_host-valid c e j l h = ground (arith, inv.valid j l)

  call_host-mutexes : (c : Call) → call_host c i s ≡ goes t → t.mutexes ≡ s.mutexes
  unfolding call_host create_enter join_enter halt sleep
  call_host-mutexes c e = ground arith

  call_host-holds : (c : Call) → call_host c i s ≡ goes t → t.holds ≡ s.holds
  unfolding call_host create_enter join_enter halt sleep
  call_host-holds c e = ground arith

  call_host-ended :
      (c : Call) → call_host c i s ≡ goes t → (j : ℕ) → t.native j ≡ joined → t.pc j ≡ gone
  unfolding call_host create_enter join_enter halt sleep
  call_host-ended c e j h =
      ground (arith, inv.ended j, inv.ended i, next_unborn, inv.ended s.counter)

  call_host-present :
      (c : Call)
      → call_host c i s ≡ goes t
      → (j : ℕ) → t.native j ≡ absent
      → is_live (t.pc j) ≡ false
  unfolding call_host create_enter join_enter halt sleep
  call_host-present c e j h = ground (arith, inv.present j, next_unborn)

  call_host-unused :
      (c : Call) → call_host c i s ≡ goes t → (j : ℕ) → t.counter ≤ j → t.native j ≡ absent
  unfolding call_host create_enter join_enter halt sleep
  call_host-unused c e j h = ground (arith, inv.unused j)

  call_host-waiting :
      (c : Call)
      → call_host c i s ≡ goes t
      → (j k : ℕ) → starts (t.pc j) ≡ some k
      → t.pc k ≡ created
  unfolding call_host create_enter join_enter halt sleep
  call_host-waiting c e j k h = ground (arith, inv.waiting j k, next_unborn)

  call_host-makers :
      (c : Call)
      → call_host c i s ≡ goes t
      → (j k : ℕ) → makes (t.pc j) ≡ some k
      → t.native k ≡ unassigned j
  unfolding call_host create_enter join_enter halt sleep
  call_host-makers c e j k h = ground (arith, inv.makers j k, inv.unused s.counter (omega arith))

  call_host-made :
      (c : Call)
      → call_host c i s ≡ goes t
      → (j k : ℕ) → t.native k ≡ unassigned j
      → makes (t.pc j) ≡ some k
  unfolding call_host create_enter join_enter halt sleep
  call_host-made c e j k h = ground (arith, inv.made j k, next_unborn)

  call_host-found :
      (c : Call)
      → call_host c i s ≡ goes t
      → (j u : ℕ) → finds (t.pc j) ≡ some u
      → t.native u ≢ absent
  unfolding call_host create_enter join_enter halt sleep
  call_host-found c e j u h = ground (arith, inv.found j u, inv.present u, inv.registry u)

  call_host-joiners :
      (c : Call)
      → call_host c i s ≡ goes t
      → (j u : ℕ) → joins (t.pc j) ≡ some u
      → t.native u ≡ joined_by j
  unfolding call_host create_enter join_enter halt sleep
  call_host-joiners c e j u h = ground (arith, inv.joiners j u, inv.unused s.counter (omega arith))

  call_host-joined_one :
      (c : Call)
      → call_host c i s ≡ goes t
      → (j u : ℕ) → t.native u ≡ joined_by j
      → joins (t.pc j) ≡ some u
  unfolding call_host create_enter join_enter halt sleep
  call_host-joined_one c e j u h = ground (arith, inv.joined_one j u, next_unborn)

  pub call_host-Inv : (c : Call) → call_host c i s ≡ goes t → Inv t
  call_host-Inv c e = record {
    fresh = call_host-fresh c e;
    registry = call_host-registry c e;
    section_owner = call_host-section_owner c e;
    owner_section = call_host-owner_section c e;
    valid = call_host-valid c e;
    locked = ground (arith, inv.locked, call_host-mutexes c e, call_host-holds c e);
    exclusive = ground (arith, inv.exclusive, call_host-holds c e);
    owned = ground (arith, inv.owned, call_host-mutexes c e, call_host-holds c e);
    ended = call_host-ended c e;
    present = call_host-present c e;
    unused = call_host-unused c e;
    waiting = call_host-waiting c e;
    makers = call_host-makers c e;
    made = call_host-made c e;
    found = call_host-found c e;
    joiners = call_host-joiners c e;
    joined_one = call_host-joined_one c e;
  }
