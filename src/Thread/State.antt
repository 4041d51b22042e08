-- ===== src/Thread/State.antt =====
-- The shared state of `CThread` (thread.h) and where each thread stands.
use temp_esas.Prelude.{ℕ, zero, suc, Bool, true, false, Option, none, ◌==◌, if◌then◌else◌}

-- A thread by its `threadId`: not created yet, registered, in guest code, inside one of the host's
-- functions, or behind its guest code. Guest code runs on the thread of `std::async`, for which
-- `nativeThread` waits. Thread 0 is the host's own, in `mainThread->run()` and `mainThread->join()`;
-- `by_host` says that a piece of `run` or `join` is its.
pub data Pc : Type 0 where
  unborn created running : Pc
  lock_called lock_found lock_wait : (lock_id : ℕ) → Pc  -- `lock`: before, under and after the registry lock
  unlock_called unlock_found : (lock_id : ℕ) → Pc  -- `unlock`: before and under the registry lock
  starting : (by_host : Bool) (child : ℕ) → Pc  -- `run`, behind `registerThread`
  assigning : (by_host : Bool) (child : ℕ) → Pc  -- `run`, before the assignment of `nativeThread`
  creating : (child : ℕ) → Pc  -- `thread_create`, behind `run`, with its pointer to the child
  join_found : (by_host : Bool) (thread : ℕ) → Pc  -- before `join`, with a pointer to the thread
  joining : (by_host : Bool) (thread : ℕ) → Pc  -- `nativeThread.join()`
  halted returned : Pc  -- `config->run` has given 1 or 0
  gone : Pc  -- unregistered

-- `nativeThread`: of no object yet, not assigned yet by the thread that is inside `run`, or a thread
-- that can be joined, that some thread is inside `join` of, or that has been joined.
pub data Native : Type 0 where
  absent : Native
  unassigned : (creator : ℕ) → Native
  joinable : Native
  joined_by : (joiner : ℕ) → Native
  joined : Native

-- `mutexMap` has an entry for a lock, with its `std::mutex` free or locked, or none; `holds i l` is
-- the thread that a locked mutex belongs to.
pub record System : Type 0 where
  pub counter : ℕ
  pub pc : ℕ → Pc
  pub registered : ℕ → Bool
  pub native : ℕ → Native
  pub should_stop : ℕ → Bool
  pub sync_owner : Option ℕ
  pub mutexes : ℕ → Option Bool
  pub holds : ℕ → ℕ → Bool

abbrev pub update {ℓ} : {A : Type ℓ} → (ℕ → A) → ℕ → A → ℕ → A
update f i a j = if j == i then a else f j

abbrev pub go_to : ℕ → Pc → System → System
go_to i p s = record s { pc = update s.pc i p }

-- A thread has a pointer to the object of `t` in the midst of `run` or `join`.
abbrev pub has_pointer : Pc → ℕ → Bool
has_pointer (starting h c) t = c == t
has_pointer (assigning h c) t = c == t
has_pointer (creating c) t = c == t
has_pointer (join_found h u) t = u == t
has_pointer (joining h u) t = u == t
has_pointer _ t = false

-- One of the first `n` threads has one.
unfoldable pub is_held : ℕ → ℕ → System → Bool
is_held zero t s = false
is_held (suc n) t s = let rest = is_held n t s in if has_pointer (s.pc n) t then true else rest

-- `RunTest` at `mainThread->run()`, behind `registerThread`: `threadCounter` starts at 1.
abbrev pub start : System
start = record {
  counter = 2;
  pc = λ i. if i == 0 then starting true 1 else if i == 1 then created else unborn;
  registered = λ i. i == 1;
  native = λ i. if i == 1 then unassigned 0 else absent;
  should_stop = λ i. false;
  sync_owner = none;
  mutexes = λ l. none;
  holds = λ i l. false;
}
