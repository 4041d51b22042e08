-- ===== src/Thread/Calls.antt =====
-- The functions of `CThread` (thread.h) and the lambdas of `RunTest` (main.cpp) that call them, cut
-- where another thread can come between.
use temp_esas.Prelude.{ℕ, Bool, ◌+◌, true, false, none, some, if◌then◌else◌}
use temp_esas.Thread.State.{
  Pc, created, running, lock_called, lock_found, lock_wait, unlock_called, unlock_found, starting,
  assigning, creating, join_found, joining, halted, returned, gone, Native, unassigned, joinable,
  joined_by, joined, System, update, go_to, is_held,
}

-- A piece of code runs, has to wait, ends the process at an `assert` or in `std::terminate`, or is
-- undefined: it breaks a rule of `std::mutex` or `std::thread`.
pub data Effect : Type 0 where
  goes : System → Effect
  waits aborts undefined : Effect

-- `getCurrent`: the thread finds itself in the registry, or its `assert` fails.
abbrev pub with_current : ℕ → System → Effect → Effect
with_current i s e = if s.registered i then e else aborts

-- What a guest thread asks for.
pub data Call : Type 0 where
  thread_lock thread_unlock thread_join : ℕ → Call
  thread_create thread_sleep terminate return_from_main : Call

-- `lock`: the registry of locks is locked, and the lock is put into it if it is not there.
unfoldable pub lock_enter : ℕ → ℕ → System → Effect
lock_enter i l s = elim s.sync_owner [
  | some j ↦ waits
  | none ↦ goes (
      go_to i (lock_found l) (record s {
        sync_owner = some i;
        mutexes = elim (s.mutexes l) [
          | none ↦ update s.mutexes l (some false)
          | some m ↦ s.mutexes
        ];
      }))
]

-- `registryLock.unlock()`.
unfoldable pub lock_leave : ℕ → ℕ → System → Effect
lock_leave i l s = goes (go_to i (lock_wait l) (record s { sync_owner = none }))

-- `mtx->lock()`: the pointer is to an entry of the map; a mutex is not locked twice by its owner.
unfoldable pub lock_acquire : ℕ → ℕ → System → Effect
lock_acquire i l s = elim (s.mutexes l) [
  | none ↦ undefined
  | some locked ↦
      if locked
      then (if s.holds i l then undefined else waits)
      else goes (
          go_to i running (record s {
            mutexes = update s.mutexes l (some true);
            holds = update s.holds i (update (s.holds i) l true);
          }))
]

unfoldable pub unlock_enter : ℕ → ℕ → System → Effect
unlock_enter i l s = elim s.sync_owner [
  | some j ↦ waits
  | none ↦ goes (go_to i (unlock_found l) (record s { sync_owner = some i }))
]

-- A lock that is not in the map gives a warning; a mutex is unlocked by its owner only.
unfoldable pub unlock_leave : ℕ → ℕ → System → Effect
unlock_leave i l s = elim (s.mutexes l) [
  | none ↦ goes (go_to i running (record s { sync_owner = none }))
  | some locked ↦
      if s.holds i l
      then goes (
          go_to i running (record s {
            sync_owner = none;
            mutexes = update s.mutexes l (some false);
            holds = update s.holds i (update (s.holds i) l false);
          }))
      else undefined
]

-- `thread_create` and `run`: a new id, which nobody can find yet, and `registerThread`.
unfoldable pub create_enter : ℕ → System → Effect
create_enter i s = goes (record s {
  counter = s.counter + 1;
  pc = update (update s.pc s.counter created) i (starting false s.counter);
  registered = update s.registered s.counter true;
  native = update s.native s.counter (unassigned i);
})

-- The constructor of `std::thread`: the guest's code begins.
unfoldable pub create_start : ℕ → Bool → ℕ → System → Effect
create_start i by_host child s =
    goes (record s { pc = update (update s.pc child running) i (assigning by_host child) })

-- `nativeThread = ...`; the host goes on to `join`, with the pointer that it has.
unfoldable pub create_assign : ℕ → Bool → ℕ → System → Effect
create_assign i by_host child s = goes (
    go_to i (if by_host then join_found true child else creating child)
      (record s { native = update s.native child joinable }))

-- The pointer to the child is dropped. If it is the last one, the child is behind its
-- `unregisterThread`, and the destructor joins a native thread that has come to its end; nobody can
-- see the object any more.
unfoldable pub create_leave : ℕ → System → Effect
create_leave i s = goes (go_to i running s)

-- `thread_join`: a thread that is not in the registry has ended.
unfoldable pub join_enter : ℕ → ℕ → System → Effect
join_enter i t s = if s.registered t then goes (go_to i (join_found false t) s) else goes s

-- `assert(nativeThread.joinable())` and the call of `nativeThread.join()`, which two threads may not
-- be inside of at once.
unfoldable pub join_start : ℕ → Bool → ℕ → System → Effect
join_start i by_host t s = elim (s.native t) [
  | joinable ↦
      goes (go_to i (joining by_host t) (record s { native = update s.native t (joined_by i) }))
  | joined_by j ↦ undefined
  | _ ↦ aborts
]

unfoldable pub is_gone : Pc → Bool
is_gone gone = true
is_gone _ = false

-- The native thread has ended, behind `unregisterThread`; the host leaves `RunTest`.
unfoldable pub join_leave : ℕ → Bool → ℕ → System → Effect
join_leave i by_host t s =
    if is_gone (s.pc t)
    then goes (
        go_to i (if by_host then gone else running)
          (record s { native = update s.native t joined }))
    else waits

-- `terminate` jumps out of the guest's code, over the destructor of the pointer from `getCurrent`.
unfoldable pub halt : ℕ → System → Effect
halt i s = goes (go_to i halted s)

-- `thread_sleep`: a thread that should stop halts.
unfoldable pub sleep : ℕ → System → Effect
sleep i s = if s.should_stop i then halt i s else goes s

-- `nativeThread.joinable()`.
abbrev is_joinable : Native → Bool
is_joinable joinable = true
is_joinable (joined_by j) = true
is_joinable _ = false

-- The registry's pointer is the last one, and the destructor joins.
unfoldable pub is_last_joinable : ℕ → System → Bool
is_last_joinable i s = if is_held s.counter i s then false else is_joinable (s.native i)

abbrev pub leave_registry : ℕ → System → System
leave_registry i s = go_to i gone (record s { registered = update s.registered i false })

-- The end of the native thread: `unregisterThread`. If that destroys the object, the destructor joins
-- the thread that it runs on. The jump of a thread that has halted has left a pointer behind.
unfoldable pub unregister : ℕ → Bool → System → Effect
unregister i has_halted s =
    if has_halted
    then goes (leave_registry i s)
    else if is_last_joinable i s
    then aborts
    else goes (leave_registry i s)

-- A guest thread calls the host, or comes to the end of its code.
unfoldable pub call_host : Call → ℕ → System → Effect
call_host (thread_lock l) i s = with_current i s (goes (go_to i (lock_called l) s))
call_host (thread_unlock l) i s = with_current i s (goes (go_to i (unlock_called l) s))
call_host (thread_join t) i s = join_enter i t s
call_host thread_create i s = with_current i s (create_enter i s)
call_host thread_sleep i s = with_current i s (sleep i s)
call_host terminate i s = with_current i s (halt i s)
call_host return_from_main i s = goes (go_to i returned s)

-- The next piece of a function that a thread is inside of.
unfoldable pub move_on : Pc → ℕ → System → Effect
move_on (lock_called l) i s = lock_enter i l s
move_on (lock_found l) i s = lock_leave i l s
move_on (lock_wait l) i s = lock_acquire i l s
move_on (unlock_called l) i s = unlock_enter i l s
move_on (unlock_found l) i s = unlock_leave i l s
move_on (starting by_host child) i s = create_start i by_host child s
move_on (assigning by_host child) i s = create_assign i by_host child s
move_on (creating child) i s = create_leave i s
move_on (join_found by_host t) i s = join_start i by_host t s
move_on (joining by_host t) i s = join_leave i by_host t s
move_on halted i s = unregister i true s
move_on returned i s = unregister i false s
move_on _ i s = waits

-- `shouldStop = true` after `timeoutSoftMs`.
abbrev pub soft_timeout : ℕ → System → System
soft_timeout i s = record s { should_stop = update s.should_stop i true }
