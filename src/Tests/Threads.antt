-- ===== src/Tests/Threads.antt =====
-- Two guest threads: the second is created, waits for a lock of the first, or ends.
use temp_esas.Prelude.{
  ℕ, ◌≤◌, ◌≡◌, ◌≢◌, ◌⊎◌, ◌↔◌, refl, arith, Bool, true, false, Option, none, some,
}
use temp_esas.Thread.State.{System, start, running, unlock_found, lock_wait, joining, gone, is_held}
use temp_esas.Thread.Calls.{
  Effect, goes, waits, aborts, undefined, Call, thread_lock, thread_join, thread_create, terminate,
  return_from_main, call_host, move_on, create_enter, create_leave, lock_enter, lock_leave,
  lock_acquire, halt, unregister, create_start, create_assign, join_start, join_enter,
  is_last_joinable,
}
use temp_esas.Thread.Step.{Reach, started, later, calls, moves}
use temp_esas.Thread.Safety.{mutual_exclusion}
use temp_esas.Thread.Outcomes.{lock_wait-owned, lock_wait-undefined_iff, section-leaves, join_ended}
use temp_esas.Thread.Joins.{EndsProcess, move_on-aborts_iff, Leads, stays, leads, self_join-waits}
use temp_esas.Thread.Timeout.{Message, unregistered, exited, run_native}
use temp_esas.Thread.Timeout.Waiting.{after, IsRunningFor}
use temp_esas.Thread.Timeout.Deadline.{run_native-exited_iff, run_native-unregistered}

-- The state behind a piece that goes.
abbrev next : Effect → System
next (goes s) = s
next _ = start

abbrev called : ℕ → Call → System → System
called i c s = next (call_host c i s)

abbrev moved : ℕ → System → System
moved i s = next (move_on (s.pc i) i s)

-- The host has started thread 1 and is to join it.
abbrev one : System
one = moved 0 (moved 0 (moved 0 start))

one-Reach : Reach one
unfolding move_on create_start create_assign join_start
one-Reach = later (later (later started (moves 0 refl)) (moves 0 refl)) (moves 0 refl)

-- Thread 1 is inside `run` of thread 2, which has started but is not assigned.
abbrev assigning_two : System
assigning_two = moved 1 (called 1 thread_create one)

assigning_two-Reach : Reach assigning_two
unfolding move_on create_start create_assign join_start call_host create_enter
assigning_two-Reach = later (later one-Reach (calls 1 thread_create refl refl)) (moves 1 refl)

-- Thread 1 has created thread 2.
abbrev two : System
two = moved 1 (moved 1 assigning_two)

two-Reach : Reach two
unfolding move_on create_start create_assign join_start call_host create_enter create_leave
two-Reach = later (later assigning_two-Reach (moves 1 refl)) (moves 1 refl)

-- Thread 1 holds lock 7.
abbrev locked : System
locked = moved 1 (moved 1 (moved 1 (called 1 (thread_lock 7) two)))

locked-Reach : Reach locked
unfolding call_host create_enter move_on create_start create_assign join_start create_leave
    lock_enter lock_leave lock_acquire
locked-Reach =
    later
      (later (later (later two-Reach (calls 1 (thread_lock 7) refl refl)) (moves 1 refl))
        (moves 1 refl))
      (moves 1 refl)

-- Thread 2 asks for it, and stands between the lock and the unlock of the registry of locks.
abbrev finding : System
finding = moved 2 (called 2 (thread_lock 7) locked)

finding-Reach : Reach finding
unfolding call_host create_enter move_on create_start create_assign join_start create_leave
    lock_enter lock_leave lock_acquire
finding-Reach = later (later locked-Reach (calls 2 (thread_lock 7) refl refl)) (moves 2 refl)

abbrev waiting : System
waiting = moved 2 finding

waiting-Reach : Reach waiting
unfolding call_host create_enter move_on create_start create_assign join_start create_leave
    lock_enter lock_leave lock_acquire
waiting-Reach = later finding-Reach (moves 2 refl)

waiting-at : waiting.pc 2 ≡ lock_wait 7
unfolding call_host create_enter move_on create_start create_assign join_start create_leave
    lock_enter lock_leave lock_acquire
waiting-at = refl

waiting-waits : move_on (waiting.pc 2) 2 waiting ≡ waits
unfolding call_host create_enter move_on create_start create_assign join_start create_leave
    lock_enter lock_leave lock_acquire
waiting-waits = refl

waiting-holds : waiting.holds 1 7 ≡ true
unfolding call_host create_enter move_on create_start create_assign join_start create_leave
    lock_enter lock_leave lock_acquire
waiting-holds = refl

finding-owner : finding.sync_owner ≡ some 2
unfolding call_host create_enter move_on create_start create_assign join_start create_leave
    lock_enter lock_leave lock_acquire
finding-owner = refl

mutual_exclusion_example : ◌≡◌ {A = ℕ} 1 1
mutual_exclusion_example = mutual_exclusion waiting-Reach 1 1 7 waiting-holds waiting-holds

lock_wait-owned_example : (j : ℕ) × (waiting.holds j 7 ≡ true) × (j ≢ 2)
lock_wait-owned_example = lock_wait-owned waiting-Reach 2 7 waiting-at waiting-waits

lock_wait-undefined_iff_example :
    (move_on (waiting.pc 2) 2 waiting ≡ undefined) ↔ (waiting.holds 2 7 ≡ true)
lock_wait-undefined_iff_example = lock_wait-undefined_iff waiting-Reach 2 7 waiting-at

section-leaves_example :
    ((t : System) × (move_on (finding.pc 2) 2 finding ≡ goes t) × (t.sync_owner ≡ none))
    ⊎ ((l : ℕ) × (finding.pc 2 ≡ unlock_found l)
        × (finding.mutexes l ≢ none)
        × (finding.holds 2 l ≡ false))
section-leaves_example = section-leaves finding-Reach 2 finding-owner

-- Thread 2 has halted and is gone.
abbrev halted_two : System
halted_two = moved 2 (called 2 terminate two)

halted_two-Reach : Reach halted_two
unfolding call_host create_enter move_on create_start create_assign join_start create_leave halt
    unregister
halted_two-Reach = later (later two-Reach (calls 2 terminate refl refl)) (moves 2 refl)

halted_two-gone : halted_two.pc 2 ≡ gone
unfolding call_host create_enter move_on create_start create_assign join_start create_leave halt
    unregister
halted_two-gone = refl

halted_two-running : halted_two.pc 1 ≡ running
unfolding call_host create_enter move_on create_start create_assign join_start create_leave halt
    unregister
halted_two-running = refl

join_ended_example : call_host (thread_join 2) 1 halted_two ≡ goes halted_two
join_ended_example = join_ended halted_two-Reach 1 2 halted_two-running halted_two-gone

-- Thread 2 has come to the end of its code.
abbrev returned_two : System
returned_two = called 2 return_from_main two

returned_two-Reach : Reach returned_two
unfolding call_host create_enter move_on create_start create_assign join_start create_leave
returned_two-Reach = later two-Reach (calls 2 return_from_main refl refl)

returned_two-unheld : is_last_joinable 2 returned_two ≡ true
unfolding call_host create_enter move_on create_start create_assign join_start create_leave
    is_last_joinable is_held
returned_two-unheld = refl

returned_two-aborts : move_on (returned_two.pc 2) 2 returned_two ≡ aborts
unfolding call_host create_enter move_on create_start create_assign join_start create_leave
    unregister is_last_joinable is_held
returned_two-aborts = refl

-- Thread 2 joins itself before its native thread is assigned.
abbrev early : System
early = called 2 (thread_join 2) assigning_two

early-Reach : Reach early
unfolding call_host create_enter move_on create_start create_assign join_start join_enter
early-Reach = later assigning_two-Reach (calls 2 (thread_join 2) refl refl)

early-aborts : move_on (early.pc 2) 2 early ≡ aborts
unfolding call_host create_enter move_on create_start create_assign join_start join_enter
early-aborts = refl

move_on-aborts_iff_example : (move_on (early.pc 2) 2 early ≡ aborts) ↔ EndsProcess early 2
move_on-aborts_iff_example = move_on-aborts_iff early-Reach 2

-- Thread 2 joins itself, and thread 1 creates another thread meanwhile.
abbrev stuck : System
stuck = moved 2 (called 2 (thread_join 2) two)

stuck-Reach : Reach stuck
unfolding call_host create_enter move_on create_start create_assign join_start create_leave
    join_enter
stuck-Reach = later (later two-Reach (calls 2 (thread_join 2) refl refl)) (moves 2 refl)

stuck-joining : stuck.pc 2 ≡ joining false 2
unfolding call_host create_enter move_on create_start create_assign join_start create_leave
    join_enter
stuck-joining = refl

abbrev stuck_later : System
stuck_later = called 1 thread_create stuck

stuck-Leads : Leads stuck stuck_later
unfolding call_host create_enter move_on create_start create_assign join_start create_leave
    join_enter
stuck-Leads = leads stays (calls 1 thread_create refl refl)

self_join-waits_example :
    (stuck_later.pc 2 ≡ joining false 2) × (move_on (stuck_later.pc 2) 2 stuck_later ≡ waits)
self_join-waits_example = self_join-waits 2 stuck-Reach stuck-joining stuck-Leads

-- A guest that runs until it is asked to stop.
abbrev polite : Bool → Option ℕ → Option ℕ
polite true g = none
polite false g = g

abbrev halted_result : Option ℕ → Option ℕ
halted_result none = some 1
halted_result (some n) = none

run_native-exited_iff_example : (run_native polite halted_result (some 0) ≡ exited 1) ↔ (
    IsRunningFor polite halted_result 3000 false (some 0)
    × IsRunningFor polite halted_result 2000 true (after polite halted_result 3000 false (some 0)))
run_native-exited_iff_example = run_native-exited_iff polite halted_result (some 0)

polite-halts :
    (ms : ℕ) (g : Option ℕ)
    → halted_result (after polite halted_result 1 true (after polite halted_result ms false g))
      ≢ none
unfolding after
polite-halts ms g = ground arith

run_native-unregistered_example :
    (ms : ℕ) × (message : Option Message) × (ms ≤ 5000)
    × (run_native polite halted_result (some 0) ≡ unregistered ms message)
run_native-unregistered_example =
    run_native-unregistered polite halted_result (some 0) 1 (omega arith)
      (polite-halts 3000 (some 0))
