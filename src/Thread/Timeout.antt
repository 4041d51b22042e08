-- ===== src/Thread/Timeout.antt =====
-- The native thread of `CThread::run` (thread.h): it runs the guest's code in a second thread, asks
-- it to stop after a while, and ends the process when that does not help.
pub mod Waiting
pub mod Deadline
use temp_esas.Prelude.{ℕ, zero, suc, ◌+◌, ◌-◌, Bool, true, false, Option, none, some}

abbrev pub timeout_soft_ms : ℕ
timeout_soft_ms = 3000

abbrev pub timeout_hard_ms : ℕ
timeout_hard_ms = 5000

-- What `future.wait_for` comes back with, and after how many milliseconds.
pub data Status {ℓ} (Guest : Type ℓ) : Type ℓ where
  ready : (elapsed result : ℕ) → Status Guest
  timeout : Guest → Status Guest

pub data Message : Type 0 where
  halted_via_terminate completed_normally : Message

pub data Ending : Type 0 where
  unregistered : (elapsed : ℕ) (message : Option Message) → Ending
  exited : (code : ℕ) → Ending

-- The message by the result of `config->run`.
unfoldable pub result_message : ℕ → Option Message
result_message zero = some completed_normally
result_message (suc zero) = some halted_via_terminate
result_message _ = none

-- The guest's code is a parameter: a millisecond of it, under `shouldStop` or not, and its result
-- once it has ended.
module _ {ℓ} {Guest : Type ℓ} (tick : Bool → Guest → Guest) (result : Guest → Option ℕ) where
  unfoldable pub wait_for : ℕ → ℕ → Bool → Guest → Status Guest
  wait_for zero elapsed should_stop g = elim (result g) [
    | some r ↦ ready elapsed r
    | none ↦ timeout g
  ]
  wait_for (suc ms) elapsed should_stop g =
      let rest = wait_for ms (elapsed + 1) should_stop (tick should_stop g) in
      elim (result g) [ some r ↦ ready elapsed r | none ↦ rest ]

  -- `shouldStop` is set: another wait, without the message.
  unfoldable pub stop_native : Guest → Ending
  stop_native g = elim (wait_for (timeout_hard_ms - timeout_soft_ms) timeout_soft_ms true g) [
    | ready elapsed r ↦ unregistered elapsed none
    | timeout g' ↦ exited 1
  ]

  unfoldable pub run_native : Guest → Ending
  run_native g = elim (wait_for timeout_soft_ms 0 false g) [
    | ready elapsed r ↦ unregistered elapsed (result_message r)
    | timeout g' ↦ stop_native g'
  ]
