-- ===== src/Thread/Step.antt =====
-- The threads of thread.h in any order: one piece of code at a time.
use temp_esas.Prelude.{ℕ, ◌≡◌}
use temp_esas.Thread.State.{System, running, start}
use temp_esas.Thread.Calls.{goes, Call, call_host, move_on, soft_timeout}

-- Guest code decides what a running thread does next.
pub data Step (s : System) : System → Type 0 where
  calls : (i : ℕ) (c : Call) {t : System} → s.pc i ≡ running → call_host c i s ≡ goes t → Step s t
  moves : (i : ℕ) {t : System} → move_on (s.pc i) i s ≡ goes t → Step s t
  times_out : (i : ℕ) → Step s (soft_timeout i s)

pub data Reach : System → Type 0 where
  started : Reach start
  later : {s t : System} → Reach s → Step s t → Reach t
