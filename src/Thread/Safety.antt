-- ===== src/Thread/Safety.antt =====
-- What holds in every state that the threads can reach.
use temp_esas.Prelude.{ℕ, ◌≡◌, refl, true, arith}
use temp_esas.Thread.State.{System, start}
use temp_esas.Thread.Calls.{soft_timeout}
use temp_esas.Thread.Step.{Step, calls, moves, times_out, Reach, started, later}
use temp_esas.Thread.Invariant.{Inv}
use temp_esas.Thread.Invariant.Moves.{move_on-Inv}
use temp_esas.Thread.Invariant.Calls.{call_host-Inv}

start-Inv : Inv start
start-Inv = record {
  fresh = λ i h. ground arith;
  registry = λ i. ground arith;
  section_owner = λ i h. ground arith;
  owner_section = λ i h. cc;
  valid = λ i l h. ground arith;
  locked = λ i l h. cc;
  exclusive = λ i j l h₁ h₂. cc;
  owned = λ l h. absurd (ground arith);
  ended = λ i h. ground arith;
  present = λ i h. ground arith;
  unused = λ i h. ground arith;
  waiting = λ i c h. ground arith;
  makers = λ i c h. ground arith;
  made = λ i c h. ground arith;
  found = λ i t h. ground arith;
  joiners = λ i t h. ground arith;
  joined_one = λ i t h. ground arith;
}

soft_timeout-Inv : (i : ℕ) (s : System) → Inv s → Inv (soft_timeout i s)
soft_timeout-Inv i s inv = record {
  fresh = inv.fresh;
  registry = inv.registry;
  section_owner = inv.section_owner;
  owner_section = inv.owner_section;
  valid = inv.valid;
  locked = inv.locked;
  exclusive = inv.exclusive;
  owned = inv.owned;
  ended = inv.ended;
  present = inv.present;
  unused = inv.unused;
  waiting = inv.waiting;
  makers = inv.makers;
  made = inv.made;
  found = inv.found;
  joiners = inv.joiners;
  joined_one = inv.joined_one;
}

pub Step-Inv : {s t : System} → Step s t → Inv s → Inv t
Step-Inv {s} {t} (calls i c at e) inv = call_host-Inv i s t inv at c e
Step-Inv {s} {t} (moves i e) inv = move_on-Inv i s t inv (s.pc i) refl e
Step-Inv {s} (times_out i) inv = soft_timeout-Inv i s inv

pub Reach-Inv : {s : System} → Reach s → Inv s
Reach-Inv started = start-Inv
Reach-Inv (later r st) = Step-Inv st (Reach-Inv r)

-- In every state that the threads reach, in whatever order their pieces run, a lock has one
-- holder: two threads that hold it are the same.
pub mutual_exclusion :
    {s : System} → Reach s → (i j l : ℕ) → s.holds i l ≡ true → s.holds j l ≡ true → i ≡ j
mutual_exclusion r = (Reach-Inv r).exclusive
