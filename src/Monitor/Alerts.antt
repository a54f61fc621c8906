-- ===== src/Monitor/Alerts.antt =====
-- How the notices of scripts/plex-health-monitor.py pair up over a run.
use media_stack.Common.{
  Bool, Bool-cases, List, Option, String, [], arith, count_if, count_if-append, false, get_default,
  if◌then◌else◌, inl, inr, leb, ltb, none, some, suc, true, zero, ℕ, ◌&&◌, ◌++◌, ◌+◌, ◌∷◌, ◌≡◌, ◌≤◌,
  ◌⊎◌,
}
use media_stack.Monitor.Data.{
  Kind, Output, Poll, ScanHealth, State, answered, busy_db, busy_detected,
  consecutive_poll_failure_alert, failed, hang_detected, hard_hang, notify, recovered_from,
  scan_lag, scan_stuck, unreachable_for, warn,
}
use media_stack.Monitor.Loop.{
  alert_step, answer_step, classify, cycle, fail_step, health_step, is_unreachable, lag,
  recover_step, restart_step, run, scan_progress, should_restart, track,
}

-- A notice that tells of a failure.
abbrev pub is_failure : Output → Bool
is_failure (notify (unreachable_for n) l) = true
is_failure (notify (hang_detected n m) l) = true
is_failure (notify (busy_detected n) l) = true
is_failure (notify (scan_stuck p n) l) = true
is_failure _ = false

abbrev pub is_recovery : Output → Bool
is_recovery (notify (recovered_from a) l) = true
is_recovery _ = false

-- 1 while an alert is active.
abbrev pub pending : State → ℕ
pending s = elim s.active_alert [ none ↦ 0 | some a ↦ 1 ]

abbrev pub failures : List Output → ℕ
failures xs = count_if is_failure xs

abbrev pub recoveries : List Output → ℕ
recoveries xs = count_if is_recovery xs

-- Recoveries, and the alert that is still active, are covered by failures told of.
abbrev pub IsCovered : State → State × List Output → Type 0
IsCovered s r = recoveries r.1 + pending r.0 ≤ failures r.1 + pending s

alert_step-IsCovered :
    (d : ScanHealth) (k : Option Kind) (l : ℕ) (s : State) → IsCovered s (alert_step d k l s)
unfolding alert_step count_if
alert_step-IsCovered d none l s = ground arith
alert_step-IsCovered d (some hard_hang) l s = ground arith
alert_step-IsCovered d (some busy_db) l s = ground arith
alert_step-IsCovered d (some scan_lag) l s = ground arith

restart_step-IsCovered :
    (k : Option Kind) (l now : ℕ) (success : Bool) (message : String) (s : State)
    → IsCovered s (restart_step k l now success message s)
unfolding restart_step count_if
restart_step-IsCovered k l now success message s =
    elim (Bool-cases (should_restart k l now s.last_restart_ts)) [
      | inl e ↦ rw e (omega arith)
      | inr e ↦ rw e (omega arith)
    ]

recover_step-IsCovered : (k : Option Kind) (l : ℕ) (s : State) → IsCovered s (recover_step k l s)
unfolding recover_step count_if
recover_step-IsCovered k l s = ground arith

answer_step-IsCovered : (s : State) → IsCovered s (answer_step s)
unfolding answer_step count_if
answer_step-IsCovered s = ground arith

fail_step-IsCovered : (s : State) → IsCovered s (fail_step s)
unfolding fail_step count_if
fail_step-IsCovered s = ground arith

pending-track : (p : Option ℕ) (now : ℕ) (s : State) → pending (track p now s) ≡ pending s
unfolding track
pending-track p now s = ground arith

-- One step after another is covered if both are.
IsCovered-append :
    (s t u : State) (xs ys : List Output)
    → IsCovered s (t, xs)
    → IsCovered t (u, ys)
    → IsCovered s (u, xs ++ ys)
IsCovered-append s t u xs ys h k =
    omega (arith, count_if-append {0} is_failure xs ys, count_if-append {0} is_recovery xs ys)

health_step-IsCovered :
    (d : ScanHealth) (now : ℕ) (success : Bool) (message : String) (s : State)
    → IsCovered s (health_step d now success message s)
unfolding health_step
health_step-IsCovered d now success message s =
    let p = track (scan_progress d) now s in
    let k = classify d in
    let l = lag k p.lag_started_ts now in
    let a = alert_step d k l p in
    let r = restart_step k l now success message a.0 in
    let e = recover_step k l r.0 in
    IsCovered-append s r.0 e.0 (a.1 ++ r.1) e.1
      (IsCovered-append s a.0 r.0 a.1 r.1
        (omega (arith, alert_step-IsCovered d k l p, pending-track (scan_progress d) now s))
        (restart_step-IsCovered k l now success message a.0))
      (recover_step-IsCovered k l r.0)

cycle-IsCovered : (p : Poll) (s : State) → IsCovered s (cycle p s)
unfolding cycle
cycle-IsCovered failed s = fail_step-IsCovered s
cycle-IsCovered (answered detail parsed now success message) s =
    let a = answer_step s in
    let h = health_step (get_default parsed detail) now success message a.0 in
    IsCovered-append s a.0 h.0 a.1 h.1 (answer_step-IsCovered s)
      (health_step-IsCovered (get_default parsed detail) now success message a.0)

-- In every run, from any state: each recovery is told of at most once for each failure told of
-- before (or for the alert that was active at the start), and an alert is active at the end only
-- if one failure notice is not yet used up by a recovery.
pub run-IsCovered : (polls : List Poll) (s : State) → IsCovered s (run polls s)
unfolding run count_if
run-IsCovered [] s = omega arith
run-IsCovered (p ∷ rest) s =
    let c = cycle p s in
    let later = run rest c.0 in
    IsCovered-append s c.0 later.0 c.1 later.1 (cycle-IsCovered p s) (run-IsCovered rest c.0)

abbrev pub failed_polls : ℕ → List Poll
failed_polls zero = []
failed_polls (suc n) = failed ∷ failed_polls n

failed_polls_from :
    (n k : ℕ) (s : State)
    → s.consecutive_poll_failures ≡ k
    → is_unreachable s.active_alert ≡ false ⊎ (4 ≤ k)
    → (run (failed_polls n) s).1
      ≡ (if ltb k 4 && leb 4 (k + n) then notify (unreachable_for 4) warn ∷ [] else [])
unfolding run cycle fail_step
failed_polls_from zero k s e h = ground arith
failed_polls_from (suc n) k s e h = ground (arith, failed_polls_from n (k + 1) (fail_step s).0)

-- From a state with no failed poll behind it and no alert that the poll is unreachable, `n` failed
-- polls in a row send one notice in all if `n` is at least 4, at the fourth, and none otherwise.
pub unreachable_once :
    (n : ℕ) (s : State)
    → s.consecutive_poll_failures ≡ 0
    → is_unreachable s.active_alert ≡ false
    → (run (failed_polls n) s).1
      ≡ (if leb consecutive_poll_failure_alert n then notify (unreachable_for 4) warn ∷ [] else [])
unreachable_once n s e h = ground (arith, failed_polls_from n 0 s e (inl h))
