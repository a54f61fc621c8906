-- ===== src/Monitor/Examples.antt =====
-- Small polls for scripts/plex-health-monitor.py, and the theorems at them.
use media_stack.Common.{
  All, Bool, List, Option, String, [], false, none, refl, some, true, ℕ, ◌↔◌, ◌∷◌, ◌≡◌, ◌≤◌,
}
use media_stack.Monitor.Data.{
  Activity, Poll, ScanHealth, State, answered, failing, info, notify, post_restart, recovered_from,
  restart_result, scan_lag, scan_stuck, seconds, unreachable_for, warn,
}
use media_stack.Monitor.Loop.{
  alert_step, answer_step, classify, cycle, fail_step, health_step, is_failing, lag, recover_step,
  restart_step, run, scan_progress, start, track,
}
use media_stack.Monitor.Cooldown.{
  IsCause, Spaced, lag_at, posted, restart_iff, restart_times, restart_times-Spaced,
}
use media_stack.Monitor.Alerts.{IsCovered, failed_polls, run-IsCovered, unreachable_once}
use media_stack.Monitor.Quiet.{IsIdle, IsInfo, idle_run-IsInfo}

abbrev scan_at : ℕ → List Activity
scan_at n = record { type = some "library.update.section"; progress = some n } ∷ []

abbrev health : List Activity → ℕ → Option ℕ → Bool → Option String → ScanHealth
health activities threads busy analysis state = record {
  activities = activities;
  dstate_threads = threads;
  mount_ok = some true;
  recent_busy_db_errors = busy;
  analysis_active = analysis;
  state = state;
}

abbrev stuck : ScanHealth
stuck = health (scan_at 40) 0 (some 0) false (some "scanning")

abbrev busy : ScanHealth
busy = health [] 0 (some 2) false none

abbrev analysing : ScanHealth
analysing = health (scan_at 40) 0 none true none

abbrev suspected : ScanHealth
suspected = health [] 0 none false (some "stalled_suspected")

abbrev healthy : ScanHealth
healthy = health [] 0 none false (some "idle")

abbrev poll : ScanHealth → ℕ → Poll
poll d n = answered none d (seconds n) true "ok"

abbrev begin : State
begin = record {
  last_progress = none;
  last_progress_ts = seconds 1000;
  lag_started_ts = none;
  active_alert = none;
  last_restart_ts = 0;
  consecutive_poll_failures = 0;
}

start-begin : (start (seconds 1000)).0 ≡ begin
unfolding start
start-begin = refl

-- The scan stands still from 1015 s on: an alert at 1045 s, a restart at 1105 s, and the next one
-- only after the cooldown.
abbrev long_stall : List Poll
long_stall =
    poll stuck 1015
    ∷ poll stuck 1030
    ∷ poll stuck 1045
    ∷ poll stuck 1105
    ∷ poll stuck 1120
    ∷ poll stuck 1704
    ∷ poll stuck 1705
    ∷ poll healthy 1720
    ∷ []

program : Unit {0}
unfolding run classify scan_progress track lag is_failing alert_step restart_step recover_step
    fail_step answer_step health_step restart_times
program = tt

restart_times-long_stall : restart_times long_stall begin ≡ seconds 1105 ∷ seconds 1705 ∷ []
unfolding program
restart_times-long_stall = refl

run-long_stall :
    (run long_stall begin).1
    ≡ notify (scan_stuck (some 40) 30) warn
      ∷ post_restart
      ∷ notify (restart_result true "ok") warn
      ∷ post_restart
      ∷ notify (restart_result true "ok") warn
      ∷ notify (recovered_from (failing scan_lag)) info
      ∷ []
unfolding program
run-long_stall = refl

restart_times-Spaced_example : Spaced 0 (restart_times long_stall begin)
restart_times-Spaced_example = restart_times-Spaced long_stall begin

restart_iff_example : (posted (cycle (poll busy 1015) begin).1 ≡ true) ↔ (
    (seconds 600 ≤ seconds 1015)
    × IsCause (classify busy) (lag_at busy (seconds 1015) (answer_step begin).0))
restart_iff_example = restart_iff none busy (seconds 1015) true "ok" begin

restart-busy : posted (cycle (poll busy 1015) begin).1 ≡ true
unfolding program cycle
restart-busy = refl

run-IsCovered_example : IsCovered begin (run long_stall begin)
run-IsCovered_example = run-IsCovered long_stall begin

unreachable_once_example : (run (failed_polls 9) begin).1 ≡ notify (unreachable_for 4) warn ∷ []
unreachable_once_example = unreachable_once 9 begin refl refl

no_scan : (n : ℕ) → IsIdle (poll suspected n)
unfolding scan_progress
no_scan n = (record { no_dstate = refl; mounted = refl; not_busy = refl }, refl)

suspected_is_lag : classify suspected ≡ some scan_lag
unfolding classify scan_progress
suspected_is_lag = refl

idle_run-IsInfo_example : All IsInfo (run (poll suspected 1015 ∷ poll suspected 99999 ∷ []) begin).1
idle_run-IsInfo_example =
    idle_run-IsInfo (poll suspected 1015 ∷ poll suspected 99999 ∷ []) begin
      (no_scan 1015, (no_scan 99999, tt)) (refl, refl)
