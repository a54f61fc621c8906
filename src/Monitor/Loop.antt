-- ===== src/Monitor/Loop.antt =====
-- `scan_progress`, `classify` and the loop of `main` in scripts/plex-health-monitor.py.
use media_stack.Common.{
  ℕ, ◌+◌, ◌-◌, ◌/◌, String, Bool, true, false, not, ◌&&◌, ◌||◌, Option, none, some, List, [], ◌∷◌,
  ◌++◌, if◌then◌else◌, ltb, leb, ◌==◌, is_text, get_default,
}
use media_stack.Monitor.Data.{
  scan_lag_alert_seconds, scan_lag_restart_seconds, restart_cooldown_seconds,
  consecutive_poll_failure_alert, seconds, Activity, ScanHealth, Kind, hard_hang, busy_db, scan_lag,
  Alert, failing, poll_unreachable, State, info, warn, error, Notice, started, unreachable_for,
  responding_again, hang_detected, busy_detected, scan_stuck, restart_result, recovered_from,
  Output, notify, post_restart, Poll, failed, answered,
}

-- The progress of the first activity that updates a section.
unfoldable pub first_progress : List Activity → Option ℕ
first_progress [] = none
first_progress (a ∷ rest) =
    let later = first_progress rest in
    if is_text a.type "library.update.section" then a.progress else later

unfoldable pub scan_progress : ScanHealth → Option ℕ
unfolding first_progress
scan_progress d = first_progress d.activities

abbrev pub is_some : Option ℕ → Bool
is_some none = false
is_some (some n) = true

unfoldable pub classify : ScanHealth → Option Kind
classify d =
    if ltb 0 d.dstate_threads || not (get_default true d.mount_ok)
    then some hard_hang
    else if ltb 0 (get_default 0 d.recent_busy_db_errors)
    then some busy_db
    else if d.analysis_active
    then none
    else if is_some (scan_progress d)
        || (is_text d.state "scanning" || is_text d.state "stalled_suspected")
    then some scan_lag
    else none

abbrev pub same_progress : Option ℕ → Option ℕ → Bool
same_progress none none = true
same_progress (some a) (some b) = a == b
same_progress _ _ = false

-- `x or default`, on an optional number: None and 0 are false.
abbrev pub or_else : Option ℕ → ℕ → ℕ
or_else none d = d
or_else (some n) d = if n == 0 then d else n

-- `if progress != last_progress: … elif progress is not None: …`
unfoldable pub track : Option ℕ → ℕ → State → State
track progress now s =
    if not (same_progress progress s.last_progress)
    then record s { last_progress = progress; last_progress_ts = now; lag_started_ts = none }
    else if is_some progress
    then record s { lag_started_ts = some (or_else s.lag_started_ts s.last_progress_ts) }
    else s

abbrev pub is_kind : Kind → Option Kind → Bool
is_kind hard_hang (some hard_hang) = true
is_kind busy_db (some busy_db) = true
is_kind scan_lag (some scan_lag) = true
is_kind _ _ = false

-- `lag_seconds`, in milliseconds.
unfoldable pub lag : Option Kind → Option ℕ → ℕ → ℕ
lag kind none now = 0
lag kind (some t) now = if is_kind scan_lag kind && ltb 0 t then now - t else 0

unfoldable pub is_failing : Option Kind → ℕ → Bool
is_failing kind l =
    is_kind hard_hang kind
    || (is_kind busy_db kind || (is_kind scan_lag kind && leb (seconds scan_lag_alert_seconds) l))

abbrev pub is_alert : Option Kind → Option Alert → Bool
is_alert kind (some (failing k)) = is_kind k kind
is_alert none none = true
is_alert _ _ = false

abbrev pub alert_of : Option Kind → Option Alert
alert_of none = none
alert_of (some k) = some (failing k)

unfoldable pub message_for : ScanHealth → Option ℕ → ℕ → Option Kind → Notice
message_for d progress l (some hard_hang) = hang_detected d.dstate_threads d.mount_ok
message_for d progress l (some busy_db) = busy_detected d.recent_busy_db_errors
message_for d progress l _ = scan_stuck progress (l / 1000)

-- The block under `if is_failing and kind != active_alert`.
unfoldable pub alert_step : ScanHealth → Option Kind → ℕ → State → State × List Output
unfolding message_for is_failing
alert_step d kind l s =
    if is_failing kind l && not (is_alert kind s.active_alert)
    then (
      record s { active_alert = alert_of kind },
      notify (message_for d s.last_progress l kind) (if is_kind hard_hang kind then error else warn)
          ∷ [],
    )
    else (s, [])

unfoldable pub should_restart : Option Kind → ℕ → ℕ → ℕ → Bool
unfolding is_failing
should_restart kind l now last_restart_ts =
    is_failing kind l
    && (not (is_kind hard_hang kind)
        && (leb (seconds restart_cooldown_seconds) (now - last_restart_ts)
            && (is_kind busy_db kind || leb (seconds scan_lag_restart_seconds) l)))

unfoldable pub restart_step : Option Kind → ℕ → ℕ → Bool → String → State → State × List Output
unfolding should_restart
restart_step kind l now success message s =
    if should_restart kind l now s.last_restart_ts
    then (
      record s { last_restart_ts = now },
      post_restart ∷ notify (restart_result success message) (if success then warn else error) ∷ [],
    )
    else (s, [])

-- The block under `if not is_failing and active_alert is not None`.
unfoldable pub recover_step : Option Kind → ℕ → State → State × List Output
unfolding is_failing
recover_step kind l s = if is_failing kind l then (s, []) else elim s.active_alert [
  | none ↦ (s, [])
  | some a ↦
      (record s { active_alert = none; lag_started_ts = none }, notify (recovered_from a) info ∷ [])
]

abbrev pub is_unreachable : Option Alert → Bool
is_unreachable (some poll_unreachable) = true
is_unreachable _ = false

-- The `except` branch of the poll.
unfoldable pub fail_step : State → State × List Output
fail_step s =
    let n = s.consecutive_poll_failures + 1 in
    if n == consecutive_poll_failure_alert && not (is_unreachable s.active_alert)
    then (
      record s { consecutive_poll_failures = n; active_alert = some poll_unreachable },
      notify (unreachable_for n) warn ∷ [],
    )
    else (record s { consecutive_poll_failures = n }, [])

-- From a poll that was answered up to `progress = scan_progress(data)`.
unfoldable pub answer_step : State → State × List Output
answer_step s = (
  record s {
    consecutive_poll_failures = 0;
    active_alert = if is_unreachable s.active_alert then none else s.active_alert;
  },
  if leb consecutive_poll_failure_alert s.consecutive_poll_failures
      then notify (responding_again s.consecutive_poll_failures) info ∷ []
      else [],
)

-- The rest of the turn.
unfoldable pub health_step : ScanHealth → ℕ → Bool → String → State → State × List Output
health_step d now success message s =
    let tracked = track (scan_progress d) now s in
    let kind = classify d in
    let l = lag kind tracked.lag_started_ts now in
    let a = alert_step d kind l tracked in
    let r = restart_step kind l now success message a.0 in
    let e = recover_step kind l r.0 in (e.0, a.1 ++ r.1 ++ e.1)

unfoldable pub cycle : Poll → State → State × List Output
cycle failed s = fail_step s
cycle (answered detail parsed now success message) s =
    let a = answer_step s in
    let h = health_step (get_default parsed detail) now success message a.0 in (h.0, a.1 ++ h.1)

-- `main`, up to its loop, at the time `now`.
unfoldable pub start : ℕ → State × List Output
start now = (
  record {
    last_progress = none;
    last_progress_ts = now;
    lag_started_ts = none;
    active_alert = none;
    last_restart_ts = 0;
    consecutive_poll_failures = 0;
  },
  notify started info ∷ [],
)

-- The loop over the polls that come in, with what it sends.
unfoldable pub run : List Poll → State → State × List Output
unfolding cycle
run [] s = (s, [])
run (p ∷ rest) s = let c = cycle p s in let later = run rest c.0 in (later.0, c.1 ++ later.1)
