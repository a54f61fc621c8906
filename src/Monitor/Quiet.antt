-- ===== src/Monitor/Quiet.antt =====
-- What scripts/plex-health-monitor.py keeps quiet about, and what it does not.
use media_stack.Monitor.Cooldown.{health_of, lag_at}
use media_stack.Common.{
  All, All-append, Bool, Bool-cases, List, Option, String, [], arith, false, get_default,
  if◌then◌else◌, inl, inr, leb, none, refl, some, true, ℕ, ◌∷◌, ◌≡◌, ◌⊎◌,
}
use media_stack.Monitor.Data.{
  Alert, Kind, Output, Poll, ScanHealth, State, answered, consecutive_poll_failure_alert, failed,
  info, notify, recovered_from, scan_lag,
}
use media_stack.Monitor.Loop.{
  alert_step, answer_step, classify, cycle, health_step, is_failing, lag, recover_step,
  restart_step, run, scan_progress, track,
}

-- Outputs that neither restart nor tell of a failure: notices of the level `info`.
abbrev pub IsInfo : Output → Type 0
IsInfo (notify n info) = Unit
IsInfo _ = ⊥

-- No thread hangs, the mount is there and the database is not busy.
pub record IsCalm (d : ScanHealth) : Type 0 where
  pub no_dstate : d.dstate_threads ≡ 0
  pub mounted : get_default true d.mount_ok ≡ true
  pub not_busy : get_default 0 d.recent_busy_db_errors ≡ 0

classify_calm :
    (d : ScanHealth)
    → IsCalm d
    → (classify d ≡ none) ⊎ ((classify d ≡ some scan_lag) × (d.analysis_active ≡ false))
unfolding classify
classify_calm d h = ground arith

classify_analysis : (d : ScanHealth) → IsCalm d → d.analysis_active ≡ true → classify d ≡ none
unfolding classify
classify_analysis d h active = ground arith

alert_step_calm :
    (d : ScanHealth) (k : Option Kind) (l : ℕ) (s : State)
    → is_failing k l ≡ false
    → alert_step d k l s ≡ (s, [])
unfolding alert_step
alert_step_calm d k l s h = rw h

restart_step_calm :
    (k : Option Kind) (l now : ℕ) (success : Bool) (message : String) (s : State)
    → is_failing k l ≡ false
    → restart_step k l now success message s ≡ (s, [])
unfolding restart_step
restart_step_calm k l now success message s h = rw h

recover_step-IsInfo : (k : Option Kind) (l : ℕ) (s : State) → All IsInfo (recover_step k l s).1
unfolding recover_step
recover_step-IsInfo k l s = go (is_failing k l) s.active_alert
  where
    go :
        (b : Bool) (o : Option Alert)
        → All IsInfo
            (if b then (s, []) else elim o as (λ z. State × List Output) [
              | none ↦ (s, [])
              | some a ↦ (
                record s { active_alert = none; lag_started_ts = none },
                notify (recovered_from a) info ∷ [],
              )
            ]).1
    go true o = tt
    go false none = tt
    go false (some a) = (tt, tt)

health_step-IsInfo :
    (d : ScanHealth) (now : ℕ) (success : Bool) (message : String) (s : State)
    → is_failing (classify d) (lag_at d now s) ≡ false
    → All IsInfo (health_step d now success message s).1
unfolding health_step
health_step-IsInfo d now success message s h =
    let p = track (scan_progress d) now s in
    let k = classify d in
    let l = lag_at d now s in
    rw (alert_step_calm d k l p h)
      (rw (restart_step_calm k l now success message p h) (recover_step-IsInfo k l p))

answer_step-IsInfo : (s : State) → All IsInfo (answer_step s).1
unfolding answer_step
answer_step-IsInfo s =
    elim (Bool-cases (leb consecutive_poll_failure_alert s.consecutive_poll_failures)) [
      | inl e ↦ rw e (tt, tt)
      | inr e ↦ rw e tt
    ]

cycle-IsInfo :
    (detail : Option ScanHealth) (parsed : ScanHealth) (now : ℕ) (success : Bool) (message : String)
    (s : State)
    → is_failing
        (classify (health_of detail parsed))
        (lag_at (health_of detail parsed) now (answer_step s).0)
      ≡ false
    → All IsInfo (cycle (answered detail parsed now success message) s).1
unfolding cycle
cycle-IsInfo detail parsed now success message s h =
    All-append IsInfo (answer_step s).1 _ (answer_step-IsInfo s)
      (health_step-IsInfo (health_of detail parsed) now success message (answer_step s).0 h)

not_failing_none : (l : ℕ) → is_failing none l ≡ false
unfolding is_failing
not_failing_none l = refl

-- While the media analyzer works, a poll with no hung thread, a mounted library and no busy
-- database neither restarts Plex nor tells of a failure, however long the progress has stood still.
analysis-IsInfo :
    (d : ScanHealth) (now : ℕ) (success : Bool) (message : String) (s : State)
    → IsCalm d
    → d.analysis_active ≡ true
    → All IsInfo (cycle (answered none d now success message) s).1
analysis-IsInfo d now success message s calm active =
    cycle-IsInfo none d now success message s
      (rw (classify_analysis d calm active) (not_failing_none _))

-- A lag is counted only for a progress that was read.
abbrev pub HasNoLag : State → Type 0
HasNoLag s = (s.last_progress ≡ none) × (s.lag_started_ts ≡ none)

track-HasNoLag : (now : ℕ) (s : State) → HasNoLag s → HasNoLag (track none now s)
unfolding track
track-HasNoLag now s h = ground arith

-- An answered poll that reports calm and no scan activity, whatever its `state`.
abbrev pub IsIdle : Poll → Type 0
IsIdle failed = ⊥
IsIdle (answered detail parsed now success message) =
    IsCalm (health_of detail parsed) × (scan_progress (health_of detail parsed) ≡ none)

alert_step-HasNoLag :
    (d : ScanHealth) (k : Option Kind) (l : ℕ) (s : State)
    → HasNoLag s
    → HasNoLag (alert_step d k l s).0
unfolding alert_step
alert_step-HasNoLag d k l s h = ground arith

restart_step-HasNoLag :
    (k : Option Kind) (l now : ℕ) (success : Bool) (message : String) (s : State)
    → HasNoLag s
    → HasNoLag (restart_step k l now success message s).0
unfolding restart_step
restart_step-HasNoLag k l now success message s h = ground arith

recover_step-HasNoLag :
    (k : Option Kind) (l : ℕ) (s : State) → HasNoLag s → HasNoLag (recover_step k l s).0
unfolding recover_step
recover_step-HasNoLag k l s h = ground arith

answer_step-HasNoLag : (s : State) → HasNoLag s → HasNoLag (answer_step s).0
unfolding answer_step
answer_step-HasNoLag s h = h

health_step-HasNoLag :
    (d : ScanHealth) (now : ℕ) (success : Bool) (message : String) (s : State)
    → HasNoLag (track (scan_progress d) now s)
    → HasNoLag (health_step d now success message s).0
unfolding health_step
health_step-HasNoLag d now success message s h =
    let p = track (scan_progress d) now s in
    let k = classify d in
    let l = lag_at d now s in
    let a = alert_step d k l p in
    recover_step-HasNoLag k l (restart_step k l now success message a.0).0
      (restart_step-HasNoLag k l now success message a.0 (alert_step-HasNoLag d k l p h))

not_failing_idle :
    (k : Option Kind) (now : ℕ)
    → (k ≡ none) ⊎ (k ≡ some scan_lag)
    → is_failing k (lag k none now) ≡ false
unfolding is_failing lag
not_failing_idle k now h = ground arith

cycle_idle :
    (p : Poll) (s : State)
    → IsIdle p
    → HasNoLag s
    → All IsInfo (cycle p s).1 × HasNoLag (cycle p s).0
cycle_idle failed s idle h = absurd idle
cycle_idle (answered detail parsed now success message) s idle h =
    let d = health_of detail parsed in
    let tracked : HasNoLag (track (scan_progress d) now (answer_step s).0) =
      rw idle.1 (track-HasNoLag now (answer_step s).0 (answer_step-HasNoLag s h)) in
    let calm : (classify d ≡ none) ⊎ (classify d ≡ some scan_lag) =
      ground (arith, classify_calm d idle.0) in
    let quiet : is_failing (classify d) (lag_at d now (answer_step s).0) ≡ false =
      rw tracked.1 (not_failing_idle (classify d) now calm) in
    (
      cycle-IsInfo detail parsed now success message s quiet,
      unfold cycle in health_step-HasNoLag d now success message (answer_step s).0 tracked,
    )

-- Unlike a lagging scan, a scan that scan-health only suspects is never acted on: while no activity
-- carries a progress, `stalled_suspected` is classified as a lag, and yet no run of such polls
-- restarts Plex or tells of a failure, however long it lasts.
pub idle_run-IsInfo :
    (polls : List Poll) (s : State) → All IsIdle polls → HasNoLag s → All IsInfo (run polls s).1
unfolding run
idle_run-IsInfo [] s idle h = tt
idle_run-IsInfo (p ∷ rest) s idle h =
    let c = cycle_idle p s idle.0 h in
    All-append IsInfo (cycle p s).1 (run rest (cycle p s).0).1 c.0
      (idle_run-IsInfo rest (cycle p s).0 idle.1 c.1)
