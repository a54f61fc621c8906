-- ===== src/Monitor/Cooldown.antt =====
-- When the watchdog of scripts/plex-health-monitor.py restarts Plex.
use mathlib.Core.List.{append_assoc}
use media_stack.Common.{
  Bool, List, Option, String, [], ap, arith, false, get_default, if◌then◌else◌, inl, inr, none,
  refl, some, true, ℕ, ◌++◌, ◌+◌, ◌-◌, ◌<◌, ◌↔◌, ◌∙◌, ◌∷◌, ◌≡◌, ◌≤◌, ◌⊎◌,
}
use media_stack.Monitor.Data.{
  Kind, Output, Poll, ScanHealth, State, answered, busy_db, failed, notify, post_restart,
  restart_cooldown_seconds, scan_lag, scan_lag_restart_seconds, seconds,
}
use media_stack.Monitor.Loop.{
  alert_step, answer_step, classify, cycle, fail_step, health_step, lag, or_else, recover_step,
  restart_step, scan_progress, track,
}

-- Is a restart among the outputs?
abbrev pub posted : List Output → Bool
posted [] = false
posted (post_restart ∷ rest) = true
posted (notify n l ∷ rest) = posted rest

-- The time of an answered poll.
abbrev time_of : Poll → List ℕ
time_of failed = []
time_of (answered detail parsed now success message) = now ∷ []

-- The times at which a run posts a restart, in order.
unfoldable pub restart_times : List Poll → State → List ℕ
restart_times [] s = []
restart_times (p ∷ rest) s =
    let later = restart_times rest (cycle p s).0 in
    if posted (cycle p s).1 then time_of p ++ later else later

-- Each time is a cooldown after the one before it, the first after `t`.
abbrev pub Spaced : ℕ → List ℕ → Type 0
Spaced t [] = Unit
Spaced t (u ∷ us) = (t + seconds restart_cooldown_seconds ≤ u) × Spaced u us

posted-append_of_left : (xs ys : List Output) → posted xs ≡ false → posted (xs ++ ys) ≡ posted ys
posted-append_of_left [] ys h = refl
posted-append_of_left (post_restart ∷ xs) ys h = cc
posted-append_of_left (notify n l ∷ xs) ys h = posted-append_of_left xs ys h

posted-append_of_right : (xs ys : List Output) → posted ys ≡ false → posted (xs ++ ys) ≡ posted xs
posted-append_of_right [] ys h = h
posted-append_of_right (post_restart ∷ xs) ys h = refl
posted-append_of_right (notify n l ∷ xs) ys h = posted-append_of_right xs ys h

posted-alert_step :
    (d : ScanHealth) (k : Option Kind) (l : ℕ) (s : State) → posted (alert_step d k l s).1 ≡ false
unfolding alert_step
posted-alert_step d k l s = ground arith

posted-recover_step : (k : Option Kind) (l : ℕ) (s : State) → posted (recover_step k l s).1 ≡ false
unfolding recover_step
posted-recover_step k l s = ground arith

posted-answer_step : (s : State) → posted (answer_step s).1 ≡ false
unfolding answer_step
posted-answer_step s = ground arith

posted-fail_step : (s : State) → posted (fail_step s).1 ≡ false
unfolding fail_step
posted-fail_step s = ground arith

-- What a restart needs, and that it is what `last_restart_ts` records.
restart_step_lem :
    (k : Option Kind) (l now : ℕ) (success : Bool) (message : String) (s : State)
    → ((posted (restart_step k l now success message s).1 ≡ true)
        × (s.last_restart_ts + seconds restart_cooldown_seconds ≤ now)
        × ((restart_step k l now success message s).0.last_restart_ts ≡ now)
        × ((k ≡ some busy_db) ⊎ ((k ≡ some scan_lag) × (seconds scan_lag_restart_seconds ≤ l))))
      ⊎ ((posted (restart_step k l now success message s).1 ≡ false)
          × ((restart_step k l now success message s).0.last_restart_ts ≡ s.last_restart_ts))
unfolding restart_step
restart_step_lem none l now success message s = ground arith
restart_step_lem (some k) l now success message s = ground arith

last_restart_ts-alert_step :
    (d : ScanHealth) (k : Option Kind) (l : ℕ) (s : State)
    → (alert_step d k l s).0.last_restart_ts ≡ s.last_restart_ts
unfolding alert_step
last_restart_ts-alert_step d k l s = ground arith

last_restart_ts-recover_step :
    (k : Option Kind) (l : ℕ) (s : State)
    → (recover_step k l s).0.last_restart_ts ≡ s.last_restart_ts
unfolding recover_step
last_restart_ts-recover_step k l s = ground arith

last_restart_ts-track :
    (p : Option ℕ) (now : ℕ) (s : State) → (track p now s).last_restart_ts ≡ s.last_restart_ts
unfolding track
last_restart_ts-track p now s = ground arith

last_restart_ts-fail_step : (s : State) → (fail_step s).0.last_restart_ts ≡ s.last_restart_ts
unfolding fail_step
last_restart_ts-fail_step s = ground arith

last_restart_ts-answer_step : (s : State) → (answer_step s).0.last_restart_ts ≡ s.last_restart_ts
unfolding answer_step
last_restart_ts-answer_step s = refl

-- The lag that a poll sees.
abbrev pub lag_at : ScanHealth → ℕ → State → ℕ
lag_at d now s = lag (classify d) (track (scan_progress d) now s).lag_started_ts now

-- Why a restart may be posted.
abbrev pub IsCause : Option Kind → ℕ → Type 0
IsCause k l = (k ≡ some busy_db) ⊎ ((k ≡ some scan_lag) × (seconds scan_lag_restart_seconds ≤ l))

abbrev Restarts : State → State × List Output → ℕ → Type 0 → Type 0
Restarts s r now Cause =
    ((posted r.1 ≡ true)
      × (s.last_restart_ts + seconds restart_cooldown_seconds ≤ now)
      × (r.0.last_restart_ts ≡ now)
      × Cause)
    ⊎ ((posted r.1 ≡ false) × (r.0.last_restart_ts ≡ s.last_restart_ts))

health_step-Restarts :
    (d : ScanHealth) (now : ℕ) (success : Bool) (message : String) (s : State)
    → Restarts s (health_step d now success message s) now (IsCause (classify d) (lag_at d now s))
unfolding health_step
health_step-Restarts d now success message s =
    let p = track (scan_progress d) now s in
    let k = classify d in
    let l = lag_at d now s in
    let a = alert_step d k l p in
    let r = restart_step k l now success message a.0 in
    let e = recover_step k l r.0 in
    let kept : a.0.last_restart_ts ≡ s.last_restart_ts =
      last_restart_ts-alert_step d k l p ∙ last_restart_ts-track (scan_progress d) now s in
    let same : posted (a.1 ++ r.1 ++ e.1) ≡ posted r.1 =
      ap posted (append_assoc a.1 r.1 e.1)
      ∙ posted-append_of_left a.1 (r.1 ++ e.1) (posted-alert_step d k l p)
      ∙ posted-append_of_right r.1 e.1 (posted-recover_step k l r.0) in
    let last : e.0.last_restart_ts ≡ r.0.last_restart_ts = last_restart_ts-recover_step k l r.0 in
    elim (restart_step_lem k l now success message a.0) [
      | inl (p, room, time, cause) ↦ inl (same ∙ p, rw kept at room, last ∙ time, cause)
      | inr (p, time) ↦ inr (same ∙ p, last ∙ time ∙ kept)
    ]

posted-cycle_failed : (s : State) → posted (cycle failed s).1 ≡ false
unfolding cycle
posted-cycle_failed s = posted-fail_step s

last_restart_ts-cycle_failed : (s : State) → (cycle failed s).0.last_restart_ts ≡ s.last_restart_ts
unfolding cycle
last_restart_ts-cycle_failed s = last_restart_ts-fail_step s

-- The health that a poll carries.
abbrev pub health_of : Option ScanHealth → ScanHealth → ScanHealth
health_of detail parsed = get_default parsed detail

cycle-Restarts :
    (detail : Option ScanHealth) (parsed : ScanHealth) (now : ℕ) (success : Bool) (message : String)
    (s : State)
    → Restarts s (cycle (answered detail parsed now success message) s) now (
        IsCause
          (classify (health_of detail parsed))
          (lag_at (health_of detail parsed) now (answer_step s).0))
unfolding cycle
cycle-Restarts detail parsed now success message s =
    let d = health_of detail parsed in
    let a = answer_step s in
    ground (
      arith,
      health_step-Restarts d now success message a.0,
      last_restart_ts-answer_step s,
      posted-answer_step s,
      posted-append_of_left a.1 (health_step d now success message a.0).1,
    )

-- Whatever the polls, and also when the clock is set back, two restarts in a run are at least
-- `restart_cooldown_seconds` apart, and the first comes that long after the restart that the state
-- records.
pub restart_times-Spaced :
    (polls : List Poll) (s : State) → Spaced s.last_restart_ts (restart_times polls s)
unfolding restart_times
restart_times-Spaced [] s = tt
restart_times-Spaced (failed ∷ rest) s =
    rw (posted-cycle_failed s)
      (rw (last_restart_ts-cycle_failed s) at (restart_times-Spaced rest (cycle failed s).0))
restart_times-Spaced (answered detail parsed now success message ∷ rest) s =
    elim (cycle-Restarts detail parsed now success message s) [
      | inl (p, room, time, cause) ↦ rw p (
        room,
        rw time at
            (restart_times-Spaced rest (cycle (answered detail parsed now success message) s).0),
      )
      | inr (p, kept) ↦ rw p (
          rw kept at
            (restart_times-Spaced rest (cycle (answered detail parsed now success message) s).0))
    ]

restart_step-of_cause :
    (k : Option Kind) (l now : ℕ) (success : Bool) (message : String) (s : State)
    → s.last_restart_ts + seconds restart_cooldown_seconds ≤ now
    → IsCause k l
    → posted (restart_step k l now success message s).1 ≡ true
unfolding restart_step
restart_step-of_cause k l now success message s room (inl e) = rw e (ground arith)
restart_step-of_cause k l now success message s room (inr (e, long)) = rw e (ground arith)

health_step-of_cause :
    (d : ScanHealth) (now : ℕ) (success : Bool) (message : String) (s : State)
    → s.last_restart_ts + seconds restart_cooldown_seconds ≤ now
    → IsCause (classify d) (lag_at d now s)
    → posted (health_step d now success message s).1 ≡ true
unfolding health_step
health_step-of_cause d now success message s room cause =
    let p = track (scan_progress d) now s in
    let k = classify d in
    let l = lag_at d now s in
    let a = alert_step d k l p in
    let r = restart_step k l now success message a.0 in
    let e = recover_step k l r.0 in
    let kept : a.0.last_restart_ts ≡ s.last_restart_ts =
      last_restart_ts-alert_step d k l p ∙ last_restart_ts-track (scan_progress d) now s in
    ap posted (append_assoc a.1 r.1 e.1)
    ∙ posted-append_of_left a.1 (r.1 ++ e.1) (posted-alert_step d k l p)
    ∙ posted-append_of_right r.1 e.1 (posted-recover_step k l r.0)
    ∙ restart_step-of_cause k l now success message a.0 (rw kept room) cause

-- An answered poll restarts Plex exactly when the cooldown since the last restart is over and
-- there is a cause: the database is busy, or the scan has not moved for
-- `scan_lag_restart_seconds`. So a hard hang never restarts it, and a cause outside the cooldown
-- always does.
pub restart_iff :
    (detail : Option ScanHealth) (parsed : ScanHealth) (now : ℕ) (success : Bool) (message : String)
    (s : State)
    → (posted (cycle (answered detail parsed now success message) s).1 ≡ true) ↔ (
        (s.last_restart_ts + seconds restart_cooldown_seconds ≤ now)
        × IsCause
            (classify (health_of detail parsed))
            (lag_at (health_of detail parsed) now (answer_step s).0))
restart_iff detail parsed now success message s = (
  λ h. elim (cycle-Restarts detail parsed now success message s) [
    | inl (p, room, time, cause) ↦ (room, cause)
    | inr (p, kept) ↦ cc
  ],
  λ h.
      unfold cycle in
      posted-append_of_left (answer_step s).1 _ (posted-answer_step s)
      ∙ health_step-of_cause (health_of detail parsed) now success message (answer_step s).0
          (rw (last_restart_ts-answer_step s) h.0) h.1,
)

-- A progress that a poll finds where the last one found it has stood still since `since`: since the
-- lag began, if one was running, and else since the progress was first seen.
pub lag_at-still :
    (d : ScanHealth) (now p since : ℕ) (s : State)
    → classify d ≡ some scan_lag
    → scan_progress d ≡ some p
    → s.last_progress ≡ some p
    → or_else s.lag_started_ts s.last_progress_ts ≡ since
    → 0 < since
    → lag_at d now s ≡ now - since
unfolding track lag
lag_at-still d now p since s k e same from pos = rw (k, e, same) (ground arith)
