-- ===== src/Monitor/Data.antt =====
-- The polls, the state and the output of scripts/plex-health-monitor.py.
use media_stack.Common.{ℕ, ◌*◌, String, Bool, Option, List}

abbrev pub poll_interval_seconds : ℕ
poll_interval_seconds = 15

abbrev pub scan_lag_alert_seconds : ℕ
scan_lag_alert_seconds = 30

abbrev pub scan_lag_restart_seconds : ℕ
scan_lag_restart_seconds = 90

abbrev pub restart_cooldown_seconds : ℕ
restart_cooldown_seconds = 600

abbrev pub consecutive_poll_failure_alert : ℕ
consecutive_poll_failure_alert = 4

-- A number of seconds, in the unit of `time.time()`.
abbrev pub seconds : ℕ → ℕ
seconds n = n * 1000

-- An entry of `activities`, with the keys that the script reads; a missing key is `none`.
pub record Activity : Type 0 where
  pub type : Option String
  pub progress : Option ℕ

-- The reply of scan-health. `dstate_threads` is given by its length.
pub record ScanHealth : Type 0 where
  pub activities : List Activity
  pub dstate_threads : ℕ
  pub mount_ok : Option Bool
  pub recent_busy_db_errors : Option ℕ
  pub analysis_active : Bool
  pub state : Option String

-- The failure classes of `classify`.
pub data Kind : Type 0 where
  hard_hang busy_db scan_lag : Kind

-- What `active_alert` can hold besides None.
pub data Alert : Type 0 where
  failing : Kind → Alert
  poll_unreachable : Alert

pub record State : Type 0 where
  pub last_progress : Option ℕ
  pub last_progress_ts : ℕ
  pub lag_started_ts : Option ℕ
  pub active_alert : Option Alert
  pub last_restart_ts : ℕ
  pub consecutive_poll_failures : ℕ

pub data Level : Type 0 where
  info warn error : Level

-- The texts of `notify_discord`, with the values that they show.
pub data Notice : Type 0 where
  started : Notice
  unreachable_for : (polls : ℕ) → Notice
  responding_again : (polls : ℕ) → Notice
  hang_detected : (threads : ℕ) → (mount_ok : Option Bool) → Notice
  busy_detected : (errors : Option ℕ) → Notice
  scan_stuck : (progress : Option ℕ) → (secs : ℕ) → Notice
  restart_result : (success : Bool) → (message : String) → Notice
  recovered_from : Alert → Notice

pub data Output : Type 0 where
  notify : Notice → Level → Output
  post_restart : Output

-- One turn of the loop, as the outside decides it: the poll fails, or it is answered at the time
-- `now`; `reply` is what `api_post` returns if the turn posts a restart.
pub data Poll : Type 0 where
  failed : Poll
  -- `parsed.get("detail", parsed)`: the health stands under "detail", or is the whole reply
  answered :
      (detail : Option ScanHealth)
      → (parsed : ScanHealth) → (now : ℕ) → (success : Bool) → (message : String) → Poll
