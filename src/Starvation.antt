-- ===== src/Starvation.antt =====
-- control-panel-django/core/import_starvation.py: are imports starved, and what is done about it.
-- A datetime is the number of microseconds since year 1, UTC; `from_iso` is what `fromisoformat`
-- makes of a text once its "Z" is replaced (`none` is its ValueError), and is a parameter; dates have
-- a time zone. The functions take an application of QUEUE_ARR_APPS, which `require_queue_app` passes.
pub mod Threshold
pub mod Backlog
pub mod Remedy
mod Examples
use media_stack.Common.{
  Bool, List, Option, String, [], count_if, false, get_default, if◌then◌else◌, is_text, keep,
  length, ltb, ltb_ℤ, map, max_ℤ, mem_str, negsuc, none, not, option_map, pos, some, str_eq, sub_ℕ,
  ℕ, ℤ, ◌%◌, ◌&&◌, ◌++◌, ◌+◌, ◌/◌, ◌==◌, ◌||◌, ◌∷◌,
}
use media_stack.Common.Run.{Run, call, pure, raise, ◌>>=◌}
use media_stack.Arr.Api.{
  App, Command, Error, Request, Servers, delete_command, get_commands, get_newest, http_error,
  is_success, queue_arr_apps, status,
}

abbrev pub starvation_threshold_seconds : ℕ
starvation_threshold_seconds = 300

abbrev pub refresh_command : String
refresh_command = "RefreshMonitoredDownloads"

abbrev pub search_commands : List String
search_commands =
    "MoviesSearch" ∷ "MovieSearch" ∷ "MissingMoviesSearch" ∷ "CutoffUnmetMoviesSearch"
    ∷ "MissingEpisodeSearch" ∷ "EpisodeSearch" ∷ "SeasonSearch" ∷ "SeriesSearch"
    ∷ "CutoffUnmetEpisodeSearch" ∷ []

abbrev pub event_grabbed : ℕ
event_grabbed = 1

abbrev pub event_imported : ℕ
event_imported = 3

-- `round` of a number of microseconds, in seconds: to the nearest, a half to the even one.
unfoldable pub round_up : ℕ → ℕ
round_up n =
    let q = n / 1000000 in
    let r = n % 1000000 in
    if ltb r 500000 then q else if ltb 500000 r then q + 1 else if q % 2 == 0 then q else q + 1

unfoldable pub round_seconds : ℤ → ℤ
unfolding round_up
round_seconds (pos n) = pos (round_up n)
round_seconds (negsuc n) = sub_ℕ 0 (round_up (n + 1))

-- `c.get("name") in SEARCH_COMMANDS`
unfoldable pub is_search_name : Option String → Bool
is_search_name none = false
is_search_name (some n) = mem_str n search_commands

unfoldable pub is_queued_search : Command → Bool
unfolding is_search_name
is_queued_search c = is_text c.status "queued" && is_search_name c.name

abbrev pub is_active : Command → Bool
is_active c = is_text c.status "queued" || is_text c.status "started"

unfoldable pub is_waiting : Command → Bool
is_waiting c = is_text c.name refresh_command && is_text c.status "queued"

-- The answer of `refresh_starvation`.
pub record Starved : Type 0 where
  pub starved_seconds : ℤ
  pub refresh_queued : ℕ
  pub queued_searches : ℕ
  pub active_commands : ℕ

-- The answer of `grab_import_lag`; a date stands for its `isoformat`.
pub record Lag : Type 0 where
  pub last_grab : Option ℕ
  pub last_import : Option ℕ
  pub lag_seconds : Option ℤ
  pub import_age_seconds : Option ℤ

pub data Reason : Type 0 where
  refresh_starved : ℤ → (searches : ℕ) → Reason
  import_lagging : Option ℤ → Reason
  keeping_up : Reason

pub record Verdict : Type 0 where
  pub app : App
  pub starved : Bool
  pub lagging : Bool
  pub reason : Reason
  pub starvation : Starved
  pub lag : Lag

pub record Cleared : Type 0 where
  pub targeted : ℕ
  pub cancelled : ℕ
  pub failed : ℕ

-- `per_app` and `remediated`, in the order in which the loop fills them.
abbrev pub Report : Type 0
Report = List Verdict × List (App × Cleared)

-- `last_grab - last_import` in seconds, where both are known.
unfoldable pub lag_between : Option ℕ → Option ℕ → Option ℤ
lag_between (some grab) (some imported) = some (round_seconds (sub_ℕ grab imported))
lag_between _ _ = none

unfoldable pub judge : App → Starved → Lag → Verdict
judge app starvation lag =
    let starved = ltb_ℤ (pos starvation_threshold_seconds) starvation.starved_seconds in
    let lagging = ltb_ℤ (pos starvation_threshold_seconds) (get_default (pos 0) lag.lag_seconds) in
    record {
      app = app;
      starved = starved;
      lagging = lagging;
      reason =
          if starved
          then refresh_starved starvation.starved_seconds starvation.queued_searches
          else if lagging
          then import_lagging lag.lag_seconds
          else keeping_up;
      starvation = starvation;
      lag = lag;
    }

module _ (srv : Servers) where
  unfoldable pub get_all_commands : App → Run Request Error (List Command)
  get_all_commands app = do
    body ← call (srv.commands app) (get_commands app)
    elim body [ none ↦ raise http_error | some cs ↦ pure cs ]

  -- The loop over the targets.
  unfoldable pub cancel_all : App → List Command → Cleared → Run Request Error Cleared
  cancel_all app [] c = pure c
  cancel_all app (target ∷ rest) c = do
    reply ← call (srv.delete_command_reply app target.id) (delete_command app target.id)
    cancel_all app rest (
        if is_success reply
        then record c { cancelled = c.cancelled + 1 }
        else record c { failed = c.failed + 1 })

  unfoldable pub clear_search_backlog : App → Run Request Error Cleared
  unfolding get_all_commands cancel_all
  clear_search_backlog app = do
    commands ← get_all_commands app
    let targets = keep is_queued_search commands
    cancel_all app targets (record { targeted = length targets; cancelled = 0; failed = 0 })

module _ (from_iso : String → Option ℕ) where
  -- `_parse_ts`
  unfoldable pub parse_ts : Option String → Option ℕ
  parse_ts none = none
  parse_ts (some v) = if str_eq v "" then none else from_iso v

  -- The date of the first record, if there is a record.
  unfoldable pub first_date : Option (Option String) → Option ℕ
  first_date none = none
  first_date (some date) = parse_ts date

  -- `max(ages)` over the commands whose date can be read, or `none`.
  unfoldable pub max_age : ℕ → List Command → Option ℤ
  unfolding parse_ts
  max_age now [] = none
  max_age now (c ∷ rest) =
      let later = max_age now rest in
      elim (parse_ts c.queued) [
        | none ↦ later
        | some ts ↦ elim later [
          | none ↦ some (sub_ℕ now ts)
          | some a ↦ some (max_ℤ (sub_ℕ now ts) a)
        ]
      ]

  -- What `refresh_starvation` makes of the commands.
  unfoldable pub starvation_of : ℕ → List Command → Starved
  unfolding max_age is_waiting is_queued_search round_seconds
  starvation_of now commands =
      let active = keep is_active commands in
      let waiting = keep is_waiting active in
      record {
        starved_seconds = round_seconds (get_default (pos 0) (max_age now waiting));
        refresh_queued = length waiting;
        queued_searches = count_if is_queued_search active;
        active_commands = length active;
      }

  module _ (srv : Servers) where
    unfoldable pub refresh_starvation : App → ℕ → Run Request Error Starved
    unfolding get_all_commands
    refresh_starvation app now = do
      commands ← get_all_commands srv app
      pure (starvation_of now commands)

    -- `newest(event_type)`
    unfoldable pub newest_event : App → ℕ → Run Request Error (Option ℕ)
    unfolding first_date
    newest_event app event_type = do
      page ← call (srv.newest app event_type) (get_newest app event_type)
      elim page [ none ↦ raise http_error | some first ↦ pure (first_date first) ]

    unfoldable pub grab_import_lag : App → ℕ → Run Request Error Lag
    unfolding newest_event lag_between
    grab_import_lag app now = do
      last_grab ← newest_event app event_grabbed
      last_import ← newest_event app event_imported
      pure (record {
        last_grab = last_grab;
        last_import = last_import;
        lag_seconds = lag_between last_grab last_import;
        import_age_seconds = option_map (λ ts. round_seconds (sub_ℕ now ts)) last_import;
      })

    unfoldable pub detect : App → ℕ → Run Request Error Verdict
    unfolding refresh_starvation grab_import_lag judge
    detect app now = do
      starvation ← refresh_starvation app now
      lag ← grab_import_lag app now
      pure (judge app starvation lag)

    unfoldable pub check_apps : Bool → ℕ → List App → Report → Run Request Error Report
    unfolding detect clear_search_backlog
    check_apps remediate now [] r = pure r
    check_apps remediate now (app ∷ rest) (per_app, remediated) = do
      verdict ← detect app now
      cleared ←
          (if remediate && verdict.starved
            then (do c ← clear_search_backlog srv app; pure ((app, c) ∷ []))
            else pure [])
      check_apps remediate now rest (per_app ++ verdict ∷ [], remediated ++ cleared)

    -- `check_all`: the verdicts, the applications found starved or lagging, and what was cleared.
    -- The loop's order, radarr before sonarr, is that of `sorted`.
    unfoldable pub check_all :
        Bool → ℕ → Run Request Error (List Verdict × List App × List App × List (App × Cleared))
    unfolding check_apps
    check_all remediate now = do
      r ← check_apps remediate now queue_arr_apps ([], [])
      pure (
        r.0,
        map (λ v. v.app) (keep (λ v. v.starved) r.0),
        map (λ v. v.app) (keep (λ v. v.lagging && not v.starved) r.0),
        r.1,
      )
