-- ===== src/Starvation/Examples.antt =====
-- A starved application for core/import_starvation.py, and the theorems at it.
use media_stack.Common.{
  All, List, Option, String, [], any_of, count_if, false, if◌then◌else◌, keep, mem_str, none, pos,
  refl, some, str_eq, true, ℕ, ◌&&◌, ◌*◌, ◌+◌, ◌==◌, ◌∷◌, ◌≡◌,
}
use media_stack.Common.Run.{Ensures, ok}
use media_stack.Arr.Api.{
  Command, Servers, broken, delete_command, get_commands, radarr, sonarr, status, unavailable,
}
use media_stack.Starvation.{
  Lag, check_all, clear_search_backlog, is_queued_search, is_search_name, is_waiting, judge,
  starvation_of,
}
use media_stack.Starvation.Threshold.{overdue, starved-eq-any_of}
use media_stack.Starvation.Backlog.{IsCleared, IsRead, clear_search_backlog_lem}
use media_stack.Starvation.Remedy.{check_all-AllRead}

abbrev second : ℕ
second = 1000000

-- Dates by their names.
abbrev iso : String → Option ℕ
iso d =
    if str_eq d "early"
    then some (1000 * second)
    else if str_eq d "late"
    then some (1290 * second)
    else none

abbrev command : ℕ → String → String → String → Command
command n label state date = record {
  id = n;
  name = some label;
  status = some state;
  queued = some date;
}

abbrev pool : List Command
pool =
    command 1 "MoviesSearch" "started" "early"
    ∷ command 2 "MoviesSearch" "queued" "early"
    ∷ command 3 "RefreshMonitoredDownloads" "queued" "early"
    ∷ command 4 "EpisodeSearch" "queued" "late"
    ∷ command 5 "ProcessMonitoredDownloads" "queued" "late"
    ∷ []

abbrev servers : Servers
servers = record {
  queue = λ app t. none;
  delete_queue_reply = λ app n t. broken;
  item = λ app n t. unavailable;
  search_reply = λ app ids t. broken;
  client_config = λ app t. unavailable;
  put_reply = λ app t. broken;
  commands = λ app t. some pool;
  delete_command_reply = λ app n t. if n == 4 then status 409 else status 200;
  newest = λ app n t. some (some (some (if n == 1 then "late" else "early")));
}

code : Unit {0}
unfolding check_all starvation_of is_search_name is_queued_search mem_str keep count_if any_of
code = tt

clear_pool : clear_search_backlog servers radarr [] ≡ (
  ok (record { targeted = 2; cancelled = 1; failed = 1 }),
  get_commands radarr ∷ delete_command radarr 2 ∷ delete_command radarr 4 ∷ [],
)
unfolding code
clear_pool = refl

-- The refresh has waited for 300.4 seconds, and then for 300.6.
not_yet : (starvation_of iso (1300 * second + 400000) pool).starved_seconds ≡ pos 300
unfolding code
not_yet = refl

abbrev no_lag : Lag
no_lag = record {
  last_grab = none;
  last_import = none;
  lag_seconds = none;
  import_age_seconds = none;
}

by_now : (judge radarr (starvation_of iso (1300 * second + 600000) pool) no_lag).starved ≡ true
unfolding code judge
by_now = refl

starved-eq-any_of_example :
    (judge radarr (starvation_of iso (1300 * second + 600000) pool) no_lag).starved
    ≡ any_of (λ c. is_waiting c && overdue iso (1300 * second + 600000) c) pool
starved-eq-any_of_example = starved-eq-any_of iso (1300 * second + 600000) radarr pool no_lag

clear_search_backlog_lem_example :
    Ensures (clear_search_backlog servers sonarr) (IsCleared servers sonarr pool []) []
clear_search_backlog_lem_example = clear_search_backlog_lem servers sonarr pool [] refl

check_all-AllRead_example : All IsRead (check_all iso servers false (1301 * second) []).1
check_all-AllRead_example = check_all-AllRead servers iso (1301 * second)
