-- ===== src/Arr/Blocklist/Examples.antt =====
-- A sample queue and sample servers for core/arr_client.py, and the theorems at them.
use media_stack.Common.{
  Bool, List, Option, String, [], false, if◌then◌else◌, length, none, refl, some, true, ℕ, ◌+◌,
  ◌==◌, ◌∷◌, ◌≡◌,
}
use media_stack.Common.Run.{Ends, err, ok}
use media_stack.Arr.Api.{
  QueueItem, Servers, broken, delete_queue, get_item, given, post_search, radarr, sonarr, status,
  timed_out, unavailable, unreadable, unreadable_reply,
}
use media_stack.Arr.Blocklist.{
  blocklist_and_research, delete_failed, delete_timed_out, disable_autoredownload_if_storm,
  item_is_monitored, search_failed,
}
use media_stack.Arr.Blocklist.Outcome.{Accounted, Interrupted, blocklist_and_research-Accounted}
use media_stack.Arr.Blocklist.Unmonitored.{AllJustified, blocklist_and_research-Justified}
use media_stack.Arr.Blocklist.Storm.{StormEnd, StormRaise, disable_autoredownload_if_storm_lem}

-- Item 1 is gone already, item 2 times out twice, item 3 fails; the search fails too.
abbrev servers : Servers
servers = record {
  queue = λ app t. none;
  delete_queue_reply =
      λ app n t. if n == 1 then status 404 else if n == 2 then timed_out else status 500;
  item = λ app n t. unavailable;
  search_reply = λ app ids t. broken;
  client_config = λ app t. given (record { id = some 1; auto_redownload_failed = true });
  put_reply = λ app t. status 202;
  commands = λ app t. none;
  delete_command_reply = λ app n t. status 200;
  newest = λ app n t. none;
}

abbrev item_of : ℕ → Option (Option Bool) → QueueItem
item_of n monitored = record {
  id = n;
  title = some "a release";
  movie = some (record { monitored = monitored });
  episode = none;
  movie_id = some (n + 100);
  episode_id = none;
  tracked_download_status = some "warning";
  tracked_download_state = none;
  download_id = none;
  sizeleft = none;
}

abbrev str : ℕ → String
str n = "?"

abbrev three : List QueueItem
three = item_of 1 none ∷ item_of 2 (some (some true)) ∷ item_of 3 (some none) ∷ []

run_three : blocklist_and_research servers str radarr three [] ≡ (
  ok (
    "a release" ∷ [],
    delete_timed_out "a release" ∷ delete_failed "a release" (status 500) ∷ search_failed 1 ∷ [],
  ),
  delete_queue radarr 1 false
      ∷ delete_queue radarr 2 false
      ∷ delete_queue radarr 2 false
      ∷ delete_queue radarr 3 true
      ∷ post_search radarr (101 ∷ [])
      ∷ [],
)
unfolding blocklist_and_research item_is_monitored
run_three = refl

-- The answer to a lookup is a page of text: the error goes through.
abbrev cut_short : Servers
cut_short = record servers { item = λ app n t. unreadable }

abbrev by_id : QueueItem
by_id = record (item_of 2 none) { movie = none }

run_cut_short :
    blocklist_and_research cut_short str radarr (item_of 1 none ∷ by_id ∷ []) []
    ≡ (err unreadable_reply, delete_queue radarr 1 false ∷ get_item radarr 102 ∷ [])
unfolding blocklist_and_research item_is_monitored
run_cut_short = refl

blocklist_and_research-Accounted_example :
    Ends
      (blocklist_and_research cut_short str radarr (item_of 1 none ∷ by_id ∷ []))
      (λ r u. Accounted cut_short radarr 2 [] (length r.0) (length r.1) u)
      (Interrupted cut_short radarr 2 [])
      []
blocklist_and_research-Accounted_example =
    blocklist_and_research-Accounted cut_short radarr str (item_of 1 none ∷ by_id ∷ []) []

blocklist_and_research-Justified_example :
    Ends
      (blocklist_and_research servers str radarr three)
      (λ _ u. AllJustified servers radarr three u)
      (λ _ u. AllJustified servers radarr three u)
      []
blocklist_and_research-Justified_example = blocklist_and_research-Justified servers radarr three str

disable_autoredownload_if_storm_example :
    Ends
      (disable_autoredownload_if_storm servers sonarr 20 15)
      (StormEnd servers sonarr 20 15 [])
      (StormRaise servers sonarr 20 15 [])
      []
disable_autoredownload_if_storm_example =
    disable_autoredownload_if_storm_lem servers sonarr 20 15 []
