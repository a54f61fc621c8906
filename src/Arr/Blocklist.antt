-- ===== src/Arr/Blocklist.antt =====
-- `arr_queue` to `disable_autoredownload_if_storm` of core/arr_client.py.
pub mod Deletes
pub mod Outcome
pub mod Unmonitored
pub mod Storm
mod Examples
use media_stack.Common.{
  Bool, List, Option, String, [], false, if◌then◌else◌, is_text, keep, length, ltb, none, not, some,
  str_eq, suc, true, zero, ℕ, ◌++◌, ◌==◌, ◌||◌, ◌∷◌,
}
use media_stack.Common.Run.{Run, call, pure, raise, ◌>>=◌}
use media_stack.Arr.Api.{
  App, Body, ClientConfig, Embedded, Error, QueueItem, Reply, Request, Servers, broken,
  delete_queue, get_client_config, get_item, get_queue, given, is_success, missing_id, post_search,
  put_client_config, queue_lookup_failed, radarr, says_monitored, sonarr, status, timed_out,
  unavailable, unreadable, unreadable_reply,
}

-- The texts that `blocklist_and_research` collects, with the values that they show.
pub data Complaint : Type 0 where
  delete_timed_out : (title : String) → Complaint
  delete_failed : (title : String) → Reply → Complaint
  search_failed : (items : ℕ) → Complaint

-- What the loop has gathered so far.
pub record Progress : Type 0 where
  pub fixed : List String
  pub errors : List Complaint
  pub search_ids : List ℕ

-- `q.get("movie") if app_name in RADARR_APPS else q.get("episode")`
abbrev pub embedded_of : App → QueueItem → Option Embedded
embedded_of radarr q = q.movie
embedded_of sonarr q = q.episode

-- `q.get(id_field)`
abbrev pub target_of : App → QueueItem → Option ℕ
target_of radarr q = q.movie_id
target_of sonarr q = q.episode_id

-- `q.get("title") or str(q["id"])`; `str` of a number is a parameter here.
abbrev pub title_of : (ℕ → String) → QueueItem → String
title_of str q = elim q.title [ none ↦ str q.id | some t ↦ if str_eq t "" then str q.id else t ]

-- A delete that did its work: 200, 404, or what `raise_for_status` passes.
unfoldable pub deleted : Reply → Bool
deleted (status n) = n == 200 || (n == 404 || is_success (status n))
deleted _ = false

-- What a reply to a delete leads to: a timeout goes on with `retry`.
unfoldable pub settle :
    (title : String) (retry : Run Request Error (Option Complaint)) (reply : Reply)
    → Run Request Error (Option Complaint)
unfolding deleted
settle title retry timed_out = retry
settle title retry broken = pure (some (delete_failed title broken))
settle title retry (status n) =
    if deleted (status n) then pure none else pure (some (delete_failed title (status n)))

-- `if monitored and target_id is not None: search_ids.append(target_id)`
abbrev pub with_id : Bool → Option ℕ → List ℕ → List ℕ
with_id true (some n) ids = ids ++ n ∷ []
with_id _ _ ids = ids

-- What a reply to the search of `n` items adds.
unfoldable pub searched : Progress → ℕ → Reply → Progress
searched p n reply =
    if is_success reply then p else record p { errors = p.errors ++ search_failed n ∷ [] }

abbrev pub is_warning : QueueItem → Bool
is_warning q =
    is_text q.tracked_download_status "warning" || is_text q.tracked_download_status "error"

-- What the answer to a lookup says.
unfoldable pub found_monitored : Body Embedded → Run Request Error Bool
unfolding says_monitored
found_monitored unavailable = pure true
found_monitored unreadable = raise unreadable_reply
found_monitored (given e) = pure (says_monitored e)

module _ (srv : Servers) where
  unfoldable pub arr_queue : App → Run Request Error (List QueueItem)
  arr_queue app = do
    body ← call (srv.queue app) (get_queue app)
    elim body [ none ↦ raise (queue_lookup_failed app) | some items ↦ pure items ]

  unfoldable pub stuck_queue_items : App → Run Request Error (List QueueItem)
  stuck_queue_items app = do items ← arr_queue app; pure (keep is_warning items)

  unfoldable pub import_candidate_queue_items : App → Run Request Error (List QueueItem)
  import_candidate_queue_items app = do
    items ← arr_queue app
    pure (keep (λ q. is_warning q || is_text q.tracked_download_state "importPending") items)

  -- The lookup by id.
  unfoldable pub look_up : App → Option ℕ → Run Request Error Bool
  unfolding found_monitored
  look_up app none = pure true
  look_up app (some n) = do found ← call (srv.item app n) (get_item app n); found_monitored found

  unfoldable pub item_is_monitored : App → QueueItem → Run Request Error Bool
  unfolding look_up says_monitored
  item_is_monitored app q = elim (embedded_of app q) [
    | some e ↦ pure (says_monitored e)
    | none ↦ look_up app (target_of app q)
  ]

  -- The loop over `range(2)`, from an attempt with `left` more after it.
  unfoldable pub delete_attempts :
      App → (skip : Bool) → (title : String) → ℕ → (left : ℕ) → Run Request Error (Option Complaint)
  unfolding settle
  delete_attempts app skip title n zero = do
    reply ← call (srv.delete_queue_reply app n) (delete_queue app n skip)
    settle title (pure (some (delete_timed_out title))) reply
  delete_attempts app skip title n (suc left) = do
    reply ← call (srv.delete_queue_reply app n) (delete_queue app n skip)
    settle title (delete_attempts app skip title n left) reply

  -- The body of the loop over the items.
  unfoldable pub fix_item : (ℕ → String) → App → QueueItem → Progress → Run Request Error Progress
  unfolding delete_attempts
  fix_item str app q p = do
    monitored ← item_is_monitored app q
    complaint ← delete_attempts app (not monitored) (title_of str q) q.id 1
    elim complaint [
      | some c ↦ pure (record p { errors = p.errors ++ c ∷ [] })
      | none ↦ pure (record p {
        fixed = p.fixed ++ title_of str q ∷ [];
        search_ids = with_id monitored (target_of app q) p.search_ids;
      })
    ]

  unfoldable pub fix_items :
      (ℕ → String) → App → List QueueItem → Progress → Run Request Error Progress
  unfolding fix_item
  fix_items str app [] p = pure p
  fix_items str app (q ∷ rest) p = do p' ← fix_item str app q p; fix_items str app rest p'

  -- The block under `if search_ids`; the last argument is `search_ids`.
  unfoldable pub trigger_search : App → Progress → List ℕ → Run Request Error Progress
  unfolding searched
  trigger_search app p [] = pure p
  trigger_search app p (n ∷ ids) = do
    reply ← call (srv.search_reply app (n ∷ ids)) (post_search app (n ∷ ids))
    pure (searched p (length (n ∷ ids)) reply)

  unfoldable pub blocklist_and_research :
      (ℕ → String) → App → List QueueItem → Run Request Error (List String × List Complaint)
  unfolding fix_items trigger_search
  blocklist_and_research str app items = do
    p ← fix_items str app items (record { fixed = []; errors = []; search_ids = [] })
    finished ← trigger_search app p p.search_ids
    pure (finished.fixed, finished.errors)

  -- What follows the read of the setting.
  unfoldable pub write_config : App → Option ℕ → ClientConfig → Run Request Error Bool
  write_config app none current = raise missing_id
  write_config app (some id) current = do
    reply ←
        call (srv.put_reply app)
          (put_client_config app (record current { auto_redownload_failed = false }))
    pure (is_success reply)

  unfoldable pub switch_off : App → Body ClientConfig → Run Request Error Bool
  unfolding write_config
  switch_off app unavailable = pure false
  switch_off app unreadable = raise unreadable_reply
  switch_off app (given current) =
      if not current.auto_redownload_failed then pure false else write_config app current.id current

  unfoldable pub disable_autoredownload_if_storm : App → ℕ → ℕ → Run Request Error Bool
  unfolding switch_off
  disable_autoredownload_if_storm app failed_pending_count threshold =
      if ltb failed_pending_count threshold
      then pure false
      else do body ← call (srv.client_config app) (get_client_config app); switch_off app body
