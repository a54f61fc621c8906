-- ===== src/Arr/Api.antt =====
-- The applications, the records that they answer with and the requests that they are sent, for
-- core/arr_client.py and core/import_starvation.py. A JSON key that is missing or null is `none`.
use media_stack.Common.Run.{Result, err, ok}
use media_stack.Common.{
  Bool, List, Option, String, [], false, get_default, if◌then◌else◌, leb, ltb, none, some, str_eq,
  true, ℕ, ◌&&◌, ◌∷◌,
}

-- QUEUE_ARR_APPS, which are all of ARR_APPS.
pub data App : Type 0 where
  radarr sonarr : App

abbrev pub queue_arr_apps : List App
queue_arr_apps = radarr ∷ sonarr ∷ []

-- `app_name in RADARR_APPS`
abbrev pub is_radarr : App → Bool
is_radarr radarr = true
is_radarr sonarr = false

-- The movie or episode that a record embeds.
pub record Embedded : Type 0 where
  -- a missing key is `none`, and null is `some none`
  pub monitored : Option (Option Bool)

-- `bool(record.get("monitored", True))`
unfoldable pub says_monitored : Embedded → Bool
says_monitored e = elim e.monitored [ none ↦ true | some o ↦ get_default false o ]

pub record QueueItem : Type 0 where
  pub id : ℕ
  pub title : Option String
  pub movie : Option Embedded
  pub episode : Option Embedded
  pub movie_id : Option ℕ
  pub episode_id : Option ℕ
  pub tracked_download_status : Option String
  pub tracked_download_state : Option String
  pub download_id : Option String
  pub sizeleft : Option ℕ

-- A command in an application's own pool.
pub record Command : Type 0 where
  pub id : ℕ
  pub name : Option String
  pub status : Option String
  pub queued : Option String

-- `config/downloadclient`
pub record ClientConfig : Type 0 where
  pub id : Option ℕ
  pub auto_redownload_failed : Bool

-- What is sent. A request names its application; keys and addresses go with it.
pub data Request : Type 0 where
  get_queue : App → Request
  -- removeFromClient and blocklist are always set; the flag is skipRedownload
  delete_queue : App → (id : ℕ) → (skip_redownload : Bool) → Request
  get_item : App → (id : ℕ) → Request
  post_search : App → (ids : List ℕ) → Request
  get_client_config : App → Request
  put_client_config : App → ClientConfig → Request
  get_commands : App → Request
  delete_command : App → (id : ℕ) → Request
  get_newest : App → (event_type : ℕ) → Request

-- What httpx makes of a call: a TimeoutException, another HTTPError before there is a response, or
-- a response with its status.
pub data Reply : Type 0 where
  timed_out : Reply
  broken : Reply
  status : ℕ → Reply

-- `raise_for_status` passes the codes from 200 to 299.
abbrev pub is_success : Reply → Bool
is_success (status n) = leb 200 n && ltb n 300
is_success _ = false

-- What comes of a read: an HTTPError of the call or of its status, a body that is not a JSON object,
-- or the object.
pub data Body {ℓ} (A : Type ℓ) : Type ℓ where
  unavailable unreadable : Body A
  given : A → Body A

-- The servers: what each request is answered with, given the requests before it. A body is `none`
-- where the call, its status or its `raise_for_status` raises an HTTPError; only the bodies that
-- `item` and `client_config` give can fail to be JSON.
pub record Servers : Type 0 where
  pub queue : App → List Request → Option (List QueueItem)
  pub delete_queue_reply : App → ℕ → List Request → Reply
  pub item : App → ℕ → List Request → Body Embedded
  pub search_reply : App → List ℕ → List Request → Reply
  pub client_config : App → List Request → Body ClientConfig
  pub put_reply : App → List Request → Reply
  pub commands : App → List Request → Option (List Command)
  pub delete_command_reply : App → ℕ → List Request → Reply
  -- the first record of `history` with this event type, if there is one, and its date
  pub newest : App → ℕ → List Request → Option (Option (Option String))

-- What the functions raise.
pub data Error : Type 0 where
  -- ServiceError with the status 404
  not_a_queue_app : String → Error
  -- ServiceError with the status 502
  queue_lookup_failed : App → Error
  -- an HTTPError that nothing in the module catches
  http_error : Error
  -- what the JSON library raises, or a method call on what is no object
  unreadable_reply : Error
  -- the KeyError of `current['id']`
  missing_id : Error

-- `require_queue_app`
unfoldable pub require_queue_app : String → Result Error App
require_queue_app name =
    if str_eq name "radarr"
    then ok radarr
    else if str_eq name "sonarr"
    then ok sonarr
    else err (not_a_queue_app name)
