-- ===== src/Auth/Examples.antt =====
-- Sample requests for the control panel's checks, and the theorems at them.
use media_stack.Common.{
  List, Option, Text, [], before, codes, drop_text, false, inl, mem_text, none, refl, some,
  starts_with, strip, text_eq, true, ℕ, ◌&&◌, ◌++◌, ◌∷◌, ◌≡◌, ◌≢◌, ◌⊎◌,
}
use media_stack.Auth.Defs.{
  Authenticator, Db, Outcome, Request, allowed_hosts, bad_origin, bearer, bearer_token, has_key,
  is_authenticated_or_service_key, is_authenticated_session_only,
  is_authenticated_session_or_bearer, known, loopback_ips, nobody, origin_host, passed, rejected,
  service, session_or_api_key, use_key, verify_same_origin,
}
use media_stack.Auth.Views.{Framework, default_view, host_action_view, session_view}
use media_stack.Auth.Keys.{last_used, use_key_lem}
use media_stack.Auth.Doors.{default_and_session_views, host_action_view_lem}
use media_stack.Auth.Origin.{cross_origin-ne-passed, lacks, origin_host_lem}

-- A framework that does what `Framework` asks.
ask : List Authenticator → Request → ℕ → Db → Outcome × Db
ask [] r now db = (nobody, db)
ask (a ∷ rest) r now db = elim (a r now db).0 as (λ o. Outcome × Db) [
  | nobody ↦ ask rest r now (a r now db).1
  | rejected ↦ (rejected, (a r now db).1)
  | known p ↦ (known p, (a r now db).1)
]

ask_nil : (r : Request) (now : ℕ) (db : Db) → ask [] r now db ≡ (nobody, db)
unfolding ask
ask_nil r now db = refl

ask_cons :
    (a : Authenticator) (rest : List Authenticator) (r : Request) (now : ℕ) (db : Db)
    → ask (a ∷ rest) r now db ≡ elim (a r now db).0 as (λ o. Outcome × Db) [
      | nobody ↦ ask rest r now (a r now db).1
      | rejected ↦ (rejected, (a r now db).1)
      | known p ↦ (known p, (a r now db).1)
    ]
unfolding ask
ask_cons a rest r now db = refl

abbrev drf : Framework
drf = record { perform = ask; perform_nil = ask_nil; perform_cons = ask_cons }

-- Stands for the digest: it only has to tell these keys apart.
abbrev hash : Text → Text
hash t = b'#' ∷ t

abbrev tables : Db
tables = record {
  api_keys = record { key_hash = hash (codes "k1"); last_used_at = none } ∷ [];
  users = 7 ∷ [];
}

abbrev request : Option Text → Option Text → Option ℕ → Request
request key auth session = record {
  method = codes "POST";
  api_key = key;
  authorization = auth;
  session_user = session;
  host = some (codes "localhost:8420");
  remote_addr = some (codes "127.0.0.1");
  origin = some (codes "http" ++ codes "://" ++ (codes "evil.example" ++ codes ":80/x"));
}

-- A valid key, and a bearer header that holds no key at all.
abbrev mixed : Request
mixed = request (some (codes "k1")) (some (codes "Bearer ?")) none

checks : Unit {0}
unfolding host_action_view session_view default_view session_or_api_key bearer_token ask
    is_authenticated_session_or_bearer is_authenticated_session_only verify_same_origin
    is_authenticated_or_service_key text_eq starts_with drop_text strip
checks = tt

host_action_mixed : host_action_view hash drf mixed 5 tables ≡ true
unfolding checks
host_action_mixed = refl

session_mixed : session_view hash drf mixed 5 tables ≡ false
unfolding checks
session_mixed = refl

default_and_session_views_example :
    (default_view hash drf mixed 5 tables ≡ has_key (hash (codes "k1")) tables.api_keys)
    × (session_view hash drf mixed 5 tables ≡ false)
default_and_session_views_example = default_and_session_views hash drf mixed 5 tables

host_action_view_lem_example :
    host_action_view hash drf mixed 5 tables
    ≡ (has_key (hash (codes "k1")) tables.api_keys && starts_with (codes "Bearer ?") bearer)
host_action_view_lem_example = host_action_view_lem hash drf mixed 5 tables

use_key_lem_example :
    (((use_key (hash (codes "k1")) 5 tables).0 ≡ known service)
      × (last_used (hash (codes "k1")) (use_key (hash (codes "k1")) 5 tables).1.api_keys
          ≡ some (some 5))
      × ((j : Text)
          → hash (codes "k1") ≢ j
          → last_used j (use_key (hash (codes "k1")) 5 tables).1.api_keys
            ≡ last_used j tables.api_keys)
      × ((use_key (hash (codes "k1")) 5 tables).1.users ≡ tables.users)
      × (last_used (hash (codes "k1")) tables.api_keys ≢ none))
    ⊎ ((use_key (hash (codes "k1")) 5 tables ≡ (rejected, tables))
        × (last_used (hash (codes "k1")) tables.api_keys ≡ none))
use_key_lem_example = use_key_lem (hash (codes "k1")) 5 tables

origin_host_lem_example :
    origin_host (codes "http" ++ codes "://" ++ (codes "evil.example" ++ codes ":80/x"))
    ≡ codes "evil.example"
unfolding lacks
origin_host_lem_example =
    origin_host_lem (codes "http") (codes "evil.example") (codes ":80/x") refl (refl, refl)
      (inl refl)

cross_origin_example : verify_same_origin (some (codes "10.0.0.2")) none mixed ≢ passed
unfolding mem_text lacks allowed_hosts
cross_origin_example =
    cross_origin-ne-passed (some (codes "10.0.0.2")) none mixed (codes "http")
      (codes "evil.example") (codes ":80/x") refl refl refl (refl, refl) (inl refl) refl

cross_origin_run : verify_same_origin (some (codes "10.0.0.2")) none mixed ≡ bad_origin
unfolding checks mem_text allowed_hosts before loopback_ips origin_host
cross_origin_run = refl
