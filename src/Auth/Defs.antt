-- ===== src/Auth/Defs.antt =====
-- core/authentication.py, core/permissions.py, core/middleware.py and core/decorators.py.
-- `hash_api_key` (a SHA-256 digest) is a parameter; a header that is absent is `none`.
use media_stack.Common.{
  Bool, List, Option, Text, [], after_from, before, codes, drop_text, false, if◌then◌else◌,
  mem_text, none, not, some, starts_with, strip, text_eq, true, ℕ, ◌&&◌, ◌++◌, ◌==◌, ◌||◌, ◌∷◌,
}

pub record ApiKey : Type 0 where
  pub key_hash : Text
  pub last_used_at : Option ℕ

-- The tables that authentication reads; a user is given by its id.
pub record Db : Type 0 where
  pub api_keys : List ApiKey
  pub users : List ℕ

pub record Request : Type 0 where
  pub method : Text
  pub api_key : Option Text
  pub authorization : Option Text
  pub session_user : Option ℕ
  pub host : Option Text
  pub remote_addr : Option Text
  pub origin : Option Text

-- `request.user` after authentication.
pub data Principal : Type 0 where
  user : ℕ → Principal
  service : Principal

-- What `authenticate` does: it raises AuthenticationFailed, returns None, or returns a principal.
pub data Outcome : Type 0 where
  rejected : Outcome
  nobody : Outcome
  known : Principal → Outcome

-- A header's value, where None and the empty text are alike.
abbrev pub header : Option Text → Text
header none = []
header (some t) = t

abbrev pub is_empty : Text → Bool
is_empty [] = true
is_empty (c ∷ t) = false

abbrev pub bearer : Text
bearer = codes "Bearer "

-- `ApiKey.objects.get(key_hash=…)` finds a row; hashes are unique in the table.
unfoldable pub has_key : Text → List ApiKey → Bool
has_key h [] = false
has_key h (k ∷ rest) = text_eq k.key_hash h || has_key h rest

-- `key_row.last_used_at = now` and its save.
unfoldable pub touch : Text → ℕ → List ApiKey → List ApiKey
touch h now [] = []
touch h now (k ∷ rest) =
    (if text_eq k.key_hash h then record k { last_used_at = some now } else k) ∷ touch h now rest

unfoldable pub mem_id : ℕ → List ℕ → Bool
mem_id n [] = false
mem_id n (x ∷ xs) = x == n || mem_id n xs

-- The lookup of a key that both authenticators share.
unfoldable pub use_key : Text → ℕ → Db → Outcome × Db
unfolding has_key touch
use_key h now db =
    if has_key h db.api_keys
    then (known service, record db { api_keys = touch h now db.api_keys })
    else (rejected, db)

-- `user_id` from the session: None and 0 are no user, and neither is an id that is not in the table.
unfoldable pub session_principal : Option ℕ → List ℕ → Outcome
unfolding mem_id
session_principal none users = nobody
session_principal (some n) users =
    if n == 0 then nobody else if mem_id n users then known (user n) else nobody

abbrev pub Authenticator : Type 0
Authenticator = Request → ℕ → Db → Outcome × Db

module _ (hash_api_key : Text → Text) where
  -- SessionOrApiKeyAuthentication.authenticate
  unfoldable pub session_or_api_key : Authenticator
  unfolding use_key session_principal
  session_or_api_key r now db =
      if is_empty (header r.api_key)
      then (session_principal r.session_user db.users, db)
      else use_key (hash_api_key (header r.api_key)) now db

  -- BearerTokenAuthentication.authenticate
  unfoldable pub bearer_token : Authenticator
  unfolding use_key
  bearer_token r now db =
      let token = strip (drop_text 7 (header r.authorization)) in
      if not (starts_with (header r.authorization) bearer)
      then (nobody, db)
      else if is_empty token
      then (nobody, db)
      else use_key (hash_api_key token) now db

-- IsAuthenticatedOrServiceKey.has_permission: DRF's anonymous user is `none`.
abbrev pub Permission : Type 0
Permission = Request → Option Principal → Bool

unfoldable pub is_authenticated_or_service_key : Permission
is_authenticated_or_service_key r none = false
is_authenticated_or_service_key r (some p) = true

-- IsAuthenticatedSessionOnly.has_permission
unfoldable pub is_authenticated_session_only : Permission
is_authenticated_session_only r (some (user n)) = true
is_authenticated_session_only r _ = false

-- IsAuthenticatedSessionOrBearer.has_permission
unfoldable pub is_authenticated_session_or_bearer : Permission
is_authenticated_session_or_bearer r none = false
is_authenticated_session_or_bearer r (some (user n)) = true
is_authenticated_session_or_bearer r (some service) = starts_with (header r.authorization) bearer

-- VerifySameOriginMiddleware: what it answers, or `passed` where it calls `get_response`.
pub data Verdict : Type 0 where
  passed : Verdict
  bad_host bad_loopback bad_origin : Verdict

abbrev pub mutating : List Text
mutating = codes "POST" ∷ codes "PUT" ∷ codes "PATCH" ∷ codes "DELETE" ∷ []

-- `{h for h in (host_ip, "localhost", "127.0.0.1") if h}`
unfoldable pub allowed_hosts : Option Text → List Text
allowed_hosts host_ip =
    (if is_empty (header host_ip) then [] else header host_ip ∷ [])
    ++ codes "localhost" ∷ codes "127.0.0.1" ∷ []

-- The loopback addresses, with this network's gateway if Docker names one.
unfoldable pub loopback_ips : Option Text → List Text
loopback_ips gateway =
    (if is_empty (header gateway) then [] else header gateway ∷ [])
    ++ codes "127.0.0.1" ∷ codes "::1" ∷ []

abbrev pub is_local_name : Text → Bool
is_local_name h = mem_text h (codes "localhost" ∷ codes "127.0.0.1" ∷ [])

-- `client_host in loopback_ips`, where the address may be missing.
abbrev pub is_loopback : Option Text → List Text → Bool
is_loopback none ips = false
is_loopback (some a) ips = mem_text a ips

-- `origin.split("://", 1)[-1].split(":")[0].split("/")[0]`
unfoldable pub origin_host : Text → Text
unfolding before after_from
origin_host o = before b'/' (before b':' (after_from (codes "://") 3 o o))

unfoldable pub verify_same_origin : (host_ip gateway : Option Text) → Request → Verdict
verify_same_origin host_ip gateway r =
    let host = before b':' (header r.host) in
    if not (mem_text r.method mutating)
    then passed
    else if not (mem_text host (allowed_hosts host_ip))
    then bad_host
    else if is_local_name host && not (is_loopback r.remote_addr (loopback_ips gateway))
    then bad_loopback
    else if is_empty (header r.origin)
    then passed
    else if mem_text (origin_host (header r.origin)) (allowed_hosts host_ip)
    then passed
    else bad_origin

-- What a decorated template view does.
pub data Served {ℓ} (A : Type ℓ) : Type ℓ where
  to_login : Served A
  denied : Served A
  view : A → Served A

-- `request.session.get("user_id")` is true.
abbrev pub has_session : Request → Bool
has_session r = elim r.session_user [ none ↦ false | some n ↦ not (n == 0) ]

module _ {ℓ} {A : Type ℓ} where
  -- core/decorators.py: `login_required`
  unfoldable pub login_required : (Request → Served A) → Request → Served A
  login_required body r = if has_session r then body r else to_login

  -- core/decorators.py: `session_only_action`
  unfoldable pub session_only_action : (Request → Served A) → Request → Served A
  session_only_action body r =
      if not (is_empty (header r.api_key))
      then denied
      else if not (has_session r)
      then denied
      else body r
