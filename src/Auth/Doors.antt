-- ===== src/Auth/Doors.antt =====
-- Which requests the three kinds of views admit.
use media_stack.Common.{
  Bool, Text, [], arith, drop_text, false, if◌then◌else◌, not, refl, starts_with, strip, true, ℕ,
  ◌&&◌, ◌||◌, ◌∷◌, ◌≡◌,
}
use media_stack.Auth.Defs.{
  Authenticator, Db, Outcome, Request, bearer, bearer_token, has_key, header,
  is_authenticated_or_service_key, is_authenticated_session_only,
  is_authenticated_session_or_bearer, is_empty, known, nobody, rejected, session_or_api_key,
  session_principal,
}
use media_stack.Auth.Views.{Framework, default_view, host_action_view, session_view}

-- The session names a user of the table.
abbrev pub valid_session : Request → Db → Bool
valid_session r db = elim (session_principal r.session_user db.users) [ known p ↦ true | _ ↦ false ]

-- The X-Api-Key header is there and is a key of the table.
abbrev pub sends_key : Request → Bool
sends_key r = not (is_empty (header r.api_key))

abbrev pub bearer_text : Request → Text
bearer_text r = strip (drop_text 7 (header r.authorization))

abbrev first_known : Outcome → Outcome → Outcome
first_known nobody later = later
first_known rejected later = rejected
first_known (known p) later = known p

module _ (drf : Framework) (r : Request) (now : ℕ) where
  perform_one : (a : Authenticator) (db : Db) → (drf.perform (a ∷ []) r now db).0 ≡ (a r now db).0
  perform_one a db = rw (drf.perform_cons a [] r now db) (go (a r now db).0)
    where
      go :
          (o : Outcome)
          → (elim o as (λ o. Outcome × Db) [
            | nobody ↦ drf.perform [] r now (a r now db).1
            | rejected ↦ (rejected, (a r now db).1)
            | known p ↦ (known p, (a r now db).1)
          ]).0
            ≡ o
      go nobody = rw (drf.perform_nil r now (a r now db).1)
      go rejected = refl
      go (known p) = refl

  perform_two :
      (a b : Authenticator) (db : Db)
      → (drf.perform (a ∷ b ∷ []) r now db).0
        ≡ first_known (a r now db).0 (b r now (a r now db).1).0
  perform_two a b db = rw (drf.perform_cons a (b ∷ []) r now db) (go (a r now db).0)
    where
      go :
          (o : Outcome)
          → (elim o as (λ o. Outcome × Db) [
            | nobody ↦ drf.perform (b ∷ []) r now (a r now db).1
            | rejected ↦ (rejected, (a r now db).1)
            | known p ↦ (known p, (a r now db).1)
          ]).0
            ≡ first_known o (b r now (a r now db).1).0
      go nobody = perform_one b (a r now db).1
      go rejected = refl
      go (known p) = refl

module _ (hash_api_key : Text → Text) (drf : Framework) (r : Request) (now : ℕ) (db : Db) where
  abbrev pub valid_key : Bool
  valid_key = has_key (hash_api_key (header r.api_key)) db.api_keys

  abbrev pub valid_bearer : Bool
  valid_bearer =
      not (is_empty (bearer_text r)) && has_key (hash_api_key (bearer_text r)) db.api_keys

  -- A default view admits exactly the calls with a known key, and those with no key and the session
  -- of a known user.
  default_view_lem :
      default_view hash_api_key drf r now db
      ≡ (if sends_key r then valid_key else valid_session r db)
  unfolding default_view session_or_api_key is_authenticated_or_service_key
  default_view_lem = rw (perform_one drf r now (session_or_api_key hash_api_key) db) (ground arith)

  -- A session view admits exactly the calls with no key and the session of a known user: a service
  -- key is refused even beside a valid session.
  session_view_lem :
      session_view hash_api_key drf r now db ≡ (if sends_key r then false else valid_session r db)
  unfolding session_view session_or_api_key is_authenticated_session_only
  session_view_lem = rw (perform_one drf r now (session_or_api_key hash_api_key) db) (ground arith)

  -- A default view admits exactly the calls with a known key, and those with no key and the session
  -- of a known user; a session view admits exactly the calls with no key and the session of a known
  -- user: a service key is refused even beside a valid session.
  pub default_and_session_views :
      (default_view hash_api_key drf r now db
        ≡ (if sends_key r then valid_key else valid_session r db))
      × (session_view hash_api_key drf r now db
          ≡ (if sends_key r then false else valid_session r db))
  default_and_session_views = (default_view_lem, session_view_lem)

  -- A host action is open exactly to these calls: with a known key and any Authorization header that
  -- begins with "Bearer ", be its token valid or not; and, with no X-Api-Key, with the session of a
  -- known user or with a bearer token that is a known key.
  pub host_action_view_lem : host_action_view hash_api_key drf r now db ≡ (
      if sends_key r
      then valid_key && starts_with (header r.authorization) bearer
      else valid_session r db || (starts_with (header r.authorization) bearer && valid_bearer))
  unfolding host_action_view session_or_api_key bearer_token is_authenticated_session_or_bearer
  host_action_view_lem =
      rw (perform_two drf r now (session_or_api_key hash_api_key) (bearer_token hash_api_key) db)
        (ground arith)
