-- ===== src/Auth/Views.antt =====
-- How a view admits a request. That an `APIView` asks its authenticators in turn, and then its
-- permission class, is Django REST framework's doing: `Framework` states what its documentation
-- says of `authentication_classes`.
use media_stack.Common.{Bool, List, Text, [], false, none, some, ℕ, ◌∷◌, ◌≡◌}
use media_stack.Auth.Defs.{
  Authenticator, Db, Outcome, Permission, Request, bearer_token, is_authenticated_or_service_key,
  is_authenticated_session_only, is_authenticated_session_or_bearer, known, nobody, rejected,
  session_or_api_key,
}

-- The outcome of a row of authenticators: the first that raises or knows the caller decides.
pub record Framework : Type 0 where
  pub perform : List Authenticator → Request → ℕ → Db → Outcome × Db
  pub perform_nil : (r : Request) (now : ℕ) (db : Db) → perform [] r now db ≡ (nobody, db)
  pub perform_cons :
      (a : Authenticator) (rest : List Authenticator) (r : Request) (now : ℕ) (db : Db)
      → perform (a ∷ rest) r now db ≡ elim (a r now db).0 as (λ o. Outcome × Db) [
        | nobody ↦ perform rest r now (a r now db).1
        | rejected ↦ (rejected, (a r now db).1)
        | known p ↦ (known p, (a r now db).1)
      ]

-- The permission class sees the principal, or the anonymous user; a rejection ends the request.
abbrev pub permitted : Permission → Request → Outcome → Bool
permitted perm r rejected = false
permitted perm r nobody = perm r none
permitted perm r (known p) = perm r (some p)

module _ (hash_api_key : Text → Text) (drf : Framework) where
  -- core/api_base.py: EnvelopeAPIView with its own permission class
  unfoldable pub default_view : Request → ℕ → Db → Bool
  default_view r now db =
      permitted is_authenticated_or_service_key r
        (drf.perform (session_or_api_key hash_api_key ∷ []) r now db).0

  -- EnvelopeAPIView with `permission_classes = [IsAuthenticatedSessionOnly]`
  unfoldable pub session_view : Request → ℕ → Db → Bool
  session_view r now db =
      permitted is_authenticated_session_only r
        (drf.perform (session_or_api_key hash_api_key ∷ []) r now db).0

  -- host_actions/api/views.py: `_ConfirmedActionView`
  unfoldable pub host_action_view : Request → ℕ → Db → Bool
  host_action_view r now db =
      permitted is_authenticated_session_or_bearer r
        (drf.perform (session_or_api_key hash_api_key ∷ bearer_token hash_api_key ∷ []) r now db).0
