-- ===== src/Reconcile/Examples.antt =====
-- A film on the disk that Plex does not serve.
use media_stack.Common.{
  Bool, Text, [], all_of, any_of, codes, false, if◌then◌else◌, keep, length, mem_text, none, not,
  one_if, refl, some, starts_with, true, ◌&&◌, ◌==◌, ◌∷◌, ◌≡◌,
}
use media_stack.Reconcile.{exists_in_plex_container, exit_code, library_of, swept}
use media_stack.Reconcile.Sweep.{exists_in_plex_container_lem, init, is_line}
use media_stack.Reconcile.Sources.{Servers, main, no_key, request_failed}
use media_stack.Reconcile.Verdict.{exit_code_lem, needs_action}

abbrev film : Text
film = codes "/data/movies/a.iso"

abbrev all_there : Text → Bool
all_there p = true

lines : all_of is_line (codes "/a" ∷ codes "/b" ∷ []) ≡ true
unfolding all_of
lines = refl

exists_in_plex_container_example :
    exists_in_plex_container all_there (codes "/a" ∷ codes "/b" ∷ [])
    ≡ keep (λ p. all_there p && not (length p == 0)) (init (codes "/a" ∷ codes "/b" ∷ []))
exists_in_plex_container_example =
    exists_in_plex_container_lem all_there (codes "/a" ∷ codes "/b" ∷ []) lines

exit_code_example :
    exit_code (λ t. t) all_there (λ ps. ps) false (film ∷ []) []
    ≡ one_if (
        not false
        && any_of
            (needs_action
              (λ t. t)
              (λ p. mem_text p (swept (λ t. t) all_there (λ ps. ps) (film ∷ []) []))
              [])
            (film ∷ []))
exit_code_example = exit_code_lem (λ t. t) all_there (λ ps. ps) false (film ∷ []) []

-- The one path of a sweep is not found, although it exists.
lone_path : exists_in_plex_container all_there (film ∷ []) ≡ []
unfolding exists_in_plex_container
lone_path = refl

-- A path with a line separator exists, and what is printed of it is two other lines.
split_path :
    exists_in_plex_container all_there ((97 ∷ 8232 ∷ 98 ∷ []) ∷ codes "/b" ∷ [])
    ≡ codes "a" ∷ codes "b" ∷ []
unfolding exists_in_plex_container
split_path = refl

-- A disc image that exists is reported as gone, and the exit code is 1.
disc_image : exit_code (λ t. t) all_there (λ ps. ps) false (film ∷ []) [] ≡ 1
unfolding exit_code starts_with library_of
disc_image = refl

-- Radarr answers with one film, the sections of Plex fail, and Sonarr has no key.
abbrev servers : Servers
servers = record {
  has_radarr_key = true;
  has_sonarr_key = false;
  has_plex_token = true;
  movies = some (record { has_file = true; path = some film } ∷ []);
  series = some [];
  files_of = λ n. none;
  parts = λ n. if n == 1 then some (some film ∷ none ∷ []) else none;
}

-- The film is served, so the code is 0; the key and three sections are warned of.
served_film : main false (λ t. t) all_there (λ ps. ps) servers ≡ (
  0,
  no_key (codes "SONARR_API_KEY")
      ∷ request_failed (codes "plex section")
      ∷ request_failed (codes "plex section")
      ∷ request_failed (codes "plex section")
      ∷ [],
)
unfolding main starts_with
served_film = refl
