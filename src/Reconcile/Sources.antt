-- ===== src/Reconcile/Sources.antt =====
-- `arr_paths`, `plex_served`, and `main` over both. What the servers answer is a parameter, where
-- `none` is one of the exceptions that the code catches.
use media_stack.Common.{
  Bool, List, Option, Text, [], codes, if◌then◌else◌, map, mem_text, none, put, some, ℕ, ◌++◌, ◌∷◌,
}
use media_stack.Reconcile.{exit_code}

-- A warning: a missing key of .env, or a failed request.
pub data Problem : Type 0 where
  no_key : Text → Problem
  request_failed : Text → Problem

-- What Radarr says of a movie: `hasFile`, and the path of its file.
pub record Movie : Type 0 where
  pub has_file : Bool
  pub path : Option Text

-- The paths, each with the application that owns it.
abbrev pub Owned : Type 0
Owned = List (Text × Text)

unfoldable pub own_path : (label : Text) → Option Text → Owned → Owned
unfolding put
own_path label none owned = owned
own_path label (some []) owned = owned
own_path label (some (c ∷ path)) owned = put (c ∷ path) label owned

unfoldable pub own_movies : List Movie → Owned → Owned
unfolding own_path
own_movies [] owned = owned
own_movies (m ∷ movies) owned =
    own_movies movies (if m.has_file then own_path (codes "radarr") m.path owned else owned)

unfoldable pub own_files : List (Option Text) → Owned → Owned
unfolding own_path
own_files [] owned = owned
own_files (path ∷ files) owned = own_files files (own_path (codes "sonarr") path owned)

-- The movies; a failed request is a problem.
unfoldable pub own_radarr : Option (List Movie) → Owned → Owned × List Problem
unfolding own_movies
own_radarr none owned = (owned, request_failed (codes "radarr") ∷ [])
own_radarr (some movies) owned = (own_movies movies owned, [])

-- The answers for the series, in order; what was read before a failed request stays.
unfoldable pub own_series : List (Option (List (Option Text))) → Owned → Owned × List Problem
unfolding own_files
own_series [] owned = (owned, [])
own_series (none ∷ rest) owned = (owned, request_failed (codes "sonarr") ∷ [])
own_series (some files ∷ rest) owned = own_series rest (own_files files owned)

unfoldable pub own_sonarr :
    (files_of : ℕ → Option (List (Option Text))) → Option (List ℕ) → Owned → Owned × List Problem
unfolding own_series
own_sonarr files_of none owned = (owned, request_failed (codes "sonarr") ∷ [])
own_sonarr files_of (some ids) owned = own_series (map files_of ids) owned

-- The answers of the servers, and which keys .env has.
pub record Servers : Type 0 where
  pub has_radarr_key : Bool
  pub has_sonarr_key : Bool
  pub has_plex_token : Bool
  pub movies : Option (List Movie)
  pub series : Option (List ℕ)
  pub files_of : ℕ → Option (List (Option Text))
  pub parts : ℕ → Option (List (Option Text))

unfoldable pub arr_paths : Servers → Owned × List Problem
unfolding own_radarr own_sonarr
arr_paths v =
    let first =
      if v.has_radarr_key
      then own_radarr v.movies []
      else ([], no_key (codes "RADARR_API_KEY") ∷ []) in
    let second =
      if v.has_sonarr_key
      then own_sonarr v.files_of v.series first.0
      else (first.0, no_key (codes "SONARR_API_KEY") ∷ []) in
    (second.0, first.1 ++ second.1)

-- `served |= {...}`, where a part without a file is passed over.
unfoldable pub serve_parts : List (Option Text) → List Text → List Text
unfolding mem_text
serve_parts [] served = served
serve_parts (none ∷ rest) served = serve_parts rest served
serve_parts (some [] ∷ rest) served = serve_parts rest served
serve_parts (some (c ∷ path) ∷ rest) served =
    serve_parts rest (if mem_text (c ∷ path) served then served else served ++ (c ∷ path) ∷ [])

unfoldable pub serve_section : Option (List (Option Text)) → List Text → List Text × List Problem
unfolding serve_parts
serve_section none served = (served, request_failed (codes "plex section") ∷ [])
serve_section (some parts) served = (serve_parts parts served, [])

unfoldable pub serve_sections :
    (parts : ℕ → Option (List (Option Text))) → List ℕ → List Text → List Text × List Problem
unfolding serve_section
serve_sections parts [] served = (served, [])
serve_sections parts (n ∷ sections) served =
    let first = serve_section (parts n) served in
    let rest = serve_sections parts sections first.0 in (rest.0, first.1 ++ rest.1)

-- The sections of LIBRARIES, in order.
unfoldable pub plex_served : Servers → List Text × List Problem
unfolding serve_sections
plex_served v =
    if v.has_plex_token
    then serve_sections v.parts (1 ∷ 6 ∷ 2 ∷ 7 ∷ []) []
    else ([], no_key (codes "PLEX_TOKEN") ∷ [])

-- What `main` returns, and what it warns of; the first argument is `args.json`, with which it
-- prints the report alone.
unfoldable pub main :
    (json : Bool) (lower : Text → Text) (exists : Text → Bool) (sort_unique : List Text → List Text)
    → Servers
    → ℕ × List Problem
unfolding arr_paths plex_served exit_code
main json lower exists sort_unique v =
    let owned = arr_paths v in
    let served = plex_served v in
    let code = exit_code lower exists sort_unique json (map (λ e. e.0) owned.0) served.0 in
    if json then (code, []) else (code, owned.1 ++ served.1)
