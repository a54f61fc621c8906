-- ===== src/Badfiles/Examples.antt =====
-- One dead film and what the report and the commands make of it.
use media_stack.Common.{
  All, Bool, List, Option, Text, [], all_of, any_of, codes, count_if, drop_text, if◌then◌else◌,
  keep, lookup, mem_text, none, one_if, refl, some, starts_with, text_eq, true, ℕ, ◌&&◌, ◌++◌, ◌∷◌,
  ◌≡◌,
}
use media_stack.Badfiles.{
  Found, container_to_host, dead, empty_file, head, healthy, library_for, library_of, signature_of,
  signatures, verify_file,
}
use media_stack.Badfiles.Report.{
  Fetched, Outcome, Row, all_rows, attribute, crashed, fetched_rows, group, join_rows, no_record,
  row_of, rows_for, unreachable,
}
use media_stack.Badfiles.Config.{Block, parse_checkrr_yaml, resolve_host_port}
use media_stack.Badfiles.Index.{
  File, Movie, Series, build_radarr_index, build_sonarr_index, needed, series_by_path,
}
use media_stack.Badfiles.Tracking.{build_index_lem, is_found, movie_at, series_at}
use media_stack.Badfiles.Commands.{
  Entry, delete_episode_file, emit_commands, same_series, search_series, series_of, shows,
}
use media_stack.Badfiles.Verdict.{verify_file_lem}
use media_stack.Badfiles.Attribution.{IsHonest, attribute_lem}
use media_stack.Badfiles.Counting.{is_configured, row_count}
use media_stack.Badfiles.Searches.{deletes_episode, emit_commands_lem, is_episode, searches_for}
use media_stack.Badfiles.Addresses.{IsAddressed}

abbrev film : Text
film = codes "/data/movies/a.mkv"

abbrev stray : Text
stray = codes "/tmp/a.mkv"

abbrev mkv : Text → Text
mkv path = codes ".mkv"

abbrev slashed : Text → Text → Text
slashed dir name = dir ++ codes "/" ++ name

-- A header that is cut short.
abbrev cut_header : Text → Found
cut_header path = head (0x1a ∷ 0x45 ∷ [])

known : container_to_host slashed film ≡ some (codes "media/movies/a.mkv")
unfolding container_to_host library_of starts_with drop_text
known = refl

signed : signature_of (mkv film) signatures ≡ some (0, 0x1a ∷ 0x45 ∷ 0xdf ∷ 0xa3 ∷ [])
unfolding signature_of text_eq
signed = refl

verify_file_example : (verify_file mkv slashed cut_header film).0 ≡ (
    if starts_with (drop_text 0 (0x1a ∷ 0x45 ∷ [])) (0x1a ∷ 0x45 ∷ 0xdf ∷ 0xa3 ∷ [])
    then healthy
    else dead)
verify_file_example =
    verify_file_lem mkv slashed cut_header film (codes "media/movies/a.mkv") 0
      (0x1a ∷ 0x45 ∷ 0xdf ∷ 0xa3 ∷ []) (0x1a ∷ 0x45 ∷ []) known refl signed

is_cut : (verify_file mkv slashed cut_header film).0 ≡ dead
unfolding verify_file container_to_host library_of starts_with drop_text mem_text text_eq all_of
is_cut = refl

abbrev dead_film : Outcome
dead_film = (film, (dead, empty_file))

abbrev only_radarr : Text → Bool
only_radarr key = text_eq key (codes "radarr")

-- An instance that cannot be reached.
abbrev no_answer : Text → List Text → Fetched
no_answer key paths = unreachable

abbrev film_row : Row
film_row = row_of (codes "radarr") none dead_film

attributed : attribute only_radarr no_answer (dead_film ∷ []) ≡ some (film_row ∷ [])
unfolding attribute library_for library_of all_rows rows_for group fetched_rows join_rows text_eq
    row_of starts_with any_of keep
attributed = refl

attribute_example :
    (row_count (λ p. true) (film_row ∷ [])
      ≡ count_if
          (λ (o : Outcome). true && is_configured only_radarr (library_for o.0))
          (dead_film ∷ []))
    × All (IsHonest only_radarr no_answer (dead_film ∷ [])) (film_row ∷ [])
attribute_example =
    attribute_lem only_radarr no_answer (λ p. true) (dead_film ∷ []) (film_row ∷ []) attributed

-- A body that is not JSON.
abbrev page : Text → List Text → Fetched
page key paths = crashed

-- Two dead episodes of one series.
abbrev episode : ℕ → Entry
episode n = (
  codes "sonarr",
  record {
    title = codes "T";
    year = codes "2020";
    arr_id = some 7;
    file_id = some n;
    quality = codes "HD";
    monitored = some true;
    detail = codes "S01E01";
  },
)

abbrev yaml : List Text
yaml =
    codes "lang: en"
    ∷ codes "arr:"
    ∷ codes "  radarr_anime:"
    ∷ codes "    address: radarr-anime"
    ∷ codes "    port: 7878"
    ∷ codes "    mappings:"
    ∷ codes "      \"/data/a/\": \"/data/b/\""
    ∷ []

abbrev anime : Block
anime = record {
  mappings = (codes "/data/a/", codes "/data/b/") ∷ [];
  fields = (codes "address", codes "radarr-anime") ∷ (codes "port", codes "7878") ∷ [];
}

parsed : parse_checkrr_yaml yaml ≡ (codes "radarr_anime", anime) ∷ []
unfolding parse_checkrr_yaml
parsed = refl

-- The published port counts, not the container's.
published :
    resolve_host_port (λ c p. some (codes "[::]:7879" ∷ codes "0.0.0.0:7879" ∷ [])) anime
    ≡ codes "7879"
unfolding resolve_host_port
published = refl

-- Both Sonarr instances, with the same port inside their containers.
abbrev both : List (Text × Block)
both =
    (
      codes "sonarr",
      record {
        mappings = [];
        fields = (codes "port", codes "8989") ∷ (codes "apikey", codes "one") ∷ [];
      },
    )
    ∷ (
      codes "sonarr_anime",
      record {
        mappings = [];
        fields = (codes "port", codes "8989") ∷ (codes "apikey", codes "two") ∷ [];
      },
    )
    ∷ []

-- The commands for the anime instance are printed with the port of the general one, and its own key.
wrong_port :
    emit_commands both (λ xs. xs) (λ xs. xs) ((codes "sonarr_anime", (episode 1).1) ∷ [])
    ≡ delete_episode_file (codes "sonarr_anime") (codes "8989") (codes "two") 1
      ∷ search_series (codes "sonarr_anime") (codes "8989") (codes "two") (some 7)
      ∷ []
unfolding emit_commands keep
wrong_port = refl

emit_commands_example :
    (count_if
        (searches_for (codes "sonarr", some 7))
        (emit_commands both (λ xs. xs) (λ xs. xs) (episode 1 ∷ episode 2 ∷ []))
      ≡ one_if (
          any_of
            (λ r. same_series (codes "sonarr", some 7) (series_of r))
            (shows (episode 1 ∷ episode 2 ∷ []))))
    × (count_if
          (deletes_episode (codes "sonarr") 2)
          (emit_commands both (λ xs. xs) (λ xs. xs) (episode 1 ∷ episode 2 ∷ []))
        ≡ count_if (is_episode (codes "sonarr") 2) (shows (episode 1 ∷ episode 2 ∷ [])))
    × All (IsAddressed both) (emit_commands both (λ xs. xs) (λ xs. xs) (episode 1 ∷ episode 2 ∷ []))
emit_commands_example =
    emit_commands_lem both (λ xs. xs) (λ xs. xs) (codes "sonarr", some 7) (codes "sonarr") 2
      (episode 1 ∷ episode 2 ∷ []) (λ p xs. refl) (λ p xs. refl)

abbrev show : Series
show = record {
  path = some (codes "/data/shows/T");
  title = codes "T";
  year = codes "2020";
  id = 7;
  monitored = some true;
}

abbrev pilot : Text
pilot = codes "/data/shows/T/1.mkv"

abbrev lists_pilot : ℕ → Option (List File)
lists_pilot n = some (
    record {
      path = some pilot;
      file_id = some 1;
      quality = codes "HD";
      relative_path = codes "1.mkv";
    }
    ∷ [])

build_index_example :
    (is_found (lookup pilot (build_sonarr_index lists_pilot (λ xs. xs) (show ∷ []) (pilot ∷ [])))
      ≡ any_of
          (λ q. series_at lists_pilot pilot (lookup q (series_by_path (show ∷ []) [])))
          (needed (pilot ∷ []) (series_by_path (show ∷ []) [])))
    × (is_found (lookup pilot (build_radarr_index []))
        ≡ any_of (λ (m : Movie). movie_at pilot m.movie_file) [])
build_index_example =
    build_index_lem lists_pilot (λ xs. xs) (show ∷ []) [] (pilot ∷ []) pilot (λ q xs. refl)

-- A file whose series cannot be listed is called an orphan, although Sonarr answered.
unlisted :
    row_of
      (codes "sonarr")
      (some (λ p. lookup p (build_sonarr_index (λ n. none) (λ xs. xs) (show ∷ []) (pilot ∷ []))))
      (pilot, (dead, empty_file))
    ≡ record {
      path = pilot;
      arr = codes "sonarr";
      verdict = (dead, empty_file);
      tracked = no_record;
      track = none;
    }
unfolding row_of build_sonarr_index
unlisted = refl
