-- ===== src/Badfiles/Commands.antt =====
-- `emit_commands`: the deletions and searches that are printed for the files that an instance
-- tracks. The two orders of `sorted` are parameters.
use media_stack.Badfiles.Config.{Block}
use media_stack.Badfiles.Report.{Row, Track}
use media_stack.Common.{
  Bool, List, Option, Text, [], any_of, codes, false, get_default, if◌then◌else◌, keep, lookup, map,
  none, not, some, text_eq, true, ℕ, ◌&&◌, ◌++◌, ◌==◌, ◌||◌, ◌∷◌,
}

-- A printed command: the instance that the row names, the port and the key that are printed with it,
-- and what it is about. The instance itself is not printed: the port and the key reach a server.
pub data Command : Type 0 where
  delete_movie_file delete_episode_file : (arr port key : Text) (file_id : ℕ) → Command
  search_movie search_series : (arr port key : Text) (arr_id : Option ℕ) → Command

-- `arrs.get(arr, {}).get(name, otherwise)`. The port is the one in the file, for the docker network.
unfoldable pub field_of : List (Text × Block) → Text → Text → Text → Text
unfolding lookup
field_of arrs arr name otherwise = elim (lookup arr arrs) [
  | none ↦ otherwise
  | some b ↦ get_default otherwise (lookup name b.fields)
]

-- A tracked file of a row of the report.
abbrev pub Entry : Type 0
Entry = Text × Track

abbrev pub entries : List Row → List Entry
entries [] = []
entries (r ∷ rows) = elim r.track [ none ↦ entries rows | some t ↦ (r.arr, t) ∷ entries rows ]

abbrev is_radarr : Text → Bool
is_radarr arr = text_eq arr (codes "radarr") || text_eq arr (codes "radarr_anime")

abbrev is_sonarr : Text → Bool
is_sonarr arr = text_eq arr (codes "sonarr") || text_eq arr (codes "sonarr_anime")

-- A truthy file id: none and zero are not.
abbrev pub has_file : Option ℕ → Bool
has_file none = false
has_file (some n) = not (n == 0)

abbrev pub id_or_zero : Option ℕ → ℕ
id_or_zero none = 0
id_or_zero (some n) = n

unfoldable pub movies : List Entry → List Entry
unfolding text_eq
movies rows = keep (λ r. is_radarr r.0 && has_file r.1.file_id) rows

unfoldable pub shows : List Entry → List Entry
unfolding text_eq
shows rows = keep (λ r. is_sonarr r.0 && has_file r.1.file_id) rows

module _ (arrs : List (Text × Block)) where
  abbrev pub radarr_port : Text → Text
  radarr_port arr = field_of arrs arr (codes "port") (codes "7878")

  abbrev pub radarr_key : Text → Text
  radarr_key arr = field_of arrs arr (codes "apikey") (codes "$RADARR_API_KEY")

  abbrev pub sonarr_port : Text → Text
  sonarr_port arr = field_of arrs arr (codes "port") (codes "8989")

  abbrev pub sonarr_key : Text → Text
  sonarr_key arr = field_of arrs arr (codes "apikey") (codes "$SONARR_API_KEY")

  unfoldable pub movie_commands : List Entry → List Command
  unfolding field_of
  movie_commands [] = []
  movie_commands (r ∷ rows) =
      delete_movie_file r.0 (radarr_port r.0) (radarr_key r.0) (id_or_zero r.1.file_id)
      ∷ search_movie r.0 (radarr_port r.0) (radarr_key r.0) r.1.arr_id
      ∷ movie_commands rows

  unfoldable pub deletions : List Entry → List Command
  unfolding field_of
  deletions rows =
      map (λ r. delete_episode_file r.0 (sonarr_port r.0) (sonarr_key r.0) (id_or_zero r.1.file_id))
        rows

abbrev pub SeriesKey : Type 0
SeriesKey = Text × Option ℕ

abbrev pub series_of : Entry → SeriesKey
series_of r = (r.0, r.1.arr_id)

unfoldable pub same_id : Option ℕ → Option ℕ → Bool
same_id none none = true
same_id (some m) (some n) = m == n
same_id _ _ = false

unfoldable pub same_series : SeriesKey → SeriesKey → Bool
unfolding same_id text_eq
same_series s t = text_eq s.0 t.0 && same_id s.1 t.1

module _ (arrs : List (Text × Block)) where
  -- The loop over the series, with the ones seen so far.
  unfoldable pub searches : List Entry → List SeriesKey → List Command
  unfolding same_series any_of field_of
  searches [] seen = []
  searches (r ∷ rows) seen =
      let skipped = searches rows seen in
      let searched = searches rows (series_of r ∷ seen) in
      if any_of (same_series (series_of r)) seen
      then skipped
      else search_series r.0 (sonarr_port arrs r.0) (sonarr_key arrs r.0) r.1.arr_id ∷ searched

  module _ (by_title by_detail : List Entry → List Entry) where
    unfoldable pub emit_commands : List Entry → List Command
    unfolding movie_commands deletions searches movies shows
    emit_commands rows =
        movie_commands arrs (by_title (movies rows))
        ++ deletions arrs (by_detail (shows rows))
        ++ searches (by_title (shows rows)) []
