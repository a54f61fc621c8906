-- ===== src/Badfiles/Index.antt =====
-- `build_radarr_index` and `build_sonarr_index`, over what the instances answer. The order of
-- `sorted` is a parameter; every series has an id.
use media_stack.Common.{
  Bool, List, Option, Text, [], if◌then◌else◌, length, lookup, none, put, some, starts_with, ℕ,
  ◌&&◌, ◌++◌, ◌==◌, ◌∷◌,
}
use media_stack.Badfiles.Report.{Track}

-- A file as an instance lists it.
pub record File : Type 0 where
  pub path : Option Text
  pub file_id : Option ℕ
  pub quality : Text
  pub relative_path : Text

pub record Movie : Type 0 where
  pub movie_file : Option File
  pub title : Text
  pub year : Text
  pub id : Option ℕ
  pub monitored : Option Bool

pub record Series : Type 0 where
  pub path : Option Text
  pub title : Text
  pub year : Text
  pub id : ℕ
  pub monitored : Option Bool

abbrev pub Entries : Type 0
Entries = List (Text × Track)

-- `index[path] = record`, after the test for a path.
unfoldable pub add_entry : Option Text → Track → Entries → Entries
unfolding put
add_entry none t index = index
add_entry (some []) t index = index
add_entry (some (c ∷ path)) t index = put (c ∷ path) t index

unfoldable pub add_movie : Movie → Option File → Entries → Entries
unfolding add_entry
add_movie m none index = index
add_movie m (some f) index =
    add_entry f.path
      (record {
        title = m.title;
        year = m.year;
        arr_id = m.id;
        file_id = f.file_id;
        quality = f.quality;
        monitored = m.monitored;
        detail = [];
      })
      index

unfoldable pub radarr_index : List Movie → Entries → Entries
unfolding add_movie
radarr_index [] index = index
radarr_index (m ∷ movies) index = radarr_index movies (add_movie m m.movie_file index)

unfoldable pub build_radarr_index : List Movie → Entries
unfolding radarr_index
build_radarr_index movies = radarr_index movies []

-- `by_path`
unfoldable pub add_series : Option Text → Series → List (Text × Series) → List (Text × Series)
unfolding put
add_series none s by_path = by_path
add_series (some []) s by_path = by_path
add_series (some (c ∷ path)) s by_path = put (c ∷ path) s by_path

unfoldable pub series_by_path : List Series → List (Text × Series) → List (Text × Series)
unfolding add_series
series_by_path [] by_path = by_path
series_by_path (s ∷ series) by_path = series_by_path series (add_series s.path s by_path)

-- `series_path.rstrip("/") + "/"`
unfoldable pub rstrip_slash : Text → Text
rstrip_slash [] = []
rstrip_slash (c ∷ t) =
    let rest = rstrip_slash t in if length rest == 0 && c == 47 then [] else c ∷ rest

unfoldable pub folder : Text → Text
unfolding rstrip_slash
folder series_path = rstrip_slash series_path ++ 47 ∷ []

-- The first series whose folder the path is in.
unfoldable pub series_of_path : Text → List (Text × Series) → List Text
unfolding folder starts_with
series_of_path path [] = []
series_of_path path (e ∷ rest) =
    let later = series_of_path path rest in
    if starts_with path (folder e.0) then e.0 ∷ [] else later

-- `needed`, before it is sorted and made unique.
unfoldable pub needed : List Text → List (Text × Series) → List Text
unfolding series_of_path
needed [] by_path = []
needed (path ∷ paths) by_path = series_of_path path by_path ++ needed paths by_path

unfoldable pub add_files : Series → List File → Entries → Entries
unfolding add_entry
add_files s [] index = index
add_files s (f ∷ files) index = add_files s files (
    add_entry f.path
      (record {
        title = s.title;
        year = s.year;
        arr_id = some s.id;
        file_id = f.file_id;
        quality = f.quality;
        monitored = s.monitored;
        detail = f.relative_path;
      })
      index)

module _ (fetch_files : ℕ → Option (List File)) (sort_unique : List Text → List Text) where
  -- The files of a series; where they cannot be fetched, none are added.
  unfoldable pub add_answer : Series → Option (List File) → Entries → Entries
  unfolding add_files
  add_answer s none index = index
  add_answer s (some files) index = add_files s files index

  unfoldable pub add_needed : Option Series → Entries → Entries
  unfolding add_answer
  add_needed none index = index
  add_needed (some s) index = add_answer s (fetch_files s.id) index

  unfoldable pub index_series : List (Text × Series) → List Text → Entries → Entries
  unfolding add_needed lookup
  index_series by_path [] index = index
  index_series by_path (p ∷ paths) index =
      index_series by_path paths (add_needed (lookup p by_path) index)

  unfoldable pub build_sonarr_index : List Series → (wanted : List Text) → Entries
  unfolding index_series series_by_path needed
  build_sonarr_index series wanted =
      let by_path = series_by_path series [] in
      index_series by_path (sort_unique (needed wanted by_path)) []
