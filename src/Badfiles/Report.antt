-- ===== src/Badfiles/Report.antt =====
-- The rest of `main`: the deduplicated input, the verdicts, and which application tracks a dead
-- file. What comes of asking an Arr instance for its files is a parameter.
use media_stack.Common.{
  Bool, List, Option, Text, [], any_of, codes, false, if◌then◌else◌, keep, length, map, none, not,
  some, strip, text_eq, true, ℕ, ◌&&◌, ◌++◌, ◌==◌, ◌||◌, ◌∷◌,
}
use media_stack.Badfiles.{Detail, Status, dead, library_for, unverified}

-- The row's first cell; a row with no cells is as good as a blank one.
abbrev first_cell : List Text → Text
first_cell [] = []
first_cell (cell ∷ rest) = strip cell

unfoldable pub last_cell : Text → List Text → Text
last_cell cell [] = strip cell
last_cell cell (next ∷ rest) = last_cell next rest

-- `row[-1].strip() if len(row) > 1 else ""`
unfoldable pub reason_of : List Text → Text
unfolding last_cell
reason_of (cell ∷ next ∷ rest) = last_cell next rest
reason_of _ = []

unfoldable pub has_path : Text → List (Text × Text) → Bool
has_path path [] = false
has_path path (entry ∷ rest) = text_eq entry.0 path || has_path path rest

-- `seen.setdefault(path, reason)`
unfoldable pub set_default : Text → Text → List (Text × Text) → List (Text × Text)
unfolding has_path
set_default path reason seen = if has_path path seen then seen else seen ++ (path, reason) ∷ []

-- The loop of `load_badfiles`, on the rows of the CSV file.
unfoldable pub load_rows : List (List Text) → List (Text × Text) → List (Text × Text)
unfolding set_default reason_of
load_rows [] seen = seen
load_rows (row ∷ rows) seen = load_rows rows (
    if length (first_cell row) == 0
    then seen
    else set_default (first_cell row) (reason_of row) seen)

unfoldable pub load_badfiles : List (List Text) → List (Text × Text)
unfolding load_rows
load_badfiles rows = load_rows rows []

-- A file that an Arr instance tracks.
pub record Track : Type 0 where
  pub title : Text
  pub year : Text
  pub arr_id : Option ℕ
  pub file_id : Option ℕ
  pub quality : Text
  pub monitored : Option Bool
  pub detail : Text

pub data Tracked : Type 0 where
  yes_tracked no_record undetermined : Tracked

pub record Row : Type 0 where
  pub path : Text
  pub arr : Text
  pub verdict : Status × Detail
  pub tracked : Tracked
  pub track : Option Track

-- A path with its verdict; `results` of `main` in the order of the paths.
abbrev pub Outcome : Type 0
Outcome = Text × (Status × Detail)

abbrev pub is_dead : Outcome → Bool
is_dead o = elim o.1.0 [ dead ↦ true | _ ↦ false ]

-- The verdicts, with or without `--no-verify`.
unfoldable pub verify_paths :
    (Text → Status × Detail) → (no_verify : Bool) → List Text → List Outcome
verify_paths verify no_verify paths =
    map (λ p. (p, if no_verify then (dead, unverified) else verify p)) paths

-- The Arr keys as `sorted` has them.
abbrev pub sorted_keys : List Text
sorted_keys = codes "radarr" ∷ codes "radarr_anime" ∷ codes "sonarr" ∷ codes "sonarr_anime" ∷ []

abbrev pub has_key : Text → Option Text → Bool
has_key key none = false
has_key key (some k) = text_eq k key

-- `by_arr[key]`
unfoldable pub group : Text → List Outcome → List Outcome
unfolding library_for
group key dead_ones = keep (λ o. has_key key (library_for o.0)) dead_ones

abbrev pub Index : Type 0
Index = Text → Option Track

-- What comes of asking an instance: an exception that `main` does not catch, such as the KeyError of
-- a block without an apikey or the error of a body that is not JSON; one that it takes for an
-- instance that cannot be reached; or the index.
pub data Fetched : Type 0 where
  crashed unreachable : Fetched
  listed : Index → Fetched

abbrev tracked_as : Option Track → Tracked
tracked_as none = no_record
tracked_as (some t) = yes_tracked

-- `tracked` and `rec` of a path, where `none` stands for an instance that cannot be reached.
unfoldable pub row_of : Text → Option Index → Outcome → Row
row_of key none o = record {
  path = o.0;
  arr = key;
  verdict = o.1;
  tracked = undetermined;
  track = none;
}
row_of key (some index) o = record {
  path = o.0;
  arr = key;
  verdict = o.1;
  tracked = tracked_as (index o.0);
  track = index o.0;
}

unfoldable pub fetched_rows : Text → Fetched → List Outcome → Option (List Row)
unfolding row_of
fetched_rows key crashed os = none
fetched_rows key unreachable os = some (map (row_of key none) os)
fetched_rows key (listed index) os = some (map (row_of key (some index)) os)

-- The rows of one key and those of the later ones; an exception ends the run.
unfoldable pub join_rows : Option (List Row) → Option (List Row) → Option (List Row)
join_rows (some xs) (some ys) = some (xs ++ ys)
join_rows _ _ = none

module _ (has_block : Text → Bool) (fetch : Text → List Text → Fetched) where
  -- The body of the loop over `sorted(by_arr.items())`; a key with no paths is not among them.
  unfoldable pub rows_for : Text → List Outcome → Option (List Row)
  unfolding fetched_rows
  rows_for key [] = some []
  rows_for key (o ∷ rest) =
      if has_block key
      then fetched_rows key (fetch key (map (λ x. x.0) (o ∷ rest))) (o ∷ rest)
      else some []

  unfoldable pub all_rows : List Text → List Outcome → Option (List Row)
  unfolding rows_for group join_rows
  all_rows [] dead_ones = some []
  all_rows (key ∷ keys) dead_ones =
      join_rows (rows_for key (group key dead_ones)) (all_rows keys dead_ones)

  abbrev is_outside : Outcome → Bool
  is_outside o = elim (library_for o.0) [ none ↦ true | some k ↦ false ]

  -- The rows of the report, where no exception ends the run. With a dead file outside all libraries,
  -- `None` is among the keys of `by_arr`, and `sorted` cannot compare it with a text: that is a
  -- TypeError. Alone, it has no block in the configuration and is passed over.
  unfoldable pub attribute : List Outcome → Option (List Row)
  unfolding all_rows library_for
  attribute dead_ones =
      if any_of is_outside dead_ones && any_of (λ o. not (is_outside o)) dead_ones
      then none
      else all_rows sorted_keys dead_ones

-- `main` up to the report, on the sorted paths.
unfoldable pub report :
    (verify : Text → Status × Detail) (no_verify : Bool) (has_block : Text → Bool)
    (fetch : Text → List Text → Fetched)
    → List Text
    → Option (List Row)
unfolding attribute verify_paths
report verify no_verify has_block fetch paths =
    attribute has_block fetch (keep is_dead (verify_paths verify no_verify paths))
