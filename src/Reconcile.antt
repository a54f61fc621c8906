-- ===== src/Reconcile.antt =====
-- scripts/plex-arr-reconcile.py: the sweep of the paths inside the plex container, and the report.
-- What the Arr applications own, what Plex serves, what exists in the container, the order of
-- `sorted` and the lower case of a text are parameters. A path is a text.
mod Sources
mod Sweep
mod Verdict
mod Examples
use mathlib.Core.List.{reverse}
use media_stack.Common.{
  Bool, List, Option, Text, [], any_of, codes, count_if, false, if◌then◌else◌, keep, length,
  mem_text, none, not, some, starts_with, true, ℕ, ◌&&◌, ◌++◌, ◌==◌, ◌||◌, ◌∷◌,
}

-- LIBRARIES: the prefix and the label.
abbrev pub libraries : List (Text × Text)
libraries =
    (codes "/data/movies/", codes "Movies")
    ∷ (codes "/data/anime-movies/", codes "Anime Movies")
    ∷ (codes "/data/shows/", codes "Shows")
    ∷ (codes "/data/anime-shows/", codes "Anime Shows")
    ∷ []

abbrev pub unsupported_suffixes : List Text
unsupported_suffixes =
    codes ".iso" ∷ codes ".img" ∷ codes ".mk3d" ∷ codes ".bin" ∷ codes ".nrg" ∷ []

pub data Bucket : Type 0 where
  is_ok missing_from_plex file_gone unsupported orphan_in_plex stale_in_plex : Bucket

unfoldable pub label_in : Text → List (Text × Text) → Option Text
unfolding starts_with
label_in path [] = none
label_in path (l ∷ rest) =
    let later = label_in path rest in if starts_with path l.0 then some l.1 else later

unfoldable pub library_of : Text → Option Text
unfolding label_in
library_of path = label_in path libraries

-- `t.endswith(suffix)`
unfoldable pub ends_with : Text → Text → Bool
unfolding starts_with
ends_with t suffix = starts_with (reverse t) (reverse suffix)

unfoldable pub is_unsupported : (lower : Text → Text) → Text → Bool
unfolding any_of ends_with
is_unsupported lower path = any_of (ends_with (lower path)) unsupported_suffixes

unfoldable pub classify : (lower : Text → Text) → Text → (served on_disk : Bool) → Bucket
unfolding is_unsupported
classify lower path served on_disk =
    if served
    then is_ok
    else if not on_disk
    then file_gone
    else if is_unsupported lower path
    then unsupported
    else missing_from_plex

-- `"\n".join(paths)`
unfoldable pub join_lines : List Text → Text
join_lines [] = []
join_lines (p ∷ []) = p
join_lines (p ∷ q ∷ paths) = p ++ 10 ∷ join_lines (q ∷ paths)

-- The lines that `while IFS= read -r f` hands to its body: `read` fails at the end of the input, so
-- that what stands after the last newline is not handed over. The second argument is the line so far.
unfoldable pub read_loop : Text → Text → List Text
read_loop [] line = []
read_loop (c ∷ t) line =
    let next = read_loop t [] in
    let longer = read_loop t (line ++ c ∷ []) in if c == 10 then line ∷ next else longer

-- Where `splitlines` ends a line: LF, VT, FF, CR, FS, GS, RS, NEL and the separators U+2028 and
-- U+2029. The CR that `text=True` turns into LF is a break either way, and a CR LF that counts as two
-- breaks gives one more empty line, which is dropped.
abbrev pub is_break : ℕ → Bool
is_break c =
    c == 10
    || (c == 11
        || (c == 12
            || (c == 13
                || (c == 28 || (c == 29 || (c == 30 || (c == 133 || (c == 8232 || c == 8233))))))))

-- `printf "%s\n"` for each line.
unfoldable pub print_lines : List Text → Text
print_lines [] = []
print_lines (l ∷ lines) = l ++ 10 ∷ print_lines lines

-- `splitlines`; the second argument is the line so far.
unfoldable pub split_lines : Text → Text → List Text
split_lines [] [] = []
split_lines [] (c ∷ line) = (c ∷ line) ∷ []
split_lines (c ∷ t) line =
    let next = split_lines t [] in
    let longer = split_lines t (line ++ c ∷ []) in if is_break c then line ∷ next else longer

-- The lines of what the script prints that are not empty.
unfoldable pub exists_in_plex_container : (exists : Text → Bool) → List Text → List Text
unfolding keep read_loop join_lines print_lines split_lines
exists_in_plex_container exists [] = []
exists_in_plex_container exists (p ∷ paths) =
    keep (λ line. not (length line == 0))
      (split_lines (print_lines (keep exists (read_loop (join_lines (p ∷ paths)) []))) [])

-- An entry of the report: `report[label][bucket].append(path)`.
pub record Entry : Type 0 where
  pub library : Text
  pub bucket : Bucket
  pub path : Text

abbrev pub is_known : Text → Bool
is_known path = elim (library_of path) [ none ↦ false | some l ↦ true ]

-- The paths that the sweep asks for, before they are sorted and made unique.
unfoldable pub unserved : (arr served : List Text) → List Text
unfolding keep library_of mem_text
unserved arr served = keep (λ p. is_known p && not (mem_text p served)) arr

unfoldable pub unowned : (arr served : List Text) → List Text
unfolding keep library_of mem_text
unowned arr served = keep (λ p. is_known p && not (mem_text p arr)) served

module _ (lower : Text → Text) (on_disk : Text → Bool) where
  -- The entry of a path that an Arr application owns, if it gets one.
  unfoldable pub arr_entry : (served : List Text) → Text → Option Text → List Entry
  unfolding classify mem_text
  arr_entry served path none = []
  arr_entry served path (some label) =
      if mem_text path served
      then []
      else record {
        library = label;
        bucket = classify lower path false (on_disk path);
        path = path;
      }
        ∷ []

  unfoldable pub arr_entries : (served : List Text) → List Text → List Entry
  unfolding arr_entry library_of
  arr_entries served [] = []
  arr_entries served (p ∷ paths) = arr_entry served p (library_of p) ++ arr_entries served paths

  unfoldable pub plex_entry : (arr : List Text) → Text → Option Text → List Entry
  unfolding mem_text
  plex_entry arr path none = []
  plex_entry arr path (some label) =
      if mem_text path arr
      then []
      else record {
        library = label;
        bucket = if on_disk path then orphan_in_plex else stale_in_plex;
        path = path;
      }
        ∷ []

  unfoldable pub plex_entries : (arr : List Text) → List Text → List Entry
  unfolding plex_entry library_of
  plex_entries arr [] = []
  plex_entries arr (p ∷ paths) = plex_entry arr p (library_of p) ++ plex_entries arr paths

-- The buckets that the exit code is about.
abbrev pub is_urgent : Bucket → Bool
is_urgent missing_from_plex = true
is_urgent file_gone = true
is_urgent _ = false

abbrev pub is_actionable : Entry → Bool
is_actionable e = is_urgent e.bucket

module _ (lower : Text → Text) (exists : Text → Bool) (sort_unique : List Text → List Text) where
  -- `on_disk`
  unfoldable pub swept : (arr served : List Text) → List Text
  unfolding unserved unowned exists_in_plex_container
  swept arr served =
      exists_in_plex_container exists (sort_unique (unserved arr served ++ unowned arr served))

  -- The report of `main`.
  unfoldable pub reconcile : (arr served : List Text) → List Entry
  unfolding swept arr_entries plex_entries mem_text
  reconcile arr served =
      let on_disk = λ (p : Text). mem_text p (swept arr served) in
      arr_entries lower on_disk served arr ++ plex_entries lower on_disk arr served

  -- What `main` returns; the first argument is `args.json`.
  unfoldable pub exit_code : Bool → (arr served : List Text) → ℕ
  unfolding reconcile count_if
  exit_code json arr served =
      if json then 0 else if count_if is_actionable (reconcile arr served) == 0 then 0 else 1
