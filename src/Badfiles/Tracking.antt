-- ===== src/Badfiles/Tracking.antt =====
-- Which files the indexes of scripts/checkrr-badfiles-report.py have.
use media_stack.Common.{
  Bool, Bool-cases, List, Option, Text, [], any_of, ap, arith, false, inl, inr, lookup, lookup-put,
  none, refl, some, text_eq, true, ℕ, ◌||◌, ◌∙◌, ◌∷◌, ◌≡◌,
}
use media_stack.Badfiles.Report.{Track}
use media_stack.Badfiles.Index.{
  Entries, File, Movie, Series, add_answer, add_entry, add_files, add_movie, add_needed,
  build_radarr_index, build_sonarr_index, index_series, needed, radarr_index, series_by_path,
}

abbrev pub is_found : Option Track → Bool
is_found none = false
is_found (some t) = true

-- A file is listed at this path.
abbrev pub is_at : Text → Option Text → Bool
is_at p none = false
is_at p (some []) = false
is_at p (some (c ∷ path)) = text_eq (c ∷ path) p

abbrev pub movie_at : Text → Option File → Bool
movie_at p none = false
movie_at p (some f) = is_at p f.path

found-add_entry :
    (p : Text) (o : Option Text) (t : Track) (index : Entries)
    → is_found (lookup p (add_entry o t index)) ≡ (is_at p o || is_found (lookup p index))
unfolding add_entry
found-add_entry p none t index = refl
found-add_entry p (some []) t index = refl
found-add_entry p (some (c ∷ path)) t index =
    ap is_found (lookup-put (c ∷ path) p t index)
    ∙ elim (Bool-cases (text_eq (c ∷ path) p)) [ inl e ↦ rw e refl | inr e ↦ rw e refl ]

found-add_movie :
    (p : Text) (m : Movie) (o : Option File) (index : Entries)
    → is_found (lookup p (add_movie m o index)) ≡ (movie_at p o || is_found (lookup p index))
unfolding add_movie
found-add_movie p m none index = refl
found-add_movie p m (some f) index = found-add_entry p f.path _ index

rearrange : (a b c : Bool) → (a || b || c) ≡ (b || (a || c))
rearrange a b c = ground arith

nothing_more : (a : Bool) → a ≡ (a || false)
nothing_more a = ground arith

found-radarr_index :
    (p : Text) (movies : List Movie) (index : Entries)
    → is_found (lookup p (radarr_index movies index))
      ≡ (is_found (lookup p index) || any_of (λ (m : Movie). movie_at p m.movie_file) movies)
unfolding radarr_index any_of
found-radarr_index p [] index = nothing_more (is_found (lookup p index))
found-radarr_index p (m ∷ movies) index =
    found-radarr_index p movies (add_movie m m.movie_file index)
    ∙ rw (found-add_movie p m m.movie_file index) (
        rearrange (movie_at p m.movie_file) (is_found (lookup p index))
          (any_of (λ (m : Movie). movie_at p m.movie_file) movies))

found-add_files :
    (p : Text) (s : Series) (files : List File) (index : Entries)
    → is_found (lookup p (add_files s files index))
      ≡ (is_found (lookup p index) || any_of (λ (f : File). is_at p f.path) files)
unfolding add_files any_of
found-add_files p s [] index = nothing_more (is_found (lookup p index))
found-add_files p s (f ∷ files) index =
    found-add_files p s files (add_entry f.path _ index)
    ∙ rw (found-add_entry p f.path _ index) (
        rearrange (is_at p f.path) (is_found (lookup p index))
          (any_of (λ (f : File). is_at p f.path) files))

module _ (fetch_files : ℕ → Option (List File)) where
  -- The files could be fetched, and one of them is at this path.
  pub answer_at : Text → Option (List File) → Bool
  answer_at p none = false
  answer_at p (some files) = any_of (λ (f : File). is_at p f.path) files

  pub series_at : Text → Option Series → Bool
  series_at p none = false
  series_at p (some s) = answer_at p (fetch_files s.id)

  module _ (sort_unique : List Text → List Text) where
    found-add_answer :
        (p : Text) (s : Series) (o : Option (List File)) (index : Entries)
        → is_found (lookup p (add_answer fetch_files sort_unique s o index))
          ≡ (is_found (lookup p index) || answer_at p o)
    unfolding add_answer answer_at
    found-add_answer p s none index = nothing_more (is_found (lookup p index))
    found-add_answer p s (some files) index = found-add_files p s files index

    found-add_needed :
        (p : Text) (o : Option Series) (index : Entries)
        → is_found (lookup p (add_needed fetch_files sort_unique o index))
          ≡ (is_found (lookup p index) || series_at p o)
    unfolding add_needed series_at
    found-add_needed p none index = nothing_more (is_found (lookup p index))
    found-add_needed p (some s) index = found-add_answer p s (fetch_files s.id) index

    found-index_series :
        (by_path : List (Text × Series)) (p : Text) (paths : List Text) (index : Entries)
        → is_found (lookup p (index_series fetch_files sort_unique by_path paths index))
          ≡ (is_found (lookup p index) || any_of (λ q. series_at p (lookup q by_path)) paths)
    unfolding index_series any_of
    found-index_series by_path p [] index = nothing_more (is_found (lookup p index))
    found-index_series by_path p (q ∷ paths) index =
        found-index_series by_path p paths
          (add_needed fetch_files sort_unique (lookup q by_path) index)
        ∙ rw (found-add_needed p (lookup q by_path) index) (
            regroup (is_found (lookup p index)) (series_at p (lookup q by_path))
              (any_of (λ q. series_at p (lookup q by_path)) paths))
      where
        regroup : (a b c : Bool) → (a || b || c) ≡ (a || (b || c))
        regroup a b c = ground arith

    -- Where sorting only changes the order and drops repetitions, a path is in Sonarr's index exactly
    -- if one of the series that a wanted path points to (the first whose folder the path is in) has
    -- a file there and its files could be fetched; and a path is in Radarr's index exactly if a movie
    -- has its file there.
    pub build_index_lem :
        (series : List Series) (movies : List Movie) (wanted : List Text) (p : Text)
        → ((q : Text → Bool) (xs : List Text) → any_of q (sort_unique xs) ≡ any_of q xs)
        → (is_found (lookup p (build_sonarr_index fetch_files sort_unique series wanted))
            ≡ any_of
                (λ q. series_at p (lookup q (series_by_path series [])))
                (needed wanted (series_by_path series [])))
          × (is_found (lookup p (build_radarr_index movies))
              ≡ any_of (λ (m : Movie). movie_at p m.movie_file) movies)
    unfolding build_sonarr_index build_radarr_index lookup
    build_index_lem series movies wanted p sorted = (
      found-index_series (series_by_path series []) p
            (sort_unique (needed wanted (series_by_path series []))) []
          ∙ sorted (λ q. series_at p (lookup q (series_by_path series [])))
              (needed wanted (series_by_path series [])),
      found-radarr_index p movies [],
    )
