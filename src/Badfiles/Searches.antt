-- ===== src/Badfiles/Searches.antt =====
-- Which commands scripts/checkrr-badfiles-report.py prints, and how often.
use media_stack.Common.{
  All, All-append, Bool, Bool-cases, List, Option, Text, [], any_of, any_of-count_if, ap, arith,
  count_if, count_if-append, false, if◌then◌else◌, inl, inr, none, not, one_if, refl, some, suc,
  sym, text_eq, text_eq_sound, true, ℕ, ◌&&◌, ◌++◌, ◌+◌, ◌==◌, ◌||◌, ◌∙◌, ◌∷◌, ◌≡◌,
}
use media_stack.Badfiles.Config.{Block}
use media_stack.Badfiles.Commands.{
  Command, Entry, SeriesKey, delete_episode_file, deletions, emit_commands, id_or_zero,
  movie_commands, movies, same_id, same_series, search_series, searches, series_of, shows,
}
use media_stack.Badfiles.Addresses.{
  IsAddressed, deletions-IsAddressed, movie_commands-IsAddressed, searches-IsAddressed,
}

same_id_sound : (a b : Option ℕ) → same_id a b ≡ true → a ≡ b
unfolding same_id
same_id_sound none none h = refl
same_id_sound (some m) (some n) h = let e : m ≡ n = ground (arith, h) in ap some e
same_id_sound none (some n) h = cc
same_id_sound (some m) none h = cc

same_series_sound : (s t : SeriesKey) → same_series s t ≡ true → s ≡ t
unfolding same_series
same_series_sound s t h =
    let texts : text_eq s.0 t.0 ≡ true = ground (arith, h) in
    let ids : same_id s.1 t.1 ≡ true = ground (arith, h) in
    rw (text_eq_sound s.0 t.0 texts, same_id_sound s.1 t.1 ids) refl

-- The command is a search for this series.
pub searches_for : SeriesKey → Command → Bool
searches_for s (search_series arr port key arr_id) = same_series s (arr, arr_id)
searches_for s _ = false

-- The command deletes this file of an episode.
pub deletes_episode : Text → ℕ → Command → Bool
deletes_episode arr n (delete_episode_file name port key file_id) = text_eq name arr && file_id == n
deletes_episode arr n _ = false

pub is_episode : Text → ℕ → Entry → Bool
is_episode arr n r = text_eq r.0 arr && id_or_zero r.1.file_id == n

skipped :
    (same seen_before here later : Bool) (n : ℕ)
    → n ≡ one_if (not seen_before && later)
    → (same ≡ true → seen_before ≡ true)
    → n ≡ one_if (not seen_before && (same || later))
skipped same seen_before here later n h e = ground arith

searched :
    (same seen_before later : Bool) (n : ℕ)
    → n ≡ one_if (not (same || seen_before) && later)
    → (same ≡ true → seen_before ≡ false)
    → (if same then suc n else n) ≡ one_if (not seen_before && (same || later))
searched same seen_before later n h e = ground arith

count-three :
    (p : Command → Bool) (xs ys zs : List Command)
    → count_if p (xs ++ ys ++ zs) ≡ count_if p xs + count_if p ys + count_if p zs
count-three p xs ys zs =
    count_if-append p (xs ++ ys) zs ∙ ap (λ n. n + count_if p zs) (count_if-append p xs ys)

-- Sorting changes only the order.
abbrev pub Permutes : (List Entry → List Entry) → Type 0
Permutes sort = (p : Entry → Bool) (rows : List Entry) → count_if p (sort rows) ≡ count_if p rows

module _ (arrs : List (Text × Block)) where
  count-searches :
      (s : SeriesKey) (rows : List Entry) (seen : List SeriesKey)
      → count_if (searches_for s) (searches arrs rows seen)
        ≡ one_if
            (not (any_of (same_series s) seen) && any_of (λ r. same_series s (series_of r)) rows)
  unfolding count_if any_of searches searches_for
  count-searches s [] seen = ground arith
  count-searches s (r ∷ rows) seen = elim (Bool-cases (any_of (same_series (series_of r)) seen)) [
    | inl e ↦ rw e (
        skipped (same_series s (series_of r)) (any_of (same_series s) seen) true
          (any_of (λ r. same_series s (series_of r)) rows)
          (count_if (searches_for s) (searches arrs rows seen)) (count-searches s rows seen)
          (λ k. rw (same_series_sound s (series_of r) k) e))
    | inr e ↦ rw e (
        searched (same_series s (series_of r)) (any_of (same_series s) seen)
          (any_of (λ r. same_series s (series_of r)) rows)
          (count_if (searches_for s) (searches arrs rows (series_of r ∷ seen)))
          (count-searches s rows (series_of r ∷ seen))
          (λ k. rw (same_series_sound s (series_of r) k) e))
  ]

  no_search :
      (s : SeriesKey) (rows : List Entry) → count_if (searches_for s) (movie_commands arrs rows) ≡ 0
  unfolding count_if movie_commands searches_for
  no_search s [] = refl
  no_search s (r ∷ rows) = no_search s rows

  no_search-deletions :
      (s : SeriesKey) (rows : List Entry) → count_if (searches_for s) (deletions arrs rows) ≡ 0
  unfolding count_if deletions searches_for
  no_search-deletions s [] = refl
  no_search-deletions s (r ∷ rows) = no_search-deletions s rows

  no_episode :
      (arr : Text) (n : ℕ) (rows : List Entry)
      → count_if (deletes_episode arr n) (movie_commands arrs rows) ≡ 0
  unfolding count_if movie_commands deletes_episode
  no_episode arr n [] = refl
  no_episode arr n (r ∷ rows) = no_episode arr n rows

  no_episode-searches :
      (arr : Text) (n : ℕ) (rows : List Entry) (seen : List SeriesKey)
      → count_if (deletes_episode arr n) (searches arrs rows seen) ≡ 0
  unfolding count_if searches deletes_episode
  no_episode-searches arr n [] seen = refl
  no_episode-searches arr n (r ∷ rows) seen =
      elim (Bool-cases (any_of (same_series (series_of r)) seen)) [
        | inl e ↦ rw e (no_episode-searches arr n rows seen)
        | inr e ↦ rw e (no_episode-searches arr n rows (series_of r ∷ seen))
      ]

  count-deletions :
      (arr : Text) (n : ℕ) (rows : List Entry)
      → count_if (deletes_episode arr n) (deletions arrs rows) ≡ count_if (is_episode arr n) rows
  unfolding count_if deletions deletes_episode is_episode
  count-deletions arr n [] = refl
  count-deletions arr n (r ∷ rows) = ground (arith, count-deletions arr n rows)

  -- Where both sorts change only the order, the printed commands search for a series exactly once if
  -- one of the tracked episodes with a file id is of it, and otherwise never; they delete an episode
  -- file exactly as often as the tracked episodes name it; and each is printed with the port and the
  -- key that the configuration file has for its instance, or with the usual ones where it has none.
  pub emit_commands_lem :
      (by_title by_detail : List Entry → List Entry) (s : SeriesKey) (arr : Text) (n : ℕ)
      (rows : List Entry)
      → Permutes by_title
      → Permutes by_detail
      → (count_if (searches_for s) (emit_commands arrs by_title by_detail rows)
          ≡ one_if (any_of (λ r. same_series s (series_of r)) (shows rows)))
        × (count_if (deletes_episode arr n) (emit_commands arrs by_title by_detail rows)
            ≡ count_if (is_episode arr n) (shows rows))
        × All (IsAddressed arrs) (emit_commands arrs by_title by_detail rows)
  unfolding emit_commands
  emit_commands_lem by_title by_detail s arr n rows t d =
      let q = λ (r : Entry). same_series s (series_of r) in
      let first = movie_commands arrs (by_title (movies rows)) in
      let second = deletions arrs (by_detail (shows rows)) in
      let third = searches arrs (by_title (shows rows)) [] in
      let searched = count-searches s (by_title (shows rows)) [] in
      let of_series =
        any_of-count_if q (by_title (shows rows))
        ∙ ap (λ n. not (n == 0)) (t q (shows rows))
        ∙ sym (any_of-count_if q (shows rows)) in
      (
        count-three (searches_for s) first second third
            ∙ rw
                (
                  no_search s (by_title (movies rows)),
                  no_search-deletions s (by_detail (shows rows)),
                  searched,
                  of_series,
                )
                (omega arith),
        count-three (deletes_episode arr n) first second third
            ∙ rw
                (
                  no_episode arr n (by_title (movies rows)),
                  no_episode-searches arr n (by_title (shows rows)) [],
                  count-deletions arr n (by_detail (shows rows)),
                  d (is_episode arr n) (shows rows),
                )
                (omega arith),
        All-append (IsAddressed arrs) (first ++ second) third
            (All-append (IsAddressed arrs) first second
              (movie_commands-IsAddressed arrs (by_title (movies rows)))
              (deletions-IsAddressed arrs (by_detail (shows rows))))
            (searches-IsAddressed arrs (by_title (shows rows)) []),
      )
