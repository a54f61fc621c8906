-- ===== src/Badfiles/Counting.antt =====
-- How many rows the report of scripts/checkrr-badfiles-report.py has for the dead files.
use media_stack.Common.{
  All, Bool, Bool-cases, List, Option, Text, [], ap, arith, count_if, count_if-append, false,
  if◌then◌else◌, inl, inr, keep, map, none, one_if, option_map, refl, some, starts_with, suc, sym,
  text_eq, true, ℕ, ◌&&◌, ◌++◌, ◌+◌, ◌∙◌, ◌∷◌, ◌≡◌,
}
use media_stack.Badfiles.{libraries, library_for, library_of}
use media_stack.Badfiles.Report.{
  Fetched, Index, Outcome, Row, all_rows, crashed, fetched_rows, group, has_key, join_rows, listed,
  row_of, rows_for, sorted_keys, unreachable,
}

-- What holds of no library and of each key holds of the key of a path.
library_of-holds :
    (P : Option Text → Type 0) (path : Text) (table : List (Text × Text × Text))
    → P none
    → All (λ l. P (some l.2)) table
    → P (option_map (λ l. l.2) (library_of path table))
unfolding library_of
library_of-holds P path [] n h = n
library_of-holds P path (l ∷ table) n h = elim (Bool-cases (starts_with path l.0)) [
  | inl e ↦ rw e h.0
  | inr e ↦ rw e (library_of-holds P path table n h.1)
]

pub unless_some :
    (failed : Bool) (o : Option (List Row)) (ys : List Row)
    → (if failed then none else o) ≡ some ys
    → o ≡ some ys
unless_some failed o ys h = ground (arith, h)

pub some_inj : (xs ys : List Row) → some xs ≡ some ys → xs ≡ ys
some_inj xs ys h = ground (arith, h)

-- Rows that were joined come from rows of both.
pub join_rows-some :
    (a b : Option (List Row)) (rows : List Row)
    → join_rows a b ≡ some rows
    → (xs : List Row) × (ys : List Row) × (a ≡ some xs) × (b ≡ some ys) × (xs ++ ys ≡ rows)
unfolding join_rows
join_rows-some (some xs) (some ys) rows h = (xs, ys, refl, refl, some_inj (xs ++ ys) rows h)
join_rows-some (some xs) none rows h = let no : ⊥ = cc in absurd no
join_rows-some none b rows h = let no : ⊥ = cc in absurd no

-- The library of the file is one that the configuration has.
unfoldable pub is_configured : (Text → Bool) → Option Text → Bool
is_configured has_block none = false
is_configured has_block (some key) = has_block key

-- How many of the rows are of paths with `p`.
pub row_count : (Text → Bool) → List Row → ℕ
row_count p rows = count_if (λ (r : Row). p r.path) rows

module _ (has_block : Text → Bool) (fetch : Text → List Text → Fetched) where
  -- The keys among `keys` that are configured and are the one of `o`.
  matches : List Text → Option Text → ℕ
  matches keys o = count_if (λ key. has_block key && has_key key o) keys

  MatchesOnce : Option Text → Type 0
  unfolding matches is_configured
  MatchesOnce o = matches sorted_keys o ≡ one_if (is_configured has_block o)

  library_for-MatchesOnce : (path : Text) → MatchesOnce (library_for path)
  unfolding library_for MatchesOnce count_if text_eq
  library_for-MatchesOnce path =
      library_of-holds MatchesOnce path libraries (ground arith)
        (ground arith, (ground arith, (ground arith, (ground arith, tt))))

  count-row_of :
      (p : Text → Bool) (key : Text) (index : Option Index) (os : List Outcome)
      → row_count p (map (row_of key index) os) ≡ count_if (λ (o : Outcome). p o.0) os
  unfolding row_count count_if row_of
  count-row_of p key index [] = refl
  count-row_of p key none (o ∷ os) = ground (arith, count-row_of p key none os)
  count-row_of p key (some f) (o ∷ os) = ground (arith, count-row_of p key (some f) os)

  count-fetched_rows :
      (p : Text → Bool) (key : Text) (f : Fetched) (os : List Outcome) (rows : List Row)
      → fetched_rows key f os ≡ some rows
      → row_count p rows ≡ count_if (λ (o : Outcome). p o.0) os
  unfolding fetched_rows
  count-fetched_rows p key crashed os rows h = let no : ⊥ = cc in absurd no
  count-fetched_rows p key unreachable os rows h =
      rw (sym (some_inj (map (row_of key none) os) rows h)) (count-row_of p key none os)
  count-fetched_rows p key (listed index) os rows h =
      rw (sym (some_inj (map (row_of key (some index)) os) rows h))
        (count-row_of p key (some index) os)

  count-rows_for :
      (p : Text → Bool) (key : Text) (os : List Outcome) (rows : List Row)
      → rows_for has_block fetch key os ≡ some rows
      → row_count p rows ≡ (if has_block key then count_if (λ (o : Outcome). p o.0) os else 0)
  unfolding rows_for row_count count_if
  count-rows_for p key [] rows h =
      rw (sym (some_inj [] rows h))
        (elim (Bool-cases (has_block key)) [ inl e ↦ rw e refl | inr e ↦ rw e refl ])
  count-rows_for p key (o ∷ os) rows h = by_block (has_block key) h
    where
      f : Fetched
      f = fetch key (map (λ x. x.0) (o ∷ os))

      by_block :
          (b : Bool)
          → (if b then fetched_rows key f (o ∷ os) else some []) ≡ some rows
          → row_count p rows ≡ (if b then count_if (λ (x : Outcome). p x.0) (o ∷ os) else 0)
      by_block true k = count-fetched_rows p key f (o ∷ os) rows k
      by_block false k = rw (sym (some_inj [] rows k)) refl

  -- The rows for all keys, by how many keys match each file.
  pub weight : (Text → Bool) → List Text → List Outcome → ℕ
  weight p keys [] = 0
  weight p keys (o ∷ os) = (if p o.0 then matches keys (library_for o.0) else 0) + weight p keys os

  once :
      (q c : Bool) (n w k : ℕ)
      → n ≡ one_if c
      → w ≡ k
      → (if q then n else 0) + w ≡ (if q && c then suc k else k)
  once q c n w k h e = ground arith

  nothing :
      (p : Text → Bool) (key : Text)
      → 0 ≡ (if has_block key then count_if (λ (o : Outcome). p o.0) (group key []) else 0) + 0
  unfolding group keep count_if
  nothing p key = elim (Bool-cases (has_block key)) [
    | inl e ↦ rw e (omega arith)
    | inr e ↦ rw e (omega arith)
  ]

  matches-cons :
      (key : Text) (keys : List Text) (o : Option Text)
      → matches (key ∷ keys) o ≡ one_if (has_block key && has_key key o) + matches keys o
  unfolding matches count_if
  matches-cons key keys o = ground arith

  group-cons :
      (p : Text → Bool) (key : Text) (o : Outcome) (os : List Outcome)
      → count_if (λ (x : Outcome). p x.0) (group key (o ∷ os))
        ≡ one_if (has_key key (library_for o.0) && p o.0)
          + count_if (λ (x : Outcome). p x.0) (group key os)
  unfolding group keep count_if
  group-cons p key o os = elim (Bool-cases (has_key key (library_for o.0))) [
    | inl e ↦ rw e (ground arith)
    | inr e ↦ rw e (omega arith)
  ]

  regroup :
      (b m q : Bool) (others later inside : ℕ)
      → (if q then one_if (b && m) + others else 0) + ((if b then inside else 0) + later)
        ≡ (if b then one_if (m && q) + inside else 0) + ((if q then others else 0) + later)
  regroup b m q others later inside = ground arith

  weight-cons :
      (p : Text → Bool) (key : Text) (keys : List Text) (os : List Outcome)
      → weight p (key ∷ keys) os
        ≡ (if has_block key then count_if (λ (o : Outcome). p o.0) (group key os) else 0)
          + weight p keys os
  unfolding weight
  weight-cons p key keys [] = nothing p key
  weight-cons p key keys (o ∷ os) =
      rw (matches-cons key keys (library_for o.0), weight-cons p key keys os, group-cons p key o os)
        (regroup (has_block key) (has_key key (library_for o.0)) (p o.0)
          (matches keys (library_for o.0)) (weight p keys os)
          (count_if (λ (x : Outcome). p x.0) (group key os)))

  no_keys : (p : Text → Bool) (os : List Outcome) → row_count p [] ≡ weight p [] os
  unfolding weight row_count count_if matches
  no_keys p [] = refl
  no_keys p (o ∷ os) = ground (arith, no_keys p os)

  pub count-all_rows :
      (p : Text → Bool) (keys : List Text) (os : List Outcome) (rows : List Row)
      → all_rows has_block fetch keys os ≡ some rows
      → row_count p rows ≡ weight p keys os
  unfolding all_rows row_count
  count-all_rows p [] os rows h = rw (sym (some_inj [] rows h)) (no_keys p os)
  count-all_rows p (key ∷ keys) os rows h =
      let k =
        join_rows-some (rows_for has_block fetch key (group key os))
          (all_rows has_block fetch keys os) rows h in
      ap (λ rs. count_if (λ (r : Row). p r.path) rs) (sym k.4)
      ∙ count_if-append (λ (r : Row). p r.path) k.0 k.1
      ∙ omega (
        arith,
        count-rows_for p key (group key os) k.0 k.2,
        count-all_rows p keys os k.1 k.3,
        weight-cons p key keys os,
      )

  -- One row for each dead file of a configured library.
  pub weight-sorted_keys :
      (p : Text → Bool) (os : List Outcome)
      → weight p sorted_keys os
        ≡ count_if (λ (o : Outcome). p o.0 && is_configured has_block (library_for o.0)) os
  unfolding weight count_if MatchesOnce
  weight-sorted_keys p [] = refl
  weight-sorted_keys p (o ∷ os) =
      once (p o.0) (is_configured has_block (library_for o.0))
        (matches sorted_keys (library_for o.0)) (weight p sorted_keys os)
        (count_if (λ (x : Outcome). p x.0 && is_configured has_block (library_for x.0)) os)
        (library_for-MatchesOnce o.0) (weight-sorted_keys p os)
