-- ===== src/Badfiles/Attribution.antt =====
-- Which dead files the report of scripts/checkrr-badfiles-report.py has, and what it says of them.
use mathlib.Core.Path.{subst}
use media_stack.Common.{
  All, All-append, Bool, List, Option, Text, [], ap, count_if, false, if◌then◌else◌, map, none,
  refl, some, sym, true, ◌&&◌, ◌∙◌, ◌∷◌, ◌≡◌,
}
use media_stack.Badfiles.{library_for}
use media_stack.Badfiles.Report.{
  Fetched, Index, Outcome, Row, Track, Tracked, all_rows, attribute, crashed, fetched_rows, group,
  listed, no_record, row_of, rows_for, sorted_keys, undetermined, unreachable, yes_tracked,
}
use media_stack.Badfiles.Counting.{
  count-all_rows, is_configured, join_rows-some, row_count, some_inj, unless_some,
  weight-sorted_keys,
}

module _ (has_block : Text → Bool) (fetch : Text → List Text → Fetched) where
  -- What an answer says of a path: undetermined without one.
  abbrev pub Judged : Fetched → Text → Tracked → Type 0
  Judged crashed path tracked = ⊥
  Judged unreachable path tracked = tracked ≡ undetermined
  Judged (listed index) path tracked =
      tracked ≡ elim (index path) [ none ↦ no_record | some t ↦ yes_tracked ]

  -- The row says what the answer of its own instance says, asked for the dead files of that library.
  abbrev pub IsHonest : List Outcome → Row → Type 0
  IsHonest os r = Judged (fetch r.arr (map (λ x. x.0) (group r.arr os))) r.path r.tracked

  listed-IsHonest :
      (os : List Outcome) (key : Text) (index : Index) (xs : List Outcome)
      → fetch key (map (λ x. x.0) (group key os)) ≡ listed index
      → All (IsHonest os) (map (row_of key (some index)) xs)
  unfolding row_of
  listed-IsHonest os key index [] e = tt
  listed-IsHonest os key index (x ∷ xs) e = (
    subst (λ f. Judged f x.0 (row_of key (some index) x).tracked) (sym e) (same (index x.0)),
    listed-IsHonest os key index xs e,
  )
    where
      same :
          (o : Option Track)
          → elim o as (λ z. Tracked) [ none ↦ no_record | some t ↦ yes_tracked ]
            ≡ elim o as (λ z. Tracked) [ none ↦ no_record | some t ↦ yes_tracked ]
      same o = refl

  unreachable-IsHonest :
      (os : List Outcome) (key : Text) (xs : List Outcome)
      → fetch key (map (λ x. x.0) (group key os)) ≡ unreachable
      → All (IsHonest os) (map (row_of key none) xs)
  unfolding row_of
  unreachable-IsHonest os key [] e = tt
  unreachable-IsHonest os key (x ∷ xs) e =
      (subst (λ f. Judged f x.0 undetermined) (sym e) refl, unreachable-IsHonest os key xs e)

  fetched_rows-IsHonest :
      (os : List Outcome) (key : Text) (f : Fetched) (xs : List Outcome) (rows : List Row)
      → fetch key (map (λ x. x.0) (group key os)) ≡ f
      → fetched_rows key f xs ≡ some rows
      → All (IsHonest os) rows
  unfolding fetched_rows
  fetched_rows-IsHonest os key crashed xs rows e h = let no : ⊥ = cc in absurd no
  fetched_rows-IsHonest os key unreachable xs rows e h =
      subst (λ rs. All (IsHonest os) rs) (some_inj (map (row_of key none) xs) rows h)
        (unreachable-IsHonest os key xs e)
  fetched_rows-IsHonest os key (listed index) xs rows e h =
      subst (λ rs. All (IsHonest os) rs) (some_inj (map (row_of key (some index)) xs) rows h)
        (listed-IsHonest os key index xs e)

  rows_for-IsHonest :
      (os : List Outcome) (key : Text) (xs : List Outcome) (rows : List Row)
      → group key os ≡ xs
      → rows_for has_block fetch key xs ≡ some rows
      → All (IsHonest os) rows
  unfolding rows_for
  rows_for-IsHonest os key [] rows e h = subst (λ rs. All (IsHonest os) rs) (some_inj [] rows h) tt
  rows_for-IsHonest os key (x ∷ xs) rows e h = by_block (has_block key) h
    where
      f : Fetched
      f = fetch key (map (λ y. y.0) (x ∷ xs))

      by_block :
          (b : Bool)
          → (if b then fetched_rows key f (x ∷ xs) else some []) ≡ some rows
          → All (IsHonest os) rows
      by_block true k =
          fetched_rows-IsHonest os key f (x ∷ xs) rows (ap (λ ys. fetch key (map (λ y. y.0) ys)) e)
            k
      by_block false k = subst (λ rs. All (IsHonest os) rs) (some_inj [] rows k) tt

  all_rows-IsHonest :
      (os : List Outcome) (keys : List Text) (rows : List Row)
      → all_rows has_block fetch keys os ≡ some rows
      → All (IsHonest os) rows
  unfolding all_rows
  all_rows-IsHonest os [] rows h = subst (λ rs. All (IsHonest os) rs) (some_inj [] rows h) tt
  all_rows-IsHonest os (key ∷ keys) rows h =
      let k =
        join_rows-some (rows_for has_block fetch key (group key os))
          (all_rows has_block fetch keys os) rows h in
      subst (λ rs. All (IsHonest os) rs) k.4
        (All-append (IsHonest os) k.0 k.1 (rows_for-IsHonest os key (group key os) k.0 refl k.2)
          (all_rows-IsHonest os keys k.1 k.3))

  -- Where the report does not fail, it has exactly one row for each dead file of a library that the
  -- configuration has, and no other (for every test `p` of paths, so many rows pass it); and a file
  -- is called an orphan, or tracked, only by an answer of its own instance: without one it stays
  -- undetermined.
  pub attribute_lem :
      (p : Text → Bool) (os : List Outcome) (rows : List Row)
      → attribute has_block fetch os ≡ some rows
      → (row_count p rows
          ≡ count_if (λ (o : Outcome). p o.0 && is_configured has_block (library_for o.0)) os)
        × All (IsHonest os) rows
  unfolding attribute
  attribute_lem p os rows h =
      let all = unless_some _ (all_rows has_block fetch sorted_keys os) rows h in
      (
        count-all_rows has_block fetch p sorted_keys os rows all
            ∙ weight-sorted_keys has_block fetch p os,
        all_rows-IsHonest os sorted_keys rows all,
      )
