-- ===== src/Reconcile/Verdict.antt =====
-- When scripts/plex-arr-reconcile.py returns 1.
use media_stack.Common.{
  Bool, Bool-cases, List, Option, Text, [], any_of, any_of-count_if, arith, count_if,
  count_if-append, false, if◌then◌else◌, inl, inr, mem_text, none, not, one_if, refl, some, suc,
  true, ℕ, ◌&&◌, ◌++◌, ◌+◌, ◌==◌, ◌||◌, ◌∙◌, ◌∷◌, ◌≡◌,
}
use media_stack.Reconcile.{
  Entry, arr_entries, arr_entry, classify, exit_code, is_actionable, is_known, is_unsupported,
  is_urgent, library_of, plex_entries, plex_entry, reconcile, swept,
}

-- A path that an Arr application owns and Plex does not serve, in a known library, and that the sweep
-- does not find or that has a container that Plex reads.
pub needs_action : (lower : Text → Text) (on_disk : Text → Bool) (served : List Text) → Text → Bool
needs_action lower on_disk served p =
    is_known p && (not (mem_text p served) && (not (on_disk p) || not (is_unsupported lower p)))

module _ (lower : Text → Text) (on_disk : Text → Bool) where
  is_urgent-classify :
      (path : Text) (found : Bool)
      → is_urgent (classify lower path false found) ≡ (not found || not (is_unsupported lower path))
  unfolding classify
  is_urgent-classify path false = refl
  is_urgent-classify path true = elim (Bool-cases (is_unsupported lower path)) [
    | inl e ↦ rw e refl
    | inr e ↦ rw e refl
  ]

  abbrev known : Option Text → Bool
  known none = false
  known (some l) = true

  count-arr_entry :
      (served : List Text) (path : Text) (o : Option Text) (rest : List Entry)
      → count_if is_actionable (arr_entry lower on_disk served path o ++ rest)
        ≡ one_if (
            known o
            && (not (mem_text path served)
                && (not (on_disk path) || not (is_unsupported lower path))))
          + count_if is_actionable rest
  unfolding arr_entry count_if
  count-arr_entry served path none rest = omega arith
  count-arr_entry served path (some label) rest = elim (Bool-cases (mem_text path served)) [
    | inl e ↦ rw e (omega arith)
    | inr e ↦
        rw (e, is_urgent-classify path (on_disk path))
          (more (not (on_disk path) || not (is_unsupported lower path))
            (count_if is_actionable rest))
  ]
    where
      more : (b : Bool) (n : ℕ) → (if b then suc n else n) ≡ one_if b + n
      more b n = ground arith

  count-arr_entries :
      (served paths : List Text)
      → count_if is_actionable (arr_entries lower on_disk served paths)
        ≡ count_if (needs_action lower on_disk served) paths
  unfolding arr_entries count_if needs_action
  count-arr_entries served [] = refl
  count-arr_entries served (p ∷ paths) =
      count-arr_entry served p (library_of p) (arr_entries lower on_disk served paths)
      ∙ rw (count-arr_entries served paths) (less _ _)
    where
      less : (b : Bool) (n : ℕ) → one_if b + n ≡ (if b then suc n else n)
      less b n = ground arith

  count-plex_entry :
      (arr : List Text) (path : Text) (o : Option Text) (rest : List Entry)
      → count_if is_actionable (plex_entry lower on_disk arr path o ++ rest)
        ≡ count_if is_actionable rest
  unfolding plex_entry count_if
  count-plex_entry arr path none rest = refl
  count-plex_entry arr path (some label) rest = elim (Bool-cases (mem_text path arr)) [
    | inl e ↦ rw e refl
    | inr e ↦ rw e (elim (Bool-cases (on_disk path)) [ inl d ↦ rw d refl | inr d ↦ rw d refl ])
  ]

  count-plex_entries :
      (arr paths : List Text) → count_if is_actionable (plex_entries lower on_disk arr paths) ≡ 0
  unfolding plex_entries count_if
  count-plex_entries arr [] = refl
  count-plex_entries arr (p ∷ paths) =
      count-plex_entry arr p (library_of p) (plex_entries lower on_disk arr paths)
      ∙ count-plex_entries arr paths

-- With --json the exit code is 0. Without it, it is 1 exactly if an Arr application owns a path of a known library that Plex does not
-- serve, unless the sweep finds it and its container is one that Plex cannot index. What Plex lists
-- and no Arr application owns never counts.
pub exit_code_lem :
    (lower : Text → Text) (exists : Text → Bool) (sort_unique : List Text → List Text) (json : Bool)
    (arr served : List Text)
    → exit_code lower exists sort_unique json arr served
      ≡ one_if (
          not json
          && any_of
              (needs_action lower
                (λ p. mem_text p (swept lower exists sort_unique arr served))
                served)
              arr)
unfolding exit_code reconcile
exit_code_lem lower exists sort_unique true arr served = refl
exit_code_lem lower exists sort_unique false arr served =
    let on_disk : Text → Bool = λ p. mem_text p (swept lower exists sort_unique arr served) in
    let owned = arr_entries lower on_disk served arr in
    let listed = plex_entries lower on_disk arr served in
    let total = count_if-append is_actionable owned listed in
    rw
      (
        total,
        count-arr_entries lower on_disk served arr,
        count-plex_entries lower on_disk arr served,
        any_of-count_if (needs_action lower on_disk served) arr,
      )
      (unless_zero _)
  where
    unless_zero : (n : ℕ) → (if n + 0 == 0 then 0 else 1) ≡ one_if (not (n == 0))
    unless_zero n = ground arith
