-- ===== src/Settings/Examples.antt =====
-- Remembered values of two arguments.
use media_stack.Common.{List, [], codes, get_default, lookup, put, refl, some, text_eq, ◌∷◌, ◌≡◌}
use media_stack.Settings.{
  Recents, Store, initial, load, number, recent_values, recents, remove, take, text,
  update_settings,
}
use media_stack.Settings.Recent.{
  Call, after_calls, distinct_latest, fresh, remember_value-distinct_latest,
}

abbrev calls : List Call
calls =
    (codes "a", codes "x")
    ∷ (codes "b", codes "z")
    ∷ (codes "a", codes "y")
    ∷ (codes "a", codes "x")
    ∷ []

remember_value-distinct_latest_example :
    (t : Store) × (d : Recents) × (after_calls 5 calls fresh ≡ some t)
    × (lookup recent_values (load t) ≡ some (recents d))
    × (get_default [] (lookup (codes "a") d) ≡ take 5 (distinct_latest (codes "a") calls))
remember_value-distinct_latest_example = remember_value-distinct_latest 5 calls (codes "a")

latest : distinct_latest (codes "a") calls ≡ codes "x" ∷ codes "y" ∷ []
unfolding text_eq remove
latest = refl

-- An unknown key of a patch is not stored.
patched :
    update_settings ((codes "colour", number 1) ∷ (codes "theme", text (codes "green")) ∷ []) fresh
    ≡ (
      put (codes "theme") (text (codes "green")) (load fresh),
      record { defaults = initial; rows = (codes "theme", text (codes "green")) ∷ [] },
    )
unfolding update_settings load
patched = refl
