-- ===== src/Settings.antt =====
-- control-panel-django/core/settings.py: the settings over the table of their rows. The JSON library
-- is left out: a row has the value that its text stands for. `DEFAULTS` is part of the state, since
-- `remember_value` changes it where the dictionary that it works on is the default one.
mod Recent
mod Examples
use media_stack.Common.{
  Bool, List, Option, Text, [], codes, false, get_default, if◌then◌else◌, keep, lookup, map, none,
  not, put, some, suc, text_eq, true, zero, ℕ, ◌++◌, ◌∷◌,
}

-- For each argument, its remembered values.
abbrev pub Recents : Type 0
Recents = List (Text × List Text)

-- A JSON value; `other` is any that the panel itself does not write.
pub data Value : Type 0 where
  text : Text → Value
  number : ℕ → Value
  recents : Recents → Value
  other : Text → Value

abbrev pub Dict : Type 0
Dict = List (Text × Value)

pub record Store : Type 0 where
  pub defaults : Dict
  pub rows : Dict

abbrev pub recent_values : Text
recent_values = codes "recent_values"

-- DEFAULTS
abbrev pub initial : Dict
initial =
    (codes "theme", text (codes "amber"))
    ∷ (codes "failed_pending_storm_threshold", number 15)
    ∷ (codes "loop_review_profile_threshold", number 8)
    ∷ (recent_values, recents [])
    ∷ []

abbrev pub has {ℓ} : {A : Type ℓ} → Option A → Bool
has none = false
has (some a) = true

-- `{**DEFAULTS, **data}`
unfoldable pub merge : (defaults rows : Dict) → Dict
unfolding lookup keep
merge defaults rows =
    map (λ d. (d.0, get_default d.1 (lookup d.0 rows))) defaults
    ++ keep (λ r. not (has (lookup r.0 defaults))) rows

-- `_load`, and `get_settings`.
unfoldable pub load : Store → Dict
unfolding merge
load s = merge s.defaults s.rows

-- `_persist_key`
unfoldable pub persist : Text → Value → Store → Store
unfolding put
persist key value s = record { defaults = s.defaults; rows = put key value s.rows }

-- The loop of `update_settings`.
unfoldable pub update_all : Dict → Dict → Store → Dict × Store
unfolding persist lookup
update_all [] dict s = (dict, s)
update_all (p ∷ patch) dict s =
    let skipped = update_all patch dict s in
    let set = update_all patch (put p.0 p.1 dict) (persist p.0 p.1 s) in
    if has (lookup p.0 s.defaults) then set else skipped

unfoldable pub update_settings : Dict → Store → Dict × Store
unfolding update_all load
update_settings patch s = update_all patch (load s) s

-- `recent.remove(value)`, where it is in the list.
unfoldable pub remove : Text → List Text → List Text
unfolding text_eq
remove value [] = []
remove value (x ∷ xs) = let rest = remove value xs in if text_eq x value then xs else x ∷ rest

-- `recent[:keep]`
unfoldable pub take {ℓ} : {A : Type ℓ} → ℕ → List A → List A
take zero xs = []
take (suc n) [] = []
take (suc n) (x ∷ xs) = x ∷ take n xs

-- What the list of an argument becomes.
unfoldable pub bring_forward : ℕ → Text → List Text → List Text
unfolding remove take
bring_forward kept value recent = take kept (value ∷ remove value recent)

-- The value written; it also stands in DEFAULTS when no row did, for then the dictionary at hand is
-- the default one.
unfoldable pub write_recents : Recents → Store → Store
unfolding put lookup
write_recents d s = record {
  defaults =
      if has (lookup recent_values s.rows)
      then s.defaults
      else put recent_values (recents d) s.defaults;
  rows = put recent_values (recents d) s.rows;
}

-- What is done with `data["recent_values"]`; anything but a dictionary has no `setdefault`.
unfoldable pub remember_in : Option Value → Text → Text → ℕ → Store → Option Store
unfolding write_recents bring_forward
remember_in (some (recents d)) arg value kept s =
    some (write_recents (put arg (bring_forward kept value (get_default [] (lookup arg d))) d) s)
remember_in _ arg value kept s = none

unfoldable pub remember_value : Text → Text → ℕ → Store → Option Store
unfolding remember_in load
remember_value arg value kept s = remember_in (lookup recent_values (load s)) arg value kept s
