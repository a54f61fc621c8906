-- ===== src/Settings/Recent.antt =====
-- The remembered values against the whole history of calls.
use mathlib.Core.Option.{some-injective}
use media_stack.Settings.{
  Dict, Recents, Store, Value, bring_forward, has, initial, load, merge, recent_values, recents,
  remember_in, remember_value, remove, take, write_recents,
}
use media_stack.Common.{
  Bool-cases, List, Option, Text, [], ap, get_default, if◌then◌else◌, inl, inr, lookup, lookup-put,
  map, none, put, refl, some, suc, sym, text_eq, text_eq_sound, zero, ℕ, ◌++◌, ◌∙◌, ◌∷◌, ◌≡◌,
}
use media_stack.Settings.{
  Dict, Recents, Store, Value, bring_forward, has, initial, load, merge, recent_values, recents,
  remember_in, remember_value, remove, take, write_recents,
}

-- A call of `remember_value`: the argument and the value.
abbrev pub Call : Type 0
Call = Text × Text

-- The distinct values of the calls for an argument, the latest first; the calls are the latest first.
abbrev pub distinct_latest : Text → List Call → List Text
distinct_latest arg [] = []
distinct_latest arg (c ∷ older) =
    let rest = distinct_latest arg older in if text_eq c.0 arg then c.1 ∷ remove c.1 rest else rest

-- The store after the calls.
unfoldable pub after_calls : ℕ → List Call → Store → Option Store
unfolding remember_value
after_calls kept [] s = some s
after_calls kept (c ∷ older) s = elim (after_calls kept older s) [
  | none ↦ none
  | some t ↦ remember_value c.0 c.1 kept t
]

take_nil : (n : ℕ) → take {A = Text} n [] ≡ []
unfolding take
take_nil zero = refl
take_nil (suc n) = refl

take-take : (n : ℕ) (xs : List Text) → take n (take n xs) ≡ take n xs
unfolding take
take-take zero xs = refl
take-take (suc n) [] = refl
take-take (suc n) (x ∷ xs) = ap (λ ys. x ∷ ys) (take-take n xs)

-- Removing after a cut keeps the beginning.
take-remove :
    (n : ℕ) (v : Text) (xs : List Text) → take n (remove v (take (suc n) xs)) ≡ take n (remove v xs)
unfolding take remove
take-remove zero v xs = refl
take-remove (suc n) v [] = refl
take-remove (suc n) v (x ∷ xs) = elim (Bool-cases (text_eq x v)) [
  | inl e ↦ rw e (take-take (suc n) xs)
  | inr e ↦ rw e (ap (λ ys. x ∷ ys) (take-remove n v xs))
]

bring_forward-take :
    (kept : ℕ) (v : Text) (xs : List Text)
    → bring_forward kept v (take kept xs) ≡ take kept (v ∷ remove v xs)
unfolding bring_forward take
bring_forward-take zero v xs = refl
bring_forward-take (suc n) v xs = ap (λ ys. v ∷ ys) (take-remove n v xs)

-- The settings have this dictionary under `recent_values`.
Holds : Store → Recents → Type 0
Holds s d =
    (d0 : Recents) × (lookup recent_values s.defaults ≡ some (recents d0))
    × (get_default (recents d0) (lookup recent_values s.rows) ≡ recents d)

lookup-merged :
    (k : Text) (v : Value) (defaults rows more : Dict)
    → lookup k defaults ≡ some v
    → lookup k (map (λ d. (d.0, get_default d.1 (lookup d.0 rows))) defaults ++ more)
      ≡ some (get_default v (lookup k rows))
unfolding lookup
lookup-merged k v [] rows more h = cc
lookup-merged k v (d ∷ defaults) rows more h = elim (Bool-cases (text_eq d.0 k)) [
  | inl e ↦
      let same = text_eq_sound d.0 k e in
      let value : d.1 ≡ v = some-injective d.1 v (rw e at h) in rw (e, same, value) refl
  | inr e ↦ rw e (lookup-merged k v defaults rows more (rw e at h))
]

lookup-load :
    (s : Store) (d : Recents) → Holds s d → lookup recent_values (load s) ≡ some (recents d)
unfolding load merge Holds
lookup-load s d h = lookup-merged recent_values (recents h.0) s.defaults s.rows _ h.1 ∙ ap some h.2

write_recents-Holds : (s : Store) (d e : Recents) → Holds s d → Holds (write_recents e s) e
unfolding write_recents Holds
write_recents-Holds s d e h = elim (Bool-cases (has (lookup recent_values s.rows))) [
  | inl row ↦ rw row (h.0, h.1, written h.0)
  | inr row ↦ rw row (e, lookup-put recent_values recent_values (recents e) s.defaults, written e)
]
  where
    written :
        (d0 : Recents)
        → get_default (recents d0) (lookup recent_values (put recent_values (recents e) s.rows))
          ≡ recents e
    written d0 =
        ap (get_default (recents d0)) (lookup-put recent_values recent_values (recents e) s.rows)

-- The dictionary has the beginnings of the lists of distinct values.
IsLatest : ℕ → List Call → Recents → Type 0
IsLatest kept calls d =
    (arg : Text) → get_default [] (lookup arg d) ≡ take kept (distinct_latest arg calls)

put-IsLatest :
    (kept : ℕ) (c : Call) (older : List Call) (d : Recents)
    → IsLatest kept older d
    → IsLatest kept (c ∷ older) (put c.0 (bring_forward kept c.1 (get_default [] (lookup c.0 d))) d)
unfolding IsLatest
put-IsLatest kept c older d h arg =
    ap (get_default [])
      (lookup-put c.0 arg (bring_forward kept c.1 (get_default [] (lookup c.0 d))) d)
    ∙ elim (Bool-cases (text_eq c.0 arg)) [
      | inl e ↦ rw e (
          rw (text_eq_sound c.0 arg e, h arg)
            (bring_forward-take kept c.1 (distinct_latest arg older)))
      | inr e ↦ rw e (h arg)
    ]

-- The calls end with this store, which holds the latest values.
Ends : ℕ → List Call → Option Store → Type 0
Ends kept calls o = (t : Store) × (d : Recents) × (o ≡ some t) × Holds t d × IsLatest kept calls d

Ends-after_calls :
    (kept : ℕ) (calls : List Call) (s : Store)
    → Holds s []
    → Ends kept calls (after_calls kept calls s)
unfolding Ends after_calls IsLatest remember_value
Ends-after_calls kept [] s h = (s, [], refl, h, λ arg. sym (take_nil kept))
Ends-after_calls kept (c ∷ older) s h =
    let p = Ends-after_calls kept older s h in
    let d = put c.0 (bring_forward kept c.1 (get_default [] (lookup c.0 p.1))) p.1 in
    (
      write_recents d p.0,
      d,
      ap
            (λ o. elim o as (λ x. Option Store) [
              | none ↦ none
              | some t ↦ remember_value c.0 c.1 kept t
            ])
            p.2
          ∙ ap (λ o. remember_in o c.0 c.1 kept p.0) (lookup-load p.0 p.1 p.3),
      write_recents-Holds p.0 p.1 d p.3,
      put-IsLatest kept c older p.1 p.4,
    )

-- The settings before any change.
abbrev pub fresh : Store
fresh = record { defaults = initial; rows = [] }

-- From fresh settings, calls of `remember_value` never fail, and leave for each argument the first
-- `kept` of its distinct values, the latest first, whatever was remembered for other arguments
-- between: cutting the list at every call loses nothing that a later call would need.
pub remember_value-distinct_latest :
    (kept : ℕ) (calls : List Call) (arg : Text)
    → (t : Store) × (d : Recents) × (after_calls kept calls fresh ≡ some t)
      × (lookup recent_values (load t) ≡ some (recents d))
      × (get_default [] (lookup arg d) ≡ take kept (distinct_latest arg calls))
unfolding Ends Holds lookup text_eq IsLatest
remember_value-distinct_latest kept calls arg =
    let p = Ends-after_calls kept calls fresh ([], refl, refl) in
    (p.0, p.1, p.2, lookup-load p.0 p.1 p.3, p.4 arg)
