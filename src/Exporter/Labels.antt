-- ===== src/Exporter/Labels.antt =====
-- The text of a label's value, against a reader of Prometheus' exposition format.
use mathlib.Core.List.{append_assoc}
use media_stack.Common.{
  Bool, Bool-cases, Option, Text, [], ap, arith, false, if◌then◌else◌, inl, inr, none, option_map,
  refl, some, true, ℕ, ◌++◌, ◌==◌, ◌∙◌, ◌∷◌, ◌≡◌,
}
use media_stack.Exporter.{escape, replace}

-- What a character becomes.
escape_char : ℕ → Text
escape_char c =
    if c == 92
    then 92 ∷ 92 ∷ []
    else if c == 10
    then 92 ∷ 110 ∷ []
    else if c == 34
    then 92 ∷ 34 ∷ []
    else c ∷ []

escape-cons : (c : ℕ) (t : Text) → escape (c ∷ t) ≡ escape_char c ++ escape t
unfolding escape replace escape_char
escape-cons c t = elim (Bool-cases (c == 92)) [
  | inl e ↦ rw e refl
  | inr e ↦ rw e (elim (Bool-cases (c == 10)) [
    | inl n ↦ rw n refl
    | inr n ↦ rw n (elim (Bool-cases (c == 34)) [ inl q ↦ rw q refl | inr q ↦ rw q refl ])
  ])
]

push : ℕ → Option (Text × Text) → Option (Text × Text)
push c o = option_map (λ r. (c ∷ r.0, r.1)) o

-- A quoted value up to its closing quote, and what follows; the flag says that a backslash came
-- just before. The format knows the backslash before itself, before a quote, and before `n`.
pub read_value : Bool → Text → Option (Text × Text)
unfolding push
read_value b [] = none
read_value true (c ∷ t) = push (if c == 110 then 10 else c) (read_value false t)
read_value false (c ∷ t) =
    let plain = read_value false t in
    let escaped = read_value true t in
    if c == 34 then some ([], t) else if c == 92 then escaped else push c plain

read-escape_char :
    (c : ℕ) (t : Text) → read_value false (escape_char c ++ t) ≡ push c (read_value false t)
unfolding read_value escape_char push
read-escape_char c t = elim (Bool-cases (c == 92)) [
  | inl e ↦ rw e (let c92 : c ≡ 92 = ground (arith, e) in rw c92 refl)
  | inr e ↦ rw e (elim (Bool-cases (c == 10)) [
    | inl n ↦ rw n (let c10 : c ≡ 10 = ground (arith, n) in rw c10 refl)
    | inr n ↦ rw n (elim (Bool-cases (c == 34)) [
      | inl q ↦ rw q (let c34 : c ≡ 34 = ground (arith, q) in rw c34 refl)
      | inr q ↦ rw q (rw (q, e) refl)
    ])
  ])
]

-- A reader of the exposition format gets back the value that was written, whatever it contains, and
-- stops at its closing quote, whatever follows.
pub read-escape :
    (value after : Text) → read_value false (escape value ++ 34 ∷ after) ≡ some (value, after)
unfolding read_value escape replace
read-escape [] after = refl
read-escape (c ∷ value) after =
    ap (λ t. read_value false (t ++ 34 ∷ after)) (escape-cons c value)
    ∙ ap (read_value false) (append_assoc (escape_char c) (escape value) (34 ∷ after))
    ∙ read-escape_char c (escape value ++ 34 ∷ after)
    ∙ ap (push c) (read-escape value after)
