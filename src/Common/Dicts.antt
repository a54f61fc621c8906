-- ===== src/Common/Dicts.antt =====
-- Python's dictionaries with text keys, as lists of entries in the order of insertion.
use mathlib.Core.Path.{◌≡◌, refl, ◌∙◌}
use mathlib.Core.Bool.{Bool, true, false}
use mathlib.Core.Option.{Option, none, some}
use mathlib.Core.List.{List, [], ◌∷◌}
use mathlib.Core.Logic.{inl, inr}
use media_stack.Common.Tests.{Bool-cases, if◌then◌else◌}
use media_stack.Common.Lists.{keep}
use media_stack.Common.Texts.{Text, text_eq, text_eq_refl, text_eq_sound}

-- `d[key] = value`: in place, or at the end.
unfoldable pub put {ℓ} : {A : Type ℓ} → Text → A → List (Text × A) → List (Text × A)
unfolding text_eq
put key value [] = (key, value) ∷ []
put key value (e ∷ rest) =
    let later = put key value rest in if text_eq e.0 key then (key, value) ∷ rest else e ∷ later

unfoldable pub lookup {ℓ} : {A : Type ℓ} → Text → List (Text × A) → Option A
unfolding text_eq
lookup key [] = none
lookup key (e ∷ rest) = let later = lookup key rest in if text_eq e.0 key then some e.1 else later

pub other_key : (x y z : Text) → x ≡ z → text_eq x y ≡ false → text_eq y z ≡ false
other_key x y z same h = elim (Bool-cases (text_eq y z)) [
  | inr e ↦ e
  | inl e ↦
      let yz = text_eq_sound y z e in
      let again : text_eq x y ≡ true = rw (same, yz) (text_eq_refl z) in cc
]

module _ {ℓ} {A : Type ℓ} where
  pub lookup-put :
      (key k : Text) (a : A) (xs : List (Text × A))
      → lookup k (put key a xs) ≡ (if text_eq key k then some a else lookup k xs)
  unfolding lookup put
  lookup-put key k a [] = refl
  lookup-put key k a (e ∷ xs) = elim (Bool-cases (text_eq e.0 key)) [
    | inl same ↦
        rw same
          (rw (text_eq_sound e.0 key same) (skip (text_eq key k) (some a) (some e.1) (lookup k xs)))
    | inr other ↦ rw other (
        rw (lookup-put key k a xs) (elim (Bool-cases (text_eq e.0 k)) [
          | inr b ↦ rw b refl
          | inl b ↦ rw (b, other_key e.0 key k (text_eq_sound e.0 k b) other) refl
        ]))
  ]
    where
      skip :
          (b : Bool) (x y z : Option A)
          → (if b then x else z) ≡ (if b then x else if b then y else z)
      skip true x y z = refl
      skip false x y z = refl

  pub lookup-keep :
      (p : Text → Bool) (k : Text) (xs : List (Text × A))
      → lookup k (keep (λ e. p e.0) xs) ≡ (if p k then lookup k xs else none)
  unfolding lookup keep
  lookup-keep p k [] = elim (Bool-cases (p k)) [ inl e ↦ rw e refl | inr e ↦ rw e refl ]
  lookup-keep p k (e ∷ xs) = elim (Bool-cases (text_eq e.0 k)) [
    | inl same ↦
        let e_k = text_eq_sound e.0 k same in
        elim (Bool-cases (p k)) [
          | inl b ↦ rw e_k (rw b (rw (text_eq_refl k) refl))
          | inr b ↦ rw e_k (rw b (lookup-keep p k xs ∙ rw b refl))
        ]
    | inr other ↦ elim (Bool-cases (p e.0)) [
      | inl b ↦ rw b (rw other (lookup-keep p k xs))
      | inr b ↦ rw b (rw other (lookup-keep p k xs))
    ]
  ]
