-- ===== src/Auth/Keys.antt =====
-- The key table of core/authentication.py: which key a call uses, and what is written.
use media_stack.Common.{
  Bool, Bool-cases, List, Option, Text, [], ap, arith, false, if◌then◌else◌, inl, inr, none, refl,
  some, sym, text_eq, text_eq_sound, true, ℕ, ◌∙◌, ◌∷◌, ◌≡◌, ◌≢◌, ◌⊎◌,
}
use media_stack.Auth.Defs.{ApiKey, Db, has_key, known, rejected, service, touch, use_key}

-- The row of a hash: when it was last used, if there is one.
unfoldable pub last_used : Text → List ApiKey → Option (Option ℕ)
last_used h [] = none
last_used h (k ∷ rest) =
    let later = last_used h rest in if text_eq k.key_hash h then some k.last_used_at else later

-- Is there a row?
abbrev is_row : Option (Option ℕ) → Bool
is_row none = false
is_row (some t) = true

has_key-eq-last_used : (h : Text) (keys : List ApiKey) → has_key h keys ≡ is_row (last_used h keys)
unfolding has_key last_used
has_key-eq-last_used h [] = refl
has_key-eq-last_used h (k ∷ rest) = ground (arith, has_key-eq-last_used h rest)

last_used-touch_self :
    (h : Text) (now : ℕ) (keys : List ApiKey)
    → last_used h (touch h now keys) ≡ (if has_key h keys then some (some now) else none)
unfolding has_key last_used touch
last_used-touch_self h now [] = refl
last_used-touch_self h now (k ∷ rest) = elim (Bool-cases (text_eq k.key_hash h)) [
  | inl e ↦ rw (e, e) refl
  | inr e ↦ rw (e, e) (last_used-touch_self h now rest)
]

last_used-touch_ne :
    (h j : Text) (now : ℕ) (keys : List ApiKey)
    → h ≢ j
    → last_used j (touch h now keys) ≡ last_used j keys
unfolding last_used touch
last_used-touch_ne h j now [] ne = refl
last_used-touch_ne h j now (k ∷ rest) ne = elim (Bool-cases (text_eq k.key_hash h)) [
  | inl e ↦
      let other : text_eq k.key_hash j ≡ false = elim (Bool-cases (text_eq k.key_hash j)) [
        | inl f ↦ absurd (ne (sym (text_eq_sound k.key_hash h e) ∙ text_eq_sound k.key_hash j f))
        | inr f ↦ f
      ] in
      rw (e, other) (last_used-touch_ne h j now rest ne)
  | inr e ↦ rw e (rw (last_used-touch_ne h j now rest ne))
]

-- Presenting a key that is in the table makes the caller the service and stamps that key with the
-- time; a key that is not in the table is rejected. No other key's stamp and no user changes, and
-- after a rejection nothing does.
pub use_key_lem :
    (h : Text) (now : ℕ) (db : Db)
    → (((use_key h now db).0 ≡ known service)
        × (last_used h (use_key h now db).1.api_keys ≡ some (some now))
        × ((j : Text) → h ≢ j → last_used j (use_key h now db).1.api_keys ≡ last_used j db.api_keys)
        × ((use_key h now db).1.users ≡ db.users)
        × (last_used h db.api_keys ≢ none))
      ⊎ ((use_key h now db ≡ (rejected, db)) × (last_used h db.api_keys ≡ none))
unfolding use_key
use_key_lem h now db = elim (Bool-cases (has_key h db.api_keys)) [
  | inl e ↦ inl (
    rw e,
    rw e (last_used-touch_self h now db.api_keys ∙ rw e),
    λ j ne. rw e (last_used-touch_ne h j now db.api_keys ne),
    rw e,
    λ absent. cc (sym e ∙ has_key-eq-last_used h db.api_keys ∙ ap is_row absent),
  )
  | inr e ↦ inr (rw e, ground (arith, has_key-eq-last_used h db.api_keys))
]
