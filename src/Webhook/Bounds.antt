-- ===== src/Webhook/Bounds.antt =====
-- The sizes of what scripts/plex-webhook-listener.py posts.
use media_stack.Common.{
  Bool, Bool-cases, Option, Text, [], arith, false, get_default, inl, inr, is_space, length,
  length-append, ltb, none, not, refl, some, suc, take_text, zero, ℕ, ◌&&◌, ◌<◌, ◌==◌, ◌∷◌, ◌≡◌,
  ◌≤◌,
}
use media_stack.Webhook.{
  Image, Metadata, embed_of, fetched, handle_library_new, label_of, max_poster_bytes, non_empty,
  plex_get_binary, poster, rstrip, shorten, with_data,
}

take-bound : (n : ℕ) (t : Text) → length (take_text n t) ≤ n
unfolding take_text
take-bound zero t = omega arith
take-bound (suc n) [] = omega arith
take-bound (suc n) (c ∷ t) = omega (arith, take-bound n t)

rstrip-bound : (t : Text) → length (rstrip t) ≤ length t
unfolding rstrip
rstrip-bound [] = omega arith
rstrip-bound (c ∷ t) = elim (Bool-cases (length (rstrip t) == 0 && is_space c)) [
  | inl e ↦ rw e (omega arith)
  | inr e ↦ rw e (omega (arith, rstrip-bound t))
]

shorten-bound : (t : Text) → length (shorten t) ≤ 300
unfolding shorten
shorten-bound t = elim (Bool-cases (ltb 300 (length t))) [
  | inr e ↦ rw e (ground (arith, e))
  | inl e ↦ rw e (
      rw (length-append (rstrip (take_text 299 t)) (0x2026 ∷ []))
        (omega (arith, rstrip-bound (take_text 299 t), take-bound 299 t)))
]

-- A length within the bound, of a text that is not empty.
pub Fits : ℕ → Option Text → Type 0
Fits n none = Unit
Fits n (some t) = (0 < length t) × (length t ≤ n)

non_empty-Fits : (n : ℕ) (t : Text) → length t ≤ n → Fits n (non_empty t)
unfolding Fits
non_empty-Fits n [] h = tt
non_empty-Fits n (c ∷ t) h = (omega arith, h)

pub image_bytes : Option Image → Option Text
image_bytes none = none
image_bytes (some image) = some image.0

-- The bytes are at most so many.
Bounded : ℕ → Option Image → Type 0
Bounded n none = Unit
Bounded n (some image) = length image.0 ≤ n

not_less : (a b : ℕ) → ltb a b ≡ false → b ≤ a
not_less a b h = ground (arith, h)

plex_get_binary-Bounded : (image : Image) → Bounded max_poster_bytes (plex_get_binary image)
unfolding Bounded plex_get_binary
plex_get_binary-Bounded image =
    elim (Bool-cases (ltb max_poster_bytes (length (take_text (suc max_poster_bytes) image.0)))) [
      | inl e ↦ rw e tt
      | inr e ↦
          rw e (not_less max_poster_bytes (length (take_text (suc max_poster_bytes) image.0)) e)
    ]

with_data-Fits : (n : ℕ) (o : Option Image) → Bounded n o → Fits n (image_bytes (with_data o))
unfolding Fits image_bytes with_data Bounded
with_data-Fits n none h = tt
with_data-Fits n (some image) h = elim (Bool-cases (length image.0 == 0)) [
  | inl z ↦ rw z tt
  | inr z ↦ rw z (ground (arith, z), h)
]

fetched-Fits : (response : Option Image) → Fits max_poster_bytes (image_bytes (fetched response))
unfolding Fits image_bytes fetched
fetched-Fits none = tt
fetched-Fits (some image) =
    with_data-Fits max_poster_bytes (plex_get_binary image) (plex_get_binary-Bounded image)

poster-Fits :
    (has_plex : Bool) (fetch : Text → Option Image) (thumb : Option Text)
    → Fits max_poster_bytes (image_bytes (poster has_plex fetch none thumb))
unfolding poster Fits image_bytes
poster-Fits has_plex fetch none = tt
poster-Fits has_plex fetch (some path) = elim (Bool-cases (not (length path == 0) && has_plex)) [
  | inl e ↦ rw e (fetched-Fits (fetch path))
  | inr e ↦ rw e tt
]

-- Whatever Plex sends, the title of the embed has at most 256 characters and its description, if it
-- has one, between 1 and 300; a poster that is fetched has between 1 byte and 8 MiB, and no poster is
-- fetched where one came with the event.
pub handle_library_new-Fits :
    (decimal : ℕ → Text) (has_plex : Bool) (fetch : Text → Option Image) (m : Metadata)
    (attached : Option Image)
    → (length (handle_library_new decimal has_plex fetch m attached).embed.title ≤ 256)
      × Fits 300 (handle_library_new decimal has_plex fetch m attached).embed.description
      × Fits max_poster_bytes (image_bytes (handle_library_new decimal has_plex fetch m none).image)
      × ((i : Image)
          → attached ≡ some i
          → (handle_library_new decimal has_plex fetch m attached).image ≡ some i)
unfolding handle_library_new embed_of poster
handle_library_new-Fits decimal has_plex fetch m attached = (
  take-bound 256 (label_of decimal m),
  non_empty-Fits 300 (shorten (get_default [] m.summary))
      (shorten-bound (get_default [] m.summary)),
  poster-Fits has_plex fetch m.thumb,
  λ i e. rw e refl,
)
