-- ===== src/Webhook/Intake.antt =====
-- `parse_multipart` and `do_POST`. The parts that the email library finds, and the JSON library's
-- reading of the payload, are parameters.
use media_stack.Common.{
  Bool, List, Option, Text, [], codes, false, if◌then◌else◌, length, none, not, some, starts_with,
  text_eq, true, ℕ, ◌&&◌, ◌==◌, ◌||◌, ◌∷◌,
}
use media_stack.Webhook.{Image, Metadata, Notice, handle_library_new}

-- A part of the body: its name, its file name, and its content with its type.
pub record Part : Type 0 where
  pub name : Option Text
  pub filename : Option Text
  pub content : Text
  pub content_type : Text

-- The field `payload`, if there is one, and the poster.
pub record Fields : Type 0 where
  pub payload : Option Text
  pub thumb : Option Image

-- A truthy text.
abbrev is_filled : Option Text → Bool
is_filled none = false
is_filled (some t) = not (length t == 0)

abbrev is_named : Text → Option Text → Bool
is_named t none = false
is_named t (some u) = text_eq u t

unfoldable pub read_part : Part → Fields → Fields
unfolding text_eq
read_part p f =
    if is_filled p.filename
    then if is_named (codes "thumb") p.name && not (length p.content == 0)
      then record { payload = f.payload; thumb = some (p.content, p.content_type) }
      else f
    else if is_named (codes "payload") p.name
    then record { payload = some p.content; thumb = f.thumb }
    else f

-- `parse_multipart`, of whose fields only the payload is read.
unfoldable pub read_parts : List Part → Fields → Fields
unfolding read_part
read_parts [] f = f
read_parts (p ∷ parts) f = read_parts parts (read_part p f)

-- An event of Plex.
pub record Event : Type 0 where
  pub event : Option Text
  pub metadata : Metadata

unfoldable pub contains : Text → Text → Bool
unfolding starts_with
contains t [] = true
contains [] (c ∷ part) = false
contains (a ∷ t) (c ∷ part) = starts_with (a ∷ t) (c ∷ part) || contains t (c ∷ part)

module _ (decimal : ℕ → Text) (has_plex : Bool) (fetch : Text → Option Image)
    (loads : Text → Option Event) where
  unfoldable pub handle_event : Option Image → Option Event → List Notice
  unfolding handle_library_new text_eq
  handle_event thumb none = []
  handle_event thumb (some e) =
      if is_named (codes "library.new") e.event
      then handle_library_new decimal has_plex fetch e.metadata thumb ∷ []
      else []

  unfoldable pub handle_fields : Fields → List Notice
  unfolding handle_event
  handle_fields f = elim f.payload [
    | none ↦ []
    | some raw ↦ if length raw == 0 then [] else handle_event f.thumb (loads raw)
  ]

  -- What a body that the library parses, or not, leads to.
  unfoldable pub handle_body : Option (List Part) → List Notice
  unfolding handle_fields read_parts
  handle_body none = []
  handle_body (some parts) =
      handle_fields (read_parts parts (record { payload = none; thumb = none }))

  -- `do_POST`: the notices that it puts into the queue; the answer is always 200.
  unfoldable pub do_post : (content_type : Text) → Option (List Part) → List Notice
  unfolding handle_body contains
  do_post content_type parsed =
      if contains content_type (codes "multipart/form-data") then handle_body parsed else []
