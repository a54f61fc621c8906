-- ===== src/Webhook/Examples.antt =====
-- An episode that is posted after a 429.
use media_stack.Common.{
  List, Option, Text, [], codes, if◌then◌else◌, length, none, refl, some, true, ℕ, ◌==◌, ◌∷◌, ◌≡◌,
  ◌≤◌,
}
use media_stack.Common.Run.{Ensures, err}
use media_stack.Webhook.{
  Answer, Image, Metadata, Notice, Step, delivered, handle_library_new, limited, max_poster_bytes,
  post, value_error, worker,
}
use media_stack.Webhook.Intake.{Event, Part, do_post}
use media_stack.Webhook.Delivery.{Delivered, is_readable, worker_lem}
use media_stack.Webhook.Bounds.{Fits, handle_library_new-Fits, image_bytes}

abbrev no_decimal : ℕ → Text
no_decimal n = []

abbrev episode : Metadata
episode = record {
  title = some (codes "Pilot");
  year = none;
  section = some (codes "TV");
  grandparent = some (codes "Show");
  summary = none;
  thumb = some (codes "/thumb");
}

abbrev small : Text → Option Image
small path = some (1 ∷ 2 ∷ [], codes "image/jpeg")

handle_library_new-Fits_example :
    (length (handle_library_new no_decimal true small episode none).embed.title ≤ 256)
    × Fits 300 (handle_library_new no_decimal true small episode none).embed.description
    × Fits max_poster_bytes
        (image_bytes (handle_library_new no_decimal true small episode none).image)
    × ((i : Image)
        → none ≡ some i
        → (handle_library_new no_decimal true small episode none).image ≡ some i)
handle_library_new-Fits_example = handle_library_new-Fits no_decimal true small episode none

abbrev notice : Notice
notice = record {
  embed = record { title = codes "Show"; description = none; footer = [] };
  image = none;
  label = codes "Show";
}

-- The first post is too early.
abbrev once_limited : List Step → Answer
once_limited [] = limited (some 5)
once_limited (s ∷ t) = delivered

all_readable : (t : List Step) → is_readable (once_limited t) ≡ true
all_readable [] = refl
all_readable (s ∷ t) = refl

worker_example :
    Ensures
      (worker once_limited true (notice ∷ notice ∷ []))
      (λ d u. Delivered (notice ∷ notice ∷ []) [] u)
      []
worker_example = worker_lem once_limited (notice ∷ notice ∷ []) [] all_readable

abbrev unreadable : List Step → Answer
unreadable t = limited none

-- A `Retry-After` that is not a number ends the worker; the second notice is never posted.
stopped : worker unreadable true (notice ∷ notice ∷ []) [] ≡ (err value_error, post notice ∷ [])
unfolding worker
stopped = refl

-- The body of an event with the item `episode`, and one of another kind.
abbrev loads : Text → Option Event
loads t = some (record {
  event = some (if length t == 1 then codes "library.new" else codes "media.play");
  metadata = episode;
})

abbrev part : Text → Part
part t = record { name = some (codes "payload"); filename = none; content = t; content_type = [] }

one_notice :
    length (
      do_post no_decimal true small loads
        (codes "multipart/form-data; boundary=b")
        (some (part (codes "1") ∷ [])))
    ≡ 1
unfolding do_post
one_notice = refl

no_notice :
    do_post no_decimal true small loads
      (codes "multipart/form-data")
      (some (part (codes "22") ∷ []))
    ≡ []
unfolding do_post
no_notice = refl
