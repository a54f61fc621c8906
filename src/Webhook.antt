-- ===== src/Webhook.antt =====
-- scripts/plex-webhook-listener.py: the embed of a new item, and the worker that posts the notices
-- of the queue. What Discord answers, Plex' poster, and the decimal text of a year are parameters.
mod Intake
mod Delivery
mod Bounds
mod Examples
use media_stack.Common.{
  Bool, List, Option, Text, [], codes, false, get_default, if◌then◌else◌, is_space, length, ltb,
  none, not, some, suc, take_text, text_eq, true, ℕ, ◌&&◌, ◌*◌, ◌++◌, ◌==◌, ◌||◌, ◌∷◌,
}
use media_stack.Common.Run.{Done, Run, call, done, pure, raise, ◌>>=◌}

-- A poster: its bytes and its content type.
abbrev pub Image : Type 0
Image = Text × Text

-- The metadata of an item that Plex sends. Missing texts are `none`.
pub record Metadata : Type 0 where
  pub title : Option Text
  pub year : Option ℕ
  pub section : Option Text
  pub grandparent : Option Text
  pub summary : Option Text
  pub thumb : Option Text

pub record Embed : Type 0 where
  pub title : Text
  pub description : Option Text
  pub footer : Text

pub record Notice : Type 0 where
  pub embed : Embed
  pub image : Option Image
  pub label : Text

abbrev pub max_poster_bytes : ℕ
max_poster_bytes = 8 * 1024 * 1024

unfoldable pub rstrip : Text → Text
unfolding is_space
rstrip [] = []
rstrip (c ∷ t) = let rest = rstrip t in if length rest == 0 && is_space c then [] else c ∷ rest

-- `plex_get_binary`, on the response with the bytes that the server has; `none` is (None, None).
unfoldable pub plex_get_binary : Image → Option Image
unfolding take_text
plex_get_binary response =
    let data_read = take_text (suc max_poster_bytes) response.0 in
    if ltb max_poster_bytes (length data_read) then none else some (data_read, response.1)

-- `f"{title} ({year})" if year else title`
unfoldable pub with_year : (decimal : ℕ → Text) → Text → Option ℕ → Text
with_year decimal title none = title
with_year decimal title (some year) =
    if year == 0 then title else title ++ codes " (" ++ decimal year ++ codes ")"

-- The show's title before an episode's, when it is another one.
unfoldable pub with_show : Option Text → Text → Text → Text
unfolding text_eq
with_show none title label = label
with_show (some show) title label =
    if length show == 0 || text_eq show title
    then label
    else show ++ (32 ∷ 0x2014 ∷ 32 ∷ []) ++ label

unfoldable pub label_of : (decimal : ℕ → Text) → Metadata → Text
unfolding with_year with_show
label_of decimal m =
    let title = get_default (codes "Unknown") m.title in
    with_show m.grandparent title (with_year decimal title m.year)

unfoldable pub shorten : Text → Text
unfolding rstrip take_text
shorten summary =
    if ltb 300 (length summary) then rstrip (take_text 299 summary) ++ 0x2026 ∷ [] else summary

abbrev pub non_empty : Text → Option Text
non_empty [] = none
non_empty (c ∷ t) = some (c ∷ t)

unfoldable pub embed_of : (decimal : ℕ → Text) → Metadata → Embed
unfolding label_of shorten take_text
embed_of decimal m = record {
  title = take_text 256 (label_of decimal m);
  description = non_empty (shorten (get_default [] m.summary));
  footer = codes "Added to " ++ get_default (codes "Library") m.section;
}

-- `if data:`
unfoldable pub with_data : Option Image → Option Image
with_data none = none
with_data (some image) = if length image.0 == 0 then none else some image

-- A fetched image; a fetch that raises is `none`.
unfoldable pub fetched : Option Image → Option Image
unfolding plex_get_binary with_data
fetched none = none
fetched (some response) = with_data (plex_get_binary response)

-- The poster: the attached one, or else Plex' own, where Plex is configured.
unfoldable pub poster :
    (has_plex : Bool) (fetch : Text → Option Image) → Option Image → Option Text → Option Image
unfolding fetched
poster has_plex fetch (some image) thumb = some image
poster has_plex fetch none none = none
poster has_plex fetch none (some path) =
    if not (length path == 0) && has_plex then fetched (fetch path) else none

-- `handle_library_new`: the notice that it puts into the queue.
unfoldable pub handle_library_new :
    (decimal : ℕ → Text) (has_plex : Bool) (fetch : Text → Option Image)
    → Metadata
    → Option Image
    → Notice
unfolding embed_of poster label_of
handle_library_new decimal has_plex fetch m attached = record {
  embed = embed_of decimal m;
  image = poster has_plex fetch attached m.thumb;
  label = label_of decimal m;
}

-- How a post ends: delivered, refused with 429 and a header of so many seconds (`none` for one that
-- `float` or `sleep` refuses), or failed in another way.
pub data Answer : Type 0 where
  delivered failed : Answer
  limited : (retry_after : Option ℕ) → Answer

-- What the worker does.
pub data Step : Type 0 where
  post : Notice → Step
  sleep : ℕ → Step

-- The error that ends the worker's thread.
pub data Crash : Type 0 where
  value_error : Crash

module _ (answer : List Step → Answer) where
  -- `post_discord_once`
  unfoldable pub post_discord_once : Notice → Run Step Crash Answer
  post_discord_once n = call answer (post n)

  abbrev pub pause : ℕ → Run Step Crash Done
  pause seconds = call (λ t. done) (sleep seconds)

  -- The handler of an HTTPError with code 429; what the second post raises is only printed.
  unfoldable pub retry : Notice → Answer → Run Step Crash Done
  unfolding post_discord_once
  retry n delivered = pure done
  retry n failed = pure done
  retry n (limited none) = raise value_error
  retry n (limited (some seconds)) = do _ ← pause seconds; _ ← post_discord_once n; pure done

  unfoldable pub post_discord : Notice → Run Step Crash Done
  unfolding retry post_discord_once
  post_discord n = do answered ← post_discord_once n; retry n answered

  -- `worker`, on the notices that it gets from the queue.
  unfoldable pub worker : (has_webhook : Bool) → List Notice → Run Step Crash Done
  unfolding post_discord
  worker has_webhook [] = pure done
  worker false (n ∷ notices) = worker false notices
  worker true (n ∷ notices) = do _ ← post_discord n; _ ← pause 1; worker true notices
