-- ===== src/Queue.antt =====
-- queue_app/services.py: which bucket of the queue view a download of Radarr or Sonarr is put in,
-- from two samples of its remaining size. Sizes are natural numbers, as the servers document them.
pub mod Buckets
mod Examples
use media_stack.Common.{
  Bool, List, Option, String, [], get_default, if◌then◌else◌, is_text, ltb, none, some, ℕ, ◌-◌,
  ◌==◌, ◌||◌, ◌∷◌,
}

pub record QueueRecord : Type 0 where
  pub id : ℕ
  pub title : Option String
  pub size : Option ℕ
  pub sizeleft : Option ℕ
  pub tracked_download_state : Option String

-- The bucket, with what its item shows besides the title and the sizes; a speed is the bytes that
-- the sample saw go, and the eta follows from it and from what is left.
pub data Bucket : Type 0 where
  importing : Bucket
  queued : Bucket
  downloading : (gone left : ℕ) → Bucket
  stalled : (left : ℕ) → Bucket

-- `_arr_sizeleft_snapshot`: an item with nothing left has no entry.
unfoldable pub snapshot : List QueueRecord → List (ℕ × ℕ)
snapshot [] = []
snapshot (q ∷ rest) =
    let later = snapshot rest in
    if get_default 0 q.sizeleft == 0 then later else (q.id, get_default 0 q.sizeleft) ∷ later

-- `prev_sizeleft.get(id)`: of two entries with one id, the dict holds the later.
unfoldable pub previous : ℕ → List (ℕ × ℕ) → Option ℕ
previous n [] = none
previous n (entry ∷ rest) = elim (previous n rest) [
  | some later ↦ some later
  | none ↦ if entry.0 == n then some entry.1 else none
]

abbrev pub waits_for_import : QueueRecord → Bool
waits_for_import q =
    is_text q.tracked_download_state "importPending"
    || is_text q.tracked_download_state "importBlocked"

-- What an item with `left` bytes left is put in, by its size in the first sample.
unfoldable pub by_progress : (left : ℕ) → Option ℕ → Bucket
by_progress left none = stalled left
by_progress left (some prev) =
    if ltb left prev then downloading (prev - left) left else stalled left

unfoldable pub bucket_arr_item : QueueRecord → List (ℕ × ℕ) → Bucket
unfolding by_progress previous
bucket_arr_item q prev_sizeleft =
    if waits_for_import q
    then importing
    else if get_default 0 q.sizeleft == 0
    then queued
    else by_progress (get_default 0 q.sizeleft) (previous q.id prev_sizeleft)
