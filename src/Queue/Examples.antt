-- ===== src/Queue/Examples.antt =====
-- The queue view on two samples.
use media_stack.Common.{[], get_default, none, not, refl, some, ℕ, ◌&&◌, ◌==◌, ◌∷◌, ◌≡◌}
use media_stack.Queue.{
  QueueRecord, bucket_arr_item, downloading, snapshot, stalled, waits_for_import,
}
use media_stack.Queue.Buckets.{Distinct, bucket-downloading, had_more, is_downloading}

abbrev sample : ℕ → QueueRecord
sample left = record {
  id = 7;
  title = some "A";
  size = some 900;
  sizeleft = some left;
  tracked_download_state = none;
}

runs : bucket_arr_item (sample 300) (snapshot (sample 700 ∷ [])) ≡ downloading 400 300
unfolding bucket_arr_item snapshot
runs = refl

stands_still : bucket_arr_item (sample 300) (snapshot (sample 300 ∷ [])) ≡ stalled 300
unfolding bucket_arr_item snapshot
stands_still = refl

one_sample : Distinct (sample 700 ∷ [])
unfolding Distinct
one_sample = (tt, tt)

bucket-downloading_example :
    is_downloading (bucket_arr_item (sample 300) (snapshot (sample 700 ∷ []))) ≡ (
      not (waits_for_import (sample 300))
      && (not (get_default 0 (sample 300).sizeleft == 0)
          && had_more 7 (get_default 0 (sample 300).sizeleft) (sample 700 ∷ [])))
bucket-downloading_example = bucket-downloading (sample 300) (sample 700 ∷ []) one_sample
