-- ===== src/Queue/Buckets.antt =====
-- When the queue view calls a download running.
use media_stack.Common.{
  All, Bool, Bool-cases, List, Option, [], any_of, ap, arith, before, false, get_default,
  if◌then◌else◌, inl, inr, ltb, none, not, refl, some, true, ℕ, ◌&&◌, ◌==◌, ◌∙◌, ◌∷◌, ◌≡◌,
}
use media_stack.Queue.{
  Bucket, QueueRecord, bucket_arr_item, by_progress, downloading, previous, snapshot,
  waits_for_import,
}

pub is_downloading : Bucket → Bool
is_downloading (downloading gone left) = true
is_downloading _ = false

-- No two records have one id.
unfoldable pub Distinct : List QueueRecord → Type 0
Distinct [] = Unit
Distinct (q ∷ rest) = All (λ r. (r.id == q.id) ≡ false) rest × Distinct rest

-- Some record of the first sample is the same download, with more left.
pub had_more : (id left : ℕ) → List QueueRecord → Bool
had_more n left before = any_of (λ r. r.id == n && ltb left (get_default 0 r.sizeleft)) before

drained : ℕ → Option ℕ → Bool
drained left none = false
drained left (some prev) = ltb left prev

absent :
    (n left : ℕ) (before : List QueueRecord)
    → All (λ r. (r.id == n) ≡ false) before
    → (previous n (snapshot before) ≡ none) × (had_more n left before ≡ false)
unfolding previous snapshot had_more any_of
absent n left [] h = (refl, refl)
absent n left (q ∷ rest) h =
    let later = absent n left rest h.1 in
    elim (Bool-cases (get_default 0 q.sizeleft == 0)) [
      | inl e ↦ (rw e later.0, ground (arith, h.0, later.1))
      | inr e ↦ (rw e (rw later.0 (rw h.0 refl)), ground (arith, h.0, later.1))
    ]

skip_entry :
    (n m v : ℕ) (entries : List (ℕ × ℕ))
    → m == n ≡ false
    → previous n ((m, v) ∷ entries) ≡ previous n entries
unfolding previous
skip_entry n m v entries other = go (previous n entries) (m == n) other
  where
    go :
        (o : Option ℕ) (b : Bool)
        → b ≡ false
        → elim o as (λ z. Option ℕ) [ some later ↦ some later | none ↦ if b then some v else none ]
          ≡ o
    go none b e = rw e refl
    go (some later) b e = refl

skip :
    (n : ℕ) (q : QueueRecord) (rest : List QueueRecord)
    → q.id == n ≡ false
    → previous n (snapshot (q ∷ rest)) ≡ previous n (snapshot rest)
unfolding snapshot
skip n q rest other = elim (Bool-cases (get_default 0 q.sizeleft == 0)) [
  | inl e ↦ rw e refl
  | inr e ↦ rw e (skip_entry n q.id (get_default 0 q.sizeleft) (snapshot rest) other)
]

take_here :
    (n left : ℕ) (q : QueueRecord) (rest : List QueueRecord)
    → q.id == n ≡ true
    → previous n (snapshot rest) ≡ none
    → drained left (previous n (snapshot (q ∷ rest))) ≡ ltb left (get_default 0 q.sizeleft)
unfolding previous snapshot drained
take_here n left q rest same none_later = elim (Bool-cases (get_default 0 q.sizeleft == 0)) [
  | inl e ↦ rw e (rw none_later (ground (arith, e)))
  | inr e ↦ rw e (rw none_later (rw same refl))
]

no_record : (n left : ℕ) → drained left (previous n (snapshot [])) ≡ false
unfolding drained previous snapshot
no_record n left = refl

progress : (left : ℕ) (o : Option ℕ) → is_downloading (by_progress left o) ≡ drained left o
unfolding is_downloading by_progress drained
progress left none = refl
progress left (some prev) = ground arith

previous-snapshot :
    (n left : ℕ) (before : List QueueRecord)
    → Distinct before
    → drained left (previous n (snapshot before)) ≡ had_more n left before
unfolding drained had_more any_of Distinct
previous-snapshot n left [] h = no_record n left
previous-snapshot n left (q ∷ rest) h = elim (Bool-cases (q.id == n)) [
  | inr other ↦
      ap (drained left) (skip n q rest other)
      ∙ previous-snapshot n left rest h.1
      ∙ ground (arith, other)
  | inl same ↦
      let here : q.id ≡ n = ground (arith, same) in
      let gone = absent n left rest (rw here at h.0) in
      take_here n left q rest same gone.0 ∙ ground (arith, same, gone.1)
]

-- If no two records of the first sample share an id, a download runs, in the queue view, exactly
-- when it does not wait for its import, has something left, and had more left in that sample.
pub bucket-downloading :
    (q : QueueRecord) (before : List QueueRecord)
    → Distinct before
    → is_downloading (bucket_arr_item q (snapshot before)) ≡ (
        not (waits_for_import q)
        && (not (get_default 0 q.sizeleft == 0) && had_more q.id (get_default 0 q.sizeleft) before))
unfolding bucket_arr_item is_downloading
bucket-downloading q before h = ground (
  arith,
  progress (get_default 0 q.sizeleft) (previous q.id (snapshot before)),
  previous-snapshot q.id (get_default 0 q.sizeleft) before h,
)
