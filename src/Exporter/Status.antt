-- ===== src/Exporter/Status.antt =====
-- The queue's items by status: what is counted, and where a scrape leaves it.
use mathlib.Core.List.{append_assoc}
use mathlib.Core.Option.{some-injective}
use media_stack.Common.{
  Bool, Bool-cases, List, Option, Text, [], ap, arith, codes, count_if, drop_text, false,
  get_default, if◌then◌else◌, inl, inr, lookup, lookup-put, map, none, not, other_key, put, refl,
  some, starts_with, suc, sym, text_eq, text_eq_refl, text_eq_sound, true, ℕ, ◌&&◌, ◌+◌, ◌==◌, ◌∙◌,
  ◌∷◌, ◌≡◌,
}
use media_stack.Exporter.{
  Config, State, Value, escape, in_family, label, labels_text, more_labels, number, remove_family,
  sample, write_all,
}
use media_stack.Exporter.Answers.{Answers, Slot, is_given, or_unknown, read_config, read_slots}
use media_stack.Exporter.Scrape.{
  add_at, category_sizes, category_write, config_writes, health_writes, history_writes, last_writes,
  queue_writes, scrape, scrape_config, scrape_queue, status_counts, status_write,
}
use media_stack.Exporter.Store.{latest, lookup-remove_family, lookup-write_all}
use media_stack.Exporter.Labels.{read-escape, read_value}
use media_stack.Exporter.Health.{closing_writes, gauge_writes, lookup-scrape_config}

abbrev status_family : Text
status_family = codes "nzbdav_queue_per_status_count"

-- The sample of a status.
unfoldable pub status_key : Text → Text
unfolding sample labels_text label more_labels
status_key st = sample status_family ((codes "status", st) ∷ [])

recover : Text → Option (Text × Text)
unfolding drop_text
recover t = read_value false (drop_text 38 t)

recover-status_key : (st : Text) → recover (status_key st) ≡ some (st, codes "}")
unfolding recover status_key
recover-status_key st =
    ap (read_value false) (append_assoc (escape st) (34 ∷ []) (codes "}"))
    ∙ read-escape st (codes "}")

status_key-injective : (a b : Text) → text_eq (status_key a) (status_key b) ≡ text_eq a b
status_key-injective a b = elim (Bool-cases (text_eq a b)) [
  | inl e ↦ rw e (rw (text_eq_sound a b e) (text_eq_refl (status_key b)))
  | inr e ↦ elim (Bool-cases (text_eq (status_key a) (status_key b))) [
    | inr k ↦ k ∙ sym e
    | inl k ↦
        let read =
          sym (recover-status_key a) ∙ ap recover (text_eq_sound _ _ k) ∙ recover-status_key b in
        let same = ap (λ r. r.0) (some-injective (a, codes "}") (b, codes "}") read) in
        absurd (let t = text_eq_refl b in let u = rw same at e in cc)
  ]
]

distinct : List (Text × ℕ) → Bool
distinct [] = true
distinct (e ∷ counts) = not (is_given (lookup e.0 counts)) && distinct counts

distinct-put :
    (key : Text) (n : ℕ) (counts : List (Text × ℕ))
    → distinct counts ≡ true
    → distinct (put key n counts) ≡ true
unfolding distinct put lookup
distinct-put key n [] h = refl
distinct-put key n (e ∷ counts) h = elim (Bool-cases (text_eq e.0 key)) [
  | inl same ↦ rw same (rw (text_eq_sound e.0 key same) at h)
  | inr other ↦
      let later = distinct-put key n counts (ground (arith, h)) in
      let differs = other_key e.0 key e.0 refl other in
      let found = lookup-put key e.0 n counts in
      rw other (rw (found, differs) (ground (arith, h, later)))
]

distinct-status_counts :
    {F : Type 0} (slots : List (Slot F)) (counts : List (Text × ℕ))
    → distinct counts ≡ true
    → distinct (status_counts slots counts) ≡ true
unfolding status_counts add_at
distinct-status_counts [] counts h = h
distinct-status_counts (s ∷ slots) counts h = distinct-status_counts slots _ (
    distinct-put (or_unknown s.status) (get_default 0 (lookup (or_unknown s.status) counts) + 1)
      counts h)

abbrev shown_or : Option Value → Option ℕ → Option Value
shown_or o none = o
shown_or o (some n) = some (number n)

not_given : (l : Option ℕ) → not (is_given l) ≡ true → l ≡ none
not_given none h = refl
not_given (some n) h = cc

shown-first :
    (b : Bool) (n : ℕ) (o : Option Value) (l : Option ℕ)
    → (b ≡ true → l ≡ none)
    → shown_or (if b then some (number n) else o) l ≡ shown_or o (if b then some n else l)
shown-first true n o l h = rw (h refl) refl
shown-first false n o l h = refl

latest-status_write :
    (st : Text) (counts : List (Text × ℕ)) (o : Option Value)
    → distinct counts ≡ true
    → latest (status_key st) (map status_write counts) o ≡ shown_or o (lookup st counts)
unfolding distinct lookup status_key
latest-status_write st [] o h = refl
latest-status_write st (e ∷ counts) o h =
    latest-status_write st counts _ (ground (arith, h))
    ∙ ap (λ b. shown_or (if b then some (number e.1) else o) (lookup st counts))
        (status_key-injective e.0 st)
    ∙ shown-first (text_eq e.0 st) e.1 o (lookup st counts) (λ same.
      let fresh : not (is_given (lookup e.0 counts)) ≡ true = ground (arith, h) in
      not_given (lookup st counts) (rw (text_eq_sound e.0 st same) at fresh))

-- How many of the slots have the status.
unfoldable pub status_count : {F : Type 0} → Text → List (Slot F) → ℕ
status_count st slots = count_if (λ s. text_eq (or_unknown s.status) st) slots

-- A count `o` with `n` more.
abbrev tally : Option ℕ → ℕ → Option ℕ
tally o n = if n == 0 then o else some (get_default 0 o + n)

tally-suc : (o : Option ℕ) (n : ℕ) → tally (some (get_default 0 o + 1)) n ≡ tally o (suc n)
tally-suc o n = ground arith

lookup-status_counts :
    {F : Type 0} (st : Text) (slots : List (Slot F)) (counts : List (Text × ℕ))
    → lookup st (status_counts slots counts) ≡ tally (lookup st counts) (status_count st slots)
unfolding status_counts add_at status_count count_if
lookup-status_counts st [] counts = refl
lookup-status_counts st (s ∷ slots) counts =
    let key = or_unknown s.status in
    let n = get_default 0 (lookup key counts) + 1 in
    lookup-status_counts st slots (put key n counts)
    ∙ ap (λ o. tally o (status_count st slots)) (lookup-put key st n counts)
    ∙ elim (Bool-cases (text_eq key st)) [
      | inl same ↦
          rw same
            (rw (text_eq_sound key st same) (tally-suc (lookup st counts) (status_count st slots)))
      | inr other ↦ rw other refl
    ]

-- The rest of a scrape leaves the statuses alone.
status-scrape_config :
    (lower : Text → Text) (st : Text) (up : Bool) (answer : Option Config) (s : State)
    → lookup (status_key st) (scrape_config lower up answer s).samples
      ≡ lookup (status_key st) s.samples
unfolding status_key closing_writes gauge_writes last_writes config_writes sample labels_text
    text_eq in_family starts_with
status-scrape_config lower st up answer s = lookup-scrape_config lower (status_key st) up answer s

status-history :
    {F : Type 0} (st : Text) (slots : List (Slot F)) (s : State)
    → lookup (status_key st) (write_all (history_writes slots) s).samples
      ≡ lookup (status_key st) s.samples
unfolding status_key history_writes sample labels_text text_eq
status-history st slots s = lookup-write_all (status_key st) (history_writes slots) s

status-health :
    (st : Text) (status : Option ℕ) (s : State)
    → lookup (status_key st) (write_all (health_writes status) s).samples
      ≡ lookup (status_key st) s.samples
unfolding status_key health_writes sample labels_text text_eq
status-health st status s = lookup-write_all (status_key st) (health_writes status) s

shown-tally : (n : ℕ) → shown_or none (tally none n) ≡ (if n == 0 then none else some (number n))
shown-tally n = ground arith

module _ {F : Type 0} (zero_mb : F) (add : F → F → F) (as_bytes : F → ℕ) where
  status-scrape_queue :
      (st : Text) (slots : List (Slot F)) (s : State)
      → lookup (status_key st) (scrape_queue zero_mb add as_bytes slots s).samples
        ≡ shown_or none (lookup st (status_counts slots []))
  unfolding scrape_queue status_key in_family starts_with text_eq distinct
  status-scrape_queue st slots s =
      let first = write_all (queue_writes zero_mb add as_bytes slots) s in
      let categories =
        map (category_write zero_mb add as_bytes) (category_sizes zero_mb add as_bytes slots []) in
      let cleared = remove_family (codes "nzbdav_queue_per_category_bytes") first in
      let shown = map status_write (status_counts slots []) in
      lookup-write_all (status_key st) shown
        (remove_family status_family (write_all categories cleared))
      ∙ ap (latest (status_key st) shown)
          (lookup-remove_family (status_key st) status_family (write_all categories cleared))
      ∙ latest-status_write st (status_counts slots []) none (distinct-status_counts slots [] refl)

  -- After a scrape the sample of a status shows how many of the queue's items have that status,
  -- where those without one have the status `unknown`; a status that no item has is without a
  -- sample, whatever was there before, and so is every status when the queue was not answered.
  pub scrape-status :
      (lower : Text → Text) (answers : Answers F) (s : State) (st : Text)
      → lookup (status_key st) (scrape zero_mb add as_bytes lower answers s).samples ≡ (
          let n = status_count st (get_default [] (read_slots answers.queue)) in
          if n == 0 then none else some (number n))
  unfolding scrape
  scrape-status lower answers s st =
      let slots = get_default [] (read_slots answers.queue) in
      let history_slots = get_default [] (read_slots answers.history) in
      let config = read_config answers.config in
      let up =
        is_given (read_slots answers.queue)
        && is_given (read_slots answers.history)
        && is_given config in
      let queued = scrape_queue zero_mb add as_bytes slots s in
      let known = write_all (history_writes history_slots) queued in
      status-health st answers.healthz (scrape_config lower up config known)
      ∙ status-scrape_config lower st up config known
      ∙ status-history st history_slots queued
      ∙ status-scrape_queue st slots s
      ∙ ap (shown_or none) (lookup-status_counts st slots [])
      ∙ shown-tally (status_count st slots)
