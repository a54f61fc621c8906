-- ===== src/Exporter/Scrape.antt =====
-- `_scrape`, over the answers. Floats are finite: sums that leave the range of a float are left out.
use media_stack.Common.{
  Bool, List, Option, Text, [], codes, count_if, false, get_default, length, lookup, map, none, put,
  some, text_eq, ℕ, ◌&&◌, ◌+◌, ◌==◌, ◌∷◌,
}
use media_stack.Exporter.Answers.{
  Answers, Slot, is_given, joined, or_unknown, read_config, read_slots,
}
use media_stack.Exporter.{
  Config, State, Write, elapsed, flag, number, ratio, remove_family, scalar, write_all,
}

-- `counts[key] = counts.get(key, 0) + n`
unfoldable pub add_at {ℓ} :
    {A : Type ℓ} → (A → A → A) → A → Text → A → List (Text × A) → List (Text × A)
unfolding put lookup
add_at add zero_of key n counts = put key (add (get_default zero_of (lookup key counts)) n) counts

unfoldable pub keep_config : Config → State → State
keep_config config s = record { samples = s.samples; names = s.names; last_config = config }

unfoldable pub health_writes : Option ℕ → List Write
health_writes status =
    (
      codes "nzbdav_health_healthy",
      [],
      flag (elim status [ none ↦ false | some code ↦ code == 200 ]),
    )
    ∷ (codes "nzbdav_api_latency_seconds_health", [], elapsed)
    ∷ []

module _ {F : Type 0} where
  unfoldable pub status_counts : List (Slot F) → List (Text × ℕ) → List (Text × ℕ)
  unfolding add_at or_unknown
  status_counts [] counts = counts
  status_counts (s ∷ slots) counts =
      status_counts slots (add_at (λ m n. m + n) 0 (or_unknown s.status) 1 counts)

  abbrev pub has_status : Text → Slot F → Bool
  has_status t s = elim s.status [ none ↦ false | some u ↦ text_eq u t ]

  unfoldable pub history_writes : List (Slot F) → List Write
  unfolding count_if text_eq
  history_writes slots =
      let completed = count_if (has_status (codes "Completed")) slots in
      let failed = count_if (has_status (codes "Failed")) slots in
      (codes "nzbdav_api_latency_seconds_history", [], elapsed)
      ∷ (codes "nzbdav_history_completed_total", [], number completed)
      ∷ (codes "nzbdav_history_failed_total", [], number failed)
      ∷ (codes "nzbdav_history_success_ratio", [], ratio completed (completed + failed))
      ∷ []

abbrev pub status_write : Text × ℕ → Write
status_write e = (codes "nzbdav_queue_per_status_count", (codes "status", e.0) ∷ [], number e.1)

module _ {F : Type 0} (zero_mb : F) (add : F → F → F) (as_bytes : F → ℕ) where
  unfoldable pub category_sizes : List (Slot F) → List (Text × F) → List (Text × F)
  unfolding add_at or_unknown
  category_sizes [] sizes = sizes
  category_sizes (s ∷ slots) sizes =
      category_sizes slots (add_at add zero_mb (or_unknown s.cat) s.mbleft sizes)

  unfoldable pub total_left : List (Slot F) → F → F
  total_left [] n = n
  total_left (s ∷ slots) n = total_left slots (add n s.mbleft)

  unfoldable pub queue_writes : List (Slot F) → List Write
  unfolding count_if total_left text_eq
  queue_writes slots =
      (codes "nzbdav_api_latency_seconds", [], elapsed)
      ∷ (
        codes "nzbdav_queue_active_downloads",
        [],
        number (count_if (has_status (codes "Downloading")) slots),
      )
      ∷ (codes "nzbdav_queue_items_total", [], number (length slots))
      ∷ (codes "nzbdav_queue_depth_bytes", [], number (as_bytes (total_left slots zero_mb)))
      ∷ []

  abbrev pub category_write : Text × F → Write
  category_write e =
      (codes "nzbdav_queue_per_category_bytes", (codes "cat", e.0) ∷ [], number (as_bytes e.1))

  unfoldable pub scrape_queue : List (Slot F) → State → State
  unfolding queue_writes write_all remove_family category_sizes status_counts
  scrape_queue slots s = write_all (map status_write (status_counts slots [])) (
      remove_family (codes "nzbdav_queue_per_status_count") (
        write_all (map category_write (category_sizes slots [])) (
          remove_family (codes "nzbdav_queue_per_category_bytes")
            (write_all (queue_writes slots) s))))

module _ (lower : Text → Text) where
  -- `str(config.get(key, "")).lower() == "true"`
  unfoldable pub is_on : Config → Text → Bool
  unfolding lookup text_eq
  is_on config key = elim (lookup key config) [
    | none ↦ text_eq (lower []) (codes "true")
    | some none ↦ text_eq (lower (codes "None")) (codes "true")
    | some (some t) ↦ text_eq (lower t) (codes "true")
  ]

  unfoldable pub config_writes : Bool → Config → List Write
  unfolding is_on
  config_writes success config =
      (codes "nzbdav_api_latency_seconds_config", [], elapsed)
      ∷ (codes "nzbdav_config_scrape_success", [], flag success)
      ∷ (
        codes "nzbdav_config_segment_cache_enabled",
        [],
        flag (is_on config (codes "usenet.segment-cache.enabled")),
      )
      ∷ (
        codes "nzbdav_config_segment_cache_max_gb",
        [],
        scalar (joined (lookup (codes "usenet.segment-cache.max-gb") config)),
      )
      ∷ (
        codes "nzbdav_config_queue_worker_count",
        [],
        scalar (joined (lookup (codes "queue.worker-count") config)),
      )
      ∷ (
        codes "nzbdav_config_pipelining_depth",
        [],
        scalar (joined (lookup (codes "usenet.queue-pipelining.depth") config)),
      )
      ∷ (codes "nzbdav_config_repair_enabled", [], flag (is_on config (codes "repair.enable")))
      ∷ (
        codes "nzbdav_config_watchdog_enabled",
        [],
        flag (is_on config (codes "play.watchdog-enabled")),
      )
      ∷ (codes "nzbdav_config_preflight_mode", [], number 0)
      ∷ []

  unfoldable pub last_writes : (up : Bool) → Config → List Write
  unfolding is_on or_unknown
  last_writes up config =
      (
        codes "nzbdav_config_preflight_mode_info",
        (codes "mode", or_unknown (joined (lookup (codes "preflight.mode") config))) ∷ [],
        number 1,
      )
      ∷ (
        codes "nzbdav_config_max_connections_per_stream",
        [],
        flag (is_on config (codes "usenet.max-download-connections-per-stream")),
      )
      ∷ (codes "nzbdav_up", [], flag up)
      ∷ []

  unfoldable pub scrape_config : (up : Bool) → Option Config → State → State
  unfolding config_writes last_writes write_all remove_family keep_config
  scrape_config up answer s =
      let config = get_default s.last_config answer in
      write_all (last_writes up config) (
        remove_family (codes "nzbdav_config_preflight_mode_info")
          (write_all (config_writes (is_given answer) config) (keep_config config s)))

module _ {F : Type 0} (zero_mb : F) (add : F → F → F) (as_bytes : F → ℕ) (lower : Text → Text) where
  -- `_scrape`
  unfoldable pub scrape : Answers F → State → State
  unfolding scrape_queue history_writes scrape_config health_writes write_all read_slots read_config
  scrape answers s =
      let queue_slots = read_slots answers.queue in
      let history_slots = read_slots answers.history in
      let config = read_config answers.config in
      write_all (health_writes answers.healthz) (
        scrape_config lower (is_given queue_slots && is_given history_slots && is_given config)
          config
          (write_all (history_writes (get_default [] history_slots))
            (scrape_queue zero_mb add as_bytes (get_default [] queue_slots) s)))
