-- ===== src/Exporter/Health.antt =====
-- `nzbdav_up` and the configuration that outlives a failed request.
use mathlib.Core.Path.{subst}
use media_stack.Common.{
  Bool, List, Option, Text, [], ap, codes, get_default, lookup, map, refl, some, starts_with,
  text_eq, ℕ, ◌&&◌, ◌∙◌, ◌≡◌,
}
use media_stack.Exporter.{
  Config, State, Write, flag, in_family, label, labels_text, more_labels, remove_family, sample,
  scalar, write_all,
}
use media_stack.Exporter.Answers.{Answers, Slot, is_given, joined, read_config, read_slots}
use media_stack.Exporter.Scrape.{
  category_sizes, category_write, config_writes, health_writes, history_writes, is_on, keep_config,
  last_writes, queue_writes, scrape, scrape_config, scrape_queue, status_counts, status_write,
}
use media_stack.Exporter.Store.{
  config-write_all, latest, left, lookup-remove_family, lookup-write_all,
}

abbrev pub up_key : Text
up_key = codes "nzbdav_up"

abbrev mode_family : Text
mode_family = codes "nzbdav_config_preflight_mode_info"

-- The gauges of the settings, as samples of `s`: each shows its own setting of the configuration `c`,
-- and the first whether that was just read.
module _ (lower : Text → Text) (success : Bool) (c : Config) (s : State) where
  abbrev pub ShowsConfig : Type 0
  ShowsConfig =
      (lookup (codes "nzbdav_config_scrape_success") s.samples ≡ some (flag success))
      × (lookup (codes "nzbdav_config_segment_cache_enabled") s.samples
          ≡ some (flag (is_on lower c (codes "usenet.segment-cache.enabled"))))
      × (lookup (codes "nzbdav_config_segment_cache_max_gb") s.samples
          ≡ some (scalar (joined (lookup (codes "usenet.segment-cache.max-gb") c))))
      × (lookup (codes "nzbdav_config_queue_worker_count") s.samples
          ≡ some (scalar (joined (lookup (codes "queue.worker-count") c))))
      × (lookup (codes "nzbdav_config_pipelining_depth") s.samples
          ≡ some (scalar (joined (lookup (codes "usenet.queue-pipelining.depth") c))))
      × (lookup (codes "nzbdav_config_repair_enabled") s.samples
          ≡ some (flag (is_on lower c (codes "repair.enable"))))
      × (lookup (codes "nzbdav_config_watchdog_enabled") s.samples
          ≡ some (flag (is_on lower c (codes "play.watchdog-enabled"))))
      × (lookup (codes "nzbdav_config_max_connections_per_stream") s.samples
          ≡ some (flag (is_on lower c (codes "usenet.max-download-connections-per-stream"))))

module _ (lower : Text → Text) where
  module _ (k : Text) (up : Bool) (answer : Option Config) (s : State) where
    unfoldable pub closing_writes : List Write
    closing_writes = last_writes lower up (get_default s.last_config answer)

    unfoldable pub gauge_writes : List Write
    gauge_writes = config_writes lower (is_given answer) (get_default s.last_config answer)

    pub lookup-scrape_config :
        lookup k (scrape_config lower up answer s).samples
        ≡ latest k closing_writes (left mode_family k (latest k gauge_writes (lookup k s.samples)))
    unfolding scrape_config closing_writes gauge_writes keep_config
    lookup-scrape_config =
        let configured = keep_config (get_default s.last_config answer) s in
        lookup-write_all k closing_writes
          (remove_family mode_family (write_all gauge_writes configured))
        ∙ ap (latest k closing_writes)
            (lookup-remove_family k mode_family (write_all gauge_writes configured))
        ∙ ap (λ o. latest k closing_writes (left mode_family k o))
            (lookup-write_all k gauge_writes configured)

    pub config-scrape_config :
        (scrape_config lower up answer s).last_config ≡ get_default s.last_config answer
    unfolding scrape_config keep_config remove_family closing_writes gauge_writes
    config-scrape_config =
        let configured = keep_config (get_default s.last_config answer) s in
        config-write_all closing_writes
          (remove_family mode_family (write_all gauge_writes configured))
        ∙ config-write_all gauge_writes configured

  up_lem :
      (up : Bool) (answer : Option Config) (s : State)
      → lookup up_key (scrape_config lower up answer s).samples ≡ some (flag up)
  unfolding last_writes config_writes sample labels_text text_eq in_family starts_with more_labels
      label closing_writes gauge_writes lookup-scrape_config
  up_lem up answer s = lookup-scrape_config up_key up answer s

  scrape_config-ShowsConfig :
      (up : Bool) (answer : Option Config) (s : State)
      → ShowsConfig lower
          (is_given answer)
          (get_default s.last_config answer)
          (scrape_config lower up answer s)
  unfolding last_writes config_writes sample labels_text text_eq in_family starts_with more_labels
      label closing_writes gauge_writes lookup-scrape_config
  scrape_config-ShowsConfig up answer s = (
    lookup-scrape_config (codes "nzbdav_config_scrape_success") up answer s,
    lookup-scrape_config (codes "nzbdav_config_segment_cache_enabled") up answer s,
    lookup-scrape_config (codes "nzbdav_config_segment_cache_max_gb") up answer s,
    lookup-scrape_config (codes "nzbdav_config_queue_worker_count") up answer s,
    lookup-scrape_config (codes "nzbdav_config_pipelining_depth") up answer s,
    lookup-scrape_config (codes "nzbdav_config_repair_enabled") up answer s,
    lookup-scrape_config (codes "nzbdav_config_watchdog_enabled") up answer s,
    lookup-scrape_config (codes "nzbdav_config_max_connections_per_stream") up answer s,
  )

  unhealthy :
      (k : Text) (status : Option ℕ) (s : State)
      → latest k (health_writes status) (lookup k s.samples) ≡ lookup k s.samples
      → lookup k (write_all (health_writes status) s).samples ≡ lookup k s.samples
  unhealthy k status s h = lookup-write_all k (health_writes status) s ∙ h

  -- The health of the process is shown by other gauges.
  health_writes-ShowsConfig :
      (success : Bool) (c : Config) (status : Option ℕ) (s : State)
      → ShowsConfig lower success c s
      → ShowsConfig lower success c (write_all (health_writes status) s)
  unfolding health_writes sample labels_text text_eq
  health_writes-ShowsConfig success c status s h = (
    unhealthy (codes "nzbdav_config_scrape_success") status s refl ∙ h.0,
    unhealthy (codes "nzbdav_config_segment_cache_enabled") status s refl ∙ h.1,
    unhealthy (codes "nzbdav_config_segment_cache_max_gb") status s refl ∙ h.2,
    unhealthy (codes "nzbdav_config_queue_worker_count") status s refl ∙ h.3,
    unhealthy (codes "nzbdav_config_pipelining_depth") status s refl ∙ h.4,
    unhealthy (codes "nzbdav_config_repair_enabled") status s refl ∙ h.5,
    unhealthy (codes "nzbdav_config_watchdog_enabled") status s refl ∙ h.6,
    unhealthy (codes "nzbdav_config_max_connections_per_stream") status s refl ∙ h.7,
  )

module _ {F : Type 0} (zero_mb : F) (add : F → F → F) (as_bytes : F → ℕ) where
  config-scrape_queue :
      (slots : List (Slot F)) (s : State)
      → (scrape_queue zero_mb add as_bytes slots s).last_config ≡ s.last_config
  unfolding scrape_queue remove_family
  config-scrape_queue slots s =
      let first = write_all (queue_writes zero_mb add as_bytes slots) s in
      let categories =
        map (category_write zero_mb add as_bytes) (category_sizes zero_mb add as_bytes slots []) in
      let cleared = remove_family (codes "nzbdav_queue_per_category_bytes") first in
      config-write_all (map status_write (status_counts slots []))
        (remove_family (codes "nzbdav_queue_per_status_count") (write_all categories cleared))
      ∙ config-write_all categories cleared
      ∙ config-write_all (queue_writes zero_mb add as_bytes slots) s

  module _ (lower : Text → Text) (answers : Answers F) (s : State) where
    abbrev before_config : State
    before_config =
        write_all (history_writes (get_default [] (read_slots answers.history)))
          (scrape_queue zero_mb add as_bytes (get_default [] (read_slots answers.queue)) s)

    config-before_config : before_config.last_config ≡ s.last_config
    config-before_config =
        config-write_all (history_writes (get_default [] (read_slots answers.history)))
          (scrape_queue zero_mb add as_bytes (get_default [] (read_slots answers.queue)) s)
        ∙ config-scrape_queue (get_default [] (read_slots answers.queue)) s

    abbrev all_up : Bool
    all_up =
        is_given (read_slots answers.queue)
        && is_given (read_slots answers.history)
        && is_given (read_config answers.config)

    -- After a scrape `nzbdav_up` is 1 exactly if the queue, the history and the configuration were
    -- all answered well; the configuration kept is the one just answered, and else the last known
    -- one; and the gauges of the segment cache (enabled, maximum), the queue workers, the pipelining
    -- depth, the repair, the watchdog and the connections per stream each show their own setting as
    -- it stands in it, and the gauge of the read whether the configuration was answered well.
    pub scrape-up :
        (lookup up_key (scrape zero_mb add as_bytes lower answers s).samples
          ≡ some (
              flag (
                is_given (read_slots answers.queue)
                && is_given (read_slots answers.history)
                && is_given (read_config answers.config))))
        × ((scrape zero_mb add as_bytes lower answers s).last_config
            ≡ get_default s.last_config (read_config answers.config))
        × ShowsConfig lower
            (is_given (read_config answers.config))
            (get_default s.last_config (read_config answers.config))
            (scrape zero_mb add as_bytes lower answers s)
    unfolding scrape sample labels_text text_eq health_writes
    scrape-up =
        let answer = read_config answers.config in
        let after = scrape_config lower all_up answer before_config in
        (
          unhealthy lower up_key answers.healthz after refl
              ∙ up_lem lower all_up answer before_config,
          config-write_all (health_writes answers.healthz) after
              ∙ config-scrape_config lower up_key all_up answer before_config
              ∙ ap (λ c. get_default c answer) config-before_config,
          subst
              (λ c.
                ShowsConfig lower (is_given answer) (get_default c answer)
                  (write_all (health_writes answers.healthz) after))
              config-before_config
              (health_writes-ShowsConfig lower (is_given answer)
                (get_default before_config.last_config answer) answers.healthz after
                (scrape_config-ShowsConfig lower all_up answer before_config)),
        )
