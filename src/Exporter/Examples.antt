-- ===== src/Exporter/Examples.antt =====
-- A scrape whose history request fails.
use media_stack.Common.{
  Option, Text, [], codes, count_if, false, get_default, if◌then◌else◌, lookup, none, refl, some,
  text_eq, ℕ, ◌&&◌, ◌*◌, ◌++◌, ◌+◌, ◌==◌, ◌∷◌, ◌≡◌,
}
use media_stack.Exporter.{State, about, elapsed, escape, flag, number, shown}
use media_stack.Exporter.Server.{do_get, failed_turn, metrics}
use media_stack.Exporter.Answers.{
  Answers, Slot, given, is_given, objects, or_unknown, read_config, read_slots,
}
use media_stack.Exporter.Scrape.{scrape}
use media_stack.Exporter.Labels.{read-escape, read_value}
use media_stack.Exporter.Health.{ShowsConfig, scrape-up, up_key}
use media_stack.Exporter.Status.{scrape-status, status_count, status_key}

abbrev slot : Option Text → Option (Slot ℕ)
slot status = some (record { status = status; cat = some (codes "tv"); mbleft = 2 })

abbrev answers : Answers ℕ
answers = record {
  queue = some (
      given (
        given
          (slot (some (codes "Paused")) ∷ none ∷ slot none ∷ slot (some (codes "Paused")) ∷ [])));
  history = none;
  config = some (record { status_is_false = false; config_items = given [] });
  healthz = some 200;
}

abbrev old : State
old = record {
  samples = (status_key (codes "Downloading"), number 4) ∷ [];
  names = [];
  last_config = (codes "repair.enable", some (codes "True")) ∷ [];
}

abbrev bytes : ℕ → ℕ
bytes mb = mb * 1048576

-- A letter, a quote, a backslash, and a newline.
abbrev awkward : Text
awkward = 97 ∷ 34 ∷ 92 ∷ 10 ∷ []

read-escape_example :
    read_value false (escape awkward ++ 34 ∷ codes "} 1") ≡ some (awkward, codes "} 1")
read-escape_example = read-escape awkward (codes "} 1")

scrape-up_example :
    (lookup up_key (scrape 0 (λ m n. m + n) bytes (λ t. t) answers old).samples
      ≡ some (
          flag (
            is_given (read_slots answers.queue)
            && is_given (read_slots answers.history)
            && is_given (read_config answers.config))))
    × ((scrape 0 (λ m n. m + n) bytes (λ t. t) answers old).last_config
        ≡ get_default old.last_config (read_config answers.config))
    × ShowsConfig
        (λ t. t)
        (is_given (read_config answers.config))
        (get_default old.last_config (read_config answers.config))
        (scrape 0 (λ m n. m + n) bytes (λ t. t) answers old)
scrape-up_example = scrape-up 0 (λ m n. m + n) bytes (λ t. t) answers old

scrape-status_example :
    lookup
      (status_key (codes "Paused"))
      (scrape 0 (λ m n. m + n) bytes (λ t. t) answers old).samples
    ≡ (let n = status_count (codes "Paused") (get_default [] (read_slots answers.queue)) in
        if n == 0 then none else some (number n))
scrape-status_example = scrape-status 0 (λ m n. m + n) bytes (λ t. t) answers old (codes "Paused")

two_paused : status_count (codes "Paused") (get_default [] (read_slots answers.queue)) ≡ 2
unfolding status_count read_slots objects count_if or_unknown text_eq
two_paused = refl

-- The page of samples after a turn that failed at once.
failed_page :
    do_get (codes "/metrics") (failed_turn (record { samples = []; names = []; last_config = [] }))
    ≡ metrics (
        about (codes "nzbdav_up")
        ∷ shown (codes "nzbdav_up") (number 0)
        ∷ about (codes "nzbdav_scrape_duration_seconds")
        ∷ shown (codes "nzbdav_scrape_duration_seconds") elapsed
        ∷ [])
unfolding do_get failed_turn
failed_page = refl
