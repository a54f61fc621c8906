-- ===== src/Exporter/Server.antt =====
-- One turn of `_scraper`, and `do_GET`.
use media_stack.Common.{List, Text, [], codes, if◌then◌else◌, text_eq, ℕ}
use media_stack.Exporter.{Line, State, elapsed, number, render_metrics, set}
use media_stack.Exporter.Answers.{Answers}
use media_stack.Exporter.Scrape.{scrape}

-- The reply to a request: its status and its body.
pub data Reply : Type 0 where
  metrics : List Line → Reply
  alive not_found : Reply

unfoldable pub do_get : Text → State → Reply
unfolding render_metrics text_eq
do_get path s =
    if text_eq path (codes "/metrics")
    then metrics (render_metrics s)
    else if text_eq path (codes "/healthz")
    then alive
    else not_found

-- The end of a turn of `_scraper`.
unfoldable pub timed : State → State
unfolding set
timed s = set (codes "nzbdav_scrape_duration_seconds") [] elapsed s

-- A turn whose `_scrape` raises, after the writes that led to `s`.
unfoldable pub failed_turn : State → State
unfolding timed
failed_turn s = timed (set (codes "nzbdav_up") [] (number 0) s)

module _ {F : Type 0} (zero_mb : F) (add : F → F → F) (as_bytes : F → ℕ) (lower : Text → Text) where
  -- A turn of `_scraper`.
  unfoldable pub turn : Answers F → State → State
  unfolding scrape timed
  turn answers s = timed (scrape zero_mb add as_bytes lower answers s)
