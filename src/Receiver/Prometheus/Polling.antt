-- ===== src/Receiver/Prometheus/Polling.antt =====
-- The loop `run` of internal/receiver/prometheus.go, by the outcomes of its scrapes. The body of a
-- response is parsed by package expfmt, a parameter: a page is what it gives.
use taplytix.Prelude.{
  ℕ, ◌<◌, ◌≡◌, Option, none, some, List, [], ◌∷◌, length, get_or, Str, if◌then◌else◌, ◌==◌,
}
use taplytix.Clock.{Time, second}
use taplytix.Floats.{Floats}
use taplytix.Model.{Event}
use taplytix.Receiver.Outlet.{Outlet}
use taplytix.Receiver.Backoff.{grow, grow_times}
use taplytix.Receiver.Prometheus.{Family, Format, convert_families}

pub data ScrapeError : Type 0 where
  no_response bad_status bad_page : ScrapeError

-- What a request brings: no response, or a status with what the parser makes of the body.
pub data Scrape (F : Type 0) : Type 0 where
  unreachable : Scrape F
  response : ℕ → Option (List (Family F)) → Scrape F

module _ {F : Type 0} (fl : Floats F) (fmt : Format F) (source : Str) where
  abbrev pub Out : Type 0
  Out = Option (Outlet (Event F))

  abbrev pub convert_page : Time → Option (List (Family F)) → Out → Out × Option ScrapeError
  convert_page now none out = (out, some bad_page)
  convert_page now (some fams) out = (convert_families fl fmt source now fams out, none)

  -- `scrapeOnce`
  unfoldable pub scrape_once : Time → Scrape F → Out → Out × Option ScrapeError
  scrape_once now unreachable out = (out, some no_response)
  scrape_once now (response status page) out =
      if status == 200 then convert_page now page out else (out, some bad_status)

  abbrev pub wait_after : ℕ → ℕ → Option ScrapeError → ℕ
  wait_after interval backoff none = interval
  wait_after interval backoff (some e) = backoff

  abbrev pub next_backoff : ℕ → Option ScrapeError → ℕ
  next_backoff backoff none = second
  next_backoff backoff (some e) = grow backoff

  -- `run` over the scrapes that it makes while its context lives: the channel, the waits in their order,
  -- and the backoff.
  unfoldable pub run : ℕ → ℕ → List (Time × Scrape F) → Out → Out × List ℕ × ℕ
  unfolding scrape_once
  run interval backoff [] out = (out, [], backoff)
  run interval backoff ((now, s) ∷ rest) out =
      let scraped = scrape_once now s out in
      let later = run interval (next_backoff backoff scraped.1) rest scraped.0 in
      (later.0, wait_after interval backoff scraped.1 ∷ later.1, later.2)

  -- A scrape that fails, whatever the channel holds.
  abbrev pub Fails : Time × Scrape F → Type 0
  Fails e = (out : Out) → (x : ScrapeError) × (scrape_once e.0 e.1 out ≡ (out, some x))

  -- A scrape that goes through.
  abbrev pub Succeeds : Time × Scrape F → Type 0
  Succeeds e = (out : Out) → (scrape_once e.0 e.1 out).1 ≡ none

  -- The rest of a run from what a scrape gave.
  abbrev run_from : ℕ → ℕ → List (Time × Scrape F) → Out × Option ScrapeError → Out × List ℕ × ℕ
  run_from interval backoff rest scraped =
      let later = run interval (next_backoff backoff scraped.1) rest scraped.0 in
      (later.0, wait_after interval backoff scraped.1 ∷ later.1, later.2)

  -- A run in which all scrapes fail.
  abbrev IsIdle : ℕ → List (Time × Scrape F) → Out → Out × List ℕ × ℕ → Type 0
  IsIdle backoff fails out r =
      (r.0 ≡ out) × ((n : ℕ) → n < length fails → get_or r.1 n 0 ≡ grow_times n backoff)
