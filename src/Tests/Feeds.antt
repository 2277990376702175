-- ===== src/Tests/Feeds.antt =====
-- The loops of the Prometheus and the remote receivers, and a page of metrics.
use taplytix.Prelude.{ℕ, ◌*◌, Option, none, some, List, [], ◌∷◌, flat, bytes}
use taplytix.Prelude.Int.{pos}
use taplytix.Clock.{Time, second}
use taplytix.Floats.Exact.{Exact, milli, exact}
use taplytix.Model.{Event}
use taplytix.Model.Wire.{WireEvent, Json, err, bad_json}
use taplytix.Receiver.Outlet.{Outlet}
use taplytix.Receiver.Sends.{Delivers}
use taplytix.Receiver.Prometheus.{Format, Family, histograms, convert_families}
use taplytix.Receiver.Prometheus.Families.{family_events, convert_families-Delivers}
use taplytix.Receiver.Prometheus.Polling.{Scrape, unreachable, response, run}
use taplytix.Receiver.Remote.{Connection, refused, reads}

abbrev format : Format Exact
format = record { format_g = λ x. bytes "0.5" }

abbrev latency : Family Exact
latency = record {
  name = bytes "latency";
  metrics = histograms (
      record {
        labels = (bytes "route", bytes "/") ∷ [];
        sample_count = 3;
        sample_sum = milli 1200;
        buckets = record { upper_bound = milli 500; cumulative_count = 2 } ∷ [];
      }
      ∷ []);
}

convert_families-Delivers_example :
    Delivers
      (convert_families exact format (bytes "prom") (pos 9) (latency ∷ []))
      (flat (family_events exact format (bytes "prom") (pos 9)) (latency ∷ []))
convert_families-Delivers_example =
    convert_families-Delivers exact format (bytes "prom") (pos 9) (latency ∷ [])

abbrev good : Time × Scrape Exact
good = (pos 9, response 200 (some (latency ∷ [])))

abbrev bad : Time × Scrape Exact
bad = (pos 11, unreachable)

abbrev scrapes : Option (Outlet (Event Exact)) × List ℕ × ℕ
scrapes = run exact format (bytes "prom") (2 * second) (8 * second) (good ∷ bad ∷ bad ∷ []) none

abbrev no_json : Json (WireEvent Exact)
no_json = record { marshal = λ e. err bad_json; unmarshal = λ s. err bad_json }

abbrev connections : List Connection
connections = reads (bytes "{}" ∷ []) ∷ refused ∷ reads [] ∷ []
