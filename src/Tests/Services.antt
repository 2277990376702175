-- ===== src/Tests/Services.antt =====
-- The store on a small stream of events for two services.
use taplytix.Prelude.{ℕ, ◌≡◌, List, [], ◌∷◌, none, Str, bytes, str_eq}
use taplytix.Prelude.Int.{pos}
use taplytix.Prelude.Maps.{lookup}
use taplytix.Floats.Exact.{Exact, milli, exact}
use taplytix.Model.{MetricEvent, LogEvent, metric, log, other, gauge, level_info}
use taplytix.Store.Series.{default_series_capacity}
use taplytix.Store.Services.{new_store, metric_key, logs_for, default_log_capacity}
use taplytix.Store.Services.Isolation.{Stamped, ingest_all, grow, service_isolation}
use taplytix.Store.Services.Histories.{samples_for, logs_for_history, samples_for_history}

abbrev sample : Str → ℕ → MetricEvent Exact
sample service v = record {
  name = bytes "lag";
  value = milli v;
  labels = [];
  kind = gauge;
  timestamp = pos v;
  source = service;
}

abbrev line : Str → ℕ → LogEvent
line service at = record {
  timestamp = pos at;
  level = level_info;
  body = bytes "up";
  service = service;
  trace_id = [];
  attrs = [];
}

-- The second log event has no service name.
abbrev stream : List (Stamped Exact)
stream =
    (pos 1, metric (sample (bytes "api") 1))
    ∷ (pos 2, log (line (bytes "db") 2))
    ∷ (pos 3, metric (sample (bytes "db") 3))
    ∷ (pos 4, log (line [] 4))
    ∷ (pos 5, other 0)
    ∷ (pos 6, metric (sample (bytes "api") 6))
    ∷ []

service_isolation_example :
    lookup (bytes "db") (ingest_all exact new_store stream).services
    ≡ grow exact default_series_capacity default_log_capacity none
        ((pos 2, log (line (bytes "db") 2)) ∷ (pos 3, metric (sample (bytes "db") 3)) ∷ [])
unfolding str_eq
service_isolation_example = service_isolation exact (bytes "db") stream

logs_for_history_example :
    logs_for (ingest_all exact new_store stream) (bytes "unknown") ≡ line [] 4 ∷ []
unfolding str_eq
logs_for_history_example = logs_for_history exact (bytes "unknown") stream

samples_for_history_example :
    samples_for exact (ingest_all exact new_store stream) (bytes "api") (bytes "lag")
    ≡ milli 1 ∷ milli 6 ∷ []
unfolding str_eq metric_key
samples_for_history_example = samples_for_history exact (bytes "api") (bytes "lag") stream

-- The label a="1}{b=2" and the labels a="1", b="2".
