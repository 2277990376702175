-- ===== src/Store/Services/Histories.antt =====
-- What a service's logs and metrics show after any events.
use taplytix.Prelude.{
  ◌≡◌, refl, sym, ap, ◌∙◌, Option, none, some, List, [], ◌∷◌, map, take_last, if◌then◌else◌, Str,
  str_eq, Bool-cases, inl, inr,
}
use taplytix.Prelude.Int.{ℤ}
use taplytix.Prelude.Maps.{lookup, lookup-update}
use taplytix.Floats.{Floats}
use taplytix.Model.{MetricEvent, LogEvent, metric, span, log, other}
use taplytix.Store.Ring
use taplytix.Store.Ring.Window.{slice-history}
use taplytix.Store.Series.{Series, push_sample, values, default_series_capacity}
use taplytix.Store.Series.History.{push_samples, event_value, series_history}
use taplytix.Store.Services.{
  Store, ServiceState, new_store, new_service, zero_log, metric_key, record_event, service_metric,
  service_span, service_log, series_or_new, logs_for, metrics_for, default_log_capacity,
}
use taplytix.Store.Services.Isolation.{
  Stamped, own, ingest_all, service_step, service_steps, grow, service_isolation,
}

module _ {F : Type 0} where
  -- The log events of a stream.
  abbrev pub logs_in : List (Stamped F) → List LogEvent
  logs_in [] = []
  logs_in ((now, log e) ∷ evs) = e ∷ logs_in evs
  logs_in ((now, metric e) ∷ evs) = logs_in evs
  logs_in ((now, span e) ∷ evs) = logs_in evs
  logs_in ((now, other n) ∷ evs) = logs_in evs

  -- The metric events of a stream under one key.
  abbrev pub metrics_in : Str → List (Stamped F) → List (MetricEvent F)
  metrics_in key [] = []
  metrics_in key ((now, metric e) ∷ evs) =
      if str_eq (metric_key e.name e.labels) key then e ∷ metrics_in key evs else metrics_in key evs
  metrics_in key ((now, log e) ∷ evs) = metrics_in key evs
  metrics_in key ((now, span e) ∷ evs) = metrics_in key evs
  metrics_in key ((now, other n) ∷ evs) = metrics_in key evs

module _ {F : Type 0} (fl : Floats F) where
  logs-service_steps :
      (limit : ℤ) (evs : List (Stamped F)) (st : ServiceState F)
      → (service_steps fl limit st evs).logs ≡ Ring.push_all st.logs (logs_in evs)
  unfolding service_steps service_step service_metric service_span service_log record_event
      Ring.push_all
  logs-service_steps limit [] st = refl
  logs-service_steps limit ((now, log e) ∷ evs) st =
      logs-service_steps limit evs (service_log fl now e st)
  logs-service_steps limit ((now, metric e) ∷ evs) st =
      logs-service_steps limit evs (service_metric fl now limit e st)
  logs-service_steps limit ((now, span e) ∷ evs) st =
      logs-service_steps limit evs (service_span fl now e st)
  logs-service_steps limit ((now, other n) ∷ evs) st = logs-service_steps limit evs st

  abbrev shown_logs : Option (ServiceState F) → List LogEvent
  shown_logs o = elim o [ none ↦ [] | some st ↦ Ring.slice zero_log st.logs ]

  logs-grow :
      (limit : ℤ) (evs : List (Stamped F))
      → shown_logs (grow fl limit default_log_capacity none evs) ≡ take_last 1000 (logs_in evs)
  logs-grow limit [] = refl
  logs-grow limit (e ∷ evs) =
      ap (Ring.slice zero_log)
        (logs-service_steps limit (e ∷ evs) (new_service default_log_capacity))
      ∙ unfold new_service in slice-history zero_log default_log_capacity (logs_in (e ∷ evs))

  -- After any events, `LogsFor` a service returns its log events in the order in which they came,
  -- cut to the newest 1000; events of other services and of other kinds do not push any out.
  pub logs_for_history :
      (name : Str) (evs : List (Stamped F))
      → logs_for (ingest_all fl new_store evs) name ≡ take_last 1000 (logs_in (own name evs))
  unfolding logs_for
  logs_for_history name evs =
      ap shown_logs (service_isolation fl name evs)
      ∙ logs-grow default_series_capacity (own name evs)

  -- A series comes into being with the first sample under its key.
  abbrev grow_series : ℤ → Option (Series F) → List (MetricEvent F) → Option (Series F)
  grow_series limit o [] = o
  grow_series limit o (e ∷ es) = some (push_samples (series_or_new fl limit e o) (e ∷ es))

  -- `PushMetric` on the map of series.
  abbrev add_sample : ℤ → MetricEvent F → Option (Series F) → Option (Series F)
  add_sample limit e o = some (push_sample (series_or_new fl limit e o) e)

  grow_series-cons :
      (limit : ℤ) (o : Option (Series F)) (e : MetricEvent F) (es : List (MetricEvent F))
      → grow_series limit o (e ∷ es) ≡ grow_series limit (add_sample limit e o) es
  unfolding push_samples
  grow_series-cons limit o e [] = refl
  grow_series-cons limit o e (e' ∷ es) = refl

  lookup-service_steps :
      (limit : ℤ) (key : Str) (evs : List (Stamped F)) (st : ServiceState F)
      → lookup key (service_steps fl limit st evs).metrics
        ≡ grow_series limit (lookup key st.metrics) (metrics_in key evs)
  unfolding service_steps service_step service_metric service_span service_log record_event
  lookup-service_steps limit key [] st = refl
  lookup-service_steps limit key ((now, log e) ∷ evs) st =
      lookup-service_steps limit key evs (service_log fl now e st)
  lookup-service_steps limit key ((now, span e) ∷ evs) st =
      lookup-service_steps limit key evs (service_span fl now e st)
  lookup-service_steps limit key ((now, other n) ∷ evs) st = lookup-service_steps limit key evs st
  lookup-service_steps limit key ((now, metric e) ∷ evs) st =
      lookup-service_steps limit key evs (service_metric fl now limit e st)
      ∙ ap (λ o. grow_series limit o (metrics_in key evs))
          (lookup-update (metric_key e.name e.labels) key
            (λ o. push_sample (series_or_new fl limit e o) e) st.metrics)
      ∙ elim (Bool-cases (str_eq (metric_key e.name e.labels) key)) [
        | inl hit ↦
            rw hit (sym (grow_series-cons limit (lookup key st.metrics) e (metrics_in key evs)))
        | inr miss ↦ rw miss
      ]

  abbrev shown_samples : Option (Series F) → List F
  shown_samples o = elim o [ none ↦ [] | some series ↦ values fl series ]

  -- The samples of the series that `MetricsFor` has under a key.
  unfoldable pub samples_for : Store F → Str → Str → List F
  samples_for s name key = shown_samples (lookup key (metrics_for s name))

  samples-grow_series :
      (es : List (MetricEvent F))
      → shown_samples (grow_series default_series_capacity none es)
        ≡ take_last 300 (map event_value es)
  samples-grow_series [] = refl
  samples-grow_series (e ∷ es) =
      (series_history fl e.name e.kind e.labels default_series_capacity (e ∷ es)).0

  abbrev samples_of_state : Str → Option (ServiceState F) → List F
  samples_of_state key o = shown_samples (lookup key (elim o [ none ↦ [] | some st ↦ st.metrics ]))

  samples-grow :
      (log_cap : ℤ) (key : Str) (evs : List (Stamped F))
      → samples_of_state key (grow fl default_series_capacity log_cap none evs)
        ≡ take_last 300 (map event_value (metrics_in key evs))
  samples-grow log_cap key [] = unfold lookup in refl
  samples-grow log_cap key (e ∷ evs) =
      ap shown_samples (
        lookup-service_steps default_series_capacity key (e ∷ evs) (new_service log_cap)
        ∙ ap (λ o. grow_series default_series_capacity o (metrics_in key (e ∷ evs))) no_series)
      ∙ samples-grow_series (metrics_in key (e ∷ evs))
    where
      no_series : lookup key (new_service {F = F} log_cap).metrics ≡ none
      no_series = unfold new_service lookup in refl

  -- After any events, the series of a service under a key holds the values of that service's metric
  -- events whose name and labels fold to the key, oldest first, cut to the newest 300.
  pub samples_for_history :
      (name key : Str) (evs : List (Stamped F))
      → samples_for (ingest_all fl new_store evs) name key
        ≡ take_last 300 (map event_value (metrics_in key (own name evs)))
  unfolding samples_for metrics_for
  samples_for_history name key evs =
      ap (samples_of_state key) (service_isolation fl name evs)
      ∙ samples-grow default_log_capacity key (own name evs)
