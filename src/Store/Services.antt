-- ===== src/Store/Services.antt =====
-- internal/store/store.go: one state per service, behind one entry point. Each exported call runs
-- as one step; a pointer that a map holds is written back under its key.
pub mod Isolation
pub mod Histories
pub mod Keys
use taplytix.Prelude.{
  ℕ, ◌*◌, ◌-◌, Bool, true, false, not, ◌&&◌, Option, none, some, List, [], ◌∷◌, ◌++◌, map, length,
  if◌then◌else◌, ltb, ◌==◌, leb, Str, bytes, str_eq, str_less, count_if,
}
use taplytix.Prelude.Int.{ℤ, pos, negsuc, ltb_ℤ, leb_ℤ}
use taplytix.Prelude.Maps.{Map, lookup, insert}
use taplytix.Prelude.Sort.{sort_by}
use taplytix.Clock.{Time, Duration, zero_time, is_zero, second, after, add_time, sub_time}
use taplytix.Floats.{Floats}
use taplytix.Model.{
  MetricEvent, SpanEvent, SpanStatus, unset, ok, error, other_status, LogEvent, level_error, Event,
  metric, span, log, other,
}
use taplytix.Store.Ring
use taplytix.Store.Ring.{Ring}
use taplytix.Store.Series.{Series, new_series, push_sample, default_series_capacity}
use taplytix.Store.TraceMap
use taplytix.Store.TraceMap.{TraceMap}

abbrev pub default_log_capacity : ℤ
default_log_capacity = pos 1000

abbrev pub default_event_tracker_capacity : ℤ
default_event_tracker_capacity = pos 4096

-- The zero value of `model.LogEvent`.
abbrev pub zero_log : LogEvent
zero_log = record {
  timestamp = zero_time;
  level = [];
  body = [];
  service = [];
  trace_id = [];
  attrs = [];
}

pub record ServiceState (F : Type 0) : Type 0 where
  pub metrics : Map (Series F)
  pub traces : TraceMap
  pub logs : Ring LogEvent
  pub events : Ring Time
  pub errors : Ring Time
  pub last_seen : Time

pub record Store (F : Type 0) : Type 0 where
  pub services : Map (ServiceState F)
  pub series_cap : ℤ
  pub log_cap : ℤ

unfoldable pub new_store : {F : Type 0} → Store F
new_store = record {
  services = [];
  series_cap = default_series_capacity;
  log_cap = default_log_capacity;
}

-- `{k=v}`
abbrev pub label_part : Str → Str → Str
label_part k v = bytes "{" ++ (k ++ (bytes "=" ++ (v ++ bytes "}")))

-- The loop over the sorted keys; `labels[k]` is empty where the key is missing.
unfoldable pub fold_labels : Str → Map Str → List Str → Str
fold_labels out labels [] = out
fold_labels out labels (k ∷ keys) =
    fold_labels (out ++ label_part k (elim (lookup k labels) [ none ↦ [] | some v ↦ v ])) labels
      keys

unfoldable pub metric_key : Str → Map Str → Str
unfolding fold_labels
metric_key name labels =
    if length labels == 0
    then name
    else fold_labels name labels (sort_by str_less (map (λ e. e.0) labels))

unfoldable pub time_or_now : Time → Time → Time
time_or_now now t = if is_zero t then now else t

abbrev pub service_name : Str → Str
service_name name = if str_eq name [] then bytes "unknown" else name

abbrev pub is_error : SpanStatus → Bool
is_error error = true
is_error _ = false

-- The state that `serviceFor` creates.
unfoldable pub new_service : {F : Type 0} → ℤ → ServiceState F
new_service log_cap = record {
  metrics = [];
  traces = TraceMap.new_trace_map;
  logs = Ring.new_ring zero_log log_cap;
  events = Ring.new_ring zero_time default_event_tracker_capacity;
  errors = Ring.new_ring zero_time default_event_tracker_capacity;
  last_seen = zero_time;
}

abbrev pub state_or_new : {F : Type 0} → ℤ → Option (ServiceState F) → ServiceState F
state_or_new log_cap none = new_service log_cap
state_or_new log_cap (some st) = st

-- What a handler does with the state that `serviceFor` returns, which it may have created.
unfoldable pub with_service :
    {F : Type 0} → Store F → Str → (ServiceState F → ServiceState F) → Store F
with_service s name f = record s {
  services =
      insert (service_name name)
        (f (state_or_new s.log_cap (lookup (service_name name) s.services))) s.services;
}

unfoldable pub record_event : {F : Type 0} → ServiceState F → Time → Bool → ServiceState F
record_event st ts is_err = record st {
  last_seen = if after ts st.last_seen then ts else st.last_seen;
  events = Ring.push st.events ts;
  errors = if is_err then Ring.push st.errors ts else st.errors;
}

abbrev pub series_or_new :
    {F : Type 0} → Floats F → ℤ → MetricEvent F → Option (Series F) → Series F
series_or_new fl limit e none = new_series fl e.name e.kind e.labels limit
series_or_new fl limit e (some series) = series

module _ {F : Type 0} (fl : Floats F) (now : Time) where
  -- `PushMetric` on the state of the event's service.
  unfoldable pub service_metric : ℤ → MetricEvent F → ServiceState F → ServiceState F
  service_metric limit e st =
      let key = metric_key e.name e.labels in
      let series = series_or_new fl limit e (lookup key st.metrics) in
      record_event (record st { metrics = insert key (push_sample series e) st.metrics })
        (time_or_now now e.timestamp) false

  unfoldable pub service_span : SpanEvent → ServiceState F → ServiceState F
  service_span e st =
      record_event (record st { traces = TraceMap.add st.traces e })
        (time_or_now now (add_time e.start_time e.duration)) (is_error e.status)

  unfoldable pub service_log : LogEvent → ServiceState F → ServiceState F
  service_log e st =
      record_event (record st { logs = Ring.push st.logs e }) (time_or_now now e.timestamp)
        (str_eq e.level level_error)

  unfoldable pub push_metric : MetricEvent F → Store F → Store F
  push_metric e s = with_service s e.source (service_metric s.series_cap e)

  unfoldable pub push_span : SpanEvent → Store F → Store F
  push_span e s = with_service s e.service (service_span e)

  unfoldable pub push_log : LogEvent → Store F → Store F
  push_log e s = with_service s e.service (service_log e)

  -- The type switch of the pipeline in cmd/taplytix/main.go.
  unfoldable pub ingest : Event F → Store F → Store F
  ingest (metric e) s = push_metric e s
  ingest (span e) s = push_span e s
  ingest (log e) s = push_log e s
  ingest (other n) s = s

module _ {F : Type 0} where
  -- `MetricsFor`, `TracesFor`, `LogsFor`: a missing service gives nil, an empty map or slice.
  unfoldable pub metrics_for : Store F → Str → Map (Series F)
  metrics_for s name = elim (lookup name s.services) [ none ↦ [] | some st ↦ st.metrics ]

  unfoldable pub traces_for : Store F → Str → Option TraceMap
  traces_for s name = elim (lookup name s.services) [ none ↦ none | some st ↦ some st.traces ]

  unfoldable pub logs_for : Store F → Str → List LogEvent
  logs_for s name = elim (lookup name s.services) [
    | none ↦ []
    | some st ↦ Ring.slice zero_log st.logs
  ]

  unfoldable pub service_names : Store F → List Str
  service_names s = sort_by str_less (map (λ e. e.0) s.services)

pub record ServiceStatus (F : Type 0) : Type 0 where
  pub last_seen : Time
  pub events_per_second : F
  pub error_rate : F
  pub connected : Bool

module _ {F : Type 0} (fl : Floats F) (now : Time) where
  unfoldable pub recent_count : Ring Time → ℕ
  recent_count r =
      count_if (λ t. after t (add_time now (negsuc (5 * second - 1)))) (Ring.slice zero_time r)

  unfoldable pub status_of : ServiceState F → ServiceStatus F
  unfolding recent_count
  status_of st =
      let ev = recent_count st.events in
      let er = recent_count st.errors in
      record {
        last_seen = st.last_seen;
        events_per_second = fl.div (fl.of_int (pos ev)) (fl.of_int (pos 5));
        error_rate =
            if ltb 0 ev
            then fl.div (fl.of_int (pos er)) (fl.of_int (pos ev))
            else fl.of_int (pos 0);
        connected =
            not (is_zero st.last_seen) && leb_ℤ (sub_time now st.last_seen) (pos (10 * second));
      }

  unfoldable pub service_status : Store F → Str → ServiceStatus F
  unfolding status_of
  service_status s name = elim (lookup name s.services) [
    | none ↦ record {
      last_seen = zero_time;
      events_per_second = fl.of_int (pos 0);
      error_rate = fl.of_int (pos 0);
      connected = false;
    }
    | some st ↦ status_of st
  ]
