-- ===== src/Receiver/Otlp.antt =====
-- internal/receiver/otlp.go: OTLP requests turned into events. A value of package pdata is the record
-- of what its accessors return: texts for ids and for attribute values (`AsString`), instants for
-- time stamps (`AsTime`). A pcommon.Map is its list of entries, and `Get` takes the first match.
pub mod Requests
pub mod Handlers
pub mod Shutdown
pub mod Servers
use taplytix.Prelude.{
  ℕ, each, Bool, true, false, Option, none, some, List, [], ◌∷◌, ◌++◌, map, if◌then◌else◌, Str,
  bytes, str_eq,
}
use taplytix.Prelude.Int.{ℤ, pos, leb_ℤ}
use taplytix.Prelude.Maps.{Map, lookup, insert_all}
use taplytix.Clock.{Time, sub_time}
use taplytix.Floats.{Floats}
use taplytix.Model.{
  MetricKind, counter, gauge, histogram, MetricEvent, SpanEvent, SpanStatus, unset, ok, error,
  LogEvent, LogLevel, level_debug, level_info, level_warn, level_error, Event, metric, span, log,
}
use taplytix.Receiver.Outlet.{Outlet, emit_to}

abbrev pub service_name_attr : Str
service_name_attr = bytes "service.name"

-- ptrace.StatusCode
pub data StatusCode : Type 0 where
  code_unset code_ok code_error : StatusCode

pub record OtlpSpan : Type 0 where
  pub trace_id : Str
  pub span_id : Str
  pub parent_span_id : Str
  pub name : Str
  pub start_time : Time
  pub end_time : Time
  pub code : StatusCode
  pub attributes : Map Str

-- pmetric.NumberDataPoint: a double, an integer, or neither.
pub data Number (F : Type 0) : Type 0 where
  no_number : Number F
  double : F → Number F
  integer : ℤ → Number F

pub record NumberPoint (F : Type 0) : Type 0 where
  pub value : Number F
  pub attributes : Map Str
  pub timestamp : Time

pub record HistogramPoint (F : Type 0) : Type 0 where
  pub sum : F
  pub attributes : Map Str
  pub timestamp : Time

-- pmetric.Metric by its type; the types that `emitMetric` does not name are one.
pub data MetricData (F : Type 0) : Type 0 where
  gauge_points : List (NumberPoint F) → MetricData F
  sum_points : List (NumberPoint F) → MetricData F
  histogram_points : List (HistogramPoint F) → MetricData F
  other_points : MetricData F

pub record OtlpMetric (F : Type 0) : Type 0 where
  pub name : Str
  pub points : MetricData F

pub record LogRecord : Type 0 where
  pub timestamp : Time
  pub severity_text : Str
  pub severity_number : ℤ
  pub body : Str
  pub trace_id : Str
  pub attributes : Map Str

-- ResourceSpans, ResourceMetrics and ResourceLogs: the attributes of a resource, and the items of
-- its scopes.
pub record Resource (A : Type 0) : Type 0 where
  pub attributes : Map Str
  pub scopes : List (List A)

-- `stringAttr`
unfoldable pub string_attr : Map Str → Str → Str → Str
string_attr m key fallback = elim (lookup key m) [ none ↦ fallback | some v ↦ v ]

-- `attrsToMap`. A map with no entry is nil, which no read tells from an empty map.
unfoldable pub attrs_to_map : Map Str → Map Str
attrs_to_map m = insert_all [] m

abbrev pub span_status : StatusCode → SpanStatus
span_status code_ok = ok
span_status code_error = error
span_status code_unset = unset

unfoldable pub span_to_model : OtlpSpan → Str → SpanEvent
span_to_model s service = record {
  trace_id = s.trace_id;
  span_id = s.span_id;
  parent_id = s.parent_span_id;
  name = s.name;
  service = service;
  start_time = s.start_time;
  duration = sub_time s.end_time s.start_time;
  status = span_status s.code;
  attrs = attrs_to_map s.attributes;
}

-- The numbers of plog: debug from 5, info from 9, warn from 13, error from 17.
unfoldable pub severity_to_level : ℤ → LogLevel
severity_to_level n =
    if leb_ℤ (pos 17) n
    then level_error
    else if leb_ℤ (pos 13) n
    then level_warn
    else if leb_ℤ (pos 9) n
    then level_info
    else if leb_ℤ (pos 5) n
    then level_debug
    else level_info

unfoldable pub log_record_to_model : LogRecord → Str → LogEvent
log_record_to_model rec service = record {
  timestamp = rec.timestamp;
  level =
      if str_eq rec.severity_text []
      then severity_to_level rec.severity_number
      else rec.severity_text;
  body = rec.body;
  service = service;
  trace_id = rec.trace_id;
  attrs = attrs_to_map rec.attributes;
}

module _ {F : Type 0} (fl : Floats F) where
  abbrev pub number_value : Number F → F
  number_value no_number = fl.of_int (pos 0)
  number_value (double v) = v
  number_value (integer n) = fl.of_int n

  unfoldable pub number_data_point_to_model : NumberPoint F → Str → MetricKind → Str → MetricEvent F
  number_data_point_to_model dp name kind service = record {
    name = name;
    value = number_value dp.value;
    labels = attrs_to_map dp.attributes;
    kind = kind;
    timestamp = dp.timestamp;
    source = service;
  }

module _ {F : Type 0} where
  abbrev pub histogram_to_model : HistogramPoint F → Str → Str → MetricEvent F
  histogram_to_model dp name service = record {
    name = name;
    value = dp.sum;
    labels = attrs_to_map dp.attributes;
    kind = histogram;
    timestamp = dp.timestamp;
    source = service;
  }

-- The channel that the receiver sends to, nil where it is not started.
abbrev pub Out : Type 0 → Type 0
Out F = Option (Outlet (Event F))

-- The two outer loops of the three consumers, over the resources and their scopes.
abbrev pub consume {κ} :
    {A : Type 0} {S : Type κ} → Str → (Str → A → S → S) → List (Resource A) → S → S
consume name body =
    each (λ r. each (each (body (string_attr r.attributes service_name_attr name))) r.scopes)

module _ {F : Type 0} (name : Str) where
  unfoldable pub consume_traces : List (Resource OtlpSpan) → Out F → Out F
  consume_traces =
      consume name (λ service s (out : Out F). emit_to out (span (span_to_model s service)))

  unfoldable pub consume_logs : List (Resource LogRecord) → Out F → Out F
  consume_logs =
      consume name
        (λ service rec (out : Out F). emit_to out (log (log_record_to_model rec service)))

module _ {F : Type 0} (fl : Floats F) where
  abbrev pub emit_points : MetricKind → Str → Str → List (NumberPoint F) → Out F → Out F
  emit_points kind name service = each (λ dp (out : Out F).
      emit_to out (metric (number_data_point_to_model fl dp name kind service)))

  unfoldable pub emit_metric : Str → OtlpMetric F → Out F → Out F
  emit_metric service m out = elim m.points [
    | gauge_points dps ↦ emit_points gauge m.name service dps out
    | sum_points dps ↦ emit_points counter m.name service dps out
    | histogram_points dps ↦
        each (λ dp (o : Out F). emit_to o (metric (histogram_to_model dp m.name service))) dps out
    | other_points ↦ out
  ]

  unfoldable pub consume_metrics : Str → List (Resource (OtlpMetric F)) → Out F → Out F
  unfolding emit_metric
  consume_metrics name = consume name emit_metric
