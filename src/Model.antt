-- ===== src/Model.antt =====
-- internal/model: the events, the trace, and the wire envelope. A `map[string]string` is a Map.
pub mod Wire
use taplytix.Prelude.{ℕ, Str, bytes, Option, List}
use taplytix.Prelude.Maps.{Map}
use taplytix.Clock.{Time, Duration}

pub data MetricKind : Type 0 where
  counter gauge histogram : MetricKind
  -- Any other value of the int type, as the wire may bring it.
  other_kind : ℕ → MetricKind

-- `MetricKind.String`
unfoldable pub kind_string : MetricKind → Str
kind_string counter = bytes "counter"
kind_string gauge = bytes "gauge"
kind_string histogram = bytes "histogram"
kind_string (other_kind n) = bytes "unknown"

pub record MetricEvent (F : Type 0) : Type 0 where
  pub name : Str
  pub value : F
  pub labels : Map Str
  pub kind : MetricKind
  pub timestamp : Time
  pub source : Str

pub data SpanStatus : Type 0 where
  unset ok error : SpanStatus
  other_status : ℕ → SpanStatus

-- `SpanStatus.String`
unfoldable pub status_string : SpanStatus → Str
status_string ok = bytes "ok"
status_string error = bytes "error"
status_string _ = bytes "unset"

pub record SpanEvent : Type 0 where
  pub trace_id : Str
  pub span_id : Str
  pub parent_id : Str
  pub name : Str
  pub service : Str
  pub start_time : Time
  pub duration : Duration
  pub status : SpanStatus
  pub attrs : Map Str

pub record Trace : Type 0 where
  pub trace_id : Str
  pub root : Option SpanEvent
  pub children : Map (List SpanEvent)
  pub duration : Duration

-- `LogLevel` is a string type: receivers may store text outside the four constants.
abbrev pub LogLevel : Type 0
LogLevel = Str

abbrev pub level_debug : LogLevel
level_debug = bytes "DEBUG"

abbrev pub level_info : LogLevel
level_info = bytes "INFO"

abbrev pub level_warn : LogLevel
level_warn = bytes "WARN"

abbrev pub level_error : LogLevel
level_error = bytes "ERROR"

pub record LogEvent : Type 0 where
  pub timestamp : Time
  pub level : LogLevel
  pub body : Str
  pub service : Str
  pub trace_id : Str
  pub attrs : Map Str

-- What travels through the `chan any` of the pipeline. `other` is a value of any other Go type.
pub data Event (F : Type 0) : Type 0 where
  metric : MetricEvent F → Event F
  span : SpanEvent → Event F
  log : LogEvent → Event F
  other : ℕ → Event F
