-- ===== src/Tests/Panels.antt =====
-- The traces panel on small traces.
use taplytix.Prelude.{
  Bool, true, ℕ, ◌≡◌, refl, List, [], ◌∷◌, none, some, Str, bytes, arith, Bool, true, false, str_eq,
  All, ◌<◌, if◌then◌else◌,
}
use taplytix.Prelude.Int.{pos}
use taplytix.Prelude.Maps.{lookup, insert}
use taplytix.Clock.{add_time, sub_time}
use taplytix.Floats.Exact.{Exact, exact, milli}
use taplytix.Model.{MetricEvent, gauge, LogEvent, level_warn, SpanEvent, Trace, ok}
use taplytix.Store.TraceMap.{
  TraceMap, add, get, new_trace_map, trace_latest_end, is_root, attach, retime, empty_trace,
  kids_of,
}
use taplytix.Store.TraceMap.Timing.{add_all}
use taplytix.Store.Services.{Store, new_store, push_span, push_log, push_metric}
use taplytix.Panels.Logs
use taplytix.Panels.Logs.{LogsPanel}
use taplytix.Panels.Metrics
use taplytix.Panels.Metrics.{MetricRef, MetricsPanel, new_metrics}
use taplytix.Store.Series.{new_series}
use taplytix.Panels.Traces.{Row, TracesPanel, walk}
use taplytix.Panels.Traces.Updates
use taplytix.Panels.Traces.Updates.{ListModel, Panel, new_traces, key}
use taplytix.Panels.Traces.Walk.{walk-ends, walk-never}

abbrev span_of : Str → Str → SpanEvent
span_of id parent = record {
  trace_id = bytes "t";
  span_id = id;
  parent_id = parent;
  name = bytes "op";
  service = bytes "api";
  start_time = pos 100;
  duration = pos 10;
  status = ok;
  attrs = [];
}

abbrev root : SpanEvent
root = span_of (bytes "r") []

abbrev kid : SpanEvent
kid = span_of (bytes "k") (bytes "r")

abbrev whole : Trace
whole = record {
  trace_id = bytes "t";
  root = some root;
  children = (bytes "r", kid ∷ []) ∷ [];
  duration = pos 10;
}

stored : get (add_all new_trace_map (root ∷ kid ∷ root ∷ [])) (bytes "t") ≡ some whole
unfolding get add_all new_trace_map add attach retime empty_trace insert lookup trace_latest_end
    is_root str_eq sub_time add_time
stored = refl

abbrev panel : TracesPanel
panel = record {
  service = [];
  traces = record { service = bytes "api"; trace = whole } ∷ [];
  selected = 0;
}

-- The root's rank is above that of every other id.
abbrev rank : Str → ℕ
rank id = if str_eq (bytes "r") id then 1 else 0

ranked : (p : Str) → All (λ c. rank c.span_id < rank p) (kids_of p whole.children)
unfolding lookup str_eq
ranked p = by_parent (str_eq (bytes "r") p)
  where
    by_parent :
        (b : Bool)
        → All
            (λ c. rank c.span_id < (if b then 1 else 0))
            (elim (if b then some (kid ∷ []) else none) as (λ _. List SpanEvent) [
              | none ↦ []
              | some kids ↦ kids
            ])
    by_parent true = (omega arith, tt)
    by_parent false = tt

walk-ends_example : (rows : List Row) × (walk 2 whole root [] ≡ some rows)
unfolding str_eq
walk-ends_example = walk-ends whole rank 2 root [] ranked (omega arith)

-- A span that is its own parent, below a root with the same id.
abbrev knot : Trace
knot = record whole { children = (bytes "r", span_of (bytes "r") (bytes "r") ∷ []) ∷ [] }

walk-never_example : walk 9 knot root [] ≡ none
unfolding lookup str_eq
walk-never_example = walk-never 9 knot root [] (omega arith)

-- A list that is its index, and moves by nothing but a selection.
abbrev still_list : ListModel ℕ
still_list = record {
  index = λ l. l;
  set_items = λ refs l. l;
  select = λ i l. i;
  set_size = λ w h l. l;
  list_update = λ m l. l;
}

-- The second of two traces is selected.
abbrev open_panel : Panel ℕ
open_panel = record (new_traces 1) {
  base = record panel {
    traces =
        record { service = bytes "api"; trace = record whole { trace_id = bytes "u" } }
        ∷ panel.traces;
    selected = 1;
  };
}

abbrev api_traces : Store Exact
api_traces = push_span exact (pos 1) root new_store

abbrev logs_panel : LogsPanel
logs_panel = record {
  service = [];
  filter = bytes "level:warn disk";
  shown = [];
  total_count = 0;
  shown_count = 0;
}

abbrev line : Str → LogEvent
line body = record {
  timestamp = pos 5;
  level = level_warn;
  body = body;
  service = bytes "db";
  trace_id = [];
  attrs = [];
}

abbrev logged : Store Exact
logged =
    push_log exact (pos 1) (line (bytes "Disk full"))
      (push_log exact (pos 1) (line (bytes "up")) new_store)

abbrev sample : Str → Str → MetricEvent Exact
sample name service = record {
  name = name;
  value = milli 3000;
  labels = [];
  kind = gauge;
  timestamp = pos 4;
  source = service;
}

abbrev busy : Store Exact
busy =
    push_metric exact (pos 1) (sample (bytes "rps") (bytes "web"))
      (push_metric exact (pos 1) (sample (bytes "heap_used") (bytes "api")) new_store)

abbrev ref : Str → Str → MetricRef Exact
ref service name = record {
  service = service;
  key = name;
  series = new_series exact name gauge [] (pos 4);
}

abbrev metrics_panel : MetricsPanel Exact
metrics_panel = record new_metrics {
  vis_keys = ref (bytes "api") (bytes "heap_used") ∷ ref (bytes "web") (bytes "rps") ∷ [];
  selected = 1;
}

abbrev span_map : TraceMap
span_map = (bytes "t", whole) ∷ []
