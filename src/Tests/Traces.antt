-- ===== src/Tests/Traces.antt =====
-- Traces on a small stream of spans.
use taplytix.Prelude.{ℕ, ◌≡◌, refl, [], ◌∷◌, none, some, Str, bytes, str_eq, length, ◌+◌, arith}
use taplytix.Prelude.Int.{pos, ◌≤ℤ◌, ◌-ℤ◌}
use taplytix.Prelude.Maps.{IsMap, insert, lookup}
use taplytix.Clock.{add_time, sub_time, min_duration, max_duration}
use taplytix.Model.{SpanEvent, Trace, ok}
use taplytix.Store.TraceMap.{
  TraceMap, add, get, evict, new_trace_map, trace_latest_end, span_end, is_root, attach, retime,
  empty_trace,
}
use taplytix.Store.TraceMap.Latest.{AllSpans}
use taplytix.Store.TraceMap.Evict.{survivor, evict_lem}
use taplytix.Store.TraceMap.Timing.{add_all, add_all-duration}

abbrev span_at : Str → Str → ℕ → ℕ → SpanEvent
span_at trace parent from lasting = record {
  trace_id = trace;
  span_id = bytes "s";
  parent_id = parent;
  name = bytes "op";
  service = bytes "api";
  start_time = pos from;
  duration = pos lasting;
  status = ok;
  attrs = [];
}

abbrev child : SpanEvent
child = span_at (bytes "t") (bytes "r") 105 20

abbrev root : SpanEvent
root = span_at (bytes "t") [] 100 10

abbrev whole : Trace
whole = record {
  trace_id = bytes "t";
  root = some root;
  children = (bytes "r", child ∷ []) ∷ [];
  duration = pos 25;
}

found : get (add_all new_trace_map (child ∷ root ∷ [])) (bytes "t") ≡ some whole
unfolding get add_all new_trace_map add attach retime empty_trace insert lookup trace_latest_end
    is_root str_eq sub_time add_time
found = refl

low : min_duration ≤ℤ trace_latest_end whole -ℤ pos 100
unfolding trace_latest_end ◌-ℤ◌ add_time
low = omega arith

high : trace_latest_end whole -ℤ pos 100 ≤ℤ max_duration
unfolding trace_latest_end ◌-ℤ◌ add_time
high = omega arith

add_all-duration_example :
    (whole.trace_id ≡ bytes "t")
    × (add_time (pos 100) (pos 25) ≡ trace_latest_end whole)
    × AllSpans (λ s. span_end s ≤ℤ add_time (pos 100) (pos 25)) whole
add_all-duration_example =
    add_all-duration (child ∷ root ∷ []) (bytes "t") whole root found refl low high

abbrev two_traces : TraceMap
two_traces =
    (bytes "t", whole)
    ∷ (bytes "u", record { trace_id = bytes "u"; root = none; children = []; duration = pos 0 })
    ∷ []

two_traces-IsMap : IsMap two_traces
unfolding lookup str_eq
two_traces-IsMap = (refl, (refl, tt))

evict_lem_example :
    ((id : Str)
      → get (evict (pos 200) two_traces (pos 10)).0 id ≡ survivor (pos 190) (get two_traces id))
    × (length (evict (pos 200) two_traces (pos 10)).0 + (evict (pos 200) two_traces (pos 10)).1 ≡ 2)
unfolding add_time ◌-ℤ◌
evict_lem_example = evict_lem (pos 200) (pos 10) two_traces two_traces-IsMap
