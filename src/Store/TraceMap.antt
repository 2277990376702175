-- ===== src/Store/TraceMap.antt =====
-- internal/store/tracemap.go: spans assembled into traces, keyed by trace id.
pub mod Latest
pub mod Timing
pub mod Evict
pub mod Recent
use taplytix.Prelude.{
  ℕ, zero, suc, ◌+◌, Bool, true, false, ◌&&◌, Option, none, some, List, [], ◌∷◌, ◌++◌, map, length,
  take, if◌then◌else◌, ltb, ◌==◌, Str, str_eq,
}
use taplytix.Prelude.Int.{ℤ, pos, pos_part, ltb_ℤ, ◌-ℤ◌}
use taplytix.Prelude.Maps.{Map, lookup, insert}
use taplytix.Prelude.Sort.{sort_by}
use taplytix.Clock.{Time, Duration, zero_time, after, before, add_time, sub_time}
use taplytix.Model.{SpanEvent, Trace}

abbrev pub TraceMap : Type 0
TraceMap = Map Trace

unfoldable pub new_trace_map : TraceMap
new_trace_map = []

-- The scan of `isRoot` over the characters of the parent id; it returns true on the empty one too.
unfoldable pub all_zeros : Str → Bool
all_zeros [] = true
all_zeros (c ∷ cs) = c == b'0' && all_zeros cs

unfoldable pub is_root : SpanEvent → Bool
unfolding all_zeros
is_root s = all_zeros s.parent_id

abbrev pub span_end : SpanEvent → Time
span_end s = add_time s.start_time s.duration

unfoldable pub latest_of : Time → List SpanEvent → Time
latest_of latest [] = latest
latest_of latest (c ∷ kids) =
    latest_of (if after (span_end c) latest then span_end c else latest) kids

unfoldable pub latest_children : Time → Map (List SpanEvent) → Time
unfolding latest_of
latest_children latest [] = latest
latest_children latest ((p, kids) ∷ rest) = latest_children (latest_of latest kids) rest

abbrev root_end : Option SpanEvent → Time
root_end none = zero_time
root_end (some r) = span_end r

-- `traceLatestEnd`
unfoldable pub trace_latest_end : Trace → Time
unfolding latest_children
trace_latest_end t = latest_children (root_end t.root) t.children

unfoldable pub first_start : Map (List SpanEvent) → Time
first_start [] = zero_time
first_start ((p, []) ∷ rest) = first_start rest
first_start ((p, c ∷ kids) ∷ rest) = c.start_time

abbrev start_or : Option SpanEvent → Time → Time
start_or none t = t
start_or (some r) t = r.start_time

-- `traceStart`
unfoldable pub trace_start : Trace → Time
unfolding first_start
trace_start t = start_or t.root (first_start t.children)

-- `t.Children[p]`, an empty slice where the map has no such key.
abbrev pub kids_of : Str → Map (List SpanEvent) → List SpanEvent
kids_of p m = elim (lookup p m) [ none ↦ [] | some kids ↦ kids ]

-- `t.Root = &s`, or the append to the parent's children.
unfoldable pub attach : SpanEvent → Trace → Trace
attach s t = if is_root s then record t { root = some s } else record t {
  children = insert s.parent_id (kids_of s.parent_id t.children ++ s ∷ []) t.children;
}

abbrev retime_from : Option SpanEvent → SpanEvent → Trace → Trace
retime_from (some r) s t = record t { duration = sub_time (trace_latest_end t) r.start_time }
retime_from none s t =
    let own = sub_time (span_end s) s.start_time in
    record t { duration = if ltb_ℤ t.duration own then own else t.duration }

-- The update of `Duration` after the span is attached.
unfoldable pub retime : SpanEvent → Trace → Trace
retime s t = retime_from t.root s t

unfoldable pub empty_trace : Str → Trace
empty_trace id = record { trace_id = id; root = none; children = []; duration = pos 0 }

-- The trace under an id, a new one on first sight.
abbrev pub trace_or_new : Str → Option Trace → Trace
trace_or_new id none = empty_trace id
trace_or_new id (some t) = t

unfoldable pub add : TraceMap → SpanEvent → TraceMap
add m s =
    if str_eq s.trace_id []
    then m
    else insert s.trace_id (retime s (attach s (trace_or_new s.trace_id (lookup s.trace_id m)))) m

-- `Get`
unfoldable pub get : TraceMap → Str → Option Trace
get m id = lookup id m

abbrev pub traces_of : TraceMap → List Trace
traces_of m = map (λ e. e.1) m

abbrev pub newer : Trace → Trace → Bool
newer a b = after (trace_start a) (trace_start b)

-- `n > 0 && len(all) > n` cuts the sorted list.
unfoldable pub recent : TraceMap → ℤ → List Trace
recent m n =
    let all = sort_by newer (traces_of m) in
    if ltb_ℤ (pos 0) n && ltb_ℤ n (pos (length all)) then take (pos_part n) all else all

-- The loop that deletes while it ranges: what is left, and how many were removed.
unfoldable pub evict_before : Time → TraceMap → TraceMap × ℕ
evict_before cutoff [] = ([], 0)
evict_before cutoff ((id, t) ∷ m) =
    let rest = evict_before cutoff m in
    if before (trace_latest_end t) cutoff then (rest.0, rest.1 + 1) else ((id, t) ∷ rest.0, rest.1)

-- `now` is `time.Now()`.
unfoldable pub evict : Time → TraceMap → Duration → TraceMap × ℕ
unfolding evict_before ◌-ℤ◌
evict now m ttl = evict_before (add_time now (pos 0 -ℤ ttl)) m

abbrev pub len : TraceMap → ℕ
len m = length m
