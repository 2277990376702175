-- ===== src/Panels/Traces.antt =====
-- internal/tui/panels/traces.go: the list of recent traces, the selection, and the rows of the tree.
pub mod Counts
pub mod Selection
pub mod Walk
pub mod Updates
use taplytix.Prelude.{
  ℕ, zero, suc, ◌+◌, Bool, true, false, not, ◌&&◌, ◌||◌, Option, none, some, List, [], ◌∷◌, ◌++◌,
  map, length, take, get_elem?, if◌then◌else◌, ltb, ◌==◌, Str, str_eq,
}
use taplytix.Prelude.Int.{ℤ, pos, ltb_ℤ}
use taplytix.Prelude.Maps.{Map, lookup}
use taplytix.Prelude.Sort.{sort_by}
use taplytix.Clock.{Time, Duration, before, after}
use taplytix.Model.{SpanEvent, Trace}
use taplytix.Store.TraceMap.{TraceMap, kids_of, recent, trace_start}
use taplytix.Store.Services.{Store, is_error, service_names, traces_for}

abbrev pub recent_trace_limit : ℕ
recent_trace_limit = 50

abbrev pub root_count : Option SpanEvent → ℕ
root_count none = 0
root_count (some r) = 1

-- The loop over `t.Children`.
abbrev pub kids_count : Map (List SpanEvent) → ℕ
kids_count [] = 0
kids_count ((p, kids) ∷ m) = length kids + kids_count m

-- `traceSpanCount`
unfoldable pub span_count : Trace → ℕ
span_count t = root_count t.root + kids_count t.children

abbrev pub errors_in : List SpanEvent → ℕ
errors_in [] = 0
errors_in (c ∷ kids) = (if is_error c.status then 1 else 0) + errors_in kids

abbrev pub errors_below : Map (List SpanEvent) → ℕ
errors_below [] = 0
errors_below ((p, kids) ∷ m) = errors_in kids + errors_below m

abbrev pub root_errors : Option SpanEvent → ℕ
root_errors none = 0
root_errors (some r) = if is_error r.status then 1 else 0

-- `traceErrorCount`
unfoldable pub error_count : Trace → ℕ
error_count t = root_errors t.root + errors_below t.children

-- `visit` of `slowestSpan`.
abbrev pub visit : Option SpanEvent → SpanEvent → Option SpanEvent
visit none s = some s
visit (some slow) s = if ltb_ℤ slow.duration s.duration then some s else some slow

unfoldable pub visit_all : Option SpanEvent → List SpanEvent → Option SpanEvent
visit_all slow [] = slow
visit_all slow (c ∷ kids) = visit_all (visit slow c) kids

unfoldable pub visit_children : Option SpanEvent → Map (List SpanEvent) → Option SpanEvent
unfolding visit_all
visit_children slow [] = slow
visit_children slow ((p, kids) ∷ m) = visit_children (visit_all slow kids) m

abbrev pub visit_root : Option SpanEvent → Option SpanEvent
visit_root none = none
visit_root (some r) = visit none r

-- `slowestSpan`
unfoldable pub slowest_span : Trace → Option SpanEvent
unfolding visit_children
slowest_span t = visit_children (visit_root t.root) t.children

pub record Row : Type 0 where
  pub span : SpanEvent
  -- For each ancestor below the root, and the span itself, whether a sibling follows.
  pub has_next : List Bool

-- The loop over the sorted children: each with the flag that says whether another one follows.
abbrev pub walk_kids :
    (SpanEvent → List Bool → Option (List Row)) → List Bool → List SpanEvent → Option (List Row)
walk_kids walk flags [] = some []
walk_kids walk flags (c ∷ kids) = elim (walk c (flags ++ not (length kids == 0) ∷ [])) [
  | none ↦ none
  | some rows ↦ elim (walk_kids walk flags kids) [ none ↦ none | some more ↦ some (rows ++ more) ]
]

abbrev pub earlier : SpanEvent → SpanEvent → Bool
earlier a b = before a.start_time b.start_time

-- `walkTraceDFS`, by the depth of calls; `none` where the depth is used up.
unfoldable pub walk : ℕ → Trace → SpanEvent → List Bool → Option (List Row)
walk zero t s flags = none
walk (suc depth) t s flags =
    elim (walk_kids (walk depth t) flags (sort_by earlier (kids_of s.span_id t.children))) [
      | none ↦ none
      | some rows ↦ some (record { span = s; has_next = flags } ∷ rows)
    ]

pub record Ref : Type 0 where
  pub service : Str
  pub trace : Trace

pub record TracesPanel : Type 0 where
  pub service : Str
  pub traces : List Ref
  pub selected : ℕ

abbrev pub refs_from : Str → Option TraceMap → List Ref
refs_from svc none = []
refs_from svc (some tm) = map (λ t. record { service = svc; trace = t }) (recent tm (pos 0))

unfoldable pub refs_of : {F : Type 0} → Store F → List Str → List Ref
unfolding recent traces_for
refs_of st [] = []
refs_of st (svc ∷ svcs) = refs_from svc (traces_for st svc) ++ refs_of st svcs

abbrev pub later : Ref → Ref → Bool
later a b = after (trace_start a.trace) (trace_start b.trace)

-- The id of the selected trace, empty where there is none.
abbrev pub selected_id : TracesPanel → Str
selected_id p = elim (get_elem? p.traces p.selected) [ none ↦ [] | some r ↦ r.trace.trace_id ]

-- The loop that restores the selection, from the index `i` on; 0 where the id is not found.
unfoldable pub find_selected : Str → ℕ → List Ref → ℕ
find_selected id i [] = 0
find_selected id i (r ∷ refs) =
    let rest = find_selected id (i + 1) refs in if str_eq r.trace.trace_id id then i else rest

unfoldable pub refresh : {F : Type 0} → Store F → TracesPanel → TracesPanel
unfolding refs_of find_selected
refresh st p =
    let services = if str_eq p.service [] then service_names st else p.service ∷ [] in
    let refs = take recent_trace_limit (sort_by later (refs_of st services)) in
    record p {
      traces = refs;
      selected = if str_eq (selected_id p) [] then 0 else find_selected (selected_id p) 0 refs;
    }
