-- ===== src/Panels/Traces/Counts.antt =====
-- The panel counts the spans that `Add` has put into a trace.
use taplytix.Prelude.{
  ℕ, ◌+◌, ◌≡◌, ◌≢◌, refl, ap, Bool, false, not, ◌&&◌, Option, none, some, List, [], ◌∷◌, ◌++◌,
  length, count_if, if◌then◌else◌, ltb, arith, Str, str_eq, str_eq_iff, Bool-cases, inl, inr,
  length-append,
}
use taplytix.Prelude.Maps.{Map, lookup, insert, lookup-insert}
use taplytix.Model.{SpanEvent, Trace}
use taplytix.Store.TraceMap.{
  TraceMap, is_root, kids_of, attach, retime, empty_trace, trace_or_new, add, get, new_trace_map,
}
use taplytix.Store.TraceMap.Timing.{add_all}
use taplytix.Panels.Traces.{root_count, kids_count, span_count}

kids_count-insert :
    (p : Str) (kids : List SpanEvent) (m : Map (List SpanEvent))
    → kids_count (insert p kids m) + length (kids_of p m) ≡ kids_count m + length kids
unfolding insert lookup
kids_count-insert p kids [] = omega arith
kids_count-insert p kids ((q, ks) ∷ m) = ground (arith, kids_count-insert p kids m)

children-retime : (s : SpanEvent) (t : Trace) → (retime s t).children ≡ t.children
unfolding retime
children-retime s t = ground arith

root-retime : (s : SpanEvent) (t : Trace) → (retime s t).root ≡ t.root
unfolding retime
root-retime s t = ground arith

-- What a span adds to the spans below the root.
kids-attach :
    (s : SpanEvent) (t : Trace)
    → kids_count (retime s (attach s t)).children
      ≡ kids_count t.children + (if is_root s then 0 else 1)
unfolding attach
kids-attach s t = elim (Bool-cases (is_root s)) [
  | inl root ↦ rw (root, children-retime) (omega arith)
  | inr below ↦
      rw (below, children-retime)
        (omega (
          arith,
          kids_count-insert s.parent_id (kids_of s.parent_id t.children ++ s ∷ []) t.children,
          length-append (kids_of s.parent_id t.children) (s ∷ []),
        ))
]

root-attach :
    (s : SpanEvent) (t : Trace)
    → root_count (retime s (attach s t)).root ≡ (if is_root s then 1 else root_count t.root)
unfolding attach
root-attach s t = elim (Bool-cases (is_root s)) [
  | inl root ↦ rw (root, root-retime)
  | inr below ↦ rw (below, root-retime)
]

-- What a lookup shows of the two counts.
abbrev kids_total : Option Trace → ℕ
kids_total none = 0
kids_total (some t) = kids_count t.children

abbrev root_total : Option Trace → ℕ
root_total none = 0
root_total (some t) = root_count t.root

-- The span belongs to the trace and is not its root; the span belongs to it and is a root.
abbrev pub is_kid_of : Str → SpanEvent → Bool
is_kid_of id s = str_eq s.trace_id id && not (is_root s)

abbrev pub is_root_of : Str → SpanEvent → Bool
is_root_of id s = str_eq s.trace_id id && is_root s

empty_counts :
    (id : Str) → (kids_count (empty_trace id).children ≡ 0) × (root_count (empty_trace id).root ≡ 0)
unfolding empty_trace
empty_counts id = (refl, refl)

kids_trace_or_new :
    (id : Str) (o : Option Trace) → kids_count (trace_or_new id o).children ≡ kids_total o
kids_trace_or_new id none = (empty_counts id).0
kids_trace_or_new id (some t) = refl

root_trace_or_new :
    (id : Str) (o : Option Trace) → root_count (trace_or_new id o).root ≡ root_total o
root_trace_or_new id none = (empty_counts id).1
root_trace_or_new id (some t) = refl

lookup-add :
    (id : Str) (s : SpanEvent) (m : TraceMap)
    → id ≢ []
    → lookup id (add m s) ≡ (
        if str_eq s.trace_id id
        then some (retime s (attach s (trace_or_new s.trace_id (lookup s.trace_id m))))
        else lookup id m)
unfolding add
lookup-add id s m named = elim (Bool-cases (str_eq s.trace_id [])) [
  | inl anonymous ↦
      let other : str_eq s.trace_id id ≡ false =
        ground (arith, str_eq_iff s.trace_id [], str_eq_iff s.trace_id id, named) in
      rw (anonymous, other)
  | inr own ↦ rw own (
      lookup-insert s.trace_id id
        (retime s (attach s (trace_or_new s.trace_id (lookup s.trace_id m)))) m)
]

kids-add :
    (id : Str) (s : SpanEvent) (m : TraceMap)
    → id ≢ []
    → kids_total (lookup id (add m s))
      ≡ kids_total (lookup id m) + (if is_kid_of id s then 1 else 0)
kids-add id s m named = elim (Bool-cases (str_eq s.trace_id id)) [
  | inl mine ↦
      let same = ap (λ i. kids_total (lookup i m)) ((str_eq_iff s.trace_id id).0 mine) in
      rw (lookup-add id s m named, mine, kids-attach, kids_trace_or_new) (ground (arith, same))
  | inr other ↦ rw (lookup-add id s m named, other) (omega arith)
]

root-add :
    (id : Str) (s : SpanEvent) (m : TraceMap)
    → id ≢ []
    → root_total (lookup id (add m s)) ≡ (if is_root_of id s then 1 else root_total (lookup id m))
root-add id s m named = elim (Bool-cases (str_eq s.trace_id id)) [
  | inl mine ↦
      let same = ap (λ i. root_total (lookup i m)) ((str_eq_iff s.trace_id id).0 mine) in
      rw (lookup-add id s m named, mine, root-attach, root_trace_or_new) (ground (arith, same))
  | inr other ↦ rw (lookup-add id s m named, other)
]

kids-add_all :
    (id : Str) (spans : List SpanEvent) (m : TraceMap)
    → id ≢ []
    → kids_total (lookup id (add_all m spans))
      ≡ kids_total (lookup id m) + count_if (is_kid_of id) spans
unfolding add_all
kids-add_all id [] m named = omega arith
kids-add_all id (s ∷ spans) m named =
    ground (arith, kids-add_all id spans (add m s) named, kids-add id s m named)

root-add_all :
    (id : Str) (spans : List SpanEvent) (m : TraceMap)
    → id ≢ []
    → root_total (lookup id (add_all m spans))
      ≡ (if ltb 0 (count_if (is_root_of id) spans) then 1 else root_total (lookup id m))
unfolding add_all
root-add_all id [] m named = refl
root-add_all id (s ∷ spans) m named =
    ground (arith, root-add_all id spans (add m s) named, root-add id s m named)

-- In a map built by `Add` from an empty one, the panel's span count of a trace is the number of its
-- spans that have a parent, and one more if any of its spans is a root: every child is counted once,
-- and a second root takes the place of the first.
pub span_count-add_all :
    (spans : List SpanEvent) (id : Str) (t : Trace)
    → id ≢ []
    → get (add_all new_trace_map spans) id ≡ some t
    → span_count t
      ≡ count_if (is_kid_of id) spans + (if ltb 0 (count_if (is_root_of id) spans) then 1 else 0)
unfolding get new_trace_map span_count
span_count-add_all spans id t named found =
    let kids = kids-add_all id spans [] named in
    let root = root-add_all id spans [] named in
    let kids_now = ap kids_total found in
    let root_now = ap root_total found in
    unfold lookup in ground (arith, kids, root, kids_now, root_now)
