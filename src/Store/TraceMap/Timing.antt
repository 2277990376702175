-- ===== src/Store/TraceMap/Timing.antt =====
-- `Duration` of a trace: from the start of the root to the latest end, once there is a root.
use taplytix.Prelude.{
  ◌≡◌, refl, sym, ap, ◌∙◌, List, [], ◌∷◌, ◌++◌, All, All-map, All-snoc, arith, Option, none, some,
  Str, str_eq, Bool-cases, inl, inr,
}
use taplytix.Prelude.Int.{◌≤ℤ◌, ◌-ℤ◌}
use taplytix.Prelude.Maps.{Map, lookup, insert, lookup-All, insert-All, IsMap, insert-IsMap}
use taplytix.Clock.{
  Duration, sub_time, add_time, min_duration, max_duration, sub_time_exact, add-sub,
}
use taplytix.Model.{SpanEvent, Trace}
use taplytix.Store.TraceMap.{
  TraceMap, span_end, trace_latest_end, is_root, kids_of, attach, retime, retime_from, empty_trace,
  trace_or_new, add, get, new_trace_map,
}
use taplytix.Store.TraceMap.Latest.{AllKids, AllSpans, AllSpans-le-latest_end}

abbrev own_length : SpanEvent → Duration
own_length s = sub_time (span_end s) s.start_time

pub record IsTimed (t : Trace) : Type 0 where
  pub rooted :
      (r : SpanEvent) → t.root ≡ some r → t.duration ≡ sub_time (trace_latest_end t) r.start_time
  pub unrooted : t.root ≡ none → AllKids (λ c. own_length c ≤ℤ t.duration) t.children

kids-All :
    (P : SpanEvent → Type 0) (p : Str) (m : Map (List SpanEvent))
    → AllKids P m
    → All P (kids_of p m)
kids-All P p m h = of_lookup (lookup p m) refl
  where
    of_lookup :
        (o : Option (List SpanEvent))
        → lookup p m ≡ o
        → All P (elim o as (λ _. List SpanEvent) [ none ↦ [] | some kids ↦ kids ])
    of_lookup none e = tt
    of_lookup (some kids) e = lookup-All (λ e. All P e.1) p m h e

-- A property of the spans below the root, and of the one that is appended.
attach-AllKids :
    (P : SpanEvent → Type 0) (p : Str) (m : Map (List SpanEvent)) (s : SpanEvent)
    → AllKids P m
    → P s
    → AllKids P (insert p (kids_of p m ++ s ∷ []) m)
attach-AllKids P p m s h q =
    insert-All (λ e. All P e.1) p (kids_of p m ++ s ∷ []) m
      (λ j _. All-snoc P (kids_of p m) s (kids-All P p m h) q) h

AllKids-map :
    {P Q : SpanEvent → Type 0}
    → ((s : SpanEvent) → P s → Q s)
    → (m : Map (List SpanEvent)) → AllKids P m
    → AllKids Q m
AllKids-map f m h = All-map (λ e k. All-map f e.1 k) m h

retime_from-IsTimed :
    (o : Option SpanEvent) (s : SpanEvent) (t : Trace)
    → t.root ≡ o
    → (o ≡ none → AllKids (λ c. own_length c ≤ℤ (retime_from o s t).duration) t.children)
    → IsTimed (retime_from o s t)
unfolding trace_latest_end
retime_from-IsTimed (some r) s t e k = record {
  rooted =
      λ q f. let same : r ≡ q = cc in ap (λ x. sub_time (trace_latest_end t) x.start_time) same;
  unrooted = λ f. let bad : ⊥ = cc in absurd bad;
}
retime_from-IsTimed none s t e k = record {
  rooted = λ q f. let bad : ⊥ = cc in absurd bad;
  unrooted = λ f. k refl;
}

-- Attaching a span and timing the trace again keeps the trace timed.
pub add_span-IsTimed : (s : SpanEvent) (t : Trace) → IsTimed t → IsTimed (retime s (attach s t))
unfolding retime attach
add_span-IsTimed s t h = elim (Bool-cases (is_root s)) [
  | inl root ↦ rw root (
      retime_from-IsTimed (some s) s (record t { root = some s }) refl
        (λ e. let bad : ⊥ = cc in absurd bad))
  | inr below ↦ rw below (retime_from-IsTimed t.root s grown refl (kept t.root refl))
]
  where
    grown : Trace
    grown = record t {
      children = insert s.parent_id (kids_of s.parent_id t.children ++ s ∷ []) t.children;
    }

    kept :
        (o : Option SpanEvent)
        → t.root ≡ o
        → o ≡ none
        → AllKids (λ c. own_length c ≤ℤ (retime_from o s grown).duration) grown.children
    kept none e _ =
        attach-AllKids (λ c. own_length c ≤ℤ (retime_from none s grown).duration) s.parent_id
          t.children s (AllKids-map (λ c k. ground (arith, k)) t.children (h.unrooted e))
          (ground arith)
    kept (some r) e f = let bad : ⊥ = cc in absurd bad

empty_trace-IsTimed : (id : Str) → IsTimed (empty_trace id)
unfolding empty_trace
empty_trace-IsTimed id = record {
  rooted = λ r e. let bad : ⊥ = cc in absurd bad;
  unrooted = λ _. tt;
}

-- Every trace of the map is timed and stands under its own id.
abbrev pub AllTimed : TraceMap → Type 0
AllTimed m = All (λ e. (e.1.trace_id ≡ e.0) × IsTimed e.1) m

trace_id-add_span : (s : SpanEvent) (t : Trace) → (retime s (attach s t)).trace_id ≡ t.trace_id
unfolding retime attach
trace_id-add_span s t = ground arith

pub add-AllTimed : (m : TraceMap) (s : SpanEvent) → AllTimed m → AllTimed (add m s)
unfolding add
add-AllTimed m s h = elim (Bool-cases (str_eq s.trace_id [])) [
  | inl anonymous ↦ rw anonymous h
  | inr named ↦ rw named (
      insert-All (λ e. (e.1.trace_id ≡ e.0) × IsTimed e.1) s.trace_id
        (retime s (attach s (trace_or_new s.trace_id (lookup s.trace_id m)))) m
        (λ j same. grown j same (lookup s.trace_id m) refl) h)
]
  where
    grown :
        (j : Str)
        → j ≡ s.trace_id
        → (o : Option Trace) → lookup s.trace_id m ≡ o
        → let t = retime s (attach s (trace_or_new s.trace_id o)) in (t.trace_id ≡ j) × IsTimed t
    grown j same none e = (
      trace_id-add_span s (empty_trace s.trace_id) ∙ unfold empty_trace in sym same,
      add_span-IsTimed s (empty_trace s.trace_id) (empty_trace-IsTimed s.trace_id),
    )
    grown j same (some t) e =
        let old = lookup-All (λ e. (e.1.trace_id ≡ e.0) × IsTimed e.1) s.trace_id m h e in
        (trace_id-add_span s t ∙ old.0 ∙ sym same, add_span-IsTimed s t old.1)

pub add-IsMap : (m : TraceMap) (s : SpanEvent) → IsMap m → IsMap (add m s)
unfolding add
add-IsMap m s h = elim (Bool-cases (str_eq s.trace_id [])) [
  | inl anonymous ↦ rw anonymous h
  | inr named ↦ rw named (insert-IsMap s.trace_id _ m h)
]

-- The spans of a stream, added one by one.
unfoldable pub add_all : TraceMap → List SpanEvent → TraceMap
add_all m [] = m
add_all m (s ∷ spans) = add_all (add m s) spans

add_all-AllTimed : (spans : List SpanEvent) (m : TraceMap) → AllTimed m → AllTimed (add_all m spans)
unfolding add_all
add_all-AllTimed [] m h = h
add_all-AllTimed (s ∷ spans) m h = add_all-AllTimed spans (add m s) (add-AllTimed m s h)

-- In a map built by `Add` from an empty one, a trace stands under its own id; if it has a root, and
-- the time from the start of the root to the latest end fits an int64, then its duration added to
-- the root's start is the latest end, and no span of the trace ends later.
pub add_all-duration :
    (spans : List SpanEvent) (id : Str) (t : Trace) (r : SpanEvent)
    → get (add_all new_trace_map spans) id ≡ some t
    → t.root ≡ some r
    → min_duration ≤ℤ trace_latest_end t -ℤ r.start_time
    → trace_latest_end t -ℤ r.start_time ≤ℤ max_duration
    → (t.trace_id ≡ id)
      × (add_time r.start_time t.duration ≡ trace_latest_end t)
      × AllSpans (λ s. span_end s ≤ℤ add_time r.start_time t.duration) t
unfolding get new_trace_map
add_all-duration spans id t r found root low high =
    (timed.0, exact, rw exact (AllSpans-le-latest_end t))
  where
    timed : (t.trace_id ≡ id) × IsTimed t
    timed =
        lookup-All (λ e. (e.1.trace_id ≡ e.0) × IsTimed e.1) id (add_all [] spans)
          (add_all-AllTimed spans [] tt) found

    exact : add_time r.start_time t.duration ≡ trace_latest_end t
    exact =
        ap (add_time r.start_time)
          (timed.1.rooted r root ∙ sub_time_exact (trace_latest_end t) r.start_time low high)
        ∙ add-sub (trace_latest_end t) r.start_time
