-- ===== src/Store/TraceMap/Latest.antt =====
-- `traceLatestEnd` is the latest end of the spans of a trace.
use mathlib.Core.Path.{subst, refl}
use taplytix.Prelude.{
  ◌≡◌, ◌↔◌, List, [], ◌∷◌, All, All-map, arith, Option, none, some, if◌then◌else◌,
}
use taplytix.Prelude.Int.{ℤ, ◌≤ℤ◌}
use taplytix.Prelude.Maps.{Map}
use taplytix.Clock.{Time, zero_time, after}
use taplytix.Model.{SpanEvent, Trace}
use taplytix.Store.TraceMap.{span_end, latest_of, latest_children, trace_latest_end, root_end}

-- A property of every span below the root.
abbrev pub AllKids : (SpanEvent → Type 0) → Map (List SpanEvent) → Type 0
AllKids P m = All (λ e. All P e.1) m

-- A property of every span of a trace.
pub record AllSpans (P : SpanEvent → Type 0) (t : Trace) : Type 0 where
  pub at_root : (r : SpanEvent) → t.root ≡ some r → P r
  pub below : AllKids P t.children

le_trans_ℤ : (a b c : ℤ) → a ≤ℤ b → b ≤ℤ c → a ≤ℤ c
le_trans_ℤ a b c h k = omega arith

le-latest_of : (kids : List SpanEvent) (l : Time) → l ≤ℤ latest_of l kids
unfolding latest_of
le-latest_of [] l = omega arith
le-latest_of (c ∷ kids) l =
    let l' : Time = if after (span_end c) l then span_end c else l in
    ground (arith, le-latest_of kids l')

kids-le-latest_of :
    (kids : List SpanEvent) (l : Time) → All (λ c. span_end c ≤ℤ latest_of l kids) kids
unfolding latest_of
kids-le-latest_of [] l = tt
kids-le-latest_of (c ∷ kids) l =
    let l' : Time = if after (span_end c) l then span_end c else l in
    (ground (arith, le-latest_of kids l'), kids-le-latest_of kids l')

le-latest_children : (m : Map (List SpanEvent)) (l : Time) → l ≤ℤ latest_children l m
unfolding latest_children
le-latest_children [] l = omega arith
le-latest_children ((p, kids) ∷ m) l =
    omega (arith, le-latest_of kids l, le-latest_children m (latest_of l kids))

kids-le-latest_children :
    (m : Map (List SpanEvent)) (l : Time) → AllKids (λ c. span_end c ≤ℤ latest_children l m) m
unfolding latest_children
kids-le-latest_children [] l = tt
kids-le-latest_children ((p, kids) ∷ m) l = (
  All-map (λ c h. omega (arith, h, le-latest_children m (latest_of l kids))) kids
      (kids-le-latest_of kids l),
  kids-le-latest_children m (latest_of l kids),
)

latest_of-least :
    (kids : List SpanEvent) (l u : Time)
    → l ≤ℤ u
    → All (λ c. span_end c ≤ℤ u) kids
    → latest_of l kids ≤ℤ u
unfolding latest_of
latest_of-least [] l u h k = h
latest_of-least (c ∷ kids) l u h k =
    let l' : Time = if after (span_end c) l then span_end c else l in
    latest_of-least kids l' u (ground (arith, h, k.0)) k.1

latest_children-least :
    (m : Map (List SpanEvent)) (l u : Time)
    → l ≤ℤ u
    → AllKids (λ c. span_end c ≤ℤ u) m
    → latest_children l m ≤ℤ u
unfolding latest_children
latest_children-least [] l u h k = h
latest_children-least ((p, kids) ∷ m) l u h k =
    latest_children-least m (latest_of l kids) u (latest_of-least kids l u h k.0) k.1

-- No span of the trace ends after `traceLatestEnd`, whatever the order of the map.
pub AllSpans-le-latest_end : (t : Trace) → AllSpans (λ s. span_end s ≤ℤ trace_latest_end t) t
unfolding trace_latest_end
AllSpans-le-latest_end t = record {
  at_root = λ r e.
      subst (λ o. root_end o ≤ℤ latest_children (root_end t.root) t.children) e
        (le-latest_children t.children (root_end t.root));
  below = kids-le-latest_children t.children (root_end t.root);
}

root_bound :
    (o : Option SpanEvent) (u : Time)
    → zero_time ≤ℤ u
    → ((r : SpanEvent) → o ≡ some r → span_end r ≤ℤ u)
    → root_end o ≤ℤ u
root_bound none u z h = z
root_bound (some r) u z h = h r refl

latest_end-least :
    (t : Trace) (u : Time)
    → zero_time ≤ℤ u
    → AllSpans (λ s. span_end s ≤ℤ u) t
    → trace_latest_end t ≤ℤ u
unfolding trace_latest_end
latest_end-least t u z h =
    latest_children-least t.children (root_end t.root) u (root_bound t.root u z h.at_root) h.below

-- `traceLatestEnd` is the least upper bound: an instant at or after the zero time is at or after it
-- exactly where no span of the trace ends after that instant, whatever the order of the map.
pub trace_latest_end_iff :
    (t : Trace) (u : Time)
    → zero_time ≤ℤ u
    → (trace_latest_end t ≤ℤ u) ↔ AllSpans (λ s. span_end s ≤ℤ u) t
trace_latest_end_iff t u z = (
  λ h.
      let all : AllSpans (λ s. span_end s ≤ℤ trace_latest_end t) t = AllSpans-le-latest_end t in
      record {
        at_root = λ r e. le_trans_ℤ (span_end r) (trace_latest_end t) u (all.at_root r e) h;
        below =
            All-map
              (λ e kids.
                All-map (λ c k. le_trans_ℤ (span_end c) (trace_latest_end t) u k h) e.1 kids)
              t.children all.below;
      },
  latest_end-least t u z,
)
