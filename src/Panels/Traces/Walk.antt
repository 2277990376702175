-- ===== src/Panels/Traces/Walk.antt =====
-- When the walk over a trace's tree ends.
use mathlib.Core.Path.{subst}
use taplytix.Prelude.{
  ℕ, zero, suc, ◌<◌, ◌≡◌, refl, sym, ap, Bool, true, not, Option, none, some, List, [], ◌∷◌, ◌++◌,
  length, All, All-map, ◌==◌, arith, Str, count_if, str_eq, str_eq_iff,
}
use taplytix.Prelude.Sort.{sort_by, All-sort_by, count_if-sort_by}
use taplytix.Model.{SpanEvent, Trace}
use taplytix.Store.TraceMap.{kids_of}
use taplytix.Panels.Traces.{Row, walk_kids, earlier, walk}

abbrev Yields : Option (List Row) → Type 0
Yields o = (rows : List Row) × (o ≡ some rows)

walk_kids-Yields :
    (w : SpanEvent → List Bool → Option (List Row)) (flags : List Bool) (kids : List SpanEvent)
    → All (λ c. (f : List Bool) → Yields (w c f)) kids
    → Yields (walk_kids w flags kids)
walk_kids-Yields w flags [] h = ([], refl)
walk_kids-Yields w flags (c ∷ kids) h =
    let (rows, e) = h.0 (flags ++ not (length kids == 0) ∷ []) in
    let (more, e2) = walk_kids-Yields w flags kids h.1 in (rows ++ more, ground (arith, e, e2))

-- The span's own row on top of those below it.
abbrev under : SpanEvent → List Bool → Option (List Row) → Option (List Row)
under s flags o = elim o as (λ _. Option (List Row)) [
  | none ↦ none
  | some rows ↦ some (record { span = s; has_next = flags } ∷ rows)
]

-- If each span below a parent has a smaller rank than the parent, that is if the tree has no cycle,
-- the walk ends, with a depth of calls of no more than the root's rank and one.
pub walk-ends :
    (t : Trace) (rank : Str → ℕ) (depth : ℕ) (s : SpanEvent) (flags : List Bool)
    → ((p : Str) → All (λ c. rank c.span_id < rank p) (kids_of p t.children))
    → rank s.span_id < depth
    → (rows : List Row) × (walk depth t s flags ≡ some rows)
unfolding walk
walk-ends t rank zero s flags tree h = absurd (omega arith)
walk-ends t rank (suc depth) s flags tree h =
    let below =
      All-map {P = λ c. rank c.span_id < rank s.span_id}
        {Q = λ c. (f : List Bool) → Yields (walk depth t c f)}
        (λ c k f. walk-ends t rank depth c f tree (omega (arith, k, h)))
        (sort_by earlier (kids_of s.span_id t.children))
        (All-sort_by earlier (λ c. rank c.span_id < rank s.span_id) (kids_of s.span_id t.children)
          (tree s.span_id)) in
    let (rows, e) =
      walk_kids-Yields (walk depth t) flags (sort_by earlier (kids_of s.span_id t.children))
        below in
    (record { span = s; has_next = flags } ∷ rows, ap (under s flags) e)

walk_kids-none :
    (w : SpanEvent → List Bool → Option (List Row)) (flags : List Bool) (p : SpanEvent → Bool)
    (kids : List SpanEvent)
    → ((c : SpanEvent) (f : List Bool) → p c ≡ true → w c f ≡ none)
    → 0 < count_if p kids
    → walk_kids w flags kids ≡ none
walk_kids-none w flags p [] h k = absurd (omega arith)
walk_kids-none w flags p (c ∷ kids) h k =
    ground (arith, h c (flags ++ not (length kids == 0) ∷ []), walk_kids-none w flags p kids h)

-- If some child of a span has the span's own id, as when a span names itself as its parent, no depth
-- of calls is enough for the walk from the span.
pub walk-never :
    (depth : ℕ) (t : Trace) (s : SpanEvent) (flags : List Bool)
    → 0 < count_if (λ c. str_eq c.span_id s.span_id) (kids_of s.span_id t.children)
    → walk depth t s flags ≡ none
unfolding walk
walk-never zero t s flags h = refl
walk-never (suc depth) t s flags h = ap (under s flags) (
    walk_kids-none (walk depth t) flags (λ c. str_eq c.span_id s.span_id)
      (sort_by earlier (kids_of s.span_id t.children))
      (λ c f e. walk-never depth t c f (
        subst (λ id. 0 < count_if (λ d. str_eq d.span_id id) (kids_of id t.children))
          (sym ((str_eq_iff c.span_id s.span_id).0 e)) h))
      (omega (
        arith,
        count_if-sort_by earlier (λ c. str_eq c.span_id s.span_id) (kids_of s.span_id t.children),
      )))
