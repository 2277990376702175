-- ===== src/Panels/Metrics/Selection.antt =====
-- The selection of the metrics panel through refreshes and filters.
use taplytix.Prelude.{
  ℕ, zero, suc, ◌+◌, ◌≤◌, ◌<◌, ◌≡◌, ◌≢◌, ◌⊎◌, inl, inr, refl, ap, ◌∙◌, true, false, none, some,
  List, [], ◌∷◌, flat, keep_if, All, length, get_elem?, arith, Str, bytes, str_eq, str_eq_iff,
  Bool-cases, ◌==◌,
}
use mathlib.Core.Path.{subst}
use taplytix.Prelude.Sort.{sort_by}
use taplytix.Store.Services.{Store}
use taplytix.Panels.Metrics.{
  MetricRef, MetricsPanel, selected_key, ref_key, find_key, apply_filter, refresh, metric_less,
  refs_for, services_shown, query, is_visible, detail, blank, update, key,
}

-- The index `k` is that of a reference with this text.
abbrev Points : {F : Type 0} → Str → List (MetricRef F) → ℕ → Type 0
Points {F} text refs k = (r : MetricRef F) × (get_elem? refs k ≡ some r) × (ref_key r ≡ text)

abbrev pub IsAbsent : {F : Type 0} → Str → List (MetricRef F) → Type 0
IsAbsent text refs = All (λ r. str_eq (ref_key r) text ≡ false) refs

find_key_lem :
    {F : Type 0} (text : Str) (stay i : ℕ) (refs : List (MetricRef F))
    → ((k : ℕ) × (find_key text stay i refs ≡ i + k) × Points text refs k)
      ⊎ ((find_key text stay i refs ≡ stay) × IsAbsent text refs)
unfolding find_key
find_key_lem text stay i [] = inr (refl, tt)
find_key_lem text stay i (r ∷ refs) = elim (Bool-cases (str_eq (ref_key r) text)) [
  | inl same ↦ inl (0, rw same (omega arith), (r, refl, (str_eq_iff (ref_key r) text).0 same))
  | inr other ↦ elim (find_key_lem text stay (i + 1) refs) [
    | inl (k, e, p) ↦ inl (suc k, rw other (omega (arith, e)), p)
    | inr (e, absent) ↦ inr (rw other e, (other, absent))
  ]
]

-- The metrics of the services that the panel looks at, sorted.
abbrev pub metrics_shown : {F : Type 0} → Store F → MetricsPanel F → List (MetricRef F)
metrics_shown st p = sort_by metric_less (flat (refs_for st) (services_shown st p))

pub refresh-selected :
    {F : Type 0} (st : Store F) (p : MetricsPanel F)
    → selected_key p ≢ []
    → let p' = refresh st p in
      (p'.vis_keys ≡ keep_if (is_visible (query p)) (metrics_shown st p))
      × (((r : MetricRef F) × (get_elem? p'.vis_keys p'.selected ≡ some r)
            × (ref_key r ≡ selected_key p))
          ⊎ ((p'.selected ≡ p.selected) × IsAbsent (selected_key p) p'.vis_keys))
unfolding refresh
refresh-selected {F} st p h = (
  rw asked refl,
  elim (find_key_lem (selected_key p) p.selected 0 vis) [
    | inl (k, e, (r, at, same)) ↦
        inl (r, rw (asked, e) (ap (get_elem? vis) {x = 0 + k} {y = k} (omega arith) ∙ at), same)
    | inr (e, absent) ↦ inr (rw (asked, e), rw asked absent)
  ],
)
  where
    vis : List (MetricRef F)
    vis = keep_if (is_visible (query p)) (metrics_shown st p)

    asked : str_eq (selected_key p) [] ≡ false
    asked = elim (Bool-cases (str_eq (selected_key p) [])) [
      | inl e ↦ absurd (h ((str_eq_iff (selected_key p) []).0 e))
      | inr e ↦ e
    ]

get_past : {A : Type 0} (xs : List A) (i : ℕ) → length xs ≤ i → get_elem? xs i ≡ none
get_past [] i h = refl
get_past (x ∷ xs) zero h = absurd (omega arith)
get_past (x ∷ xs) (suc i) h = get_past xs i (omega arith)

detail-past :
    {F : Type 0} (p : MetricsPanel F)
    → 0 < length p.vis_keys
    → length p.vis_keys ≤ p.selected
    → detail p ≡ blank
unfolding detail
detail-past p any past =
    let not_empty : (length p.vis_keys == 0) ≡ false = ground arith in
    rw (not_empty, get_past p.vis_keys p.selected past)

-- While the filter is typed the selection stays at its index. Where fewer metrics than that are left,
-- but some, the panel shows no metric at all, though the list beside it is not empty.
pub filter-blank :
    {F : Type 0} (st : Store F) (p : MetricsPanel F) (k text : Str) (index : ℕ)
    → p.filtering ≡ true
    → str_eq k (bytes "esc") ≡ false
    → str_eq k (bytes "enter") ≡ false
    → 0 < length (update st (key k text index) p).vis_keys
    → length (update st (key k text index) p).vis_keys ≤ p.selected
    → detail (update st (key k text index) p) ≡ blank
unfolding update apply_filter
filter-blank st p k text index typing esc enter any past =
    let e : update st (key k text index) p ≡ apply_filter (record p { filter = text }) =
      rw (typing, esc, enter) refl in
    let any' : 0 < length (apply_filter (record p { filter = text })).vis_keys =
      subst (λ q. 0 < length q.vis_keys) e any in
    let past' : length (apply_filter (record p { filter = text })).vis_keys ≤ p.selected =
      subst (λ q. length q.vis_keys ≤ p.selected) e past in
    ap detail e ∙ detail-past (apply_filter (record p { filter = text })) any' past'
