-- ===== src/Panels/Traces/Selection.antt =====
-- A refresh keeps the selected trace selected while it is listed.
use taplytix.Prelude.{
  ℕ, suc, ◌+◌, ◌≡◌, ◌≢◌, refl, ap, ◌∙◌, ◌⊎◌, inl, inr, false, some, List, [], ◌∷◌, take, All,
  get_elem?, if◌then◌else◌, arith, Str, str_eq, str_eq_iff, Bool-cases,
}
use taplytix.Store.Services.{Store, service_names}
use taplytix.Panels.Traces.{
  Ref, TracesPanel, selected_id, find_selected, refresh, recent_trace_limit, later, refs_of,
}
use taplytix.Prelude.Sort.{sort_by}

-- The index `k` is that of a reference with this id.
abbrev Points : Str → List Ref → ℕ → Type 0
Points id refs k = (r : Ref) × (get_elem? refs k ≡ some r) × (r.trace.trace_id ≡ id)

abbrev pub IsAbsent : Str → List Ref → Type 0
IsAbsent id refs = All (λ r. str_eq r.trace.trace_id id ≡ false) refs

find_selected_lem :
    (id : Str) (i : ℕ) (refs : List Ref)
    → ((k : ℕ) × (find_selected id i refs ≡ i + k) × Points id refs k)
      ⊎ ((find_selected id i refs ≡ 0) × IsAbsent id refs)
unfolding find_selected
find_selected_lem id i [] = inr (refl, tt)
find_selected_lem id i (r ∷ refs) = elim (Bool-cases (str_eq r.trace.trace_id id)) [
  | inl same ↦ inl (0, rw same (omega arith), (r, refl, (str_eq_iff r.trace.trace_id id).0 same))
  | inr other ↦ elim (find_selected_lem id (i + 1) refs) [
    | inl (k, e, p) ↦ inl (suc k, rw other (omega (arith, e)), p)
    | inr (e, absent) ↦ inr (rw other e, (other, absent))
  ]
]

-- If a trace with a non-empty id is selected, then after a refresh either the selection points to a
-- listed trace with that id, or no listed trace has it and the first one is selected.
pub refresh-selected :
    {F : Type 0} (st : Store F) (p : TracesPanel)
    → selected_id p ≢ []
    → let p' = refresh st p in
      ((r : Ref) × (get_elem? p'.traces p'.selected ≡ some r) × (r.trace.trace_id ≡ selected_id p))
      ⊎ ((p'.selected ≡ 0) × IsAbsent (selected_id p) p'.traces)
unfolding refresh
refresh-selected st p h = elim (find_selected_lem (selected_id p) 0 refs) [
  | inl (k, e, (r, at, same)) ↦
      inl (r, rw (asked, e) (ap (get_elem? refs) {x = 0 + k} {y = k} (omega arith) ∙ at), same)
  | inr (e, absent) ↦ inr (rw (asked, e), absent)
]
  where
    refs : List Ref
    refs = take recent_trace_limit (
        sort_by later
          (refs_of st (if str_eq p.service [] then service_names st else p.service ∷ [])))

    asked : str_eq (selected_id p) [] ≡ false
    asked = elim (Bool-cases (str_eq (selected_id p) [])) [
      | inl e ↦ absurd (h ((str_eq_iff (selected_id p) []).0 e))
      | inr e ↦ e
    ]
