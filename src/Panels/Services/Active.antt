-- ===== src/Panels/Services/Active.antt =====
-- The active service of internal/tui/panels/services.go and the selection of its list.
use taplytix.Prelude.{
  ℕ, suc, ◌+◌, ◌≡◌, ◌⊎◌, inl, inr, refl, ap, ◌∙◌, false, none, some, List, [], ◌∷◌, map, All,
  get_elem?, arith, Str, str_eq, str_eq_iff, Bool-cases,
}
use taplytix.Clock.{Time}
use taplytix.Floats.{Floats}
use taplytix.Store.Services.{Store, service_names, service_status}
use taplytix.Panels.Services.{
  ServiceEntry, ServicesPanel, select_from, select_index, entries_of, update, service_changed,
}

-- The entry at the index has the name.
abbrev Points : {F : Type 0} → Str → List (ServiceEntry F) → ℕ → Type 0
Points {F} name entries k = (e : ServiceEntry F) × (get_elem? entries k ≡ some e) × (e.name ≡ name)

abbrev pub IsAbsent : {F : Type 0} → Str → List (ServiceEntry F) → Type 0
IsAbsent name entries = All (λ e. str_eq e.name name ≡ false) entries

-- What the loop finds, counted from its start.
abbrev Finds : {F : Type 0} → Str → ℕ → List (ServiceEntry F) → Type 0
Finds {F} name i entries =
    ((k : ℕ) × (select_from name i entries ≡ some (i + k)) × Points name entries k)
    ⊎ ((select_from name i entries ≡ none) × IsAbsent name entries)

select_from_lem :
    {F : Type 0} (name : Str) (i : ℕ) (entries : List (ServiceEntry F)) → Finds name i entries
unfolding select_from
select_from_lem name i [] = inr (refl, tt)
select_from_lem name i (e ∷ entries) = elim (select_from_lem name (i + 1) entries) [
  | inl (k, found, p) ↦ inl (suc k, rw found (ap some (omega arith)), p)
  | inr (missed, absent) ↦ elim (Bool-cases (str_eq e.name name)) [
    | inl same ↦
        inl
          (0, rw (missed, same) (ap some (omega arith)), (e, refl, (str_eq_iff e.name name).0 same))
    | inr other ↦ inr (rw (missed, other), (other, absent))
  ]
]

module _ {F : Type 0} (fl : Floats F) (now : Time) where
  -- After the service has been changed, by this panel or by another, the list has the services of the
  -- store; the active service is the new one and selected, or it is not known to the store and the
  -- index is what it was. The panel itself asks for nothing.
  pub service_changed-selects :
      (st : Store F) (svc : Str) (p : ServicesPanel F)
      → let (p', cmd) = update fl now st (service_changed svc) p in
        (p'.active ≡ svc)
        × (cmd ≡ none)
        × (map (λ e. e.name) p'.services ≡ service_names st)
        × (((e : ServiceEntry F) × (get_elem? p'.services p'.index ≡ some e) × (e.name ≡ svc))
            ⊎ ((p'.index ≡ p.index) × IsAbsent svc p'.services))
  unfolding update
  service_changed-selects st svc p = (
    refl,
    refl,
    names (service_names st),
    by_search (select_from_lem svc 0 (entries_of fl now st)),
  )
    where
      names :
          (ns : List Str)
          → map
              (λ (e : ServiceEntry F). e.name)
              (map (λ n. record { name = n; status = service_status fl now st n }) ns)
            ≡ ns
      names [] = refl
      names (n ∷ ns) = ap (λ r. n ∷ r) (names ns)

      by_search :
          Finds svc 0 (entries_of fl now st)
          → ((e : ServiceEntry F) × (get_elem?
                  (entries_of fl now st)
                  (select_index p.index (select_from svc 0 (entries_of fl now st)))
                ≡ some e)
              × (e.name ≡ svc))
            ⊎ ((select_index p.index (select_from svc 0 (entries_of fl now st)) ≡ p.index)
                × IsAbsent svc (entries_of fl now st))
      by_search (inl (k, found, (e, at, same))) = inl (
        e,
        rw found (ap (get_elem? (entries_of fl now st)) {x = 0 + k} {y = k} (omega arith) ∙ at),
        same,
      )
      by_search (inr (missed, absent)) = inr (rw missed, absent)
