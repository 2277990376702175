-- ===== src/Store/Services/Isolation.antt =====
-- Services do not share state: what the store holds for one depends on its own events alone.
use taplytix.Prelude.{
  ◌≡◌, refl, sym, ◌∙◌, Bool, false, Option, none, some, List, [], ◌∷◌, keep_if, if◌then◌else◌, Str,
  str_eq, Bool-cases, inl, inr,
}
use taplytix.Prelude.Int.{ℤ}
use taplytix.Prelude.Maps.{lookup, lookup-update}
use taplytix.Clock.{Time}
use taplytix.Floats.{Floats}
use taplytix.Model.{Event, metric, span, log, other}
use taplytix.Store.Services.{
  Store, ServiceState, new_store, state_or_new, with_service, service_name, service_metric,
  service_span, service_log, push_metric, push_span, push_log, ingest, default_log_capacity,
}
use taplytix.Store.Series.{default_series_capacity}

-- An event, with the instant at which it is taken in.
abbrev pub Stamped : Type 0 → Type 0
Stamped F = Time × Event F

module _ {F : Type 0} where
  -- The event is stored under this service.
  abbrev pub goes_to : Str → Stamped F → Bool
  goes_to name (now, metric e) = str_eq (service_name e.source) name
  goes_to name (now, span e) = str_eq (service_name e.service) name
  goes_to name (now, log e) = str_eq (service_name e.service) name
  goes_to name (now, other n) = false

  abbrev pub own : Str → List (Stamped F) → List (Stamped F)
  own name evs = keep_if (goes_to name) evs

module _ {F : Type 0} (fl : Floats F) where
  -- The pipeline's loop over the events that it receives.
  unfoldable pub ingest_all : Store F → List (Stamped F) → Store F
  ingest_all s [] = s
  ingest_all s ((now, e) ∷ evs) = ingest_all (ingest fl now e s) evs

  unfoldable pub service_step : ℤ → Stamped F → ServiceState F → ServiceState F
  service_step limit (now, metric e) st = service_metric fl now limit e st
  service_step limit (now, span e) st = service_span fl now e st
  service_step limit (now, log e) st = service_log fl now e st
  service_step limit (now, other n) st = st

  unfoldable pub service_steps : ℤ → ServiceState F → List (Stamped F) → ServiceState F
  service_steps limit st [] = st
  service_steps limit st (e ∷ evs) = service_steps limit (service_step limit e st) evs

  -- A service comes into being with its first event.
  abbrev pub grow : ℤ → ℤ → Option (ServiceState F) → List (Stamped F) → Option (ServiceState F)
  grow limit log_cap o [] = o
  grow limit log_cap o (e ∷ evs) = some (service_steps limit (state_or_new log_cap o) (e ∷ evs))

  grow-cons :
      (limit log_cap : ℤ) (o : Option (ServiceState F)) (e : Stamped F) (evs : List (Stamped F))
      → grow limit log_cap o (e ∷ evs)
        ≡ grow limit log_cap (some (service_step limit e (state_or_new log_cap o))) evs
  unfolding service_steps
  grow-cons limit log_cap o e [] = refl
  grow-cons limit log_cap o e (e' ∷ evs) = refl

  lookup-with_service :
      (s : Store F) (src name : Str) (f : ServiceState F → ServiceState F)
      → lookup name (with_service s src f).services ≡ (
          if str_eq (service_name src) name
          then some (f (state_or_new s.log_cap (lookup name s.services)))
          else lookup name s.services)
  unfolding with_service
  lookup-with_service s src name f =
      lookup-update (service_name src) name (λ o. f (state_or_new s.log_cap o)) s.services

  lookup-ingest :
      (name : Str) (e : Stamped F) (s : Store F)
      → lookup name (ingest fl e.0 e.1 s).services ≡ (
          if goes_to name e
          then some (service_step s.series_cap e (state_or_new s.log_cap (lookup name s.services)))
          else lookup name s.services)
  unfolding ingest service_step push_metric push_span push_log
  lookup-ingest name (now, metric e) s =
      lookup-with_service s e.source name (service_metric fl now s.series_cap e)
  lookup-ingest name (now, span e) s = lookup-with_service s e.service name (service_span fl now e)
  lookup-ingest name (now, log e) s = lookup-with_service s e.service name (service_log fl now e)
  lookup-ingest name (now, other n) s = refl

  -- The capacities are set once and for all.
  caps-ingest :
      (e : Stamped F) (s : Store F)
      → let s' = ingest fl e.0 e.1 s in (s'.series_cap ≡ s.series_cap) × (s'.log_cap ≡ s.log_cap)
  unfolding ingest push_metric push_span push_log with_service
  caps-ingest (now, metric e) s = (refl, refl)
  caps-ingest (now, span e) s = (refl, refl)
  caps-ingest (now, log e) s = (refl, refl)
  caps-ingest (now, other n) s = (refl, refl)

  lookup-ingest_all :
      (name : Str) (evs : List (Stamped F)) (s : Store F)
      → lookup name (ingest_all s evs).services
        ≡ grow s.series_cap s.log_cap (lookup name s.services) (own name evs)
  unfolding ingest_all
  lookup-ingest_all name [] s = refl
  lookup-ingest_all name (e ∷ evs) s =
      lookup-ingest_all name evs (ingest fl e.0 e.1 s)
      ∙ (λ i.
          grow ((caps-ingest e s).0 i) ((caps-ingest e s).1 i) (lookup-ingest name e s i)
            (own name evs))
      ∙ elim (Bool-cases (goes_to name e)) [
        | inl mine ↦
            rw mine
              (sym (grow-cons s.series_cap s.log_cap (lookup name s.services) e (own name evs)))
        | inr not_mine ↦ rw not_mine
      ]

  -- What the store holds under a service's name after any events is nothing if none of them was for
  -- that service, and otherwise what its own events, taken in order, make of a new service state:
  -- events of other services and values of other types leave no trace in it.
  pub service_isolation :
      (name : Str) (evs : List (Stamped F))
      → lookup name (ingest_all new_store evs).services
        ≡ grow default_series_capacity default_log_capacity none (own name evs)
  service_isolation name evs =
      lookup-ingest_all name evs new_store ∙ unfold new_store lookup in refl
