-- ===== src/Receiver/Otlp/Requests.antt =====
-- What a request of internal/receiver/otlp.go puts on the channel.
use taplytix.Prelude.{flat, ◌≡◌, List, [], ◌∷◌, map, Str}
use taplytix.Prelude.Maps.{Map, lookup, lookup-copy, IsMap}
use taplytix.Floats.{Floats}
use taplytix.Model.{MetricKind, counter, gauge, Event, metric, span, log}
use taplytix.Receiver.Outlet.{Outlet}
use taplytix.Receiver.Sends.{Sends}
use taplytix.Receiver.Otlp.{
  OtlpSpan, LogRecord, OtlpMetric, NumberPoint, gauge_points, sum_points, histogram_points,
  other_points, Resource, string_attr, service_name_attr, span_to_model, log_record_to_model,
  number_data_point_to_model, histogram_to_model, attrs_to_map,
}

-- The events of a request, resource by resource and scope by scope.
abbrev pub gather {κ} :
    {A : Type 0} {E : Type κ} → Str → (Str → A → List E) → List (Resource A) → List E
gather name f =
    flat (λ r. flat (flat (f (string_attr r.attributes service_name_attr name))) r.scopes)

module _ {F : Type 0} where
  abbrev pub span_events : Str → OtlpSpan → List (Event F)
  span_events service s = span (span_to_model s service) ∷ []

  abbrev pub log_events : Str → LogRecord → List (Event F)
  log_events service rec = log (log_record_to_model rec service) ∷ []

module _ {F : Type 0} (fl : Floats F) where
  abbrev pub point_events : MetricKind → Str → Str → List (NumberPoint F) → List (Event F)
  point_events kind name service =
      map (λ dp. metric (number_data_point_to_model fl dp name kind service))

  -- One event for each data point; none for the types that are not handled.
  abbrev pub metric_events : Str → OtlpMetric F → List (Event F)
  metric_events service m = elim m.points [
    | gauge_points dps ↦ point_events gauge m.name service dps
    | sum_points dps ↦ point_events counter m.name service dps
    | histogram_points dps ↦ map (λ dp. metric (histogram_to_model dp m.name service)) dps
    | other_points ↦ []
  ]

-- Where no key of an attribute list stands twice, as OTLP asks, the event's map holds exactly what
-- `Get` finds in the list.
pub attrs_to_map-lookup : (m : Map Str) (k : Str) → IsMap m → lookup k (attrs_to_map m) ≡ lookup k m
unfolding attrs_to_map
attrs_to_map-lookup m k h = lookup-copy m k h
