-- ===== src/Receiver/Prometheus/Families.antt =====
-- The events that `convertFamily` of internal/receiver/prometheus.go sends.
use taplytix.Prelude.{
  ℕ, ◌≡◌, ap, ◌∙◌, Option, some, List, [], ◌∷◌, map, flat, each, Str, bytes, str_eq, if◌then◌else◌,
}
use taplytix.Prelude.Maps.{Map, lookup, lookup-insert, lookup-copy, insert_all, insert_all-IsMap}
use taplytix.Clock.{Time}
use taplytix.Floats.{Floats}
use taplytix.Model.{MetricKind, counter, gauge, Event, metric}
use taplytix.Receiver.Outlet.{Outlet, emit_to}
use taplytix.Receiver.Sends.{
  send_all, send_all_nil, send_all-append, Sends, each-Sends, one-Sends, map-Sends, Delivers,
  Sends-Delivers,
}
use taplytix.Receiver.Prometheus.{
  Single, Bucket, HistogramMetric, Quantile, SummaryMetric, Family, FamilyMetrics, counters, gauges,
  untyped, histograms, summaries, other_type, labels_to_map, copy_map, Format, single_point,
  bucket_point, quantile_point, count_point, sum_point, emit_histogram, emit_summary, emit_by_type,
  convert_family, convert_families,
}

module _ {F : Type 0} (fl : Floats F) (fmt : Format F) (source : Str) (now : Time) where
  abbrev pub histogram_events : Str → HistogramMetric F → List (Event F)
  histogram_events name m =
      let labels = labels_to_map m.labels in
      metric (count_point fl fmt source now name m.sample_count labels)
      ∷ metric (sum_point fl fmt source now name m.sample_sum labels)
      ∷ map (λ bk. metric (bucket_point fl fmt source now name labels bk)) m.buckets

  abbrev pub summary_events : Str → SummaryMetric F → List (Event F)
  summary_events name m =
      let labels = labels_to_map m.labels in
      metric (count_point fl fmt source now name m.sample_count labels)
      ∷ metric (sum_point fl fmt source now name m.sample_sum labels)
      ∷ map (λ q. metric (quantile_point fl fmt source now name labels q)) m.quantiles

  abbrev pub single_events : Str → MetricKind → List (Single F) → List (Event F)
  single_events name kind = map (λ m. metric (single_point fl fmt source now name kind m))

  -- The events of a family, in the order of its metrics.
  abbrev pub family_events : Family F → List (Event F)
  family_events fam = elim fam.metrics [
    | counters ms ↦ single_events fam.name counter ms
    | gauges ms ↦ single_events fam.name gauge ms
    | untyped ms ↦ single_events fam.name gauge ms
    | histograms ms ↦ flat (histogram_events fam.name) ms
    | summaries ms ↦ flat (summary_events fam.name) ms
    | other_type ↦ []
  ]

  then_map-Sends :
      {A : Type 0} (f : A → Event F) (first second : Event F) (xs : List A)
      (out : Option (Outlet (Event F)))
      → each
          (λ a (o : Option (Outlet (Event F))). emit_to o (f a))
          xs
          (emit_to (emit_to out first) second)
        ≡ send_all (first ∷ second ∷ map f xs) out
  then_map-Sends f first second xs out =
      map-Sends f xs (emit_to (emit_to out first) second)
      ∙ ap (send_all (map f xs)) (
          one-Sends (λ (e : Event F). e) second (emit_to out first)
          ∙ ap (send_all (second ∷ [])) (one-Sends (λ (e : Event F). e) first out)
          ∙ send_all-append (first ∷ []) (second ∷ []) out)
      ∙ send_all-append (first ∷ second ∷ []) (map f xs) out

  histogram-Sends :
      (name : Str) → Sends (emit_histogram fl fmt source now name) (histogram_events name)
  histogram-Sends name m =
      let labels = labels_to_map m.labels in
      then_map-Sends (λ bk. metric (bucket_point fl fmt source now name labels bk))
        (metric (count_point fl fmt source now name m.sample_count labels))
        (metric (sum_point fl fmt source now name m.sample_sum labels)) m.buckets

  summary-Sends : (name : Str) → Sends (emit_summary fl fmt source now name) (summary_events name)
  summary-Sends name m =
      let labels = labels_to_map m.labels in
      then_map-Sends (λ q. metric (quantile_point fl fmt source now name labels q))
        (metric (count_point fl fmt source now name m.sample_count labels))
        (metric (sum_point fl fmt source now name m.sample_sum labels)) m.quantiles

  by_type-Sends :
      (name : Str) (ms : FamilyMetrics F) (out : Option (Outlet (Event F)))
      → emit_by_type fl fmt source now name ms out
        ≡ send_all (family_events (record { name = name; metrics = ms })) out
  by_type-Sends name (counters ms) =
      map-Sends (λ m. metric (single_point fl fmt source now name counter m)) ms
  by_type-Sends name (gauges ms) =
      map-Sends (λ m. metric (single_point fl fmt source now name gauge m)) ms
  by_type-Sends name (untyped ms) =
      map-Sends (λ m. metric (single_point fl fmt source now name gauge m)) ms
  by_type-Sends name (histograms ms) =
      each-Sends (emit_histogram fl fmt source now name) (histogram_events name)
        (histogram-Sends name) ms
  by_type-Sends name (summaries ms) =
      each-Sends (emit_summary fl fmt source now name) (summary_events name) (summary-Sends name) ms
  by_type-Sends name other_type = send_all_nil

  family-Sends : Sends (convert_family fl fmt source now) family_events
  unfolding convert_family
  family-Sends fam = by_type-Sends fam.name fam.metrics

  -- A scraped page is put on the channel family by family and metric by metric, until it is full: one
  -- event for each counter, gauge and untyped metric, and for each histogram or summary its count, its
  -- sum, and then its buckets or quantiles in their order. Nothing happens where the receiver has no
  -- channel.
  pub convert_families-Delivers :
      (fams : List (Family F))
      → Delivers (convert_families fl fmt source now fams) (flat family_events fams)
  unfolding convert_families
  convert_families-Delivers fams =
      Sends-Delivers (convert_families fl fmt source now fams) (flat family_events fams)
        (each-Sends (convert_family fl fmt source now) family_events family-Sends fams)

  lookup-child :
      (pairs : Map Str) (k : Str)
      → lookup k (insert_all [] (labels_to_map pairs)) ≡ lookup k (labels_to_map pairs)
  unfolding labels_to_map
  lookup-child pairs k = lookup-copy (insert_all [] pairs) k (insert_all-IsMap [] pairs tt)

  -- The series of a bucket or a quantile have the labels of their metric and one more, `le` or
  -- `quantile` with the formatted bound, which stands in place of a label of that name; the count and
  -- the sum of the metric have its own labels.
  pub child-labels :
      (name : Str) (pairs : Map Str) (bk : Bucket F) (q : Quantile F) (n : ℕ) (k : Str)
      → (lookup k (bucket_point fl fmt source now name (labels_to_map pairs) bk).labels ≡ (
          if str_eq (bytes "le") k
          then some (fmt.format_g bk.upper_bound)
          else lookup k (count_point fl fmt source now name n (labels_to_map pairs)).labels))
        × (lookup k (quantile_point fl fmt source now name (labels_to_map pairs) q).labels ≡ (
            if str_eq (bytes "quantile") k
            then some (fmt.format_g q.quantile)
            else lookup k (sum_point fl fmt source now name q.value (labels_to_map pairs)).labels))
  unfolding copy_map
  child-labels name pairs bk q n k = (
    lookup-insert (bytes "le") k (fmt.format_g bk.upper_bound) (insert_all [] (labels_to_map pairs))
        ∙ ap (λ o. if str_eq (bytes "le") k then some (fmt.format_g bk.upper_bound) else o)
            (lookup-child pairs k),
    lookup-insert (bytes "quantile") k (fmt.format_g q.quantile)
          (insert_all [] (labels_to_map pairs))
        ∙ ap (λ o. if str_eq (bytes "quantile") k then some (fmt.format_g q.quantile) else o)
            (lookup-child pairs k),
  )
