-- ===== src/Receiver/Prometheus.antt =====
-- internal/receiver/prometheus.go: the polling loop, and metric families turned into events. A value
-- of the client model is the record of what its accessors return; a family's type decides which of
-- them `convertFamily` reads.
pub mod Families
pub mod Polling
use taplytix.Prelude.{
  ℕ, each, ◌*◌, Bool, true, false, Option, none, some, List, [], ◌∷◌, ◌++◌, if◌then◌else◌, Str,
  bytes, str_eq,
}
use taplytix.Prelude.Int.{ℤ, pos, pos_part, leb_ℤ}
use taplytix.Prelude.Maps.{Map, insert, insert_all}
use taplytix.Clock.{Time, second}
use taplytix.Floats.{Floats}
use taplytix.Model.{MetricKind, counter, gauge, histogram, MetricEvent, Event, metric}
use taplytix.Receiver.Outlet.{Outlet, emit_to}
use taplytix.Receiver.Backoff.{grow}

pub record Single (F : Type 0) : Type 0 where
  pub labels : Map Str
  pub value : F

pub record Bucket (F : Type 0) : Type 0 where
  pub upper_bound : F
  pub cumulative_count : ℕ

pub record HistogramMetric (F : Type 0) : Type 0 where
  pub labels : Map Str
  pub sample_count : ℕ
  pub sample_sum : F
  pub buckets : List (Bucket F)

pub record Quantile (F : Type 0) : Type 0 where
  pub quantile : F
  pub value : F

pub record SummaryMetric (F : Type 0) : Type 0 where
  pub labels : Map Str
  pub sample_count : ℕ
  pub sample_sum : F
  pub quantiles : List (Quantile F)

-- `fam.GetMetric()` by `fam.GetType()`.
pub data FamilyMetrics (F : Type 0) : Type 0 where
  counters : List (Single F) → FamilyMetrics F
  gauges : List (Single F) → FamilyMetrics F
  untyped : List (Single F) → FamilyMetrics F
  histograms : List (HistogramMetric F) → FamilyMetrics F
  summaries : List (SummaryMetric F) → FamilyMetrics F
  other_type : FamilyMetrics F

pub record Family (F : Type 0) : Type 0 where
  pub name : Str
  pub metrics : FamilyMetrics F

-- `labelsToMap`; a nil map reads like an empty one.
unfoldable pub labels_to_map : Map Str → Map Str
labels_to_map pairs = insert_all [] pairs

unfoldable pub copy_map : Map Str → Map Str
copy_map m = insert_all [] m

-- What of package fmt the receiver uses: `%g` of a float.
pub record Format (F : Type 0) : Type 0 where
  pub format_g : F → Str

module _ {F : Type 0} (fl : Floats F) (fmt : Format F) (source : Str) (now : Time) where
  abbrev pub Out : Type 0
  Out = Option (Outlet (Event F))

  abbrev pub point : Str → F → Map Str → MetricKind → MetricEvent F
  point name value labels kind = record {
    name = name;
    value = value;
    labels = labels;
    kind = kind;
    timestamp = now;
    source = source;
  }

  -- The test of `formatBound` decides nothing: both ways return the formatted number.
  abbrev pub format_bound : F → Str
  format_bound v = fmt.format_g v

  abbrev pub single_point : Str → MetricKind → Single F → MetricEvent F
  single_point name kind m = point name m.value (labels_to_map m.labels) kind

  abbrev pub emit_singles : Str → MetricKind → List (Single F) → Out → Out
  emit_singles name kind = each (λ m (out : Out). emit_to out (metric (single_point name kind m)))

  abbrev pub bucket_point : Str → Map Str → Bucket F → MetricEvent F
  bucket_point name labels bk =
      point (name ++ bytes "_bucket") (fl.of_int (pos bk.cumulative_count))
        (insert (bytes "le") (format_bound bk.upper_bound) (copy_map labels)) histogram

  abbrev pub emit_buckets : Str → Map Str → List (Bucket F) → Out → Out
  emit_buckets name labels =
      each (λ bk (out : Out). emit_to out (metric (bucket_point name labels bk)))

  abbrev pub quantile_point : Str → Map Str → Quantile F → MetricEvent F
  quantile_point name labels q =
      point name q.value (insert (bytes "quantile") (format_bound q.quantile) (copy_map labels))
        histogram

  abbrev pub emit_quantiles : Str → Map Str → List (Quantile F) → Out → Out
  emit_quantiles name labels =
      each (λ q (out : Out). emit_to out (metric (quantile_point name labels q)))

  abbrev pub count_point : Str → ℕ → Map Str → MetricEvent F
  count_point name n labels = point (name ++ bytes "_count") (fl.of_int (pos n)) labels counter

  abbrev pub sum_point : Str → F → Map Str → MetricEvent F
  sum_point name v labels = point (name ++ bytes "_sum") v labels counter

  abbrev pub emit_totals : Str → ℕ → F → Map Str → Out → Out
  emit_totals name n v labels out =
      emit_to (emit_to out (metric (count_point name n labels))) (metric (sum_point name v labels))

  abbrev pub emit_histogram : Str → HistogramMetric F → Out → Out
  emit_histogram name m out =
      let labels = labels_to_map m.labels in
      emit_buckets name labels m.buckets (emit_totals name m.sample_count m.sample_sum labels out)

  abbrev pub emit_summary : Str → SummaryMetric F → Out → Out
  emit_summary name m out =
      let labels = labels_to_map m.labels in
      emit_quantiles name labels m.quantiles
        (emit_totals name m.sample_count m.sample_sum labels out)

  abbrev pub emit_by_type : Str → FamilyMetrics F → Out → Out
  emit_by_type name (counters ms) out = emit_singles name counter ms out
  emit_by_type name (gauges ms) out = emit_singles name gauge ms out
  emit_by_type name (untyped ms) out = emit_singles name gauge ms out
  emit_by_type name (histograms ms) out = each (emit_histogram name) ms out
  emit_by_type name (summaries ms) out = each (emit_summary name) ms out
  emit_by_type name other_type out = out

  -- `convertFamily`
  unfoldable pub convert_family : Family F → Out → Out
  convert_family fam out = emit_by_type fam.name fam.metrics out

  -- The loop of `scrapeOnce` over the families of a page.
  unfoldable pub convert_families : List (Family F) → Out → Out
  unfolding convert_family
  convert_families = each convert_family

-- `NewPrometheus`
abbrev pub poll_interval : ℤ → ℕ
poll_interval interval = if leb_ℤ interval (pos 0) then 2 * second else pos_part interval
