-- ===== src/Panels/Overview.antt =====
-- internal/tui/panels/overview.go: the vital signs of a service and the table of its slowest
-- operations. The table widget and the text of package fmt are left out: a row keeps its numbers.
pub mod Operations
use taplytix.Prelude.{
  ℕ, ◌+◌, ◌-◌, Bool, true, false, ◌&&◌, ◌||◌, Option, none, some, List, [], ◌∷◌, ◌++◌, map, length,
  take, flat, each, if◌then◌else◌, ltb, leb, ◌==◌, Str, bytes, str_eq,
}
use taplytix.Prelude.Int.{ℤ, pos, leb_ℤ, ltb_ℤ}
use taplytix.Prelude.Maps.{Map, lookup, insert}
use taplytix.Prelude.Sort.{sort_by}
use taplytix.Prelude.Text.{contains_text, to_lower}
use taplytix.Clock.{Time, Duration, zero_time, is_zero, before, sub_time, second}
use taplytix.Floats.{Floats}
use taplytix.Model.{SpanEvent, Trace}
use taplytix.Store.Ring
use taplytix.Store.Ring.{Ring}
use taplytix.Store.Percentile.{percentile}
use taplytix.Store.Series.{Series}
use taplytix.Store.TraceMap.{TraceMap, recent}
use taplytix.Store.Services.{Store, is_error, traces_for, metrics_for}

abbrev pub spark_samples : ℤ
spark_samples = pos 40

abbrev pub table_top : ℕ
table_top = 10

abbrev pub root_spans : Option SpanEvent → List SpanEvent
root_spans none = []
root_spans (some r) = r ∷ []

-- What `collectSpans` visits, in order.
unfoldable pub collect_spans : Trace → List SpanEvent
collect_spans t = root_spans t.root ++ flat (λ e. e.1) t.children

-- `bucket`
pub record Op (F : Type 0) : Type 0 where
  pub durs : List F
  pub errors : ℕ

abbrev pub no_op : {F : Type 0} → Op F
no_op = record { durs = []; errors = 0 }

abbrev pub op_or_new : {F : Type 0} → Option (Op F) → Op F
op_or_new none = no_op
op_or_new (some b) = b

-- The variables of the loop over the spans.
pub record Tally (F : Type 0) : Type 0 where
  pub durations : List F
  pub by_op : Map (Op F)
  pub total_spans : ℕ
  pub oldest : Time

abbrev pub no_tally : {F : Type 0} → Tally F
no_tally = record { durations = []; by_op = []; total_spans = 0; oldest = zero_time }

pub record OpRow (F : Type 0) : Type 0 where
  pub name : Str
  pub p50 : F
  pub p95 : F
  pub p99 : F
  pub count : ℕ
  pub errors : ℕ

abbrev pub is_heap : Str → Bool
is_heap name =
    contains_text (to_lower name) (bytes "heap") && contains_text (to_lower name) (bytes "use")

module _ {F : Type 0} (fl : Floats F) where
  -- `float64(s.Duration) / float64(time.Millisecond)`
  abbrev pub millis : SpanEvent → F
  millis s = fl.div (fl.of_int s.duration) (fl.of_int (pos 1000000))

  abbrev pub add_to_op : SpanEvent → Op F → Op F
  add_to_op s b = record {
    durs = b.durs ++ millis s ∷ [];
    errors = if is_error s.status then b.errors + 1 else b.errors;
  }

  -- The function that `refresh` gives to `collectSpans`.
  unfoldable pub visit : SpanEvent → Tally F → Tally F
  visit s y = record {
    durations = y.durations ++ millis s ∷ [];
    by_op = insert s.name (add_to_op s (op_or_new (lookup s.name y.by_op))) y.by_op;
    total_spans = y.total_spans + 1;
    oldest = if is_zero y.oldest || before s.start_time y.oldest then s.start_time else y.oldest;
  }

  abbrev pub tally_traces : List Trace → Tally F → Tally F
  tally_traces = each (λ t. each visit (collect_spans t))

  unfoldable pub tally_of : Option TraceMap → Tally F
  unfolding visit collect_spans
  tally_of none = no_tally
  tally_of (some tm) = tally_traces (recent tm (pos 0)) no_tally

  abbrev pub row_of : Str × Op F → OpRow F
  row_of e = record {
    name = e.0;
    p50 = percentile fl e.1.durs (fl.of_int (pos 50));
    p95 = percentile fl e.1.durs (fl.of_int (pos 95));
    p99 = percentile fl e.1.durs (fl.of_int (pos 99));
    count = length e.1.durs;
    errors = e.1.errors;
  }

  abbrev pub slower : OpRow F → OpRow F → Bool
  slower a b = fl.lt b.p95 a.p95

  -- The rows of the table.
  unfoldable pub op_rows : Map (Op F) → List (OpRow F)
  op_rows by_op = take table_top (sort_by slower (map row_of by_op))

  -- `lookupHeap`: the first match in the order of the map.
  unfoldable pub lookup_heap : Map (Series F) → F
  lookup_heap [] = fl.of_int (pos 0)
  lookup_heap ((name, s) ∷ m) = let rest = lookup_heap m in if is_heap name then s.last else rest

pub record OverviewPanel (F : Type 0) : Type 0 where
  pub service : Str
  pub p99_hist : Ring F
  pub p50_hist : Ring F
  pub heap_hist : Ring F
  pub spans_hist : Ring F
  pub p99 : F
  pub p50 : F
  pub heap : F
  pub spans : ℕ
  pub has_data : Bool
  pub rows : List (OpRow F)

pub data Msg : Type 0 where
  refresh_msg : Msg
  service_changed : Str → Msg
  other_msg : ℕ → Msg

module _ {F : Type 0} (fl : Floats F) where
  -- `NewOverview`, with the service that the configuration names.
  unfoldable pub new_overview : Str → OverviewPanel F
  new_overview service =
      let hist = Ring.new_ring (fl.of_int (pos 0)) spark_samples in
      record {
        service = service;
        p99_hist = hist;
        p50_hist = hist;
        heap_hist = hist;
        spans_hist = hist;
        p99 = fl.of_int (pos 0);
        p50 = fl.of_int (pos 0);
        heap = fl.of_int (pos 0);
        spans = 0;
        has_data = false;
        rows = [];
      }

  unfoldable pub refresh : Store F → OverviewPanel F → OverviewPanel F
  unfolding tally_of op_rows lookup_heap
  refresh st p =
      let y = tally_of fl (traces_for st p.service) in
      let p99 = percentile fl y.durations (fl.of_int (pos 99)) in
      let p50 = percentile fl y.durations (fl.of_int (pos 50)) in
      let heap = lookup_heap fl (metrics_for st p.service) in
      record {
        service = p.service;
        p99_hist = Ring.push p.p99_hist p99;
        p50_hist = Ring.push p.p50_hist p50;
        heap_hist = Ring.push p.heap_hist heap;
        spans_hist = Ring.push p.spans_hist (fl.of_int (pos y.total_spans));
        p99 = p99;
        p50 = p50;
        heap = heap;
        spans = y.total_spans;
        has_data = ltb 0 (length y.durations) || fl.lt (fl.of_int (pos 0)) heap;
        rows = op_rows fl y.by_op;
      }

  unfoldable pub update : Store F → Msg → OverviewPanel F → OverviewPanel F
  unfolding refresh
  update st refresh_msg p = refresh st p
  update st (service_changed svc) p =
      refresh st (if str_eq svc [] then p else record p { service = svc })
  update st (other_msg n) p = p

-- `truncate`, which cuts bytes; the ellipsis is three bytes of UTF-8.
abbrev pub ellipsis : Str
ellipsis = 226 ∷ 128 ∷ 166 ∷ []

unfoldable pub truncate : Str → ℕ → Str
truncate s n =
    if leb (length s) n then s else if leb n 1 then take n s else take (n - 1) s ++ ellipsis
