-- ===== src/Store/Series.antt =====
-- internal/store/timeseries.go: the sliding window of samples of one metric.
pub mod History
use taplytix.Prelude.{ℕ, ◌-◌, Bool, ◌||◌, List, length, drop, if◌then◌else◌, Str}
use taplytix.Prelude.Int.{ℤ, pos, pos_part, leb_ℤ}
use taplytix.Prelude.Maps.{Map}
use taplytix.Clock.{Time, zero_time}
use taplytix.Floats.{Floats}
use taplytix.Model.{MetricKind, MetricEvent}
use taplytix.Store.Ring
use taplytix.Store.Ring.{Ring}
use taplytix.Store.Percentile.{percentile}

abbrev pub default_series_capacity : ℤ
default_series_capacity = pos 300

pub record Series (F : Type 0) : Type 0 where
  pub name : Str
  pub labels : Map Str
  pub kind : MetricKind
  pub ring : Ring F
  pub last : F
  pub last_time : Time

module _ {F : Type 0} (fl : Floats F) where
  -- A fresh `last` and `lastTime` are the zero values of their types.
  unfoldable pub new_series : Str → MetricKind → Map Str → ℤ → Series F
  new_series name kind labels capacity = record {
    name = name;
    labels = labels;
    kind = kind;
    ring =
        Ring.new_ring (fl.of_int (pos 0))
          (if leb_ℤ capacity (pos 0) then default_series_capacity else capacity);
    last = fl.of_int (pos 0);
    last_time = zero_time;
  }

  unfoldable pub values : Series F → List F
  values s = Ring.slice (fl.of_int (pos 0)) s.ring

  unfoldable pub p50 : Series F → F
  unfolding values
  p50 s = percentile fl (values s) (fl.of_int (pos 50))

  unfoldable pub p95 : Series F → F
  unfolding values
  p95 s = percentile fl (values s) (fl.of_int (pos 95))

  unfoldable pub p99 : Series F → F
  unfolding values
  p99 s = percentile fl (values s) (fl.of_int (pos 99))

  -- `all[len(all)-n:]` unless `n` is out of range.
  unfoldable pub sparkline : Series F → ℤ → List F
  unfolding values
  sparkline s n =
      let all = values s in
      if leb_ℤ n (pos 0) || leb_ℤ (pos (length all)) n
      then all
      else drop (length all - pos_part n) all

unfoldable pub push_sample : {F : Type 0} → Series F → MetricEvent F → Series F
push_sample s e = record s {
  ring = Ring.push s.ring e.value;
  last = e.value;
  last_time = e.timestamp;
}
