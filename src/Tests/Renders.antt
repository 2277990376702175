-- ===== src/Tests/Renders.antt =====
-- Bars, sparklines and buckets on small inputs.
use taplytix.Prelude.{[], Str, bytes, ◌/◌}
use taplytix.Prelude.Int.{ℤ, pos, negsuc}
use taplytix.Floats.Exact.{Exact, nan, milli}
use taplytix.Model.{SpanEvent, ok}
use taplytix.Render.Cells.{Rounding}

-- The integer part, which for NaN is negative, as on amd64.
abbrev whole : Exact → ℤ
whole nan = negsuc 9223372036854775807
whole (milli a) = pos (a / 1000)

abbrev rounding : Rounding Exact
rounding = record { to_int = whole; round = whole; inf = milli 1000000; neg_inf = milli 0 }

abbrev span : SpanEvent
span = record {
  trace_id = bytes "t";
  span_id = bytes "s";
  parent_id = [];
  name = bytes "op";
  service = bytes "api";
  start_time = pos 950;
  duration = pos 10;
  status = ok;
  attrs = [];
}

abbrev no_label : Exact → Str
no_label x = []
