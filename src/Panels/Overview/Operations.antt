-- ===== src/Panels/Overview/Operations.antt =====
-- The tally of internal/tui/panels/overview.go over the spans of a service.
use taplytix.Prelude.{◌+◌, List, ◌++◌, map, keep_if, count_if, Str, str_eq}
use taplytix.Floats.{Floats}
use taplytix.Model.{SpanEvent}
use taplytix.Store.TraceMap.{TraceMap}
use taplytix.Store.Services.{is_error}
use taplytix.Panels.Overview.{Op, millis}

-- The spans of an operation.
abbrev pub with_name : Str → List SpanEvent → List SpanEvent
with_name name = keep_if (λ s. str_eq s.name name)

module _ {F : Type 0} (fl : Floats F) where
  -- The entry of an operation after more of its spans.
  abbrev pub op_after : List SpanEvent → Op F → Op F
  op_after spans b = record {
    durs = b.durs ++ map (millis fl) spans;
    errors = b.errors + count_if (λ s. is_error s.status) spans;
  }
