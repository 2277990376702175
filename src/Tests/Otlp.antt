-- ===== src/Tests/Otlp.antt =====
-- Requests, transports and shutdowns of the OTLP receiver.
use taplytix.Prelude.{ℕ, ◌≡◌, ◌↔◌, ◌⊎◌, true, none, some, List, [], ◌∷◌, length, Str, bytes}
use taplytix.Prelude.Int.{pos}
use taplytix.Floats.Exact.{Exact}
use taplytix.Receiver.Otlp.{
  OtlpSpan, code_error, OtlpMetric, sum_points, integer, LogRecord, Resource,
}
use taplytix.Receiver.Otlp.Handlers.{
  HttpRequest, Codec, bad_request, handle, IsUnreadable, Decodes, json_type, handle_lem,
}
use taplytix.Receiver.Otlp.Shutdown.{Server, Reach, stop_called, stopped, unsent, stop-returns_iff}
use taplytix.Receiver.Otlp.Servers

abbrev attributes : List (Str × Str)
attributes = (bytes "service.name", bytes "api") ∷ []

abbrev otlp_span : OtlpSpan
otlp_span = record {
  trace_id = bytes "t";
  span_id = bytes "s";
  parent_span_id = [];
  name = bytes "op";
  start_time = pos 100;
  end_time = pos 120;
  code = code_error;
  attributes = (bytes "k", bytes "v") ∷ [];
}

abbrev traces : List (Resource OtlpSpan)
traces = record { attributes = attributes; scopes = (otlp_span ∷ []) ∷ [] } ∷ []

abbrev metrics : List (Resource (OtlpMetric Exact))
metrics =
    record {
      attributes = [];
      scopes =
          (record {
            name = bytes "rps";
            points =
                sum_points
                  (record { value = integer (pos 3); attributes = []; timestamp = pos 7 } ∷ []);
          }
            ∷ [])
          ∷ [];
    }
    ∷ []

abbrev logs : List (Resource LogRecord)
logs =
    record {
      attributes = attributes;
      scopes =
          (record {
            timestamp = pos 5;
            severity_text = [];
            severity_number = pos 17;
            body = bytes "down";
            trace_id = [];
            attributes = [];
          }
            ∷ [])
          ∷ [];
    }
    ∷ []

-- A codec that knows one body in each format.
abbrev codec : Codec ℕ
codec = record {
  from_proto = λ s. none;
  from_json = λ s. some (length s);
  to_proto = some [];
  to_json = some (bytes "{}");
}

abbrev posted : HttpRequest
posted = record { content_type = json_type; body = some (bytes "[1]") }

handle_lem_example :
    (((handle codec (λ n s. n ∷ s) posted []).0 ≡ bad_request) ↔ IsUnreadable codec posted)
    × (((handle codec (λ n s. n ∷ s) posted []).0 ≡ bad_request)
        → (handle codec (λ n s. n ∷ s) posted []).1 ≡ [])
    × ((body : Str) (exp : ℕ)
        → posted.body ≡ some body
        → Decodes codec posted body (some exp)
        → (handle codec (λ n s. n ∷ s) posted []).1 ≡ exp ∷ [])
handle_lem_example = handle_lem codec (λ n s. n ∷ s) posted []

-- One call is done and one has two events left: Stop cannot return.
stop-returns_iff_example :
    ((t : Server) × Reach (stop_called (0 ∷ 2 ∷ [])) t × (t.phase ≡ stopped))
    ↔ (unsent (0 ∷ 2 ∷ []) ≡ 0)
stop-returns_iff_example = stop-returns_iff (0 ∷ 2 ∷ [])

abbrev half_started : Servers.Servers
half_started = (Servers.start Servers.binds Servers.fails Servers.fresh).0

start-stop_lem_example :
    Servers.IsTidy half_started
    × Servers.IsDown (Servers.stop half_started)
    × ((e : Servers.StartError)
        → (Servers.start Servers.fails Servers.binds half_started).1 ≡ some e
        → ((half_started.out ≡ true)
            × ((Servers.start Servers.fails Servers.binds half_started).0 ≡ half_started))
          ⊎ Servers.IsDown (Servers.start Servers.fails Servers.binds half_started).0)
start-stop_lem_example =
    Servers.start-stop_lem Servers.fails Servers.binds
      (Servers.started Servers.binds Servers.fails Servers.made)
