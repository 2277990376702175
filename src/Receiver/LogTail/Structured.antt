-- ===== src/Receiver/LogTail/Structured.antt =====
-- internal/receiver/logtail.go: the JSON and logfmt parsers, and the choice between the formats.
use taplytix.Prelude.{
  ℕ, Bool, true, false, ◌||◌, Option, none, some, List, [], ◌∷◌, if◌then◌else◌, Str, bytes, str_eq,
}
use taplytix.Prelude.Maps.{Map, lookup, insert, delete}
use taplytix.Prelude.Text.{to_lower}
use taplytix.Clock.{Time}
use taplytix.Floats.{Floats}
use taplytix.Model.{LogEvent}
use taplytix.Receiver.Logfmt.{Outcome, pairs, reject, out_of_fuel, parse_pairs}
use taplytix.Receiver.Outlet.{Outlet, emit_to}
use taplytix.Receiver.LogTail.{
  is_one_of, normalize_level, detect_format, parse_plain, complete, blank_event, Readers,
  parse_time,
}

-- What `json.Unmarshal` puts into an `any`; the last case stands for objects and arrays.
pub data Value (F : Type 0) : Type 0 where
  null : Value F
  text : Str → Value F
  number : F → Value F
  flag : Bool → Value F
  composite : ℕ → Value F

-- `json.Unmarshal` into a map, and how numbers and composite values are written.
pub record Json (F : Type 0) : Type 0 where
  pub object_of : Str → Option (Map (Value F))
  pub format_float : F → Str
  pub marshal : ℕ → Str

module _ {F : Type 0} (js : Json F) where
  unfoldable pub stringify : Value F → Str
  stringify null = []
  stringify (text t) = t
  stringify (number n) = js.format_float n
  stringify (flag true) = bytes "true"
  stringify (flag false) = bytes "false"
  stringify (composite n) = js.marshal n

  -- The first of the keys that the map has, as text, and the map without it.
  unfoldable pub pick_first : Map (Value F) → List Str → Option Str × Map (Value F)
  unfolding stringify
  pick_first m [] = (none, m)
  pick_first m (k ∷ keys) =
      let rest = pick_first m keys in
      elim (lookup k m) [ some v ↦ (some (stringify v), delete k m) | none ↦ rest ]

  unfoldable pub attrs_of : Map Str → Map (Value F) → Map Str
  unfolding stringify
  attrs_of out [] = out
  attrs_of out ((k, v) ∷ m) = attrs_of (insert k (stringify v) out) m

  abbrev pub given : Str → Option Str → Str
  given d none = d
  given d (some s) = s

  module _ (fl : Floats F) (rd : Readers F) (now : Time) where
    -- The event of an object, before the defaults: the five groups of keys are picked one after the
    -- other, and what is left becomes the attributes.
    unfoldable pub object_event : Map (Value F) → Str → LogEvent
    unfolding pick_first attrs_of
    object_event m service =
        let (lvl, m1) = pick_first m (bytes "level" ∷ bytes "severity" ∷ bytes "lvl" ∷ []) in
        let (msg, m2) = pick_first m1 (bytes "msg" ∷ bytes "message" ∷ bytes "body" ∷ []) in
        let (stamp, m3) =
          pick_first m2 (bytes "time" ∷ bytes "timestamp" ∷ bytes "ts" ∷ bytes "@timestamp" ∷ []) in
        let (trace, m4) = pick_first m3 (bytes "trace_id" ∷ bytes "traceId" ∷ bytes "trace" ∷ []) in
        let (svc, m5) = pick_first m4 (bytes "service" ∷ bytes "service.name" ∷ []) in
        record {
          timestamp = parse_time fl rd (given [] stamp);
          level = elim lvl [ none ↦ [] | some l ↦ normalize_level l ];
          body = given [] msg;
          service = given service svc;
          trace_id = given [] trace;
          attrs = attrs_of [] m5;
        }

    unfoldable pub parse_json : Str → Str → Option LogEvent
    unfolding object_event complete
    parse_json line service = elim (js.object_of line) [
      | none ↦ none
      | some m ↦ some (complete now line (object_event m service))
    ]

module _ {F : Type 0} (fl : Floats F) (rd : Readers F) (now : Time) where
  -- The body of the loop over the pairs.
  unfoldable pub set_field : LogEvent → Str → Str → LogEvent
  set_field ev k v =
      let key = to_lower k in
      if is_one_of key (bytes "level" ∷ bytes "severity" ∷ bytes "lvl" ∷ [])
      then record ev { level = normalize_level v }
      else if is_one_of key (bytes "msg" ∷ bytes "message" ∷ bytes "body" ∷ [])
      then record ev { body = v }
      else if is_one_of key (bytes "time" ∷ bytes "timestamp" ∷ bytes "ts" ∷ [])
      then record ev { timestamp = parse_time fl rd v }
      else if is_one_of key (bytes "trace_id" ∷ bytes "traceid" ∷ bytes "trace" ∷ [])
      then record ev { trace_id = v }
      else if is_one_of key (bytes "service" ∷ [])
      then record ev { service = v }
      else record ev { attrs = insert k v ev.attrs }

  unfoldable pub set_fields : LogEvent → Map Str → LogEvent
  unfolding set_field
  set_fields ev [] = ev
  set_fields ev ((k, v) ∷ m) = set_fields (set_field ev k v) m

  abbrev pub pairs_event : Str → Str → Outcome → Option LogEvent
  pairs_event line service (pairs []) = none
  pairs_event line service (pairs (kv ∷ m)) =
      some (complete now line (set_fields (blank_event service) (kv ∷ m)))
  pairs_event line service reject = none
  pairs_event line service out_of_fuel = none

  unfoldable pub parse_logfmt : Str → Str → Option LogEvent
  unfolding set_fields complete parse_pairs
  parse_logfmt line service = pairs_event line service (parse_pairs line)

abbrev pub or_plain : Option LogEvent → LogEvent → LogEvent
or_plain none plain = plain
or_plain (some ev) plain = ev

module _ {F : Type 0} (fl : Floats F) (rd : Readers F) (js : Json F) (now : Time) where
  abbrev pub by_mode : Str → Str → Str → LogEvent
  by_mode mode line service =
      let plain = parse_plain now line service in
      if str_eq mode (bytes "json")
      then or_plain (parse_json js fl rd now line service) plain
      else if str_eq mode (bytes "logfmt")
      then or_plain (parse_logfmt fl rd now line service) plain
      else plain

  -- `lineParser.parse`, with the mode of `newLineParser`.
  unfoldable pub parse : Str → Str → Str → LogEvent
  unfolding parse_json parse_logfmt parse_plain
  parse format line service =
      let mode = to_lower format in
      by_mode (if str_eq mode [] || str_eq mode (bytes "auto") then detect_format line else mode)
        line service

  -- `emitLine`
  unfoldable pub emit_line : Str → Str → Str → Option (Outlet LogEvent) → Option (Outlet LogEvent)
  unfolding parse
  emit_line format service line out =
      if str_eq line [] then out else emit_to out (parse format line service)
