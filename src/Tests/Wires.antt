-- ===== src/Tests/Wires.antt =====
-- Events over the wire, with a JSON that knows one envelope.
use taplytix.Prelude.{
  ℕ, ◌∷◌, ◌++◌, take, ◌≡◌, ap, str_eq, [], none, some, Str, bytes, if◌then◌else◌,
}
use mathlib.Core.Path.{subst}
use taplytix.Prelude.Int.{pos}
use taplytix.Model.{LogEvent, log, other, level_info}
use taplytix.Agent.Broadcaster.{Client, new_broadcaster, connect, pump}
use taplytix.Agent.Broadcaster.Remote.{receive_all, encodable, pump-receive_all}
use taplytix.Model.Wire.{
  WireEvent, wire_log, wrap_event, Decoded, ok, err, bad_json, Json, IsFaithful,
}

abbrev line : LogEvent
line = record {
  timestamp = pos 5;
  level = level_info;
  body = bytes "up";
  service = bytes "api";
  trace_id = [];
  attrs = [];
}

abbrev envelope : WireEvent ℕ
envelope = record { kind = wire_log; metric_part = none; span_part = none; log_part = some line }

abbrev read : Str → Decoded (WireEvent ℕ)
read s = if str_eq s (bytes "{}") then ok envelope else err bad_json

abbrev one_text : Json (WireEvent ℕ)
one_text = record { marshal = λ _. ok (bytes "{}"); unmarshal = read }

abbrev Known : WireEvent ℕ → Type 0
Known we = envelope ≡ we

one_text-IsFaithful : IsFaithful one_text Known
unfolding str_eq
one_text-IsFaithful = record {
  round_trip = λ a s known h.
      let same : bytes "{}" ≡ s = cc h in subst (λ t. read t ≡ ok a) same (ap ok known);
}

-- Two events, the second of a type that cannot be sent, to a client that has just connected.
pump-receive_all_example :
    (c : Client) × (c.id ≡ 7)
    × (pump one_text (log line ∷ other 3 ∷ []) (connect 7 new_broadcaster)
        ≡ pump one_text (log line ∷ other 3 ∷ []) new_broadcaster ++ c ∷ [])
    × (receive_all one_text c.send.held ≡ take 1024 (encodable one_text (log line ∷ other 3 ∷ [])))
unfolding wrap_event
pump-receive_all_example =
    pump-receive_all one_text Known (log line ∷ other 3 ∷ []) 7 new_broadcaster one_text-IsFaithful
      ((λ we h. cc h), ((λ we h. let bad : ⊥ = cc h in absurd bad), tt))
