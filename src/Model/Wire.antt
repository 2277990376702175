-- ===== src/Model/Wire.antt =====
-- internal/model/wire.go: events in a tagged envelope. encoding/json is a pair of parameters.
use taplytix.Prelude.{
  ◌↔◌, str_eq_iff, Str, bytes, str_eq, Option, none, some, ◌≡◌, refl, arith, if◌then◌else◌,
}
use taplytix.Model.{MetricEvent, SpanEvent, LogEvent, Event, metric, span, log, other}

pub data WireError : Type 0 where
  unsupported_type nil_metric nil_span nil_log : WireError
  unknown_kind : Str → WireError
  bad_json : WireError

-- A Go result of a value and an error.
pub data Decoded {ℓ} (A : Type ℓ) : Type ℓ where
  ok : A → Decoded A
  err : WireError → Decoded A

-- `if err != nil { return nil, err }`
infixl 5 ◌>>=◌
abbrev pub ◌>>=◌ {ℓ κ} : {A : Type ℓ} {B : Type κ} → Decoded A → (A → Decoded B) → Decoded B
◌>>=◌ m next = elim m [ ok a ↦ next a | err e ↦ err e ]

abbrev pub wire_metric : Str
wire_metric = bytes "metric"

abbrev pub wire_span : Str
wire_span = bytes "span"

abbrev pub wire_log : Str
wire_log = bytes "log"

pub record WireEvent (F : Type 0) : Type 0 where
  pub kind : Str
  pub metric_part : Option (MetricEvent F)
  pub span_part : Option SpanEvent
  pub log_part : Option LogEvent

module _ {F : Type 0} where
  unfoldable pub wrap_event : Event F → Decoded (WireEvent F)
  wrap_event (metric e) =
      ok (record { kind = wire_metric; metric_part = some e; span_part = none; log_part = none })
  wrap_event (span e) =
      ok (record { kind = wire_span; metric_part = none; span_part = some e; log_part = none })
  wrap_event (log e) =
      ok (record { kind = wire_log; metric_part = none; span_part = none; log_part = some e })
  wrap_event (other n) = err unsupported_type

  abbrev deref {ℓ} : {A : Type ℓ} → Option A → (A → Event F) → WireError → Decoded (Event F)
  deref none box e = err e
  deref (some a) box e = ok (box a)

  unfoldable pub unwrap : WireEvent F → Decoded (Event F)
  unwrap w =
      if str_eq w.kind wire_metric
      then deref w.metric_part metric nil_metric
      else if str_eq w.kind wire_span
      then deref w.span_part span nil_span
      else if str_eq w.kind wire_log
      then deref w.log_part log nil_log
      else err (unknown_kind w.kind)

-- encoding/json, as far as the program relies on it: what `marshal` writes, `unmarshal` reads back.
pub record Json (A : Type 0) : Type 0 where
  pub marshal : A → Decoded Str
  pub unmarshal : Str → Decoded A

-- The documented round trip, for the values that JSON can carry: package json replaces text that is
-- not UTF-8, so it is not stated of every value.
pub record IsFaithful {A : Type 0} (j : Json A) (Clean : A → Type 0) : Type 0 where
  pub round_trip : (a : A) (s : Str) → Clean a → j.marshal a ≡ ok s → j.unmarshal s ≡ ok a

module _ {F : Type 0} (j : Json (WireEvent F)) where
  unfoldable pub encode_event : Event F → Decoded Str
  encode_event ev = do we ← wrap_event ev; j.marshal we

  unfoldable pub decode_event : Str → Decoded (Event F)
  decode_event s = do we ← j.unmarshal s; unwrap we

-- A chain that goes through went through its first step.
chain_ok :
    {A B : Type 0} (first : Decoded A) (next : A → Decoded B) {b : B}
    → (first >>= next) ≡ ok b
    → (a : A) × (first ≡ ok a) × (next a ≡ ok b)
chain_ok (err e) next through = let bad : ⊥ = cc through in absurd bad
chain_ok (ok a) next through = (a, refl, through)

module _ {F : Type 0} where
  unwrap-wrap_event : (ev : Event F) {we : WireEvent F} → wrap_event ev ≡ ok we → unwrap we ≡ ok ev
  unfolding wrap_event unwrap str_eq
  unwrap-wrap_event (metric e) h = ground (arith, h)
  unwrap-wrap_event (span e) h = ground (arith, h)
  unwrap-wrap_event (log e) h = ground (arith, h)
  unwrap-wrap_event (other n) h = cc h

-- If JSON carries the envelope of an event faithfully, then what `EncodeEvent` writes for the event
-- is read back by `DecodeEvent` as that event, with its kind and all its fields.
pub decode_event-encode_event :
    {F : Type 0} (j : Json (WireEvent F)) (Clean : WireEvent F → Type 0) (ev : Event F) (s : Str)
    → IsFaithful j Clean
    → ((we : WireEvent F) → wrap_event ev ≡ ok we → Clean we)
    → encode_event j ev ≡ ok s
    → decode_event j s ≡ ok ev
unfolding encode_event decode_event
decode_event-encode_event j Clean ev s faithful clean h =
    let (we, wrapped, written) = chain_ok (wrap_event ev) j.marshal h in
    rw (faithful.round_trip we s (clean we wrapped) written) (unwrap-wrap_event ev wrapped)

-- The payload that the kind of an envelope names is there.
pub data Carries {F : Type 0} (w : WireEvent F) : Event F → Type 0 where
  a_metric :
      (e : MetricEvent F) → w.kind ≡ wire_metric → w.metric_part ≡ some e → Carries w (metric e)
  a_span : (e : SpanEvent) → w.kind ≡ wire_span → w.span_part ≡ some e → Carries w (span e)
  a_log : (e : LogEvent) → w.kind ≡ wire_log → w.log_part ≡ some e → Carries w (log e)

unwrap-Carries : {F : Type 0} (w : WireEvent F) (ev : Event F) → unwrap w ≡ ok ev → Carries w ev
unfolding unwrap
unwrap-Carries w (metric e) h =
    a_metric e (ground (arith, h, str_eq_iff w.kind wire_metric)) (ground (arith, h))
unwrap-Carries w (span e) h =
    a_span e (ground (arith, h, str_eq_iff w.kind wire_span)) (ground (arith, h))
unwrap-Carries w (log e) h =
    a_log e (ground (arith, h, str_eq_iff w.kind wire_log)) (ground (arith, h))
unwrap-Carries w (other n) h = let bad : ⊥ = ground (arith, h) in absurd bad

Carries-unwrap : {F : Type 0} (w : WireEvent F) {ev : Event F} → Carries w ev → unwrap w ≡ ok ev
unfolding unwrap str_eq
Carries-unwrap w (a_metric e k p) = simp (k, p)
Carries-unwrap w (a_span e k p) = simp (k, p)
Carries-unwrap w (a_log e k p) = simp (k, p)

-- `Unwrap` succeeds exactly where the payload that the kind names is there, and returns it; other
-- payloads in the envelope do not matter.
pub unwrap_iff : {F : Type 0} (w : WireEvent F) (ev : Event F) → (unwrap w ≡ ok ev) ↔ Carries w ev
unwrap_iff w ev = (unwrap-Carries w ev, Carries-unwrap w)
