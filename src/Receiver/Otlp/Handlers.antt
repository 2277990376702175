-- ===== src/Receiver/Otlp/Handlers.antt =====
-- The transports of internal/receiver/otlp.go: the gRPC Export methods and the HTTP handlers. The
-- decoders and encoders of pdata are parameters.
use taplytix.Prelude.{
  ◌≡◌, ◌≢◌, ◌⊎◌, ◌↔◌, inl, inr, Bool-cases, Option-cases, refl, sym, ap, ◌∙◌, false, Option, none,
  some, List, if◌then◌else◌, Str, bytes, str_eq, str_eq_iff, arith,
}
use mathlib.Core.Path.{subst}
use taplytix.Floats.{Floats}
use taplytix.Receiver.Otlp.{
  OtlpSpan, LogRecord, OtlpMetric, Resource, Out, consume_traces, consume_metrics, consume_logs,
}

abbrev pub json_type : Str
json_type = bytes "application/json"

abbrev pub proto_type : Str
proto_type = bytes "application/x-protobuf"

-- A request as a handler sees it; `body` is `none` where it cannot be read.
pub record HttpRequest : Type 0 where
  pub content_type : Str
  pub body : Option Str

pub data Reply : Type 0 where
  bad_request : Reply
  server_error : Reply
  written : Str → Str → Reply

-- `UnmarshalProto` and `UnmarshalJSON` of a request, `MarshalProto` and `MarshalJSON` of the empty
-- response.
pub record Codec (A : Type 0) : Type 0 where
  pub from_proto : Str → Option A
  pub from_json : Str → Option A
  pub to_proto : Option Str
  pub to_json : Option Str

-- `unmarshalRequest`
unfoldable pub unmarshal_request : {A : Type 0} → Codec A → Str → Str → Option A
unmarshal_request c content_type body =
    if str_eq content_type json_type then c.from_json body else c.from_proto body

abbrev pub write_data : Str → Option Str → Reply
write_data content_type none = server_error
write_data content_type (some text) = written content_type text

-- `writeOTLPResponse`
unfoldable pub write_response : {A : Type 0} → Codec A → Str → Reply
write_response c content_type =
    if str_eq content_type json_type
    then write_data json_type c.to_json
    else write_data proto_type c.to_proto

abbrev pub on_decoded : {A S : Type 0} → Codec A → (A → S → S) → Str → Option A → S → Reply × S
on_decoded c consume content_type none out = (bad_request, out)
on_decoded c consume content_type (some exp) out = (write_response c content_type, consume exp out)

abbrev pub on_body : {A S : Type 0} → Codec A → (A → S → S) → Str → Option Str → S → Reply × S
on_body c consume content_type none out = (bad_request, out)
on_body c consume content_type (some body) out =
    on_decoded c consume content_type (unmarshal_request c content_type body) out

-- `handleTraces`, `handleMetrics` and `handleLogs` differ in what they decode and consume.
unfoldable pub handle : {A S : Type 0} → Codec A → (A → S → S) → HttpRequest → S → Reply × S
handle c consume req out = on_body c consume req.content_type req.body out

module _ {F : Type 0} (fl : Floats F) (name : Str) where
  unfoldable pub handle_traces :
      Codec (List (Resource OtlpSpan)) → HttpRequest → Out F → Reply × Out F
  unfolding handle
  handle_traces c = handle c (consume_traces name)

  unfoldable pub handle_metrics :
      Codec (List (Resource (OtlpMetric F))) → HttpRequest → Out F → Reply × Out F
  unfolding handle
  handle_metrics c = handle c (consume_metrics fl name)

  unfoldable pub handle_logs :
      Codec (List (Resource LogRecord)) → HttpRequest → Out F → Reply × Out F
  unfolding handle
  handle_logs c = handle c (consume_logs name)

-- The decoder that the content type calls for, and its result on a body.
abbrev pub Decodes : {A : Type 0} → Codec A → HttpRequest → Str → Option A → Type 0
Decodes c req body exp =
    ((req.content_type ≡ json_type) × (c.from_json body ≡ exp))
    ⊎ ((req.content_type ≢ json_type) × (c.from_proto body ≡ exp))

abbrev pub IsUnreadable : {A : Type 0} → Codec A → HttpRequest → Type 0
IsUnreadable c req =
    (req.body ≡ none) ⊎ ((body : Str) × (req.body ≡ some body) × Decodes c req body none)

module _ {A S : Type 0} (c : Codec A) (consume : A → S → S) (req : HttpRequest) (s : S) where
  unmarshal-Decodes : (body : Str) → Decodes c req body (unmarshal_request c req.content_type body)
  unfolding unmarshal_request
  unmarshal-Decodes body = elim (Bool-cases (str_eq req.content_type json_type)) [
    | inl same ↦ rw same (inl ((str_eq_iff req.content_type json_type).0 same, refl))
    | inr other ↦ rw other (inr (ne_json other, refl))
  ]
    where
      ne_json : str_eq req.content_type json_type ≡ false → req.content_type ≢ json_type
      ne_json other same = cc (other, (str_eq_iff req.content_type json_type).1 same)

  Decodes-unmarshal :
      (body : Str) (exp : Option A)
      → Decodes c req body exp
      → unmarshal_request c req.content_type body ≡ exp
  unfolding unmarshal_request
  Decodes-unmarshal body exp (inl (json, read)) =
      rw ((str_eq_iff req.content_type json_type).1 json) read
  Decodes-unmarshal body exp (inr (proto, read)) =
      elim (Bool-cases (str_eq req.content_type json_type)) [
        | inl same ↦ absurd (proto ((str_eq_iff req.content_type json_type).0 same))
        | inr other ↦ rw other read
      ]

  response-ne-bad : (write_response c req.content_type ≡ bad_request) → ⊥
  unfolding write_response
  response-ne-bad h = ground arith

  handle_unread : req.body ≡ none → handle c consume req s ≡ (bad_request, s)
  unfolding handle
  handle_unread e = rw e

  handle_undecoded :
      (body : Str)
      → req.body ≡ some body
      → unmarshal_request c req.content_type body ≡ none
      → handle c consume req s ≡ (bad_request, s)
  unfolding handle
  handle_undecoded body e d =
      ap (λ o. on_body c consume req.content_type o s) e
      ∙ ap (λ o. on_decoded c consume req.content_type o s) d

  handle_decoded :
      (body : Str) (exp : A)
      → req.body ≡ some body
      → unmarshal_request c req.content_type body ≡ some exp
      → handle c consume req s ≡ (write_response c req.content_type, consume exp s)
  unfolding handle
  handle_decoded body exp e d =
      ap (λ o. on_body c consume req.content_type o s) e
      ∙ ap (λ o. on_decoded c consume req.content_type o s) d

  abbrev Refused : Type 0
  Refused = IsUnreadable c req × (handle c consume req s ≡ (bad_request, s))

  abbrev Accepted : Type 0
  Accepted =
      (body : Str) × (exp : A) × (req.body ≡ some body)
      × (unmarshal_request c req.content_type body ≡ some exp)
      × (handle c consume req s ≡ (write_response c req.content_type, consume exp s))

  handle_cases : Refused ⊎ Accepted
  handle_cases = elim (Option-cases req.body) [
    | inl unread ↦ inl (inl unread, handle_unread unread)
    | inr (body, e) ↦ elim (Option-cases (unmarshal_request c req.content_type body)) [
      | inl d ↦ inl (
        inr (body, e, subst (Decodes c req body) d (unmarshal-Decodes body)),
        handle_undecoded body e d,
      )
      | inr (exp, d) ↦ inr (body, exp, e, d, handle_decoded body exp e d)
    ]
  ]

  unreadable-ne-accepted : IsUnreadable c req → Accepted → ⊥
  unreadable-ne-accepted (inl unread) a = cc (unread, a.2)
  unreadable-ne-accepted (inr (body, e, read)) a =
      let d : unmarshal_request c req.content_type body ≡ none = Decodes-unmarshal body none read in
      cc (e, d, a.2, a.3)

  -- The handlers answer 400 exactly where the body cannot be read, or cannot be decoded in the format
  -- of its content type: JSON for application/json, protobuf for any other. The channel is then left
  -- as it was. A request that can be decoded is consumed, also where the reply cannot be encoded.
  pub handle_lem :
      (((handle c consume req s).0 ≡ bad_request) ↔ IsUnreadable c req)
      × (((handle c consume req s).0 ≡ bad_request) → (handle c consume req s).1 ≡ s)
      × ((body : Str) (exp : A)
          → req.body ≡ some body
          → Decodes c req body (some exp)
          → (handle c consume req s).1 ≡ consume exp s)
  handle_lem = (
    (bad-unreadable handle_cases, λ u. ap (λ h. h.0) (refused u handle_cases)),
    bad-unchanged handle_cases,
    λ body exp e d. ap (λ h. h.1) (handle_decoded body exp e (Decodes-unmarshal body (some exp) d)),
  )
    where
      accepted-ne-bad : Accepted → (handle c consume req s).0 ≡ bad_request → ⊥
      accepted-ne-bad a h = response-ne-bad (ap (λ h. h.0) (sym a.4) ∙ h)

      bad-unreadable :
          Refused ⊎ Accepted → (handle c consume req s).0 ≡ bad_request → IsUnreadable c req
      bad-unreadable (inl r) h = r.0
      bad-unreadable (inr a) h = absurd (accepted-ne-bad a h)

      bad-unchanged :
          Refused ⊎ Accepted
          → (handle c consume req s).0 ≡ bad_request
          → (handle c consume req s).1 ≡ s
      bad-unchanged (inl r) h = ap (λ h. h.1) r.1
      bad-unchanged (inr a) h = absurd (accepted-ne-bad a h)

      refused : IsUnreadable c req → Refused ⊎ Accepted → handle c consume req s ≡ (bad_request, s)
      refused u (inl r) = r.1
      refused u (inr a) = absurd (unreadable-ne-accepted u a)
