-- ===== src/Agent/Broadcaster/Remote.antt =====
-- internal/receiver/remote.go decodes what internal/agent/broadcaster.go has queued: the way of an event
-- from the agent to the dashboard.
use mathlib.Core.List.{map-append}
use taplytix.Prelude.{
  ℕ, zero, suc, ◌≡◌, refl, sym, ap, ◌∙◌, List, [], ◌∷◌, ◌++◌, map, take, All, arith, Str,
}
use taplytix.Model.{Event}
use taplytix.Model.Wire.{
  WireEvent, Decoded, ok, err, Json, IsFaithful, wrap_event, encode_event, decode_event,
  decode_event-encode_event,
}
use taplytix.Receiver.Outlet.{emit_all, emit_all-eq-take}
use taplytix.Agent.Broadcaster.{Client, Broadcaster, connect, queue, fanout, pump_one, pump}

module _ {F : Type 0} (j : Json (WireEvent F)) where
  abbrev pub and_text : Decoded Str → List Str → List Str
  and_text (ok msg) msgs = msg ∷ msgs
  and_text (err e) msgs = msgs

  -- The messages of the events that can be encoded.
  abbrev pub messages : List (Event F) → List Str
  messages [] = []
  messages (ev ∷ evs) = and_text (encode_event j ev) (messages evs)

  abbrev pub and_event : Decoded (Event F) → List (Event F) → List (Event F)
  and_event (ok ev) evs = ev ∷ evs
  and_event (err e) evs = evs

  -- The loop of the remote receiver over the messages that it reads; one that cannot be decoded is
  -- skipped.
  unfoldable pub receive_all : List Str → List (Event F)
  receive_all [] = []
  receive_all (msg ∷ msgs) = and_event (decode_event j msg) (receive_all msgs)

  -- The events that can be encoded.
  abbrev pub and_sent : Decoded Str → Event F → List (Event F) → List (Event F)
  and_sent (ok msg) ev evs = ev ∷ evs
  and_sent (err e) ev evs = evs

  abbrev pub encodable : List (Event F) → List (Event F)
  encodable [] = []
  encodable (ev ∷ evs) = and_sent (encode_event j ev) ev (encodable evs)

  abbrev queue_all : List Str → Client → Client
  queue_all msgs c = record c { send = emit_all c.send msgs }

  map-queue_nil : (b : Broadcaster) → map (queue_all []) b ≡ b
  unfolding emit_all
  map-queue_nil [] = refl
  map-queue_nil (c ∷ b) = ap (λ r. c ∷ r) (map-queue_nil b)

  map-queue_cons :
      (msg : Str) (msgs : List Str) (b : Broadcaster)
      → map (queue_all msgs) (map (queue msg) b) ≡ map (queue_all (msg ∷ msgs)) b
  unfolding emit_all
  map-queue_cons msg msgs [] = refl
  map-queue_cons msg msgs (c ∷ b) =
      ap (λ r. queue_all (msg ∷ msgs) c ∷ r) (map-queue_cons msg msgs b)

  pump-queue_all :
      (evs : List (Event F)) (b : Broadcaster) → pump j evs b ≡ map (queue_all (messages evs)) b
  unfolding pump pump_one fanout
  pump-queue_all [] b = sym (map-queue_nil b)
  pump-queue_all (ev ∷ evs) b =
      pump-queue_all evs (pump_one j ev b) ∙ by_text (encode_event j ev) refl
    where
      by_text :
          (d : Decoded Str)
          → encode_event j ev ≡ d
          → map (queue_all (messages evs)) (pump_one j ev b)
            ≡ map (queue_all (and_text d (messages evs))) b
      by_text (ok msg) e =
          ap (λ d. map (queue_all (messages evs)) (elim d [ ok m ↦ fanout m b | err e ↦ b ])) e
          ∙ map-queue_cons msg (messages evs) b
      by_text (err x) e =
          ap (λ d. map (queue_all (messages evs)) (elim d [ ok m ↦ fanout m b | err e ↦ b ])) e

  -- What is asked of JSON for one event.
  abbrev pub SentClean : (WireEvent F → Type 0) → Event F → Type 0
  SentClean Clean ev = (we : WireEvent F) → wrap_event ev ≡ ok we → Clean we

  receive_all-take :
      (Clean : WireEvent F → Type 0) (evs : List (Event F)) (n : ℕ)
      → IsFaithful j Clean
      → All (SentClean Clean) evs
      → receive_all (take n (messages evs)) ≡ take n (encodable evs)
  unfolding receive_all
  receive_all-take Clean [] zero faithful clean = refl
  receive_all-take Clean [] (suc n) faithful clean = refl
  receive_all-take Clean (ev ∷ evs) n faithful clean =
      by_text (λ k. receive_all-take Clean evs k faithful clean.1) (encode_event j ev) refl n
    where
      by_text :
          ((k : ℕ) → receive_all (take k (messages evs)) ≡ take k (encodable evs))
          → (d : Decoded Str) → encode_event j ev ≡ d
          → (n : ℕ)
          → receive_all (take n (and_text d (messages evs)))
            ≡ take n (and_sent d ev (encodable evs))
      by_text rest (ok msg) e zero = refl
      by_text rest (ok msg) e (suc n) =
          ap (λ d. and_event d (receive_all (take n (messages evs))))
            (decode_event-encode_event j Clean ev msg faithful clean.0 e)
          ∙ ap (λ r. ev ∷ r) (rest n)
      by_text rest (err x) e n = rest n

  -- A client that connects before some events are pumped changes nothing for the clients there. If it
  -- takes nothing off its queue meanwhile, the remote receiver reads back from that queue exactly the
  -- first 1024 of the events that can be encoded, in their order, where JSON carries the envelopes
  -- faithfully.
  pub pump-receive_all :
      (Clean : WireEvent F → Type 0) (evs : List (Event F)) (id : ℕ) (b : Broadcaster)
      → IsFaithful j Clean
      → All (SentClean Clean) evs
      → (c : Client) × (c.id ≡ id)
        × (pump j evs (connect id b) ≡ pump j evs b ++ c ∷ [])
        × (receive_all c.send.held ≡ take 1024 (encodable evs))
  pump-receive_all Clean evs id b faithful clean = (
    queue_all (messages evs) new,
    refl,
    pump-queue_all evs (connect id b)
        ∙ map-append (queue_all (messages evs)) b (new ∷ [])
        ∙ ap (λ r. r ++ queue_all (messages evs) new ∷ []) (sym (pump-queue_all evs b)),
    ap receive_all (emit_all-eq-take (messages evs) new.send (omega arith))
        ∙ receive_all-take Clean evs 1024 faithful clean,
  )
    where
      new : Client
      new = record { id = id; send = record { room = 1024; held = [] } }
