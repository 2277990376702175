-- ===== src/Receiver/Remote.antt =====
-- internal/receiver/remote.go: the loop that dials an agent, reads its messages, and dials again.
pub mod Waits
use taplytix.Prelude.{
  ℕ, Bool, true, false, not, Option, none, some, List, [], ◌∷◌, if◌then◌else◌, Str, str_eq, length,
  ◌==◌,
}
use taplytix.Clock.{second}
use taplytix.Model.{Event}
use taplytix.Model.Wire.{WireEvent, Decoded, ok, err, Json, decode_event}
use taplytix.Receiver.Outlet.{Outlet, emit_to}
use taplytix.Receiver.Backoff.{grow}

pub data StartError : Type 0 where
  no_endpoint already_started : StartError

pub record RemoteReceiver (F : Type 0) : Type 0 where
  pub endpoint : Str
  -- `cancel` is not nil.
  pub started : Bool
  pub out : Option (Outlet (Event F))

module _ {F : Type 0} where
  unfoldable pub start : Outlet (Event F) → RemoteReceiver F → RemoteReceiver F × Option StartError
  start o r =
      if str_eq r.endpoint []
      then (r, some no_endpoint)
      else if r.started
      then (r, some already_started)
      else (record r { started = true; out = some o }, none)

  unfoldable pub stop : RemoteReceiver F → RemoteReceiver F
  stop r = record r { started = false }

-- Why `connectAndPump` returned.
pub data PumpError : Type 0 where
  dial_failed read_failed : PumpError

-- A connection: the dial fails, or the messages are read until a read fails.
pub data Connection : Type 0 where
  refused : Connection
  reads : List Str → Connection

module _ {F : Type 0} (j : Json (WireEvent F)) where
  abbrev pub emit_decoded :
      Decoded (Event F) → Option (Outlet (Event F)) → Option (Outlet (Event F))
  emit_decoded (ok ev) out = emit_to out ev
  emit_decoded (err e) out = out

  -- The loop over the messages; one that cannot be decoded is skipped.
  unfoldable pub read_loop : List Str → Option (Outlet (Event F)) → Option (Outlet (Event F))
  read_loop [] out = out
  read_loop (msg ∷ msgs) out = read_loop msgs (emit_decoded (decode_event j msg) out)

  -- The new channel, and the error that is returned, if there is one.
  unfoldable pub connect_and_pump :
      Connection → Option (Outlet (Event F)) → Option (Outlet (Event F)) × Option PumpError
  unfolding read_loop
  connect_and_pump refused out = (out, some dial_failed)
  connect_and_pump (reads msgs) out = (read_loop msgs out, some read_failed)

  abbrev pub reset_on_success : Option PumpError → ℕ → ℕ
  reset_on_success none backoff = second
  reset_on_success (some e) backoff = backoff

  -- `runLoop` over the connections that it gets, while its context lives: the channel, and the waits
  -- in their order.
  unfoldable pub run_loop :
      ℕ → List Connection → Option (Outlet (Event F)) → Option (Outlet (Event F)) × List ℕ
  unfolding connect_and_pump
  run_loop backoff [] out = (out, [])
  run_loop backoff (c ∷ conns) out =
      let pumped = connect_and_pump c out in
      let backoff' = reset_on_success pumped.1 backoff in
      let rest = run_loop (grow backoff') conns pumped.0 in (rest.0, backoff' ∷ rest.1)
