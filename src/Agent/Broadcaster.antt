-- ===== src/Agent/Broadcaster.antt =====
-- internal/agent/broadcaster.go: events encoded once and queued for every connected client. The clients
-- are numbered in the order in which they connect.
pub mod Remote
use taplytix.Prelude.{
  ℕ, Bool, not, Option, none, some, List, [], ◌∷◌, ◌++◌, map, length, keep_if, ◌==◌, Str,
}
use taplytix.Model.{Event}
use taplytix.Model.Wire.{WireEvent, Decoded, ok, err, Json, encode_event}
use taplytix.Receiver.Outlet.{Outlet, emit}

pub record Client : Type 0 where
  pub id : ℕ
  pub send : Outlet Str

abbrev pub Broadcaster : Type 0
Broadcaster = List Client

abbrev pub new_broadcaster : Broadcaster
new_broadcaster = []

-- `make(chan []byte, 1024)` and the entry in the map, in `ServeHTTP`.
abbrev pub connect : ℕ → Broadcaster → Broadcaster
connect id b = b ++ record { id = id; send = record { room = 1024; held = [] } } ∷ []

-- The deferred `delete` of `ServeHTTP`.
abbrev pub disconnect : ℕ → Broadcaster → Broadcaster
disconnect id b = keep_if (λ c. not (c.id == id)) b

abbrev pub queue : Str → Client → Client
queue msg c = record c { send = emit c.send msg }

unfoldable pub fanout : Str → Broadcaster → Broadcaster
fanout msg b = map (queue msg) b

-- `ClientCount`
abbrev pub client_count : Broadcaster → ℕ
client_count b = length b

module _ {F : Type 0} (j : Json (WireEvent F)) where
  -- One round of `Pump`: an event that cannot be encoded is skipped.
  unfoldable pub pump_one : Event F → Broadcaster → Broadcaster
  unfolding fanout
  pump_one ev b = elim (encode_event j ev) [ ok msg ↦ fanout msg b | err e ↦ b ]

  unfoldable pub pump : List (Event F) → Broadcaster → Broadcaster
  unfolding pump_one
  pump [] b = b
  pump (ev ∷ evs) b = pump evs (pump_one ev b)
