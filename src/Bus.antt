-- ===== src/Bus.antt =====
-- internal/bus/bus.go: the fan-out to buffered channels. A channel is the list of what it holds,
-- oldest first; a send under `select` with a default case succeeds exactly where there is room, as no
-- subscriber waits in a receive while its channel holds events.
pub mod Delivery
use taplytix.Prelude.{
  ℕ, zero, suc, Bool, true, false, Option, none, some, List, [], ◌∷◌, ◌++◌, map, length, set,
  get_elem?, if◌then◌else◌, ltb,
}

abbrev pub default_subscriber_buffer : ℕ
default_subscriber_buffer = 1000

-- `has_program` says whether `SetProgram` has set one; `sent` is what `Dispatch` has sent to it.
pub record Bus (E M : Type 0) : Type 0 where
  pub subscribers : List (List E)
  pub buf_size : ℕ
  pub has_program : Bool
  pub sent : List M

abbrev pub rest_of : {E : Type 0} → List E → List E
rest_of [] = []
rest_of (e ∷ es) = es

abbrev pub front_of : {E : Type 0} → List E → Option E
front_of [] = none
front_of (e ∷ es) = some e

-- A send that does not block.
abbrev pub offer : {E : Type 0} → ℕ → E → List E → List E
offer size event ch = if ltb (length ch) size then ch ++ event ∷ [] else ch

module _ {E M : Type 0} where
  unfoldable pub new_bus : Bus E M
  new_bus = record {
    subscribers = [];
    buf_size = default_subscriber_buffer;
    has_program = false;
    sent = [];
  }

  unfoldable pub publish : E → Bus E M → Bus E M
  publish event b = record b { subscribers = map (offer b.buf_size event) b.subscribers }

  -- The new channel, and its place among the subscribers.
  unfoldable pub subscribe : Bus E M → Bus E M × ℕ
  subscribe b = (record b { subscribers = b.subscribers ++ [] ∷ [] }, length b.subscribers)

  unfoldable pub set_program : Bus E M → Bus E M
  set_program b = record b { has_program = true }

  unfoldable pub dispatch : M → Bus E M → Bus E M
  dispatch msg b = if b.has_program then record b { sent = b.sent ++ msg ∷ [] } else b

  unfoldable pub close : Bus E M → Bus E M
  close b = record b { subscribers = [] }

  -- A subscriber takes the oldest event off its channel; `none` is an empty channel.
  abbrev pub take_at : ℕ → Option (List E) → Bus E M → Bus E M × Option E
  take_at i none b = (b, none)
  take_at i (some ch) b = (record b { subscribers = set b.subscribers i (rest_of ch) }, front_of ch)

  unfoldable pub receive : ℕ → Bus E M → Bus E M × Option E
  receive i b = take_at i (get_elem? b.subscribers i) b
