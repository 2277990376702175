-- ===== src/Bus/Delivery.antt =====
-- What a subscriber of the bus sees: its own bounded queue, whatever the others do.
use taplytix.Prelude.{ℕ, List, [], ◌∷◌, if◌then◌else◌, ◌==◌}
use taplytix.Bus.{Bus, publish, subscribe, receive, offer, rest_of}

-- What happens to a bus while it is open.
pub data BusOp (E : Type 0) : Type 0 where
  published : E → BusOp E
  received : ℕ → BusOp E
  subscribed : BusOp E

module _ {E M : Type 0} where
  unfoldable pub step : Bus E M → BusOp E → Bus E M
  step b (published e) = publish e b
  step b (received i) = (receive i b).0
  step b subscribed = (subscribe b).0

  unfoldable pub run : Bus E M → List (BusOp E) → Bus E M
  run b [] = b
  run b (op ∷ ops) = run (step b op) ops

-- The queue that subscriber `i` should have, by itself.
abbrev pub queue_step : {E : Type 0} → ℕ → ℕ → List E → BusOp E → List E
queue_step size i q (published e) = offer size e q
queue_step size i q (received j) = if i == j then rest_of q else q
queue_step size i q subscribed = q

abbrev pub queue_run : {E : Type 0} → ℕ → ℕ → List E → List (BusOp E) → List E
queue_run size i q [] = q
queue_run size i q (op ∷ ops) = queue_run size i (queue_step size i q op) ops
