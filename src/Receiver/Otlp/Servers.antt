-- ===== src/Receiver/Otlp/Servers.antt =====
-- `Start` and `Stop` of internal/receiver/otlp.go: which servers run, and the fields that say so. A
-- call of `Start` or `Stop` is one step where no other runs beside it; `start` is made of the steps
-- that take the mutex, for what happens where one does.
use taplytix.Prelude.{
  ◌≡◌, ◌⊎◌, inl, inr, refl, Bool, true, false, Option, none, some, if◌then◌else◌, arith, Bool-cases,
}

-- What comes of `net.Listen` on an address: an empty one is left out.
pub data Listen : Type 0 where
  disabled fails binds : Listen

pub data StartError : Type 0 where
  already_started no_grpc no_http : StartError

-- The channel `stopped`: nil, open or closed.
pub data Stopped : Type 0 where
  nil open_chan closed : Stopped

pub record Servers : Type 0 where
  -- `out` is not nil.
  pub out : Bool
  pub stopped : Stopped
  -- `grpcSrv` and `httpSrv` are not nil; a server that is set serves until it is stopped.
  pub grpc : Bool
  pub http : Bool

abbrev pub fresh : Servers
fresh = record { out = false; stopped = nil; grpc = false; http = false }

abbrev pub down : Stopped → Servers
down c = record { out = false; stopped = c; grpc = false; http = false }

-- A nil channel is not closed, and nothing else is done differently for it.
abbrev pub stop_by : Stopped → Servers → Servers
stop_by closed s = s
stop_by nil s = down nil
stop_by open_chan s = down closed

unfoldable pub stop : Servers → Servers
stop s = stop_by s.stopped s

-- The first part of `Start`, under the mutex.
unfoldable pub begin : Servers → Servers
begin s = record s { out = true; stopped = open_chan }

unfoldable pub start_grpc : Listen → Servers → Servers × Bool
start_grpc disabled s = (s, true)
start_grpc fails s = (s, false)
start_grpc binds s = (record s { grpc = true }, true)

unfoldable pub start_http : Listen → Servers → Servers × Bool
start_http disabled s = (s, true)
start_http fails s = (s, false)
start_http binds s = (record s { http = true }, true)

abbrev pub then_http : Listen → Servers × Bool → Servers × Option StartError
then_http h (s, false) = (stop s, some no_grpc)
then_http h (s, true) =
    let done = start_http h s in if done.1 then (done.0, none) else (stop done.0, some no_http)

unfoldable pub start : Listen → Listen → Servers → Servers × Option StartError
unfolding begin start_grpc start_http stop
start g h s = if s.out then (s, some already_started) else then_http h (start_grpc g (begin s))

-- Calls that do not overlap. The goroutine of `Start` is one more caller of `Stop`.
pub data Reach : Servers → Type 0 where
  made : Reach fresh
  started : {s : Servers} (g h : Listen) → Reach s → Reach (start g h s).0
  was_stopped : {s : Servers} → Reach s → Reach (stop s)

-- Servers run only while the receiver is started, and `stopped` says whether it is.
pub record IsTidy (s : Servers) : Type 0 where
  pub idle : s.out ≡ false → (s.grpc ≡ false) × (s.http ≡ false)
  pub running : s.out ≡ true → s.stopped ≡ open_chan

start-IsTidy : (g h : Listen) (s : Servers) → IsTidy s → IsTidy (start g h s).0
unfolding start
start-IsTidy disabled disabled s t = ground (arith, t.idle, t.running)
start-IsTidy g h s t = ground (arith, t.idle, t.running)

stop-IsTidy : (s : Servers) → IsTidy s → IsTidy (stop s)
unfolding stop
stop-IsTidy s t = ground (arith, t.idle, t.running)

Reach-IsTidy : {s : Servers} → Reach s → IsTidy s
Reach-IsTidy made = record { idle = λ e. (refl, refl); running = λ e. cc }
Reach-IsTidy (started g h r) = start-IsTidy g h _ (Reach-IsTidy r)
Reach-IsTidy (was_stopped r) = stop-IsTidy _ (Reach-IsTidy r)

abbrev pub IsDown : Servers → Type 0
IsDown s = (s.out ≡ false) × (s.grpc ≡ false) × (s.http ≡ false)

stop-IsDown : (s : Servers) → IsTidy s → IsDown (stop s)
unfolding stop
stop-IsDown s t = ground (arith, t.idle, t.running)

start_fails :
    (g h : Listen) (s : Servers) {e : StartError}
    → (start g h s).1 ≡ some e
    → ((s.out ≡ true) × ((start g h s).0 ≡ s)) ⊎ IsDown (start g h s).0
unfolding start
start_fails g h s e = elim (Bool-cases s.out) [
  | inl on ↦ inl (on, ground arith)
  | inr off ↦ inr (ground arith)
]

-- Whatever calls of Start and Stop a receiver has been through, none of them overlapping: servers run
-- only while it is started; a Stop leaves none; and a Start that fails leaves a receiver that was
-- running as it was, and any other stopped with neither server running, so that it can be started
-- again.
pub start-stop_lem :
    (g h : Listen) {s : Servers}
    → Reach s
    → IsTidy s
      × IsDown (stop s)
      × ((e : StartError)
          → (start g h s).1 ≡ some e
          → ((s.out ≡ true) × ((start g h s).0 ≡ s)) ⊎ IsDown (start g h s).0)
start-stop_lem g h {s} r = (Reach-IsTidy r, stop-IsDown s (Reach-IsTidy r), λ e. start_fails g h s)

-- A Stop that gets the mutex after Start has set `out` and before it has set the gRPC server: the
-- server is started all the same, by a receiver that counts as stopped, and no later Stop ends it.
pub stop_within_start-leaks :
    (s : Servers)
    → let t = (start_grpc binds (stop (begin s))).0 in
      (t.out ≡ false) × (t.grpc ≡ true) × (stop t ≡ t)
unfolding start_grpc stop begin
stop_within_start-leaks s = (refl, refl, refl)
