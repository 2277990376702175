-- ===== src/Receiver/Sockets.antt =====
-- The life of a StatsD receiver's socket: `Start`, `Stop`, and the goroutine of `run` that waits for
-- its context and then closes the receiver's connection. `watchers` counts the contexts
-- that are done while their goroutine has not run yet.
use mathlib.Core.Path.{subst}
use taplytix.Prelude.{
  ℕ, ◌≡◌, ◌≢◌, refl, Bool, true, false, Option, none, some, List, [], ◌∷◌, if◌then◌else◌, ◌==◌,
  arith, All, ◌+◌, ◌-◌, sym,
}
use taplytix.Prelude.Handles.{without_some, without_some-own, none_own}

pub data StartError : Type 0 where
  no_address no_listen already_started : StartError

pub record Sockets : Type 0 where
  pub conn : Option ℕ
  -- The sockets that are open.
  pub opened : List ℕ
  pub cancel : Bool
  pub watchers : ℕ

-- The part of `Start` under the mutex, with the connection that was just opened.
abbrev pub install : ℕ → Option ℕ → Sockets → Sockets × Option StartError
install c (some old) s = (s, some already_started)
install c none s = (record s { conn = some c; opened = c ∷ s.opened; cancel = true }, none)

-- `resolved` says whether the address was resolved; `listened` is the new socket, if there is one.
unfoldable pub start : Bool → Option ℕ → Sockets → Sockets × Option StartError
start false listened s = (s, some no_address)
start true none s = (s, some no_listen)
start true (some c) s = install c s.conn s

unfoldable pub stop : Sockets → Sockets
stop s = record {
  conn = none;
  opened = without_some s.conn s.opened;
  cancel = false;
  watchers = if s.cancel then s.watchers + 1 else s.watchers;
}

-- The goroutine of a context that is done.
unfoldable pub watcher : Sockets → Sockets
watcher s = record s { opened = without_some s.conn s.opened; watchers = s.watchers - 1 }

abbrev pub fresh : Sockets
fresh = record { conn = none; opened = []; cancel = false; watchers = 0 }

-- What may happen, in any order.
pub data Step : Sockets → Sockets → Type 0 where
  starts :
      {s : Sockets} (resolved : Bool) (listened : Option ℕ) → Step s (start resolved listened s).0
  stops : {s : Sockets} → Step s (stop s)
  watches : {s : Sockets} → s.watchers ≢ 0 → Step s (watcher s)

pub data Reach (s : Sockets) : Sockets → Type 0 where
  here : Reach s s
  next : {t u : Sockets} → Reach s t → Step t u → Reach s u

-- No socket is open but the receiver's own.
abbrev pub IsTight : Sockets → Type 0
IsTight s = All (λ d. s.conn ≡ some d) s.opened

install-IsTight :
    (c : ℕ) (o : Option ℕ) (s : Sockets) → s.conn ≡ o → IsTight s → IsTight (install c o s).0
install-IsTight c (some old) s e h = h
install-IsTight c none s e h =
    (refl, subst (All (λ d. some c ≡ some d)) (sym (none_own s.conn s.opened e h)) tt)

Step-IsTight : {s t : Sockets} → Step s t → IsTight s → IsTight t
unfolding start stop watcher
Step-IsTight (starts false listened) h = h
Step-IsTight (starts true none) h = h
Step-IsTight {s} (starts true (some c)) h = install-IsTight c s.conn s refl h
Step-IsTight {s} stops h =
    subst (All (λ d. none ≡ some d)) (sym (without_some-own s.conn s.opened h)) tt
Step-IsTight {s} (watches w) h =
    subst (All (λ d. s.conn ≡ some d)) (sym (without_some-own s.conn s.opened h)) tt

Reach-IsTight : {s : Sockets} → Reach fresh s → IsTight s
Reach-IsTight here = tt
Reach-IsTight (next r st) = Step-IsTight st (Reach-IsTight r)

-- Whatever starts, stops and goroutines a receiver has been through, in any order, no socket is open
-- but the one that it holds, and a stop leaves none open.
pub stop-closes : {s : Sockets} → Reach fresh s → IsTight s × ((stop s).opened ≡ [])
unfolding stop
stop-closes {s} r = (Reach-IsTight r, without_some-own s.conn s.opened (Reach-IsTight r))

-- A receiver that is stopped and started again loses its new socket if the goroutine of the first
-- start gets the mutex only then: the receiver holds the new connection, which is closed, and a
-- further start is refused.
pub restart-closed :
    (a b c : ℕ)
    → let s = watcher (start true (some b) (stop (start true (some a) fresh).0)).0 in
      (s.conn ≡ some b) × (s.opened ≡ []) × ((start true (some c) s).1 ≡ some already_started)
unfolding start stop watcher
restart-closed a b c =
    let a_is_a : (a == a) ≡ true = ground arith in
    let b_is_b : (b == b) ≡ true = ground arith in (refl, rw (a_is_a, b_is_b), refl)
