-- ===== src/Receiver/Otlp/Shutdown.antt =====
-- `Stop` of internal/receiver/otlp.go while gRPC calls are pending. `Stop` holds the mutex of the
-- receiver until `GracefulStop` returns, which waits, as package grpc says, until all pending calls
-- are finished; each `emit` of a call takes the same mutex. A call is the count of its events that are
-- still to be sent.
use taplytix.Prelude.{
  ℕ, zero, suc, ◌+◌, ◌<◌, ◌≡◌, ◌↔◌, refl, sym, ap, Bool, true, false, List, [], ◌∷◌, ◌++◌, arith,
}
use mathlib.Core.Path.{subst}

pub data Phase : Type 0 where
  serving stopping stopped : Phase

pub record Server : Type 0 where
  pub phase : Phase
  -- The mutex is held by `Stop`.
  pub locked : Bool
  pub calls : List ℕ

-- What the goroutines of the server and the caller of `Stop` may do next, in any order.
pub data Step (s t : Server) : Type 0 where
  -- A new call, of a request with `n` events.
  accepts : (n : ℕ) → s.phase ≡ serving → t ≡ record s { calls = n ∷ s.calls } → Step s t
  -- A pending call has the mutex for one `emit`.
  emits :
      (before after : List ℕ) (n : ℕ)
      → s.locked ≡ false
      → s.calls ≡ before ++ suc n ∷ after
      → t ≡ record s { calls = before ++ n ∷ after }
      → Step s t
  -- A call that has sent its events returns.
  returns :
      (before after : List ℕ)
      → s.calls ≡ before ++ 0 ∷ after
      → t ≡ record s { calls = before ++ after }
      → Step s t
  -- `Stop` takes the mutex and calls `GracefulStop`.
  stops :
      s.phase ≡ serving
      → s.locked ≡ false
      → t ≡ record s { phase = stopping; locked = true }
      → Step s t
  -- `GracefulStop` returns, and so does `Stop`.
  finishes :
      s.phase ≡ stopping
      → s.calls ≡ []
      → t ≡ record s { phase = stopped; locked = false }
      → Step s t

pub data Reach (s : Server) : Server → Type 0 where
  here : Reach s s
  next : {t u : Server} → Reach s t → Step t u → Reach s u

-- `Stop` has taken the mutex with these calls pending.
abbrev pub stop_called : List ℕ → Server
stop_called calls = record { phase = stopping; locked = true; calls = calls }

abbrev pub unsent : List ℕ → ℕ
unsent [] = 0
unsent (n ∷ calls) = n + unsent calls

unsent-append : (xs ys : List ℕ) → unsent (xs ++ ys) ≡ unsent xs + unsent ys
unsent-append [] ys = omega arith
unsent-append (n ∷ xs) ys = omega (arith, unsent-append xs ys)

record IsStuck (s : Server) : Type 0 where
  waits : s.phase ≡ stopping
  held : s.locked ≡ true
  pending : 0 < unsent s.calls

Step-IsStuck : {s t : Server} → Step s t → IsStuck s → IsStuck t
Step-IsStuck (accepts n p e) h = let bad : ⊥ = cc (p, h.waits) in absurd bad
Step-IsStuck (emits before after n p c e) h = let bad : ⊥ = cc (p, h.held) in absurd bad
Step-IsStuck {s} (returns before after c e) h =
    let old : unsent s.calls ≡ unsent (before ++ 0 ∷ after) = ap unsent c in
    subst IsStuck (sym e) (record {
      waits = h.waits;
      held = h.held;
      pending =
          omega
            (arith, h.pending, old, unsent-append before (0 ∷ after), unsent-append before after);
    })
Step-IsStuck (stops p l e) h = let bad : ⊥ = cc (p, h.waits) in absurd bad
Step-IsStuck {s} (finishes p c e) h =
    let none_left : unsent s.calls ≡ 0 = ap unsent c in absurd (omega (arith, none_left, h.pending))

Reach-IsStuck : {s t : Server} → IsStuck s → Reach s t → IsStuck t
Reach-IsStuck h here = h
Reach-IsStuck h (next r st) = Step-IsStuck st (Reach-IsStuck h r)

-- Calls that have nothing left to send return one after the other.
all_return :
    (s : Server) (calls : List ℕ)
    → unsent calls ≡ 0
    → Reach s (stop_called calls)
    → Reach s (record { phase = stopped; locked = false; calls = [] })
all_return s [] h r = next r (finishes refl refl refl)
all_return s (zero ∷ calls) h r =
    all_return s calls (omega arith) (next r (returns [] calls refl refl))
all_return s (suc n ∷ calls) h r = absurd (omega arith)

-- Once `Stop` has the mutex it can return if and only if no pending call has an event left to send.
-- With one such call, nothing that the goroutines do lets it return: it and the call wait for each
-- other for ever.
pub stop-returns_iff :
    (calls : List ℕ)
    → ((t : Server) × Reach (stop_called calls) t × (t.phase ≡ stopped)) ↔ (unsent calls ≡ 0)
stop-returns_iff calls = (
  λ (t, r, done). by_unsent t r done (unsent calls) refl,
  λ h. (
    record { phase = stopped; locked = false; calls = [] },
    all_return (stop_called calls) calls h here,
    refl,
  ),
)
  where
    by_unsent :
        (t : Server)
        → Reach (stop_called calls) t
        → t.phase ≡ stopped
        → (n : ℕ) → unsent calls ≡ n
        → unsent calls ≡ 0
    by_unsent t r done zero e = e
    by_unsent t r done (suc n) e =
        let stuck : IsStuck t =
          Reach-IsStuck (record { waits = refl; held = refl; pending = omega (arith, e) }) r in
        let bad : ⊥ = cc (done, stuck.waits) in absurd bad
