-- ===== src/Receiver/LogTail/Calls.antt =====
-- `Start` and `Stop` of internal/receiver/logtail.go, and the goroutine of `runTCP` that closes the
-- listener of a context that is done. Contexts and listeners stand for themselves by a number. The
-- context that `Start` is given lives, and the connections of a listener are left out.
pub mod Closing
use mathlib.Core.Path.{subst}
use taplytix.Prelude.{
  ℕ, ◌≡◌, refl, sym, ap, ◌∙◌, Bool, true, false, not, ◌||◌, Option, none, some, List, [], ◌∷◌,
  if◌then◌else◌, ◌==◌, arith, keep_if, All, Bool-cases, inl, inr,
}
use taplytix.Prelude.Handles.{
  without, without_some, is_in, without_some-own, none_own, All-keep_if, All-without_some,
}

-- What the options ask for, with the new listener where `net.Listen` gives one.
pub data Source : Type 0 where
  listen : Option ℕ → Source
  use_stdin path no_source : Source

pub data StartError : Type 0 where
  already_started no_listen must_specify : StartError

pub record Tailer : Type 0 where
  pub cancel : Option ℕ
  pub listener : Option ℕ
  -- The contexts that are not done.
  pub live : List ℕ
  -- The listeners that are open.
  pub opened : List ℕ
  -- The goroutines that wait for a context and then close a listener.
  pub closers : List (ℕ × ℕ)

abbrev pub fresh : Tailer
fresh = record { cancel = none; listener = none; live = []; opened = []; closers = [] }

-- The part of `Start` under the first lock, where the receiver is not started: the new context.
unfoldable pub begin : ℕ → Tailer → Tailer
begin ctx t = record t { cancel = some ctx; live = ctx ∷ t.live }

-- The switch of `Start`.
unfoldable pub attach : ℕ → Source → Tailer → Tailer × Option StartError
attach ctx (listen none) t = (record t { live = without ctx t.live }, some no_listen)
attach ctx (listen (some l)) t =
    (record t { listener = some l; opened = l ∷ t.opened; closers = (ctx, l) ∷ t.closers }, none)
attach ctx use_stdin t = (t, none)
attach ctx path t = (t, none)
attach ctx no_source t = (record t { live = without ctx t.live }, some must_specify)

-- The whole of `Start`, with nothing in between.
abbrev pub start_by : Option ℕ → ℕ → Source → Tailer → Tailer × Option StartError
start_by (some old) ctx src t = (t, some already_started)
start_by none ctx src t = attach ctx src (begin ctx t)

unfoldable pub start : ℕ → Source → Tailer → Tailer × Option StartError
unfolding begin attach
start ctx src t = start_by t.cancel ctx src t

unfoldable pub stop : Tailer → Tailer
stop t = record t {
  cancel = none;
  listener = none;
  live = without_some t.cancel t.live;
  opened = without_some t.listener t.opened;
}

-- A goroutine of `runTCP`: it does nothing while its context lives.
abbrev pub closer : ℕ × ℕ → Tailer → Tailer
closer (ctx, l) t = if is_in ctx t.live then t else record t { opened = without l t.opened }

-- What may happen, in any order: a `Start` has two locks, and others may run between them.
pub data Step : Tailer → Tailer → Type 0 where
  begins : {t : Tailer} (ctx : ℕ) → t.cancel ≡ none → Step t (begin ctx t)
  attaches : {t : Tailer} (ctx : ℕ) (src : Source) → Step t (attach ctx src t).0
  stops : {t : Tailer} → Step t (stop t)
  closes : {t : Tailer} (c : ℕ × ℕ) → Step t (closer c t)

pub data Reach : Tailer → Type 0 where
  here : Reach fresh
  next : {t u : Tailer} → Reach t → Step t u → Reach u

-- The goroutines that have been started have all been given a turn.
abbrev pub run_closers : List ℕ → List (ℕ × ℕ) → List ℕ → List ℕ
run_closers live [] opened = opened
run_closers live ((ctx, l) ∷ cs) opened =
    let rest = run_closers live cs in
    if is_in ctx live then rest opened else rest (without l opened)

abbrev pub settle : Tailer → List ℕ
settle t = run_closers t.live t.closers t.opened
