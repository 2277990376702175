-- ===== src/Receiver/LogTail/Calls/Closing.antt =====
-- What is left running of a receiver of internal/receiver/logtail.go that is stopped, or fails to start.
use mathlib.Core.Path.{subst}
use taplytix.Prelude.{
  ℕ, ◌≡◌, refl, sym, ap, ◌∙◌, Bool, true, false, not, ◌||◌, Option, none, some, List, [], ◌∷◌, ◌==◌,
  arith, All, Bool-cases, inl, inr,
}
use taplytix.Prelude.Handles.{
  without, is_in, without_some-own, none_own, All-keep_if, All-without_some,
}
use taplytix.Receiver.LogTail.Calls.{
  Source, listen, use_stdin, path, no_source, StartError, already_started, Tailer, begin, attach,
  start_by, start, stop, closer, Step, begins, attaches, stops, closes, Reach, here, next,
  run_closers, settle,
}

abbrev has_closer : List (ℕ × ℕ) → ℕ → Bool
has_closer [] n = false
has_closer ((ctx, l) ∷ cs) n = n == l || has_closer cs n

-- No context lives but the receiver's own, and each open listener has a goroutine that will close it.
record IsWatched (t : Tailer) : Type 0 where
  own : All (λ c. t.cancel ≡ some c) t.live
  watched : All (λ l. has_closer t.closers l ≡ true) t.opened

own_only :
    (o : Option ℕ) (ctx : ℕ) (live : List ℕ)
    → o ≡ none
    → All (λ c. o ≡ some c) live
    → All (λ c. some ctx ≡ some c) (ctx ∷ live)
own_only o ctx live e h =
    (refl, subst (All (λ c. some ctx ≡ some c)) (sym (none_own o live e h)) tt)

-- Another goroutine leaves each open listener the one that it has.
still_watched :
    (c : ℕ × ℕ) (cs : List (ℕ × ℕ)) (opened : List ℕ)
    → All (λ l. has_closer cs l ≡ true) opened
    → All (λ l. has_closer (c ∷ cs) l ≡ true) opened
still_watched c cs [] h = tt
still_watched (ctx, k) cs (l ∷ opened) h =
    (ground (arith, h.0), still_watched (ctx, k) cs opened h.1)

attach-IsWatched :
    (ctx : ℕ) (src : Source) (t : Tailer) → IsWatched t → IsWatched (attach ctx src t).0
unfolding attach
attach-IsWatched ctx (listen none) t w = record {
  own = All-keep_if (λ c. t.cancel ≡ some c) (λ m. not (m == ctx)) t.live w.own;
  watched = w.watched;
}
attach-IsWatched ctx (listen (some l)) t w = record {
  own = w.own;
  watched = (ground arith, still_watched (ctx, l) t.closers t.opened w.watched);
}
attach-IsWatched ctx use_stdin t w = w
attach-IsWatched ctx path t w = w
attach-IsWatched ctx no_source t w = record {
  own = All-keep_if (λ c. t.cancel ≡ some c) (λ m. not (m == ctx)) t.live w.own;
  watched = w.watched;
}

closer-IsWatched : (c : ℕ × ℕ) (t : Tailer) → IsWatched t → IsWatched (closer c t)
closer-IsWatched (ctx, l) t w = elim (Bool-cases (is_in ctx t.live)) [
  | inl hit ↦ rw hit w
  | inr miss ↦ rw miss (record {
    own = w.own;
    watched =
        All-keep_if (λ k. has_closer t.closers k ≡ true) (λ m. not (m == l)) t.opened w.watched;
  })
]

stop-live : (t : Tailer) → IsWatched t → (stop t).live ≡ []
unfolding stop
stop-live t w = without_some-own t.cancel t.live w.own

Step-IsWatched : {t u : Tailer} → Step t u → IsWatched t → IsWatched u
unfolding begin stop
Step-IsWatched {t} (begins ctx e) w = record {
  own = own_only t.cancel ctx t.live e w.own;
  watched = w.watched;
}
Step-IsWatched {t} (attaches ctx src) w = attach-IsWatched ctx src t w
Step-IsWatched {t} stops w = record {
  own = subst (All (λ c. none ≡ some c)) (sym (stop-live t w)) tt;
  watched = All-without_some (λ l. has_closer t.closers l ≡ true) t.listener t.opened w.watched;
}
Step-IsWatched {t} (closes c) w = closer-IsWatched c t w

Reach-IsWatched : {t : Tailer} → Reach t → IsWatched t
Reach-IsWatched here = record { own = tt; watched = tt }
Reach-IsWatched (next r st) = Step-IsWatched st (Reach-IsWatched r)

closer_gone :
    (ctx l : ℕ) (cs : List (ℕ × ℕ)) (opened : List ℕ)
    → All (λ k. has_closer ((ctx, l) ∷ cs) k ≡ true) opened
    → All (λ k. has_closer cs k ≡ true) (without l opened)
closer_gone ctx l cs [] h = tt
closer_gone ctx l cs (k ∷ opened) h = elim (Bool-cases (k == l)) [
  | inl hit ↦ rw hit (closer_gone ctx l cs opened h.1)
  | inr miss ↦ rw miss (ground (arith, h.0, miss), closer_gone ctx l cs opened h.1)
]

none_watched : (opened : List ℕ) → All (λ k. has_closer [] k ≡ true) opened → opened ≡ []
none_watched [] h = refl
none_watched (k ∷ opened) h = let bad : ⊥ = cc h.0 in absurd bad

-- Where no context lives, the goroutines close whatever is open.
run_closers-all :
    (cs : List (ℕ × ℕ)) (opened : List ℕ)
    → All (λ k. has_closer cs k ≡ true) opened
    → run_closers [] cs opened ≡ []
run_closers-all [] opened h = none_watched opened h
run_closers-all ((ctx, l) ∷ cs) opened h =
    run_closers-all cs (without l opened) (closer_gone ctx l cs opened h)

settle-none : (t : Tailer) → IsWatched t → t.live ≡ [] → settle t ≡ []
settle-none t w e =
    ap (λ live. run_closers live t.closers t.opened) e
    ∙ run_closers-all t.closers t.opened w.watched

-- Whatever parts of Start, calls of Stop and goroutines have run, in any order: after a Stop no context
-- lives, the receiver holds neither a context nor a listener, and once the goroutines that are there
-- have run no listener is open.
pub stop-Settles :
    {t : Tailer}
    → Reach t
    → ((stop t).cancel ≡ none)
      × ((stop t).listener ≡ none)
      × ((stop t).live ≡ [])
      × (settle (stop t) ≡ [])
unfolding stop
stop-Settles {t} r =
    let w = Reach-IsWatched r in
    (refl, refl, stop-live t w, settle-none (stop t) (Step-IsWatched stops w) (stop-live t w))

-- A call that has failed leaves its own context in the receiver, done, and no goroutine that runs.
abbrev IsStuck : ℕ → Tailer → Type 0
IsStuck ctx t = (t.cancel ≡ some ctx) × (t.live ≡ []) × (settle t ≡ [])

without_only : (ctx : ℕ) (live : List ℕ) → live ≡ [] → without ctx (ctx ∷ live) ≡ []
without_only ctx live e = let same : (ctx == ctx) ≡ true = ground arith in rw (same, e) refl

attach_fails :
    (ctx : ℕ) (src : Source) (t : Tailer) {e : StartError}
    → t.live ≡ []
    → (attach ctx src (begin ctx t)).1 ≡ some e
    → ((attach ctx src (begin ctx t)).0.cancel ≡ some ctx)
      × ((attach ctx src (begin ctx t)).0.live ≡ [])
unfolding attach begin
attach_fails ctx (listen none) t e h = (refl, without_only ctx t.live e)
attach_fails ctx (listen (some l)) t e h = let bad : ⊥ = cc h in absurd bad
attach_fails ctx use_stdin t e h = let bad : ⊥ = cc h in absurd bad
attach_fails ctx path t e h = let bad : ⊥ = cc h in absurd bad
attach_fails ctx no_source t e h = (refl, without_only ctx t.live e)

attach-IsStuck :
    (ctx : ℕ) (src : Source) (t : Tailer) {e : StartError}
    → IsWatched t
    → t.cancel ≡ none
    → (attach ctx src (begin ctx t)).1 ≡ some e
    → IsStuck ctx (attach ctx src (begin ctx t)).0
attach-IsStuck ctx src t w idle h =
    let gone = attach_fails ctx src t (none_own t.cancel t.live idle w.own) h in
    let after = Step-IsWatched (attaches ctx src) (Step-IsWatched (begins ctx idle) w) in
    (gone.0, gone.1, settle-none (attach ctx src (begin ctx t)).0 after gone.1)

start_idle :
    (ctx : ℕ) (src : Source) (t : Tailer)
    → t.cancel ≡ none
    → start ctx src t ≡ attach ctx src (begin ctx t)
unfolding start
start_idle ctx src t idle = ap (λ o. start_by o ctx src t) idle

-- A Start that fails on a receiver that is not started leaves no context that lives and, once the
-- goroutines have run, no listener that is open; but the receiver counts as started: until a Stop each
-- Start is refused and changes nothing, and after a Stop one with a path or stdin goes through.
pub failed_start-Refuses :
    (ctx : ℕ) (src : Source) {t : Tailer} {e : StartError}
    → Reach t
    → t.cancel ≡ none
    → (start ctx src t).1 ≡ some e
    → let u = (start ctx src t).0 in
      (u.live ≡ [])
      × (settle u ≡ [])
      × ((again : ℕ) (other : Source) → start again other u ≡ (u, some already_started))
      × ((again : ℕ) → (start again path (stop u)).1 ≡ none)
      × ((again : ℕ) → (start again use_stdin (stop u)).1 ≡ none)
unfolding start stop
failed_start-Refuses ctx src {t} {e} r idle h =
    let same = start_idle ctx src t idle in
    let stuck : IsStuck ctx (start ctx src t).0 =
      subst (λ p. IsStuck ctx p.0) (sym same)
        (attach-IsStuck ctx src t (Reach-IsWatched r) idle (subst (λ p. p.1 ≡ some e) same h)) in
    (
      stuck.1,
      stuck.2,
      λ again other. ap (λ o. start_by o again other (start ctx src t).0) stuck.0,
      λ again. refl,
      λ again. refl,
    )
