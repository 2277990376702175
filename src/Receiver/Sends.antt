-- ===== src/Receiver/Sends.antt =====
-- Loops of the receivers that send a list of events, seen from the channel.
use taplytix.Prelude.{
  ◌≡◌, ◌≤◌, refl, ap, ◌∙◌, Option, none, some, List, [], ◌∷◌, ◌++◌, map, length, take, each, flat,
}
use taplytix.Receiver.Outlet.{Outlet, emit, emit_all, emit_to, emit_all-fill}

emit_all-append :
    {E : Type 0} (xs ys : List E) (o : Outlet E)
    → emit_all (emit_all o xs) ys ≡ emit_all o (xs ++ ys)
unfolding emit_all
emit_all-append [] ys o = refl
emit_all-append (x ∷ xs) ys o = emit_all-append xs ys (emit o x)

-- Sends into the channel, if there is one.
abbrev pub send_all : {E : Type 0} → List E → Option (Outlet E) → Option (Outlet E)
send_all evs none = none
send_all evs (some o) = some (emit_all o evs)

pub send_all-append :
    {E : Type 0} (xs ys : List E) (out : Option (Outlet E))
    → send_all ys (send_all xs out) ≡ send_all (xs ++ ys) out
send_all-append xs ys none = refl
send_all-append xs ys (some o) = ap some (emit_all-append xs ys o)

pub send_all_nil : {E : Type 0} (out : Option (Outlet E)) → out ≡ send_all [] out
unfolding emit_all
send_all_nil none = refl
send_all_nil (some o) = refl

-- A body that sends a list of events, whatever the channel holds.
abbrev pub Sends {ℓ} :
    {A : Type ℓ} {E : Type 0} → (A → Option (Outlet E) → Option (Outlet E)) → (A → List E) → Type ℓ
Sends {A = A} {E = E} body f = (a : A) (out : Option (Outlet E)) → body a out ≡ send_all (f a) out

pub each-Sends {ℓ} :
    {A : Type ℓ} {E : Type 0} (body : A → Option (Outlet E) → Option (Outlet E)) (f : A → List E)
    → Sends body f
    → Sends (each body) (flat f)
each-Sends body f h [] out = send_all_nil out
each-Sends body f h (x ∷ xs) out =
    ap (each body xs) (h x out)
    ∙ each-Sends body f h xs (send_all (f x) out)
    ∙ send_all-append (f x) (flat f xs) out

pub one-Sends :
    {A E : Type 0} (f : A → E)
    → Sends (λ a (out : Option (Outlet E)). emit_to out (f a)) (λ a. f a ∷ [])
unfolding emit_to emit_all
one-Sends f a none = refl
one-Sends f a (some o) = refl

pub map-Sends :
    {A E : Type 0} (f : A → E)
    → Sends (each (λ a (out : Option (Outlet E)). emit_to out (f a))) (map f)
map-Sends f [] out = send_all_nil out
map-Sends f (x ∷ xs) out =
    ap (each (λ a o. emit_to o (f a)) xs) (one-Sends f x out)
    ∙ map-Sends f xs (send_all (f x ∷ []) out)
    ∙ send_all-append (f x ∷ []) (map f xs) out

-- What the channel of a receiver holds after a series of events, where it has held no more than
-- its room: the oldest of both that fit. A receiver that is not started has none.
abbrev pub Delivers : {E : Type 0} → (Option (Outlet E) → Option (Outlet E)) → List E → Type 0
Delivers {E = E} act evs =
    (act none ≡ none)
    × ((o : Outlet E)
        → length o.held ≤ o.room
        → act (some o) ≡ some (record o { held = take o.room (o.held ++ evs) }))

pub Sends-Delivers :
    {E : Type 0} (act : Option (Outlet E) → Option (Outlet E)) (evs : List E)
    → ((out : Option (Outlet E)) → act out ≡ send_all evs out)
    → Delivers act evs
Sends-Delivers act evs h = (h none, λ o fits. h (some o) ∙ ap some (emit_all-fill evs o fits))
