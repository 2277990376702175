-- ===== src/Receiver/Outlet.antt =====
-- The `emit` of the receivers: a send that does not block, into the channel of the pipeline. While a
-- receiver works off one read the pipeline may take events off the channel; `emit_all` is the case
-- in which it does not, the hardest for the channel.
use taplytix.Prelude.{
  ℕ, ◌≤◌, ◌≡◌, refl, ap, ◌∙◌, List, [], ◌∷◌, ◌++◌, Option, none, some, length, take, if◌then◌else◌,
  ltb, arith, Bool-cases, inl, inr, length-append, zero, suc, sym, true, false,
}
use mathlib.Core.List.{append_assoc, append-nil}

-- A buffered channel: what it holds, oldest first.
pub record Outlet (E : Type 0) : Type 0 where
  pub room : ℕ
  pub held : List E

module _ {E : Type 0} where
  unfoldable pub emit : Outlet E → E → Outlet E
  emit o ev = if ltb (length o.held) o.room then record o { held = o.held ++ ev ∷ [] } else o

  unfoldable pub emit_all : Outlet E → List E → Outlet E
  emit_all o [] = o
  emit_all o (ev ∷ evs) = emit_all (emit o ev) evs

  -- A receiver's `out` is nil until it is started.
  unfoldable pub emit_to : Option (Outlet E) → E → Option (Outlet E)
  unfolding emit
  emit_to none ev = none
  emit_to (some o) ev = some (emit o ev)

  take_all : (n : ℕ) (xs : List E) → length xs ≤ n → take n xs ≡ xs
  take_all zero [] h = refl
  take_all (suc n) [] h = refl
  take_all zero (x ∷ xs) h = absurd (omega arith)
  take_all (suc n) (x ∷ xs) h = ap (λ r. x ∷ r) (take_all n xs (omega arith))

  emit_fits :
      (o : Outlet E) (ev : E)
      → ltb (length o.held) o.room ≡ true
      → emit o ev ≡ record o { held = o.held ++ ev ∷ [] }
  unfolding emit
  emit_fits o ev room = rw room

  emit_drops : (o : Outlet E) (ev : E) → ltb (length o.held) o.room ≡ false → emit o ev ≡ o
  unfolding emit
  emit_drops o ev full = rw full

  take_full : (n : ℕ) (xs ys zs : List E) → n ≤ length xs → take n (xs ++ ys) ≡ take n (xs ++ zs)
  take_full zero xs ys zs h = refl
  take_full (suc n) [] ys zs h = absurd (omega arith)
  take_full (suc n) (x ∷ xs) ys zs h = ap (λ r. x ∷ r) (take_full n xs ys zs (omega arith))

  -- A series of sends with no receive in between fills the channel up to its room and drops the rest.
  pub emit_all-eq-take :
      (evs : List E) (o : Outlet E)
      → length o.held ≤ o.room
      → (emit_all o evs).held ≡ take o.room (o.held ++ evs)
  unfolding emit_all
  emit_all-eq-take [] o h = sym (rw append-nil (take_all o.room o.held h))
  emit_all-eq-take (ev ∷ evs) o h = elim (Bool-cases (ltb (length o.held) o.room)) [
    | inl room ↦
        ap (λ sent. (emit_all sent evs).held) (emit_fits o ev room)
        ∙ emit_all-eq-take evs (record o { held = o.held ++ ev ∷ [] })
            (ground (arith, length-append o.held (ev ∷ [])))
        ∙ ap (take o.room) (append_assoc o.held (ev ∷ []) evs)
    | inr full ↦
        ap (λ sent. (emit_all sent evs).held) (emit_drops o ev full)
        ∙ emit_all-eq-take evs o h
        ∙ take_full o.room o.held evs (ev ∷ evs) (ground arith)
  ]

  room-emit_all : (evs : List E) (o : Outlet E) → (emit_all o evs).room ≡ o.room
  unfolding emit_all emit
  room-emit_all [] o = refl
  room-emit_all (ev ∷ evs) o = room-emit_all evs (emit o ev) ∙ ground arith

  -- The same of the channel as a whole.
  pub emit_all-fill :
      (evs : List E) (o : Outlet E)
      → length o.held ≤ o.room
      → emit_all o evs ≡ record o { held = take o.room (o.held ++ evs) }
  emit_all-fill evs o h = cc (room-emit_all evs o, emit_all-eq-take evs o h)
