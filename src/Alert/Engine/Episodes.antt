-- ===== src/Alert/Engine/Episodes.antt =====
-- One rule on one service, from the first breach to the clear: what the engine sends out.
use mathlib.Core.List.{append_assoc}
use taplytix.Prelude.{
  ◌≡◌, refl, ap, ◌∙◌, Bool, true, false, Option, none, some, List, [], ◌∷◌, ◌++◌, if◌then◌else◌,
  Str, str_eq_refl, Bool-cases, inl, inr,
}
use taplytix.Prelude.Int.{leb_ℤ}
use taplytix.Prelude.Maps.{lookup, lookup-insert, lookup-delete}
use taplytix.Clock.{Time, sub_time}
use taplytix.Floats.{Floats}
use taplytix.Alert.Rule.{Rule, Alert, AlertMsg, fired_msg, resolved_msg}
use taplytix.Alert.Engine.{
  Pending, Effect, Config, Firing, dispatch_msg, fanout_notify, pending_or_new, should_fire,
  new_alert, on_breach, on_clear,
}

module _ {F : Type 0} (fl : Floats F) (cfg : Config F) (rule : Rule F) (svc key : Str) where
  -- Breaches in a row: each value with its instant.
  unfoldable pub breach_all : List (F × Time) → Firing F → Firing F × List (Effect F)
  breach_all [] firing = (firing, [])
  breach_all ((value, now) ∷ obs) firing =
      let (firing', es) = on_breach fl cfg rule svc key value now firing in
      let (last, rest) = breach_all obs firing' in (last, es ++ rest)

  -- The first breach that comes at least `For` after the start.
  abbrev pub first_due : Time → List (F × Time) → Option (F × Time)
  first_due since [] = none
  first_due since ((value, now) ∷ obs) =
      if leb_ℤ rule.for_at_least (sub_time now since)
      then some (value, now)
      else first_due since obs

  -- A message with its notifications.
  abbrev pub announce : AlertMsg F → Alert F → List (Effect F)
  announce msg a = dispatch_msg cfg msg ++ fanout_notify cfg a.rule.notify a

  abbrev alert_of : F × Time → Alert F
  alert_of due = new_alert rule svc due.0 due.1

  abbrev pub episode_effects : Option (F × Time) → F → Time → List (Effect F)
  episode_effects none value now = []
  episode_effects (some due) value now =
      announce (fired_msg (alert_of due)) (alert_of due)
      ++ announce (resolved_msg (record (alert_of due) { resolved_at = some now; value = value }))
          (record (alert_of due) { resolved_at = some now; value = value })

  -- What `onClear` sends after these breaches.
  abbrev pub episode : List (F × Time) → F → Time → Firing F → List (Effect F)
  episode obs value now firing =
      (breach_all obs firing).1 ++ (on_clear fl cfg key value now (breach_all obs firing).0).1

  -- The effects of a breach, and the entry after it, by whether it fires.
  abbrev sent_if : F → Time → Bool → List (Effect F)
  sent_if v t b =
      if b then announce (fired_msg (new_alert rule svc v t)) (new_alert rule svc v t) else []

  abbrev entry_if : F → Time → Pending F → Bool → Pending F
  entry_if v t p b =
      if b
      then record p { last_value = v; fired = true; fired_alert = some (new_alert rule svc v t) }
      else record p { last_value = v }

  on_breach_step :
      (v : F) (t : Time) (firing : Firing F) (o : Option (Pending F)) (p : Pending F) (b : Bool)
      → lookup key firing ≡ o
      → pending_or_new fl rule svc t o ≡ p
      → should_fire rule t p ≡ b
      → ((on_breach fl cfg rule svc key v t firing).1 ≡ sent_if v t b)
        × (lookup key (on_breach fl cfg rule svc key v t firing).0 ≡ some (entry_if v t p b))
  unfolding on_breach
  on_breach_step v t firing o p b e new fires = (
    ap (λ q. sent_if v t (should_fire rule t q)) found ∙ ap (sent_if v t) fires,
    lookup-insert key key (entry_if v t q (should_fire rule t q)) firing
        ∙ ap (λ c. if c then some (entry_if v t q (should_fire rule t q)) else lookup key firing)
            (str_eq_refl key)
        ∙ ap (λ x. some (entry_if v t x (should_fire rule t x))) found
        ∙ ap (λ c. some (entry_if v t p c)) fires,
  )
    where
      q : Pending F
      q = pending_or_new fl rule svc t (lookup key firing)

      found : q ≡ p
      found = ap (pending_or_new fl rule svc t) e ∙ new

  -- An episode is the first breach and the rest of the episode.
  episode-cons :
      (v : F) (t : Time) (obs : List (F × Time)) (value : F) (now : Time) (firing : Firing F)
      (es : List (Effect F))
      → (on_breach fl cfg rule svc key v t firing).1 ≡ es
      → episode ((v, t) ∷ obs) value now firing
        ≡ es ++ episode obs value now (on_breach fl cfg rule svc key v t firing).0
  unfolding breach_all
  episode-cons v t obs value now firing es e =
      append_assoc (on_breach fl cfg rule svc key v t firing).1 _ _
      ∙ ap (λ x. x ++ episode obs value now (on_breach fl cfg rule svc key v t firing).0) e

  -- Once the alert has fired, further breaches send nothing, and the clear resolves that alert.
  episode_fired :
      (obs : List (F × Time)) (value : F) (now : Time) (firing : Firing F) (p : Pending F)
      (a : Alert F)
      → lookup key firing ≡ some p
      → p.fired ≡ true
      → p.fired_alert ≡ some a
      → episode obs value now firing
        ≡ announce
            (resolved_msg (record a { resolved_at = some now; value = value }))
            (record a { resolved_at = some now; value = value })
  episode_fired [] value now firing p a e f held = unfold on_clear breach_all in simp (e, f, held)
  episode_fired ((v, t) ∷ obs) value now firing p a e f held =
      let silent : should_fire rule t p ≡ false = rw f in
      let step = on_breach_step v t firing (some p) p false e refl silent in
      episode-cons v t obs value now firing [] step.0
      ∙ episode_fired obs value now (on_breach fl cfg rule svc key v t firing).0
          (record p { last_value = v }) a step.1 f held

  -- One breach of an entry that has not fired, given what the rest of the episode does.
  episode_step :
      (v : F) (t : Time) (obs : List (F × Time)) (value : F) (now : Time) (firing : Firing F)
      (o : Option (Pending F)) (p : Pending F)
      → lookup key firing ≡ o
      → pending_or_new fl rule svc t o ≡ p
      → p.fired ≡ false
      → ((next : Firing F)
          → lookup key next ≡ some (record p { last_value = v })
          → episode obs value now next ≡ episode_effects (first_due p.firing_since obs) value now)
      → episode ((v, t) ∷ obs) value now firing
        ≡ episode_effects (first_due p.firing_since ((v, t) ∷ obs)) value now
  episode_step v t obs value now firing o p e new idle rest =
      elim (Bool-cases (leb_ℤ rule.for_at_least (sub_time t p.firing_since))) [
        | inl due ↦
            let fires : should_fire rule t p ≡ true = rw (idle, due) in
            let step = on_breach_step v t firing o p true e new fires in
            rw due (
              episode-cons v t obs value now firing (sent_if v t true) step.0
              ∙ ap (λ es. sent_if v t true ++ es)
                  (episode_fired obs value now next (entry_if v t p true) (new_alert rule svc v t)
                    step.1 refl refl))
        | inr early ↦
            let waits : should_fire rule t p ≡ false = rw (idle, early) in
            let step = on_breach_step v t firing o p false e new waits in
            rw early (episode-cons v t obs value now firing [] step.0 ∙ rest next step.1)
      ]
    where
      next : Firing F
      next = (on_breach fl cfg rule svc key v t firing).0

  episode_pending :
      (obs : List (F × Time)) (value : F) (now : Time) (firing : Firing F) (p : Pending F)
      → lookup key firing ≡ some p
      → p.fired ≡ false
      → episode obs value now firing ≡ episode_effects (first_due p.firing_since obs) value now
  episode_pending [] value now firing p e idle = unfold on_clear breach_all in simp (e, idle)
  episode_pending ((v, t) ∷ obs) value now firing p e idle =
      episode_step v t obs value now firing (some p) p e refl idle
        (λ next found. episode_pending obs value now next (record p { last_value = v }) found idle)

  -- For a key that is not in breach, breaches in a row from the instant `t` on, and then a clear,
  -- send nothing if none of the breaches comes `For` or more after `t`. Otherwise they send one
  -- firing, with the value and instant of the first breach that does, and one resolution of that
  -- same alert with the value and instant of the clear. No entry is left under the key.
  pub episode_lem :
      (v : F) (t : Time) (obs : List (F × Time)) (value : F) (now : Time) (firing : Firing F)
      → lookup key firing ≡ none
      → (episode ((v, t) ∷ obs) value now firing
          ≡ episode_effects (first_due t ((v, t) ∷ obs)) value now)
        × (lookup key (on_clear fl cfg key value now (breach_all ((v, t) ∷ obs) firing).0).0 ≡ none)
  episode_lem v t obs value now firing e = (
    episode_step v t obs value now firing none (pending_or_new fl rule svc t none) e refl refl
        (λ next found.
          episode_pending obs value now next
            (record (pending_or_new fl rule svc t none) { last_value = v }) found refl),
    unfold on_clear in lookup-delete key key (breach_all ((v, t) ∷ obs) firing).0 ∙ rw str_eq_refl,
  )
