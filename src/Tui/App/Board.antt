-- ===== src/Tui/App/Board.antt =====
-- The alerts that the dashboard shows are the alerts that the engine holds as fired.
pub mod Rounds
use mathlib.Core.Path.{subst}
use taplytix.Prelude.{
  ◌≡◌, refl, sym, ap, ◌∙◌, Bool, true, false, not, ◌&&◌, Option, none, some, List, [], ◌∷◌, ◌++◌,
  All, if◌then◌else◌, Str, str_eq, str_eq_iff, arith, Bool-cases, Option-cases, inl, inr,
}
use taplytix.Prelude.Maps.{
  Map, lookup, insert, delete, lookup-insert, lookup-delete, insert-All, delete-All, lookup-All,
}
use taplytix.Clock.{Time}
use taplytix.Floats.{Floats}
use taplytix.Store.Services.{Store, service_names}
use taplytix.Alert.Rule.{Rule, Alert, AlertMsg, fired_msg, resolved_msg, alert_key, key_of}
use taplytix.Alert.Engine.{
  Pending, Effect, dispatch, notify, Config, Firing, contains, dispatch_msg, fanout_notify,
  pending_or_new, should_fire, new_alert, breached, on_breach, resolve, clear_effects, on_clear,
  Round, judge, judge_services, judge_rules, stale_keys, clear_all, evaluate_once, fired_of,
  after_breach, after_clear,
}
use taplytix.Tui.App.{show_alert}

module _ {F : Type 0} where
  -- The alerts on the board after the engine's effects: each message goes through `Update`, a
  -- notifier does not touch the board.
  unfoldable pub deliver : Map (Alert F) → List (Effect F) → Map (Alert F)
  deliver board [] = board
  deliver board (dispatch msg ∷ es) = deliver (show_alert msg board) es
  deliver board (notify name a ∷ es) = deliver board es

  -- What the board should show of an entry.
  abbrev pub shown : Option (Pending F) → Option (Alert F)
  shown none = none
  shown (some p) = fired_of p

  -- An entry under a key: an alert is held exactly while the entry has fired, and it is the key's.
  pub record IsConsistent (k : Str) (p : Pending F) : Type 0 where
    pub idle : p.fired ≡ false → p.fired_alert ≡ none
    pub firing : p.fired ≡ true → (a : Alert F) × (p.fired_alert ≡ some a) × (alert_key a ≡ k)

  pub record Synced (firing : Firing F) (board : Map (Alert F)) : Type 0 where
    pub consistent : All (λ e. IsConsistent e.0 e.1) firing
    pub mirrors : (k : Str) → lookup k board ≡ shown (lookup k firing)

  pub deliver-append :
      (es es' : List (Effect F)) (board : Map (Alert F))
      → deliver board (es ++ es') ≡ deliver (deliver board es) es'
  unfolding deliver
  deliver-append [] es' board = refl
  deliver-append (dispatch msg ∷ es) es' board = deliver-append es es' (show_alert msg board)
  deliver-append (notify name a ∷ es) es' board = deliver-append es es' board

module _ {F : Type 0} (fl : Floats F) (cfg : Config F) (wired : cfg.has_bus ≡ true) where
  deliver-fanout :
      (names : List Str) (a : Alert F) (board : Map (Alert F))
      → deliver board (fanout_notify cfg names a) ≡ board
  unfolding deliver fanout_notify
  deliver-fanout [] a board = refl
  deliver-fanout (name ∷ names) a board = elim (Bool-cases (contains cfg.notifiers name)) [
    | inl known ↦ rw known (deliver-fanout names a board)
    | inr unknown ↦ rw unknown (deliver-fanout names a board)
  ]

  -- One message and its notifications.
  deliver-announce :
      (msg : AlertMsg F) (names : List Str) (a : Alert F) (board : Map (Alert F))
      → deliver board (dispatch_msg cfg msg ++ fanout_notify cfg names a) ≡ show_alert msg board
  unfolding deliver dispatch_msg
  deliver-announce msg names a board = simp wired (deliver-fanout names a (show_alert msg board))

  pending-IsConsistent :
      (rule : Rule F) (svc key : Str) (now : Time) (firing : Firing F)
      → All (λ e. IsConsistent e.0 e.1) firing
      → IsConsistent key (pending_or_new fl rule svc now (lookup key firing))
  pending-IsConsistent rule svc key now firing h = of_lookup (lookup key firing) refl
    where
      of_lookup :
          (o : Option (Pending F))
          → lookup key firing ≡ o
          → IsConsistent key (pending_or_new fl rule svc now o)
      of_lookup none e = record { idle = λ _. refl; firing = λ f. let bad : ⊥ = cc f in absurd bad }
      of_lookup (some p) e = lookup-All (λ e. IsConsistent e.0 e.1) key firing h e

  shown-pending :
      (rule : Rule F) (svc : Str) (now : Time) (o : Option (Pending F))
      → shown (some (pending_or_new fl rule svc now o)) ≡ shown o
  shown-pending rule svc now none = refl
  shown-pending rule svc now (some p) = refl

  if-shown :
      (b : Bool) (x : Option (Alert F)) (p : Pending F) (z : Option (Alert F))
      (y : Option (Pending F))
      → x ≡ fired_of p
      → z ≡ shown y
      → (if b then x else z) ≡ shown (if b then some p else y)
  if-shown true x p z y e h = e
  if-shown false x p z y e h = h

  if-none :
      (b : Bool) (z : Option (Alert F)) (y : Option (Pending F))
      → z ≡ shown y
      → (if b then none else z) ≡ shown (if b then none else y)
  if-none true z y h = refl
  if-none false z y h = h

  -- A breach that fires puts the alert on the board under the entry's key.
  breach_fires :
      (rule : Rule F) (svc key : Str) (value : F) (now : Time) (p : Pending F) (firing : Firing F)
      (board : Map (Alert F))
      → key ≡ key_of rule.name svc
      → Synced firing board
      → Synced
          (insert key
            (record p {
              last_value = value;
              fired = true;
              fired_alert = some (new_alert rule svc value now);
            })
            firing)
          (insert (key_of rule.name svc) (new_alert rule svc value now) board)
  breach_fires rule svc key value now p firing board k s = record {
    consistent =
        insert-All (λ e. IsConsistent e.0 e.1) key p' firing
          (λ j same. record {
            idle = λ f. let bad : ⊥ = cc f in absurd bad;
            firing = λ _. (new_alert rule svc value now, refl, sym k ∙ sym same);
          })
          s.consistent;
    mirrors = λ j.
        lookup-insert (key_of rule.name svc) j (new_alert rule svc value now) board
        ∙ ap (λ c. if str_eq c j then some (new_alert rule svc value now) else lookup j board)
            (sym k)
        ∙ if-shown (str_eq key j) (some (new_alert rule svc value now)) p' (lookup j board)
            (lookup j firing) refl (s.mirrors j)
        ∙ ap shown (sym (lookup-insert key j p' firing));
  }
    where
      p' : Pending F
      p' = record p {
        last_value = value;
        fired = true;
        fired_alert = some (new_alert rule svc value now);
      }

  -- A breach that does not fire leaves the board alone.
  breach_waits :
      (key : Str) (value : F) (p : Pending F) (firing : Firing F) (board : Map (Alert F))
      → IsConsistent key p
      → shown (some p) ≡ shown (lookup key firing)
      → Synced firing board
      → Synced (insert key (record p { last_value = value }) firing) board
  breach_waits key value p firing board c e s = record {
    consistent =
        insert-All (λ e. IsConsistent e.0 e.1) key (record p { last_value = value }) firing
          (λ j same.
            subst (λ i. IsConsistent i (record p { last_value = value })) (sym same)
              (record { idle = c.idle; firing = c.firing }))
          s.consistent;
    mirrors = λ j.
        waits j ∙ ap shown (sym (lookup-insert key j (record p { last_value = value }) firing));
  }
    where
      waits :
          (j : Str)
          → lookup j board
            ≡ shown
                (if str_eq key j then some (record p { last_value = value }) else lookup j firing)
      waits j = elim (Bool-cases (str_eq key j)) [
        | inl same ↦ rw same (
            s.mirrors j
            ∙ ap (λ i. shown (lookup i firing)) (sym ((str_eq_iff key j).0 same))
            ∙ sym e)
        | inr apart ↦ rw apart (s.mirrors j)
      ]

  pub on_breach-Synced :
      (rule : Rule F) (svc key : Str) (value : F) (now : Time) (firing : Firing F)
      (board : Map (Alert F))
      → key ≡ key_of rule.name svc
      → Synced firing board
      → let (firing', es) = on_breach fl cfg rule svc key value now firing in
        Synced firing' (deliver board es)
  unfolding on_breach
  on_breach-Synced rule svc key value now firing board k s =
      elim (Bool-cases (should_fire rule now p)) [
        | inl fires ↦
            simp (fires, deliver-announce)
              (unfold show_alert in breach_fires rule svc key value now p firing board k s)
        | inr waits ↦ simp waits (
            unfold deliver in
            breach_waits key value p firing board
              (pending-IsConsistent rule svc key now firing s.consistent)
              (shown-pending rule svc now (lookup key firing)) s)
      ]
    where
      p : Pending F
      p = pending_or_new fl rule svc now (lookup key firing)

  -- Deleting an entry that is not on the board.
  clear_silent :
      (key : Str) (firing : Firing F) (board : Map (Alert F))
      → shown (lookup key firing) ≡ none
      → Synced firing board
      → Synced (delete key firing) board
  clear_silent key firing board e s = record {
    consistent = delete-All (λ e. IsConsistent e.0 e.1) key firing s.consistent;
    mirrors = λ j. gone j ∙ ap shown (sym (lookup-delete key j firing));
  }
    where
      gone : (j : Str) → lookup j board ≡ shown (if str_eq key j then none else lookup j firing)
      gone j = elim (Bool-cases (str_eq key j)) [
        | inl same ↦
            rw same (
              s.mirrors j ∙ ap (λ i. shown (lookup i firing)) (sym ((str_eq_iff key j).0 same)) ∙ e)
        | inr apart ↦ rw apart (s.mirrors j)
      ]

  -- Deleting an entry and its alert.
  clear_resolves :
      (key : Str) (firing : Firing F) (board : Map (Alert F))
      → Synced firing board
      → Synced (delete key firing) (delete key board)
  clear_resolves key firing board s = record {
    consistent = delete-All (λ e. IsConsistent e.0 e.1) key firing s.consistent;
    mirrors = λ j.
        lookup-delete key j board
        ∙ if-none (str_eq key j) (lookup j board) (lookup j firing) (s.mirrors j)
        ∙ ap shown (sym (lookup-delete key j firing));
  }

  pub on_clear-Synced :
      (key : Str) (value : F) (now : Time) (firing : Firing F) (board : Map (Alert F))
      → Synced firing board
      → let (firing', es) = on_clear fl cfg key value now firing in
        Synced firing' (deliver board es)
  unfolding on_clear
  on_clear-Synced key value now firing board s = of_lookup (lookup key firing) refl
    where
      of_fired :
          (p : Pending F)
          → lookup key firing ≡ some p
          → (a : Alert F) × (p.fired_alert ≡ some a) × (alert_key a ≡ key)
          → p.fired ≡ true
          → Synced (delete key firing) (deliver board (clear_effects fl cfg value now (some p)))
      of_fired p e (a, held, at_key) f =
          simp (f, held, deliver-announce)
            (unfold show_alert in
              subst (λ c. Synced (delete key firing) (delete c board)) (sym at_key)
                (clear_resolves key firing board s))

      of_lookup :
          (o : Option (Pending F))
          → lookup key firing ≡ o
          → Synced (delete key firing) (deliver board (clear_effects fl cfg value now o))
      of_lookup none e = unfold deliver in clear_silent key firing board (ap shown e) s
      of_lookup (some p) e = elim (Bool-cases p.fired) [
        | inl f ↦
            of_fired p e
              ((lookup-All (λ e. IsConsistent e.0 e.1) key firing s.consistent e).firing f) f
        | inr f ↦ simp f (unfold deliver in clear_silent key firing board (ap shown e ∙ rw f) s)
      ]
