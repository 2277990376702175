-- ===== src/Alert/Engine.antt =====
-- internal/alert/engine.go: rules evaluated against the store, with the state of each rule and
-- service that is in breach. What the engine sends out is returned as a list, in order: messages to
-- the program, and calls of notifiers, each of which the code runs on a goroutine of its own.
pub mod Episodes
use taplytix.Prelude.{
  ℕ, Bool, true, false, not, ◌&&◌, ◌||◌, Option, none, some, List, [], ◌∷◌, ◌++◌, if◌then◌else◌,
  ◌==◌, Str, str_eq, length,
}
use taplytix.Prelude.Int.{ℤ, pos, leb_ℤ}
use taplytix.Prelude.Maps.{Map, lookup, insert, delete}
use taplytix.Clock.{Time, Duration, sub_time}
use taplytix.Floats.{Floats}
use taplytix.Store.Series.{Series, values}
use taplytix.Store.Percentile
use taplytix.Store.Services.{Store, metrics_for, service_names}
use taplytix.Alert.Rule.{
  Rule, Alert, AlertMsg, fired_msg, resolved_msg, compare_op, key_of, zero_alert,
}

pub record Pending (F : Type 0) : Type 0 where
  pub rule : Rule F
  pub service : Str
  pub firing_since : Time
  pub fired : Bool
  pub last_value : F
  pub fired_alert : Option (Alert F)

pub data Effect (F : Type 0) : Type 0 where
  dispatch : AlertMsg F → Effect F
  notify : Str → Alert F → Effect F

-- The fields that do not change: the rules, whether there is a bus, the names of the notifiers.
pub record Config (F : Type 0) : Type 0 where
  pub rules : List (Rule F)
  pub has_bus : Bool
  pub notifiers : List Str

abbrev pub Firing : Type 0 → Type 0
Firing F = Map (Pending F)

unfoldable pub contains : List Str → Str → Bool
contains [] k = false
contains (x ∷ xs) k = str_eq x k || contains xs k

module _ {F : Type 0} (cfg : Config F) where
  unfoldable pub dispatch_msg : AlertMsg F → List (Effect F)
  dispatch_msg msg = if cfg.has_bus then dispatch msg ∷ [] else []

  unfoldable pub fanout_notify : List Str → Alert F → List (Effect F)
  unfolding contains
  fanout_notify [] a = []
  fanout_notify (name ∷ names) a =
      if contains cfg.notifiers name
      then notify name a ∷ fanout_notify names a
      else fanout_notify names a

-- The entry of the key, a new one where there is none.
abbrev pub pending_or_new :
    {F : Type 0} → Floats F → Rule F → Str → Time → Option (Pending F) → Pending F
pending_or_new fl rule svc now none = record {
  rule = rule;
  service = svc;
  firing_since = now;
  fired = false;
  last_value = fl.of_int (pos 0);
  fired_alert = none;
}
pending_or_new fl rule svc now (some p) = p

module _ {F : Type 0} where
  abbrev pub should_fire : Rule F → Time → Pending F → Bool
  should_fire rule now p = not p.fired && leb_ℤ rule.for_at_least (sub_time now p.firing_since)

  abbrev pub new_alert : Rule F → Str → F → Time → Alert F
  new_alert rule svc value now = record {
    rule = rule;
    service = svc;
    value = value;
    fired_at = now;
    resolved_at = none;
  }

  -- The entry after a breach.
  abbrev pub breached : Rule F → Str → F → Time → Pending F → Pending F
  breached rule svc value now p =
      if should_fire rule now p
      then record p {
        last_value = value;
        fired = true;
        fired_alert = some (new_alert rule svc value now);
      }
      else record p { last_value = value }

module _ {F : Type 0} (fl : Floats F) where
  abbrev pub resolve : F → Time → Option (Alert F) → Alert F
  resolve value now none = zero_alert fl
  resolve value now (some a) = record a { resolved_at = some now; value = value }

module _ {F : Type 0} (fl : Floats F) (cfg : Config F) where
  unfoldable pub on_breach : Rule F → Str → Str → F → Time → Firing F → Firing F × List (Effect F)
  on_breach rule svc key value now firing =
      let p = pending_or_new fl rule svc now (lookup key firing) in
      let alert = new_alert rule svc value now in
      (
        insert key (breached rule svc value now p) firing,
        (if should_fire rule now p
            then dispatch_msg cfg (fired_msg alert) ++ fanout_notify cfg rule.notify alert
            else []),
      )

  abbrev pub clear_effects : F → Time → Option (Pending F) → List (Effect F)
  clear_effects value now none = []
  clear_effects value now (some p) =
      let resolved = resolve fl value now p.fired_alert in
      if p.fired
      then dispatch_msg cfg (resolved_msg resolved)
        ++ fanout_notify cfg resolved.rule.notify resolved
      else []

  -- Deleting a key that is not there changes nothing, as the early return does.
  unfoldable pub on_clear : Str → F → Time → Firing F → Firing F × List (Effect F)
  on_clear key value now firing = (delete key firing, clear_effects value now (lookup key firing))

-- `findSeries`: the key itself, or any series of that name.
unfoldable pub first_named : {F : Type 0} → Str → Map (Series F) → Option (Series F)
first_named name [] = none
first_named name ((k, s) ∷ m) = if str_eq s.name name then some s else first_named name m

abbrev or_named : {F : Type 0} → Option (Series F) → Str → Map (Series F) → Option (Series F)
or_named (some s) name m = some s
or_named none name m = first_named name m

unfoldable pub find_series : {F : Type 0} → Map (Series F) → Str → Option (Series F)
unfolding first_named
find_series m name = or_named (lookup name m) name m

-- What the loop over rules and services carries.
pub record Round (F : Type 0) : Type 0 where
  pub firing : Firing F
  pub seen : List Str
  pub effects : List (Effect F)

module _ {F : Type 0} where
  abbrev pub after_breach : Str → Firing F × List (Effect F) → Round F → Round F
  after_breach key r round = record {
    firing = r.0;
    seen = key ∷ round.seen;
    effects = round.effects ++ r.1;
  }

  abbrev pub after_clear : Firing F × List (Effect F) → Round F → Round F
  after_clear r round = record round { firing = r.0; effects = round.effects ++ r.1 }

-- The fired entries that no breach of this round has touched.
unfoldable pub stale_keys : {F : Type 0} → List Str → Firing F → List Str
stale_keys seen [] = []
stale_keys seen ((key, p) ∷ firing) =
    if not (contains seen key) && p.fired
    then key ∷ stale_keys seen firing
    else stale_keys seen firing

module _ {F : Type 0} (fl : Floats F) where
  unfoldable pub compute_value : Series F → ℤ → Option F
  compute_value s p =
      if s.ring.count == 0
      then none
      else if leb_ℤ p (pos 0) && leb_ℤ (pos 0) p
      then some s.last
      else some (Percentile.percentile fl (values fl s) (fl.of_int p))

  abbrev pub value_of : ℤ → Option (Series F) → Option F
  value_of p none = none
  value_of p (some s) = compute_value s p

  module _ (cfg : Config F) (now : Time) where
    -- One rule on one service; without a value the pair is skipped.
    unfoldable pub judge : Rule F → Str → Option F → Round F → Round F
    judge rule svc none round = round
    judge rule svc (some value) round =
        let key = key_of rule.name svc in
        if compare_op fl value rule.threshold rule.op
        then after_breach key (on_breach fl cfg rule svc key value now round.firing) round
        else after_clear (on_clear fl cfg key value now round.firing) round

    unfoldable pub judge_services : Store F → Rule F → List Str → Round F → Round F
    unfolding judge find_series compute_value
    judge_services st rule [] round = round
    judge_services st rule (svc ∷ svcs) round = judge_services st rule svcs (
        judge rule svc (value_of rule.percentile (find_series (metrics_for st svc) rule.metric))
          round)

    unfoldable pub judge_rules : Store F → List Str → List (Rule F) → Round F → Round F
    unfolding judge_services
    judge_rules st svcs [] round = round
    judge_rules st svcs (rule ∷ rules) round =
        judge_rules st svcs rules (judge_services st rule svcs round)

    unfoldable pub clear_all : List Str → Round F → Round F
    clear_all [] round = round
    clear_all (key ∷ keys) round =
        clear_all keys
          (after_clear (on_clear fl cfg key (fl.of_int (pos 0)) now round.firing) round)

    unfoldable pub evaluate_once : Store F → Firing F → Firing F × List (Effect F)
    unfolding judge_rules stale_keys clear_all
    evaluate_once st firing =
        let judged =
          judge_rules st (service_names st) cfg.rules
            (record { firing = firing; seen = []; effects = [] }) in
        let done = clear_all (stale_keys judged.seen judged.firing) judged in
        (done.firing, done.effects)

abbrev pub fired_of : {F : Type 0} → Pending F → Option (Alert F)
fired_of p = if p.fired then p.fired_alert else none

-- `Active`
unfoldable pub active : {F : Type 0} → Firing F → List (Alert F)
active [] = []
active ((key, p) ∷ firing) =
    let rest = active firing in elim (fired_of p) [ none ↦ rest | some a ↦ a ∷ rest ]

-- The engine's loop: one evaluation for each tick, at the instant and with the store of that tick.
unfoldable pub evaluate_all :
    {F : Type 0}
    → Floats F
    → Config F
    → Firing F
    → List (Time × Store F)
    → Firing F × List (Effect F)
evaluate_all fl cfg firing [] = (firing, [])
evaluate_all fl cfg firing ((now, st) ∷ ticks) =
    let (firing', es) = evaluate_once fl cfg now st firing in
    let (last, rest) = evaluate_all fl cfg firing' ticks in (last, es ++ rest)
