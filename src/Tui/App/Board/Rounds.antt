-- ===== src/Tui/App/Board/Rounds.antt =====
-- The board follows the engine through whole evaluations, and through any number of them.
use taplytix.Prelude.{
  ◌≡◌, refl, true, Option, none, some, List, [], ◌∷◌, ◌++◌, Str, Bool-cases, inl, inr,
}
use taplytix.Prelude.Maps.{Map, lookup}
use taplytix.Clock.{Time}
use taplytix.Floats.{Floats}
use taplytix.Prelude.Int.{pos}
use taplytix.Store.Services.{Store, service_names, metrics_for}
use taplytix.Alert.Rule.{Rule, Alert, compare_op, key_of}
use taplytix.Alert.Engine.{
  Config, Firing, on_clear, Round, value_of, judge, judge_services, judge_rules, stale_keys,
  clear_all, evaluate_once, evaluate_all, find_series,
}
use taplytix.Tui.App.Board.{
  deliver, deliver-append, Synced, shown, on_breach-Synced, on_clear-Synced,
}

module _ {F : Type 0} (fl : Floats F) (cfg : Config F) (wired : cfg.has_bus ≡ true) where
  -- The board behind the effects of a round so far.
  abbrev InStep : Map (Alert F) → Round F → Type 0
  InStep board round = Synced round.firing (deliver board round.effects)

  judge-InStep :
      (now : Time) (rule : Rule F) (svc : Str) (o : Option F) (round : Round F)
      (board : Map (Alert F))
      → InStep board round
      → InStep board (judge fl cfg now rule svc o round)
  unfolding judge
  judge-InStep now rule svc none round board s = s
  judge-InStep now rule svc (some value) round board s =
      elim (Bool-cases (compare_op fl value rule.threshold rule.op)) [
        | inl breach ↦ rw breach (
            rw deliver-append (
              on_breach-Synced fl cfg wired rule svc (key_of rule.name svc) value now round.firing
                (deliver board round.effects) refl s))
        | inr fine ↦ rw fine (
            rw deliver-append (
              on_clear-Synced fl cfg wired (key_of rule.name svc) value now round.firing
                (deliver board round.effects) s))
      ]

  judge_services-InStep :
      (now : Time) (st : Store F) (rule : Rule F) (svcs : List Str) (round : Round F)
      (board : Map (Alert F))
      → InStep board round
      → InStep board (judge_services fl cfg now st rule svcs round)
  unfolding judge_services
  judge_services-InStep now st rule [] round board s = s
  judge_services-InStep now st rule (svc ∷ svcs) round board s =
      judge_services-InStep now st rule svcs
        (judge fl cfg now rule svc
          (value_of fl rule.percentile (find_series (metrics_for st svc) rule.metric)) round)
        board
        (judge-InStep now rule svc
          (value_of fl rule.percentile (find_series (metrics_for st svc) rule.metric)) round board
          s)

  judge_rules-InStep :
      (now : Time) (st : Store F) (svcs : List Str) (rules : List (Rule F)) (round : Round F)
      (board : Map (Alert F))
      → InStep board round
      → InStep board (judge_rules fl cfg now st svcs rules round)
  unfolding judge_rules
  judge_rules-InStep now st svcs [] round board s = s
  judge_rules-InStep now st svcs (rule ∷ rules) round board s =
      judge_rules-InStep now st svcs rules (judge_services fl cfg now st rule svcs round) board
        (judge_services-InStep now st rule svcs round board s)

  clear_all-InStep :
      (now : Time) (keys : List Str) (round : Round F) (board : Map (Alert F))
      → InStep board round
      → InStep board (clear_all fl cfg now keys round)
  unfolding clear_all
  clear_all-InStep now [] round board s = s
  clear_all-InStep now (key ∷ keys) round board s =
      clear_all-InStep now keys
        (record round {
          firing = (on_clear fl cfg key (fl.of_int (pos 0)) now round.firing).0;
          effects = round.effects ++ (on_clear fl cfg key (fl.of_int (pos 0)) now round.firing).1;
        })
        board
        (rw deliver-append (
          on_clear-Synced fl cfg wired key (fl.of_int (pos 0)) now round.firing
            (deliver board round.effects) s))

  evaluate_once-Synced :
      (now : Time) (st : Store F) (firing : Firing F) (board : Map (Alert F))
      → Synced firing board
      → let (firing', es) = evaluate_once fl cfg now st firing in Synced firing' (deliver board es)
  unfolding evaluate_once
  evaluate_once-Synced now st firing board s =
      clear_all-InStep now (stale_keys judged.seen judged.firing) judged board
        (judge_rules-InStep now st (service_names st) cfg.rules start board (unfold deliver in s))
    where
      start : Round F
      start = record { firing = firing; seen = []; effects = [] }

      judged : Round F
      judged = judge_rules fl cfg now st (service_names st) cfg.rules start

  evaluate_all-Synced :
      (ticks : List (Time × Store F)) (firing : Firing F) (board : Map (Alert F))
      → Synced firing board
      → let (firing', es) = evaluate_all fl cfg firing ticks in Synced firing' (deliver board es)
  unfolding evaluate_all
  evaluate_all-Synced [] firing board s = unfold deliver in s
  evaluate_all-Synced ((now, st) ∷ ticks) firing board s = rw deliver-append (
      evaluate_all-Synced ticks (evaluate_once fl cfg now st firing).0
        (deliver board (evaluate_once fl cfg now st firing).1)
        (evaluate_once-Synced now st firing board s))

-- Whatever the rules, the stores and the instants of the ticks, if the engine has a bus, then after
-- any number of evaluations the dashboard that has handled the engine's messages in order shows
-- under each key the alert that the engine holds as fired there, and nothing where it holds none.
pub board_mirrors :
    {F : Type 0} (fl : Floats F) (cfg : Config F) (ticks : List (Time × Store F)) (k : Str)
    → cfg.has_bus ≡ true
    → let (firing, es) = evaluate_all fl cfg [] ticks in
      lookup k (deliver [] es) ≡ shown (lookup k firing)
board_mirrors fl cfg ticks k wired =
    (evaluate_all-Synced fl cfg wired ticks [] []
        (record { consistent = tt; mirrors = λ k. unfold lookup in refl })).mirrors
      k
