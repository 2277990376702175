-- ===== src/Tests/Alerts.antt =====
-- Rules, an episode of one rule, and rounds of the engine with its dashboard.
use taplytix.Prelude.{false, ℕ, ◌≡◌, refl, List, [], ◌∷◌, none, some, Str, bytes, true, str_eq}
use taplytix.Prelude.Int.{pos}
use taplytix.Prelude.Maps.{lookup}
use taplytix.Clock.{Time, sub_time}
use taplytix.Floats.Exact.{Exact, milli, exact}
use taplytix.Model.{gauge}
use taplytix.Store.Services.{Store, new_store, push_metric}
use taplytix.Alert.Rule.{Rule, Alert, op_gt, key_of, fired_msg, resolved_msg}
use taplytix.Alert.Engine.{
  Config, dispatch, notify, new_alert, on_clear, dispatch_msg, fanout_notify, evaluate_all,
}
use taplytix.Alert.Engine.Episodes.{breach_all, episode, episode_lem}
use taplytix.Alert.Webhook
use taplytix.Alert.Webhook.{Attempt, unreachable, status}
use taplytix.Tui.App.Board.{deliver, shown}
use taplytix.Tui.App.Board.Rounds.{board_mirrors}

abbrev slow : Rule Exact
slow = record {
  name = bytes "slow";
  metric = bytes "lag";
  percentile = pos 0;
  op = op_gt;
  threshold = milli 5000;
  for_at_least = pos 10;
  notify = bytes "bell" ∷ bytes "absent" ∷ [];
}

abbrev config : Config Exact
config = record { rules = slow ∷ []; has_bus = true; notifiers = bytes "bell" ∷ [] }

abbrev key : Str
key = key_of (bytes "slow") (bytes "api")

abbrev fired : Alert Exact
fired = new_alert slow (bytes "api") (milli 7000) (pos 112)

abbrev resolved : Alert Exact
resolved = record fired { resolved_at = some (pos 130); value = milli 1000 }

-- Breaches at 100, 105, 112 and 120, then a clear at 130.
episode_lem_example :
    (episode exact config slow
        (bytes "api")
        key
        ((milli 6000, pos 100)
          ∷ (milli 8000, pos 105)
          ∷ (milli 7000, pos 112)
          ∷ (milli 6000, pos 120)
          ∷ [])
        (milli 1000)
        (pos 130)
        []
      ≡ dispatch (fired_msg fired)
        ∷ notify (bytes "bell") fired
        ∷ dispatch (resolved_msg resolved)
        ∷ notify (bytes "bell") resolved
        ∷ [])
    × (lookup key
          (on_clear exact config key
            (milli 1000)
            (pos 130)
            (breach_all exact config slow
              (bytes "api")
              key
              ((milli 6000, pos 100)
                ∷ (milli 8000, pos 105)
                ∷ (milli 7000, pos 112)
                ∷ (milli 6000, pos 120)
                ∷ [])
              []).0).0
        ≡ none)
unfolding sub_time dispatch_msg fanout_notify lookup str_eq
episode_lem_example =
    episode_lem exact config slow (bytes "api") key (milli 6000) (pos 100)
      ((milli 8000, pos 105) ∷ (milli 7000, pos 112) ∷ (milli 6000, pos 120) ∷ []) (milli 1000)
      (pos 130) [] refl

abbrev store_at : ℕ → Store Exact
store_at v =
    push_metric exact (pos 0)
      (record {
        name = bytes "lag";
        value = milli v;
        labels = [];
        kind = gauge;
        timestamp = pos 1;
        source = bytes "api";
      })
      new_store

abbrev ticks : List (Time × Store Exact)
ticks = (pos 100, store_at 6000) ∷ (pos 115, store_at 7000) ∷ []

board_mirrors_example :
    lookup key (deliver [] (evaluate_all exact config [] ticks).1)
    ≡ shown (lookup key (evaluate_all exact config [] ticks).0)
board_mirrors_example = board_mirrors exact config ticks key refl

-- Unreachable, then a status 503, then 204.
abbrev lost : Attempt
lost = record { done_while_waiting = false; answer = unreachable }

abbrev busy : Attempt
busy = record { done_while_waiting = false; answer = status 503 }

abbrev taken : Attempt
taken = record { done_while_waiting = false; answer = status 204 }
