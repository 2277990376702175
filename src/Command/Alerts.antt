-- ===== src/Command/Alerts.antt =====
-- The alert engine that cmd/taplytix/main.go builds from the configuration.
use taplytix.Prelude.{
  ◌≡◌, ◌≢◌, ◌⊎◌, refl, ap, ◌∙◌, Option, none, some, List, [], ◌∷◌, ◌++◌, Str, bytes, str_eq, arith,
}
use taplytix.Config.{Config, AlertConfig}
use taplytix.Alert.Rule.{Rule}
use taplytix.Alert.Rule.Compare.{IsUsable}
use taplytix.Prelude.Text.{has_prefix}
use taplytix.Command.{
  EngineConfig, Notifier, bell, log_file, rule_of, engine_with, notifiers_of, valid_rules,
  webhook_notifiers, logfile_path, build_alert_engine, expand_home,
}

-- The usable rules of a list of alerts, in its order.
pub data Selects {F : Type 0} : List (AlertConfig F) → List (Rule F) → Type 0 where
  done : Selects [] []
  kept :
      {a : AlertConfig F} {alerts : List (AlertConfig F)} {rules : List (Rule F)}
      → IsUsable (rule_of a)
      → Selects alerts rules
      → Selects (a ∷ alerts) (rule_of a ∷ rules)
  skipped :
      {a : AlertConfig F} {alerts : List (AlertConfig F)} {rules : List (Rule F)}
      → (IsUsable (rule_of a) → ⊥)
      → Selects alerts rules
      → Selects (a ∷ alerts) rules

module _ {F : Type 0} where
  -- The engine that is built for some rules, if any is.
  abbrev pub Builds : List (Rule F) → Option (EngineConfig F) → Type 0
  Builds rules built =
      ((rules ≡ []) × (built ≡ none))
      ⊎ ((ec : EngineConfig F) × (rules ≢ []) × (built ≡ some ec) × (ec.rules ≡ rules))

  engine-notifiers :
      (rules : List (Rule F)) (notifiers : List Notifier) (ec : EngineConfig F)
      → engine_with rules notifiers ≡ some ec
      → ec.notifiers ≡ notifiers
  engine-notifiers [] notifiers ec e = cc e
  engine-notifiers (r ∷ rules) notifiers ec e = ground (arith, e)

  -- Where a configured log file starts with `~/`, the engine appends to a file of that very name, with
  -- the tilde as a directory; `expandHome`, which the default path goes through, would have put the
  -- home directory in its place.
  pub logfile-not_expanded :
      (h rest : Str) (cfg : Config F) (ec : EngineConfig F)
      → cfg.notifier.logfile_path ≡ bytes "~/" ++ rest
      → build_alert_engine (some h) cfg ≡ some ec
      → (ec.notifiers
          ≡ (bell ∷ webhook_notifiers cfg.notifier.webhook_url)
            ++ log_file (bytes "~/" ++ rest) ∷ [])
        × (expand_home (some h) (bytes "~/" ++ rest) ≡ h ++ (bytes "/" ++ rest))
  unfolding build_alert_engine
  logfile-not_expanded h rest cfg ec path e = (
    engine-notifiers (valid_rules cfg.alerts) (notifiers_of (some h) cfg) ec e
        ∙ ap
            (λ p.
              (bell ∷ webhook_notifiers cfg.notifier.webhook_url)
              ++ log_file (logfile_path (some h) p) ∷ [])
            path
        ∙ verbatim,
    expanded,
  )
    where
      verbatim :
          (bell ∷ webhook_notifiers cfg.notifier.webhook_url)
            ++ log_file (logfile_path (some h) (bytes "~/" ++ rest)) ∷ []
          ≡ (bell ∷ webhook_notifiers cfg.notifier.webhook_url)
            ++ log_file (bytes "~/" ++ rest) ∷ []
      verbatim = unfold str_eq in refl

      expanded : expand_home (some h) (bytes "~/" ++ rest) ≡ h ++ (bytes "/" ++ rest)
      expanded = unfold expand_home in unfold has_prefix in ground arith
