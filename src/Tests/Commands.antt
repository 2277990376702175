-- ===== src/Tests/Commands.antt =====
-- Configurations, and the alert engine that is built from one.
use taplytix.Prelude.{◌≡◌, refl, some, [], ◌∷◌, ◌++◌, Str, bytes, str_eq}
use taplytix.Prelude.Int.{pos}
use taplytix.Floats.Exact.{Exact, milli}
use taplytix.Config.{Config, AlertConfig, default_config}
use taplytix.Alert.Rule.{Rule, validate}
use taplytix.Command.{EngineConfig, bell, log_file, rule_of, build_alert_engine}

abbrev slow : AlertConfig Exact
slow = record {
  name = bytes "slow";
  metric = bytes "latency";
  percentile = pos 95;
  op = bytes ">";
  threshold = milli 5000;
  for_at_least = pos 0;
  notify = bytes "logfile" ∷ [];
}

abbrev tilde : Str
tilde = bytes "~/" ++ bytes "alerts.log"

abbrev configured : Config Exact
configured = record default_config {
  alerts = record slow { op = bytes "=>" } ∷ slow ∷ [];
  notifier = record { webhook_url = []; logfile_path = tilde };
}

abbrev engine : EngineConfig Exact
engine = record { rules = rule_of slow ∷ []; notifiers = bell ∷ log_file tilde ∷ [] }

built : build_alert_engine (some (bytes "/home/me")) configured ≡ some engine
unfolding build_alert_engine validate str_eq default_config
built = refl
