-- ===== src/Command.antt =====
-- cmd/taplytix/main.go: the configuration that `start` runs with, the receivers, and the alert engine.
-- Flags, signals, the terminal program and the SSH server are left out.
pub mod Alerts
pub mod Sources
use taplytix.Prelude.{
  ℕ, ◌*◌, Bool, true, false, not, ◌&&◌, Option, none, some, List, [], ◌∷◌, ◌++◌, if◌then◌else◌, Str,
  bytes, str_eq, length, ltb, drop, ◌==◌,
}
use taplytix.Prelude.Int.{ℤ, pos}
use taplytix.Prelude.Text.{has_prefix}
use taplytix.Clock.{Duration, second}
use taplytix.Config.{
  Config, SourceConfig, AlertConfig, plain_source, default_config, GoError, path_error, wrapped,
  other_error, Loaded, loaded, failed, load,
}
use taplytix.Alert.Rule.{Rule, RuleError, validate}

-- `unwrapPathErr`
unfoldable pub unwrap_path_err : GoError → GoError
unwrap_path_err (path_error missing) = path_error missing
unwrap_path_err (wrapped text e) = unwrap_path_err e
unwrap_path_err (other_error text) = other_error text

-- `os.IsNotExist`, which does not look through a wrapped error.
abbrev pub is_not_exist : GoError → Bool
is_not_exist (path_error missing) = missing
is_not_exist _ = false

pub record Flags : Type 0 where
  pub logs_path : Str
  pub prom_endpoint : Str
  pub statsd_addr : Str

-- `if *flag != "" { cfg.Sources = append(cfg.Sources, …) }`
abbrev pub add_source : Str → SourceConfig → List SourceConfig → List SourceConfig
add_source flag src sources = if str_eq flag [] then sources else sources ++ src ∷ []

abbrev pub logs_source : Str → SourceConfig
logs_source path = record (plain_source (bytes "logs") (bytes "logs")) {
  path = path;
  format = bytes "auto";
}

abbrev pub prom_source : Str → SourceConfig
prom_source endpoint = record (plain_source (bytes "prom") (bytes "prometheus")) {
  endpoint = endpoint;
  interval = pos (2 * second);
}

abbrev pub statsd_source : Str → SourceConfig
statsd_source addr = record (plain_source (bytes "statsd") (bytes "statsd")) { listen = addr }

abbrev pub first_name : List SourceConfig → Str
first_name [] = []
first_name (src ∷ sources) = src.name

module _ {F : Type 0} where
  unfoldable pub add_flag_sources : Flags → Config F → Config F
  add_flag_sources flags cfg = record cfg {
    sources = add_source flags.statsd_addr (statsd_source flags.statsd_addr) (
        add_source flags.prom_endpoint (prom_source flags.prom_endpoint)
          (add_source flags.logs_path (logs_source flags.logs_path) cfg.sources));
  }

  -- The body of `start` up to `runTUI`, from what `config.Load` returns.
  unfoldable pub start_config : Flags → Loaded (Config F) → Loaded (Config F)
  unfolding add_flag_sources unwrap_path_err
  start_config flags (loaded cfg) = loaded (add_flag_sources flags cfg)
  start_config flags (failed e) =
      if is_not_exist (unwrap_path_err e)
      then loaded (add_flag_sources flags default_config)
      else failed e

  -- `initialService`
  unfoldable pub initial_service : Config F → Str
  initial_service cfg =
      if str_eq cfg.server.default_service []
      then first_name cfg.sources
      else cfg.server.default_service

-- `expandHome`; `home` is what `os.UserHomeDir` returns, where there is no error.
unfoldable pub expand_home : Option Str → Str → Str
expand_home home path =
    if ltb 1 (length path) && has_prefix path (bytes "~/")
    then elim home [ none ↦ path | some h ↦ h ++ drop 1 path ]
    else path

pub data Notifier : Type 0 where
  bell : Notifier
  webhook : Str → Notifier
  log_file : Str → Notifier

-- What `alert.New` is given.
pub record EngineConfig (F : Type 0) : Type 0 where
  pub rules : List (Rule F)
  pub notifiers : List Notifier

abbrev pub rule_of : {F : Type 0} → AlertConfig F → Rule F
rule_of a = record {
  name = a.name;
  metric = a.metric;
  percentile = a.percentile;
  op = a.op;
  threshold = a.threshold;
  for_at_least = a.for_at_least;
  notify = a.notify;
}

abbrev pub keep_valid : {F : Type 0} → Rule F → Option RuleError → List (Rule F) → List (Rule F)
keep_valid r none rules = r ∷ rules
keep_valid r (some e) rules = rules

-- The loop over the configured alerts: an invalid one is reported and skipped.
unfoldable pub valid_rules : {F : Type 0} → List (AlertConfig F) → List (Rule F)
valid_rules [] = []
valid_rules (a ∷ alerts) = keep_valid (rule_of a) (validate (rule_of a)) (valid_rules alerts)

abbrev pub webhook_notifiers : Str → List Notifier
webhook_notifiers url = if str_eq url [] then [] else webhook url ∷ []

abbrev pub logfile_path : Option Str → Str → Str
logfile_path home path =
    if str_eq path [] then expand_home home (bytes "~/.taplytix/alerts.log") else path

abbrev pub notifiers_of : {F : Type 0} → Option Str → Config F → List Notifier
notifiers_of home cfg =
    (bell ∷ webhook_notifiers cfg.notifier.webhook_url)
    ++ log_file (logfile_path home cfg.notifier.logfile_path) ∷ []

abbrev pub engine_with : {F : Type 0} → List (Rule F) → List Notifier → Option (EngineConfig F)
engine_with [] notifiers = none
engine_with (r ∷ rules) notifiers = some (record { rules = r ∷ rules; notifiers = notifiers })

-- `buildAlertEngine`
unfoldable pub build_alert_engine : {F : Type 0} → Option Str → Config F → Option (EngineConfig F)
unfolding valid_rules
build_alert_engine home cfg = engine_with (valid_rules cfg.alerts) (notifiers_of home cfg)

-- The receiver that a source asks for, with the arguments of its constructor.
pub data ReceiverSpec : Type 0 where
  otlp : (name grpc http : Str) → ReceiverSpec
  log_tail : (name path : Str) → (use_stdin : Bool) → (format service : Str) → ReceiverSpec
  prometheus : (name endpoint : Str) → Duration → ReceiverSpec
  stats_d : (name listen : Str) → ReceiverSpec
  os_sidecar : (name process : Str) → (pid : ℤ) → Duration → ReceiverSpec
  remote : (name endpoint : Str) → ReceiverSpec

-- The switch on `src.Type`.
unfoldable pub receiver_of : SourceConfig → Option ReceiverSpec
receiver_of src =
    if str_eq src.kind (bytes "otlp")
    then some (otlp src.name src.grpc src.http)
    else if str_eq src.kind (bytes "logs")
    then some (log_tail src.name src.path (str_eq src.path (bytes "-")) src.format src.name)
    else if str_eq src.kind (bytes "prometheus")
    then some (prometheus src.name src.endpoint src.interval)
    else if str_eq src.kind (bytes "statsd")
    then some (stats_d src.name src.listen)
    else if str_eq src.kind (bytes "sysstat")
    then some (os_sidecar src.name src.process src.pid src.interval)
    else if str_eq src.kind (bytes "remote")
    then some (remote src.name src.endpoint)
    else none

-- The loop of `startReceivers`; `starts` says whether `Start` of a receiver returns no error.
unfoldable pub start_receivers : (ReceiverSpec → Bool) → List SourceConfig → List ReceiverSpec
start_receivers starts [] = []
start_receivers starts (src ∷ sources) = elim (receiver_of src) [
  | none ↦ start_receivers starts sources
  | some r ↦ let rest = start_receivers starts sources in if starts r then r ∷ rest else rest
]
