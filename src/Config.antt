-- ===== src/Config.antt =====
-- internal/config/config.go: the configuration with its defaults, and Load. The TOML decoder is a
-- parameter, which changes the configuration that it is given.
use taplytix.Prelude.{Bool, List, [], ◌∷◌, Str, bytes}
use taplytix.Prelude.Int.{ℤ, pos}
use taplytix.Clock.{Duration}

pub record ServerConfig : Type 0 where
  pub refresh_ms : ℤ
  pub log_file : Str
  pub default_service : Str

pub record SourceConfig : Type 0 where
  pub name : Str
  pub kind : Str
  pub grpc : Str
  pub http : Str
  pub endpoint : Str
  pub interval : Duration
  pub listen : Str
  pub path : Str
  pub format : Str
  pub process : Str
  pub pid : ℤ
  pub cert : Str

pub record AlertConfig (F : Type 0) : Type 0 where
  pub name : Str
  pub metric : Str
  pub percentile : ℤ
  pub op : Str
  pub threshold : F
  pub for_at_least : Duration
  pub notify : List Str

-- `[notifier.webhook] url` and `[notifier.logfile] path`
pub record NotifierConfig : Type 0 where
  pub webhook_url : Str
  pub logfile_path : Str

pub record Config (F : Type 0) : Type 0 where
  pub server : ServerConfig
  pub sources : List SourceConfig
  pub alerts : List (AlertConfig F)
  pub notifier : NotifierConfig

-- A source with the zero value in each field but the name and the type.
abbrev pub plain_source : Str → Str → SourceConfig
plain_source name kind = record {
  name = name;
  kind = kind;
  grpc = [];
  http = [];
  endpoint = [];
  interval = pos 0;
  listen = [];
  path = [];
  format = [];
  process = [];
  pid = pos 0;
  cert = [];
}

unfoldable pub default_config : {F : Type 0} → Config F
default_config = record {
  server = record {
    refresh_ms = pos 500;
    log_file = bytes "~/.taplytix/debug.log";
    default_service = bytes "my-app";
  };
  sources =
      record (plain_source (bytes "my-app") (bytes "otlp")) {
        grpc = bytes ":4317";
        http = bytes ":4318";
      }
      ∷ [];
  alerts = [];
  notifier = record { webhook_url = []; logfile_path = [] };
}

-- Go errors, as far as the program looks into them: an os.PathError with whether it says that the file
-- does not exist, an error that wraps another, and any other.
pub data GoError : Type 0 where
  path_error : Bool → GoError
  wrapped : Str → GoError → GoError
  other_error : Str → GoError

-- A Go result of a value and an error.
pub data Loaded {ℓ} (A : Type ℓ) : Type ℓ where
  loaded : A → Loaded A
  failed : GoError → Loaded A

module _ {F : Type 0} (decode : Str → Config F → Loaded (Config F)) where
  abbrev pub decode_result : Str → Loaded (Config F) → Loaded (Config F)
  decode_result path (loaded cfg) = loaded cfg
  decode_result path (failed e) = failed (wrapped path e)

  -- `read` is what `os.ReadFile` returns.
  unfoldable pub load : Str → Loaded Str → Loaded (Config F)
  unfolding default_config
  load path (failed e) = failed (wrapped path e)
  load path (loaded text) =
      decode_result path (decode text (record default_config { sources = [] }))
