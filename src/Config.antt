-- ===== src/Config.antt =====
-- src/config.rs: the configuration, its defaults and its validation. Reading YAML is serde_yaml's:
-- the file yields raw records, whose fields are absent where the file leaves them out. A text is a
-- list of code points, and a path is its text.
pub mod Valid
use mathlib.Core.Option
use lrmdns.Prelude.{
  ℕ, ◌≡◌, Bool, true, false, not, Option, none, some, List, [], ◌∷◌, if◌then◌else◌, is_empty,
  option_or,
}
use lrmdns.Prelude.Result.{Result, ok, err, ◌>>=◌, ◌>>◌, ensure}
use lrmdns.Zone.Text.{Text}

pub record TcpConfig : Type 0 where
  pub idle_timeout : ℕ
  pub max_queries_per_connection : ℕ

pub record DnssecConfig : Type 0 where
  pub validate_signatures : Bool
  pub require_dnssec : Bool
  pub auto_include_dnssec : Bool

pub record ServerConfig : Type 0 where
  pub listen : Text
  pub workers : ℕ
  pub log_level : Text
  pub rate_limit : Option ℕ
  pub api_listen : Option Text
  pub dnssec : Option DnssecConfig
  pub tcp : Option TcpConfig

pub record ZoneConfig : Type 0 where
  pub name : Text
  pub file : Text

pub record Config : Type 0 where
  pub server : ServerConfig
  pub zones : List ZoneConfig

abbrev pub default_listen : Text
default_listen = b'0' ∷ b'.' ∷ b'0' ∷ b'.' ∷ b'0' ∷ b'.' ∷ b'0' ∷ b':' ∷ b'5' ∷ b'3' ∷ []

abbrev pub default_auto_include_dnssec : Bool
default_auto_include_dnssec = true

abbrev pub default_workers : ℕ
default_workers = 4

abbrev pub default_log_level : Text
default_log_level = b'i' ∷ b'n' ∷ b'f' ∷ b'o' ∷ []

abbrev pub default_tcp_idle_timeout : ℕ
default_tcp_idle_timeout = 30

abbrev pub default_tcp_max_queries : ℕ
default_tcp_max_queries = 100

-- What the YAML file holds: `#[serde(default …)]` marks the fields that may be absent.
pub record RawTcpConfig : Type 0 where
  pub idle_timeout : Option ℕ
  pub max_queries_per_connection : Option ℕ

pub record RawDnssecConfig : Type 0 where
  pub validate_signatures : Option Bool
  pub require_dnssec : Option Bool
  pub auto_include_dnssec : Option Bool

pub record RawServerConfig : Type 0 where
  pub listen : Option Text
  pub workers : Option ℕ
  pub log_level : Option Text
  pub rate_limit : Option ℕ
  pub api_listen : Option Text
  pub dnssec : Option RawDnssecConfig
  pub tcp : Option RawTcpConfig

unfoldable pub fill_tcp : RawTcpConfig → TcpConfig
fill_tcp r = record {
  idle_timeout = option_or r.idle_timeout default_tcp_idle_timeout;
  max_queries_per_connection = option_or r.max_queries_per_connection default_tcp_max_queries;
}

unfoldable pub fill_dnssec : RawDnssecConfig → DnssecConfig
fill_dnssec r = record {
  validate_signatures = option_or r.validate_signatures false;
  require_dnssec = option_or r.require_dnssec false;
  auto_include_dnssec = option_or r.auto_include_dnssec default_auto_include_dnssec;
}

-- the defaults of the server section
unfoldable pub fill_server : RawServerConfig → ServerConfig
unfolding fill_tcp fill_dnssec
fill_server r = record {
  listen = option_or r.listen default_listen;
  workers = option_or r.workers default_workers;
  log_level = option_or r.log_level default_log_level;
  rate_limit = r.rate_limit;
  api_listen = r.api_listen;
  dnssec = Option.map fill_dnssec r.dnssec;
  tcp = Option.map fill_tcp r.tcp;
}

-- `server` and `zones` must be there.
pub record RawConfig : Type 0 where
  pub server : RawServerConfig
  pub zones : List ZoneConfig

pub data ConfigError : Type 0 where
  unreadable not_yaml no_zone empty_name missing_file : ConfigError

abbrev pub content_or : Option Text → Result ConfigError Text
content_or none = err unreadable
content_or (some content) = ok content

abbrev pub raw_or : Option RawConfig → Result ConfigError RawConfig
raw_or none = err not_yaml
raw_or (some raw) = ok raw

-- Config::from_file, with what reading the file yields; `yaml` is serde_yaml's reading of its text
unfoldable pub from_file : (Text → Option RawConfig) → Option Text → Result ConfigError Config
unfolding fill_server
from_file yaml file = do
  content ← content_or file
  raw ← raw_or (yaml content)
  ok (record { server = fill_server raw.server; zones = raw.zones })

-- the loop of Config::validate; `exists` is the file system's answer
unfoldable pub validate_zones : (Text → Bool) → List ZoneConfig → Result ConfigError (Unit {0})
validate_zones exists [] = ok tt
validate_zones exists (z ∷ zs) = do
  ensure (not (is_empty z.name)) empty_name
  ensure (exists z.file) missing_file
  validate_zones exists zs

-- Config::validate
unfoldable pub validate : (Text → Bool) → Config → Result ConfigError (Unit {0})
validate exists config = do
  ensure (not (is_empty config.zones)) no_zone
  validate_zones exists config.zones
