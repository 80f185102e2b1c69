-- ===== src/Main.antt =====
-- src/main.rs: what main sets up, load_zones, and what the signals do to the running server.
pub mod Loading
pub mod Lifetime
pub mod Setup
use lrmdns.Prelude.{ℕ, Bool, true, false, Option, List, [], ◌∷◌, ◌++◌}
use lrmdns.Prelude.Result.{Result, ok, err, ◌>>=◌, ◌>>◌}
use lrmdns.Dns.Name.{DnsApi}
use lrmdns.Zone.Store.{ZoneStore, add_zone}
use lrmdns.Zone.Store
use lrmdns.Config.{Config, ConfigError, ZoneConfig, RawConfig, from_file, validate}
use lrmdns.RateLimit
use lrmdns.Metrics
use lrmdns.Metrics.Log.{Line, log_summary}
use lrmdns.Server.State.{DnsServer, World}
use lrmdns.Server.Run
use lrmdns.Server.State
use mathlib.Core.Option
use lrmdns.Zone.Text.{Text}
use lrmdns.Zone.File.Rdata.{Readers, ParseError}
use lrmdns.Zone.File.Load.{parse_zone_file}

-- What reading a file yields at a time, `none` where it cannot be read.
abbrev pub Files : Type 0
Files = Text → Option Text

-- SIGHUP with the files at that time; SIGUSR1; and SIGINT, SIGQUIT or SIGTERM.
pub data Signal : Type 0 where
  hangup : Files → Signal
  user1 stop : Signal

-- The server, whether the loop of handle_signals goes on, and the lines that it has logged.
pub record Process (Name Addr : Type 0) : Type 0 where
  pub world : World Name Addr
  pub handling : Bool
  pub logged : List Line

module _ {Name : Type 0} ⦃api : DnsApi Name⦄ (readers : Readers Name) where
  -- `for zone_config in &config.zones`
  unfoldable pub load_into :
      Files → List ZoneConfig → ZoneStore Name → Result ParseError (ZoneStore Name)
  load_into files [] s = ok s
  load_into files (c ∷ rest) s = do
    z ← parse_zone_file readers (files c.file) c.name
    load_into files rest (add_zone z s)

  -- load_zones
  unfoldable pub load_zones : Files → List ZoneConfig → Result ParseError (ZoneStore Name)
  load_zones files zones = load_into files zones Store.new

  module _ {Addr : Type 0} where
    -- a reload that fails keeps the zones
    abbrev pub reload : Result ParseError (ZoneStore Name) → World Name Addr → World Name Addr
    reload (ok new_store) w = record w { zones = new_store }
    reload (err e) w = w

    -- `metrics.log_summary()`, at a time
    abbrev pub log_metrics : ℕ → Process Name Addr → Process Name Addr
    log_metrics now p = record p { logged = p.logged ++ log_summary now p.world.shared.metrics }

    -- the branches of the signals that stop the server
    abbrev pub shut_down : ℕ → Process Name Addr → Process Name Addr
    shut_down now p = record (log_metrics now p) {
      world = record p.world { cancelled = true };
      handling = false;
    }

    -- one turn of the loop of handle_signals, with the zones of the configuration
    unfoldable pub handle_signal :
        List ZoneConfig → ℕ → Signal → Process Name Addr → Process Name Addr
    handle_signal zones now (hangup files) p = record p {
      world = reload (load_zones files zones) p.world;
    }
    handle_signal zones now user1 p = log_metrics now p
    handle_signal zones now stop p = shut_down now p

-- `std::env::args().collect()`: the program, and the path of the configuration if it is given
unfoldable pub config_path : List Text → Text
config_path (_ ∷ path ∷ _) = path
config_path _ = b'l' ∷ b'r' ∷ b'm' ∷ b'd' ∷ b'n' ∷ b's' ∷ b'.' ∷ b'y' ∷ b'a' ∷ b'm' ∷ b'l' ∷ []

pub data MainError : Type 0 where
  configuration : ConfigError → MainError
  zone_file : ParseError → MainError

abbrev pub in_configuration : {A : Type 0} → Result ConfigError A → Result MainError A
in_configuration (ok a) = ok a
in_configuration (err e) = err (MainError.configuration e)

abbrev pub in_zone_file : {A : Type 0} → Result ParseError A → Result MainError A
in_zone_file (ok a) = ok a
in_zone_file (err e) = err (MainError.zone_file e)

-- Which paths exist, what reading them yields, and the clock when the counters and the limiter start.
pub record MainEnv : Type 0 where
  pub files : Files
  pub exists : Text → Bool
  pub metrics_at : ℕ
  pub limiter_at : ℕ

-- the server for a configuration and its zones
unfoldable pub server_for :
    {Name Addr : Type 0} → MainEnv → Config → ZoneStore Name → DnsServer Name Addr
server_for env config zones =
    State.new zones config.server.listen (Metrics.new env.metrics_at)
      (Option.map (λ limit. RateLimit.new limit env.limiter_at) config.server.rate_limit)
      config.server.tcp

-- main, up to the server that it runs
unfoldable pub setup :
    {Name Addr : Type 0} ⦃api : DnsApi Name⦄
    → Readers Name
    → (Text → Option RawConfig)
    → MainEnv
    → List Text
    → Result MainError (Config × DnsServer Name Addr)
setup readers yaml env args = do
  config ← in_configuration (from_file yaml (env.files (config_path args)))
  in_configuration (validate env.exists config)
  zones ← in_zone_file (load_zones readers env.files config.zones)
  ok (config, server_for env config zones)
