-- ===== src/Main/Setup.antt =====
-- The server that main runs.
use mathlib.Core.List.{Memᴰ}
use mathlib.Core.Option
use mathlib.Core.Path.{subst}
use lrmdns.Prelude.{◌≡◌, ◌≢◌, refl, Option, some, List, [], arith, All}
use lrmdns.Prelude.Result.{Result, ok, err, bind-eq-ok}
use lrmdns.Dns.Name.{DnsApi}
use lrmdns.Config.{Config, ConfigError, ZoneConfig, RawConfig, from_file, validate}
use lrmdns.Config.Valid.{ZoneIsValid, validate_iff}
use lrmdns.RateLimit
use lrmdns.Zone.Text.{Text}
use lrmdns.Zone.Store.{ZoneStore}
use lrmdns.Zone.Store.Valid.{HasValidZones}
use lrmdns.Zone.File.Rdata.{Readers, ParseError}
use lrmdns.Server.State.{DnsServer}
use lrmdns.Server.State
use lrmdns.Main.{
  MainEnv, MainError, in_configuration, in_zone_file, config_path, server_for, setup, load_zones,
}
use lrmdns.Main.Loading.{Serves, load_zones-Serves, IsLoad-HasValidZones}

ok_of_configuration :
    {A : Type 0} (r : Result ConfigError A) {a : A} → in_configuration r ≡ ok a → r ≡ ok a
ok_of_configuration (ok b) h = ground arith
ok_of_configuration (err e) h = cc

ok_of_zone_file : {A : Type 0} (r : Result ParseError A) {a : A} → in_zone_file r ≡ ok a → r ≡ ok a
ok_of_zone_file (ok b) h = ground arith
ok_of_zone_file (err e) h = cc

ok_transports {ℓ} :
    {A : Type 0} (P : A → Type ℓ) {a b : A} → Path (Result MainError A) (ok a) (ok b) → P a → P b
ok_transports P {a} {b} h x = let same : a ≡ b = ground arith in subst P same x

module _ {Name Addr : Type 0} ⦃api : DnsApi Name⦄ (readers : Readers Name) where
  -- The server serves each zone of a valid configuration under the limits of that configuration.
  pub record IsReady (env : MainEnv) (config : Config) (server : DnsServer Name Addr) : Type 0 where
    pub has_zones : config.zones ≢ []
    pub zones_valid : All (ZoneIsValid env.exists) config.zones
    pub loaded : load_zones readers env.files config.zones ≡ ok server.processor
    pub valid_zones : HasValidZones server.processor
    pub serves :
        (c : ZoneConfig)
        → Memᴰ c config.zones
        → (n : Name) × (api.from_str c.name ≡ some n) × Serves server.processor n
    pub limits :
        server.rate_limiter
        ≡ Option.map (λ limit. RateLimit.new limit env.limiter_at) config.server.rate_limit
    pub tcp : server.tcp_config ≡ config.server.tcp

  server_for-IsReady :
      (env : MainEnv) (config : Config) (zones : ZoneStore Name)
      → validate env.exists config ≡ ok tt
      → load_zones readers env.files config.zones ≡ ok zones
      → IsReady env config (server_for env config zones)
  unfolding server_for State.new
  server_for-IsReady env config zones v e = record {
    has_zones = ((validate_iff env.exists config).0 v).0;
    zones_valid = ((validate_iff env.exists config).0 v).1;
    loaded = e;
    valid_zones = IsLoad-HasValidZones readers config.zones zones (env.files, e);
    serves = λ c m. load_zones-Serves readers env.files config.zones c e m;
    limits = refl;
    tcp = refl;
  }

  -- Where main gets as far as a server, the configuration is that of its file and valid, each of its
  -- zones is served, all zones are well formed, and the limiter and the TCP limits are those that
  -- the configuration sets.
  pub setup-IsReady :
      (yaml : Text → Option RawConfig) (env : MainEnv) (args : List Text) {config : Config}
      {server : DnsServer Name Addr}
      → setup readers yaml env args ≡ ok (config, server)
      → (from_file yaml (env.files (config_path args)) ≡ ok config) × IsReady env config server
  unfolding setup
  setup-IsReady yaml env args {config} {server} h =
      let (read, p, h₁) =
        bind-eq-ok (in_configuration (from_file yaml (env.files (config_path args)))) _ h in
      let (_, v, h₂) = bind-eq-ok (in_configuration (validate env.exists read)) _ h₁ in
      let (zones, l, h₃) =
        bind-eq-ok (in_zone_file (load_zones readers env.files read.zones)) _ h₂ in
      let ready =
        server_for-IsReady env read zones (ok_of_configuration (validate env.exists read) v)
          (ok_of_zone_file (load_zones readers env.files read.zones) l) in
      ok_transports
        (λ x. (from_file yaml (env.files (config_path args)) ≡ ok x.0) × IsReady env x.0 x.1) h₃
        (ok_of_configuration (from_file yaml (env.files (config_path args))) p, ready)
