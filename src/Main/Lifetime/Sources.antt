-- ===== src/Main/Lifetime/Sources.antt =====
-- What a process serves, at any time: the zones of its configuration.
use mathlib.Core.List.{Memᴰ}
use lrmdns.Prelude.{◌≡◌, Option, some, List}
use lrmdns.Prelude.Result.{ok}
use lrmdns.HashMap.{Key}
use lrmdns.Dns.Name.{DnsApi}
use lrmdns.Config.{Config, RawConfig, ZoneConfig}
use lrmdns.Zone.File.Rdata.{Readers}
use lrmdns.Server.{Codec}
use lrmdns.Server.State.{DnsServer}
use lrmdns.Server.Run.Sources.{HasSources, Run-HasSources}
use lrmdns.Zone.Text.{Text}
use lrmdns.Main.{Process, MainEnv, setup}
use lrmdns.Main.Setup.{setup-IsReady}
use lrmdns.Main.Loading.{Serves, load_zones-Serves, IsReadIn, IsReadIn-HasValidZones}
use lrmdns.Main.Lifetime.{Life, begin, reads, first-read, Life-IsRun}

module _ {Name Addr : Type 0} ⦃api : DnsApi Name⦄ ⦃k : Key Addr⦄ (c : Codec Name)
    (readers : Readers Name) (yaml : Text → Option RawConfig) (env : MainEnv) (args : List Text)
    {config : Config} {server : DnsServer Name Addr}
    (started : setup readers yaml env args ≡ ok (config, server)) where
  -- Where main gets as far as a server: at any time of the process, the zones that it answers from
  -- were loaded from the configuration as the files were at the start or at a SIGHUP of this
  -- process, and so were the zones of each answer. Each datagram that is sent over UDP encodes a
  -- reply with this property: each of its answers is what a lookup of its own name and type finds in
  -- the zone that owns the name asked for, and its type is the one asked for, CNAME, or RRSIG. Each
  -- frame that is sent over TCP, in a connection that is open or closed, has the length of its
  -- message, modulo 2^16, which encodes a reply with this property: each of its answers is what a
  -- lookup of its own name and type finds in the zone that owns the name of the reply's question, or
  -- the SOA record of that zone.
  pub Life-HasSources :
      {p : Process Name Addr} (l : Life c readers config.zones (begin server) p)
      → HasSources c
          (IsReadIn readers config.zones (reads c readers config.zones env.files l))
          p.world
  Life-HasSources l =
      let times = reads c readers config.zones env.files l in
      let r = Life-IsRun c readers config.zones server env.files l in
      Run-HasSources c (IsReadIn readers config.zones times)
        (λ s i. IsReadIn-HasValidZones readers config.zones times s i) server r.run
        (
          env.files,
          first-read c readers config.zones env.files l,
          (setup-IsReady readers yaml env args started).1.loaded,
        )
        r.reloads

  -- Where main gets as far as a server, each zone of its configuration is served at any time of the
  -- process, whatever signals come, whatever the files hold at a reload,
  -- and whatever the server does in between: its name is a domain name, and the zone that the store
  -- finds for it has that name for its origin.
  pub Life-Serves :
      {p : Process Name Addr} (zone : ZoneConfig)
      → Life c readers config.zones (begin server) p
      → Memᴰ zone config.zones
      → (n : Name) × (api.from_str zone.name ≡ some n) × Serves p.world.zones n
  Life-Serves zone l m =
      let (files, _, e) = (Life-HasSources l).zones in
      load_zones-Serves readers files config.zones zone e m
