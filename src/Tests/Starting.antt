-- ===== src/Tests/Starting.antt =====
-- The start of the server at a concrete configuration, and its process until a signal stops it.
use mathlib.Core.List.{Memᴰ}
use lrmdns.Prelude.{ℕ, ◌≡◌, refl, true, Option, some, none, List, [], ◌∷◌}
use lrmdns.Prelude.Result.{ok}
use lrmdns.Dns.Rr.{Bytes}
use lrmdns.Config.{
  Config, ZoneConfig, RawServerConfig, RawConfig, fill_server, from_file, validate, validate_zones,
}
use lrmdns.Zone.Text.{Text}
use lrmdns.Zone.Store.{ZoneStore, add_zone}
use lrmdns.Zone.Store
use lrmdns.Server.State.{DnsServer, World, Event, start}
use lrmdns.Server.Run.{perform}
use lrmdns.Server.Run
use lrmdns.Server.State
use lrmdns.Server.Tcp.{message}
use lrmdns.Server.Run.Sources.{HasSources}
use lrmdns.Zone.File.Load.{parse_zone_file}
use lrmdns.Main.{
  Files, hangup, stop, Process, load_into, load_zones, handle_signal, MainEnv, config_path,
  server_for, setup,
}
use lrmdns.Main.Loading.{Serves, IsReadIn}
use lrmdns.Main.Lifetime.{reads, turn, signal, go_on, Life, born, lives, begin}
use lrmdns.Main.Lifetime.Sources.{Life-Serves, Life-HasSources}
use lrmdns.Main.Lifetime.Exit.{Ends, Life-Ends}
use lrmdns.Main.Setup.{IsReady, setup-IsReady}
use lrmdns.Tests.Samples.{names, address_key, origin, codec}
use lrmdns.Tests.Serving.{env, datagram, round}
use lrmdns.Tests.Parsing.{readers, soa_file, parsed_zone, parse_zone_file-soa}

abbrev files : Files
files path = some soa_file

abbrev no_files : Files
no_files path = none

abbrev zone_config : ZoneConfig
zone_config = record { name = origin; file = 122 ∷ [] }

abbrev zones : List ZoneConfig
zones = zone_config ∷ []

abbrev loaded : ZoneStore Bytes
loaded = add_zone parsed_zone Store.new

load_zones-zones : load_zones readers files zones ≡ ok loaded
unfolding load_zones load_into
load_zones-zones = rw (parse_zone_file-soa) refl

abbrev raw_server : RawServerConfig
raw_server = record {
  listen = none;
  workers = none;
  log_level = none;
  rate_limit = some 100;
  api_listen = none;
  dnssec = none;
  tcp = none;
}

abbrev raw_config : RawConfig
raw_config = record { server = raw_server; zones = zones }

-- a file that stands for a configuration, whatever it holds
abbrev yaml : Text → Option RawConfig
yaml content = some raw_config

abbrev config : Config
config = record { server = fill_server raw_server; zones = zones }

abbrev main_env : MainEnv
main_env = record { files = files; exists = λ path. true; metrics_at = 0; limiter_at = 900 }

setup-config :
    setup {Addr = ℕ} readers yaml main_env [] ≡ ok (config, server_for main_env config loaded)
unfolding setup from_file validate validate_zones config_path
setup-config = rw (load_zones-zones) refl

setup-IsReady_example :
    (from_file yaml (some soa_file) ≡ ok config)
    × IsReady {Addr = ℕ} readers main_env config (server_for main_env config loaded)
setup-IsReady_example = setup-IsReady readers yaml main_env [] setup-config

abbrev server : DnsServer Bytes ℕ
server = server_for main_env config loaded

abbrev bound : Process Bytes ℕ
bound = go_on codec readers zones (turn (Event.udp_bound true)) (begin server)

abbrev heard : Process Bytes ℕ
heard = go_on codec readers zones (turn (Event.datagram (some (datagram, 7)))) bound

-- a datagram is answered
abbrev answered : Process Bytes ℕ
answered = go_on codec readers zones (turn (Event.udp_task 0 env)) heard

-- a connection comes, and its task starts
abbrev accepted : Process Bytes ℕ
accepted =
    go_on codec readers zones (turn (Event.connection (some 9)))
      (go_on codec readers zones (turn (Event.tcp_bound true)) answered)

abbrev connected : Process Bytes ℕ
connected = go_on codec readers zones (turn (Event.tcp_start 0)) accepted

-- a reload without the files, and a stop
abbrev reloaded : Process Bytes ℕ
reloaded = go_on codec readers zones (signal 950 (hangup no_files)) connected

abbrev stopping : Process Bytes ℕ
stopping = go_on codec readers zones (signal 970 stop) reloaded

-- `run` returns, and the task of the connection still answers a message
abbrev returned : Process Bytes ℕ
returned = go_on codec readers zones (turn Event.run_cancelled) stopping

abbrev ended : Process Bytes ℕ
ended =
    go_on codec readers zones (turn (Event.tcp_task 0 round (message 0 5 (some datagram)))) returned

lives_answered : Life codec readers zones (begin server) answered
unfolding begin go_on start perform Run.udp_received server_for State.new
lives_answered =
    lives
      (lives (lives born (turn (Event.udp_bound true)) (refl, (refl, refl)))
        (turn (Event.datagram (some (datagram, 7)))) (refl, (refl, refl)))
      (turn (Event.udp_task 0 env)) (refl, ((_, []), refl))

lives_connected : Life codec readers zones (begin server) connected
unfolding begin go_on start perform Run.udp_received Run.tcp_accepted server_for State.new
lives_connected =
    lives
      (lives (lives lives_answered (turn (Event.tcp_bound true)) (refl, (refl, refl)))
        (turn (Event.connection (some 9))) (refl, (refl, refl)))
      (turn (Event.tcp_start 0)) (refl, ((_, []), refl, refl))

lives_ended : Life codec readers zones (begin server) ended
unfolding begin go_on handle_signal start perform Run.udp_received Run.tcp_accepted server_for
    State.new load_zones load_into parse_zone_file
lives_ended =
    lives
      (lives
        (lives (lives lives_connected (signal 950 (hangup no_files)) refl) (signal 970 stop) refl)
        (turn Event.run_cancelled) (refl, (refl, refl)))
      (turn (Event.tcp_task 0 round (message 0 5 (some datagram))))
      (refl, ((_, []), refl, (_, refl)))

Life-Serves_example : (n : Bytes) × (names.from_str origin ≡ some n) × Serves ended.world.zones n
Life-Serves_example =
    Life-Serves codec readers yaml main_env [] setup-config zone_config lives_ended (Memᴰ.head refl)

Life-HasSources_example :
    HasSources codec
      (IsReadIn readers zones (reads codec readers zones files lives_ended))
      ended.world
Life-HasSources_example = Life-HasSources codec readers yaml main_env [] setup-config lives_ended

Life-Ends_example : Ends codec readers zones (begin server) ended ended.world.outcome
Life-Ends_example = Life-Ends codec readers zones server lives_ended
