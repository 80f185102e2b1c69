-- ===== src/Tests/Running.antt =====
-- A run of the server at concrete events.
use lrmdns.Prelude.{ℕ, refl, true, none, some, List, [], ◌∷◌, arith}
use lrmdns.Dns.Rr.{Bytes}
use lrmdns.RateLimit
use lrmdns.RateLimit.{from_secs}
use lrmdns.RateLimit.Runs.{IsBounded}
use lrmdns.Metrics
use lrmdns.Server.State.{DnsServer, World, Event, start}
use lrmdns.Server.Run.{Run, here, next, perform}
use lrmdns.Server.Run
use lrmdns.Server.State
use lrmdns.Server.Run.Tasks.{IsHandling, Run-IsHandling}
use lrmdns.Server.Run.Limited.{all_served, Run-IsBounded}
use lrmdns.Tests.Samples.{names, address_key, store, codec}
use lrmdns.Tests.Serving.{env, datagram}

abbrev server : DnsServer Bytes ℕ
server = State.new store [] (Metrics.new 0) (some (RateLimit.new 5 900)) none

-- a datagram comes, the token is cancelled, and the datagram is handled
abbrev before : World Bytes ℕ
before = perform codec Event.cancel (
    perform codec (Event.datagram (some (datagram, 7)))
      (perform codec (Event.udp_bound true) (start server)))

abbrev after : World Bytes ℕ
after = perform codec (Event.udp_task 0 env) before

abbrev heard : List (Event Bytes ℕ)
heard = Event.cancel ∷ Event.datagram (some (datagram, 7)) ∷ Event.udp_bound true ∷ []

waits : Run codec (start server) heard before
unfolding start perform Run.udp_received
waits =
    next
      (next (next here (Event.udp_bound true) (refl, refl)) (Event.datagram (some (datagram, 7)))
        (refl, refl))
      Event.cancel tt

runs : Run codec (start server) (Event.udp_task 0 env ∷ heard) after
unfolding start perform Run.udp_received
runs = next waits (Event.udp_task 0 env) ((_, []), refl)

Run-IsHandling_example : IsHandling codec (Event.udp_task 0 env ∷ heard) after
Run-IsHandling_example = Run-IsHandling codec server runs

Run-IsBounded_example : IsBounded 5 (from_secs 1) (all_served codec runs) 1000
unfolding start perform Run.udp_received runs State.new waits
Run-IsBounded_example =
    Run-IsBounded codec server 5 900 refl runs
      (record { begins = omega arith; ends = omega arith }, tt)
