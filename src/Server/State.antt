-- ===== src/Server/State.antt =====
-- src/server.rs: the state of DnsServer, of its two loops and of the tasks, and the events.
use lrmdns.Prelude.{ℕ, zero, suc, Bool, true, false, Option, none, some, List, [], ◌∷◌}
use lrmdns.Prelude.Result.{Result, err}
use lrmdns.Dns.Rr.{Bytes}
use lrmdns.Zone.Text.{Text}
use lrmdns.Zone.Store.{ZoneStore}
use lrmdns.Config.{TcpConfig}
use lrmdns.RateLimit.{RateLimiter}
use lrmdns.Metrics.{Metrics}
use lrmdns.Server.{ServerError, bind, Shared}
use lrmdns.Server.Udp.{UdpEnv}
use lrmdns.Server.Tcp.{Frame, Round, Conn}

abbrev pub max_udp_recv_size : ℕ
max_udp_recv_size = 4096

-- The processor is the zone store that it answers from.
pub record DnsServer (Name Addr : Type 0) : Type 0 where
  pub processor : ZoneStore Name
  pub listen_addr : Text
  pub metrics : Metrics
  pub rate_limiter : Option (RateLimiter Addr)
  pub tcp_config : Option TcpConfig

-- DnsServer::new
unfoldable pub new :
    {Name Addr : Type 0}
    → ZoneStore Name
    → Text
    → Metrics
    → Option (RateLimiter Addr)
    → Option TcpConfig
    → DnsServer Name Addr
new processor listen_addr metrics rate_limiter tcp_config = record {
  processor = processor;
  listen_addr = listen_addr;
  metrics = metrics;
  rate_limiter = rate_limiter;
  tcp_config = tcp_config;
}

-- A call of handle_udp_query that is spawned.
pub record UdpTask (Addr : Type 0) : Type 0 where
  pub bytes : Bytes
  pub addr : Addr

-- A call of handle_tcp_connection that is spawned, with its connection once it has started.
pub record TcpTask (Addr : Type 0) : Type 0 where
  pub addr : Addr
  pub started : Option (Conn Addr)

-- How far run_udp or run_tcp is.
pub data Future : Type 0 where
  unbound listening : Future
  returned : Result ServerError (Unit {0}) → Future

-- The server while it runs: what the tasks share, the token, the two loops, the result of `run` once
-- it returns, the tasks that are not finished, the UDP tasks that are, with their results, and the
-- connections that have ended.
pub record World (Name Addr : Type 0) : Type 0 where
  pub zones : ZoneStore Name
  pub shared : Shared Addr
  pub tcp_config : Option TcpConfig
  pub cancelled : Bool
  pub udp : Future
  pub tcp : Future
  pub outcome : Option (Result ServerError (Unit {0}))
  pub udp_tasks : List (UdpTask Addr)
  pub tcp_tasks : List (TcpTask Addr)
  pub finished : List (UdpTask Addr × Result ServerError Bytes)
  pub closed : List (Conn Addr)

-- `udp_bound` and `tcp_bound` tell whether the address could be bound; `datagram` and `connection`
-- what `recv_from` and `accept` return, `none` for an error; `udp_task`, `tcp_start` and `tcp_task`
-- which of the tasks goes on, and what it finds.
pub data Event (Name Addr : Type 0) : Type 0 where
  udp_bound tcp_bound : Bool → Event Name Addr
  datagram : Option (Bytes × Addr) → Event Name Addr
  connection : Option Addr → Event Name Addr
  udp_cancelled tcp_cancelled : Event Name Addr
  udp_joined tcp_joined run_cancelled : Event Name Addr
  udp_task : ℕ → UdpEnv → Event Name Addr
  tcp_start : ℕ → Event Name Addr
  tcp_task : ℕ → Round Name → Frame → Event Name Addr
  reloaded : ZoneStore Name → Event Name Addr
  cancel : Event Name Addr

-- The n-th task, and the tasks without it.
abbrev pub pick {ℓ} : {A : Type ℓ} → ℕ → List A → Option (A × List A)
pick n [] = none
pick zero (x ∷ xs) = some (x, xs)
pick (suc n) (x ∷ xs) = elim (pick n xs) [ none ↦ none | some (y, ys) ↦ some (y, x ∷ ys) ]

-- `UdpSocket::bind(…).await.context(…)?` and `TcpListener::bind(…)`
abbrev pub bound : Bool → Future
bound true = Future.listening
bound false = Future.returned (err bind)

abbrev pub result_of : Future → Option (Result ServerError (Unit {0}))
result_of (Future.returned result) = some result
result_of _ = none

module _ {Name Addr : Type 0} where
  -- the world before `run` is polled
  unfoldable pub start : DnsServer Name Addr → World Name Addr
  start server = record {
    zones = server.processor;
    shared = record { rate_limiter = server.rate_limiter; metrics = server.metrics };
    tcp_config = server.tcp_config;
    cancelled = false;
    udp = Future.unbound;
    tcp = Future.unbound;
    outcome = none;
    udp_tasks = [];
    tcp_tasks = [];
    finished = [];
    closed = [];
  }
