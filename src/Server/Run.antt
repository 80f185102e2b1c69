-- ===== src/Server/Run.antt =====
-- src/server.rs: DnsServer, its two loops, and the tasks that they spawn. An event is one turn of the
-- scheduler: a `select!` that finds a branch ready, a spawned task that goes on, or another part of
-- the program that writes the zones or cancels the token. Events come in any order.
pub mod Pick
pub mod Tasks
pub mod Shutdown
pub mod Calls
pub mod Served
pub mod Requests
pub mod Limited
pub mod Sources
use lrmdns.Prelude.{
  ℕ, zero, suc, ◌≡◌, Bool, true, false, Option, none, some, List, [], ◌∷◌, ◌++◌, take,
}
use lrmdns.Prelude.Result.{Result, ok, err}
use lrmdns.HashMap.{Key}
use lrmdns.Dns.Name.{DnsApi}
use lrmdns.Dns.Rr.{Bytes}
use lrmdns.Zone.Text.{Text}
use lrmdns.Zone.Store.{ZoneStore}
use lrmdns.Config.{TcpConfig}
use lrmdns.RateLimit.{RateLimiter}
use lrmdns.Metrics.{Metrics, record_tcp_connection}
use lrmdns.Server.{Codec, ServerError, bind, Shared, update}
use lrmdns.Server.Udp.{UdpEnv, handle_udp_query}
use lrmdns.Server.Tcp.{Frame, Round, Conn, Turn, again, done, waiting, tcp_loop, max_queries_of}
use lrmdns.Server.State.{
  DnsServer, Event, Future, TcpTask, UdpTask, World, bound, max_udp_recv_size, pick, result_of,
}

module _ {Name Addr : Type 0} where
  -- the branch of run_udp for `recv_from`: the buffer holds 4096 bytes, the rest is dropped
  unfoldable pub udp_received : Option (Bytes × Addr) → World Name Addr → World Name Addr
  udp_received none w = w
  udp_received (some (bytes, addr)) w = record w {
    udp_tasks = w.udp_tasks ++ record { bytes = take max_udp_recv_size bytes; addr = addr } ∷ [];
  }

  -- the branch of run_tcp for `accept`
  unfoldable pub tcp_accepted : Option Addr → World Name Addr → World Name Addr
  tcp_accepted none w = w
  tcp_accepted (some addr) w = record w {
    tcp_tasks = w.tcp_tasks ++ record { addr = addr; started = none } ∷ [];
  }

  -- what handle_tcp_connection does before its loop
  abbrev pub start_tcp_task :
      Option (TcpTask Addr × List (TcpTask Addr)) → World Name Addr → World Name Addr
  start_tcp_task none w = w
  start_tcp_task (some (task, rest)) w =
      let shared = update record_tcp_connection w.shared in
      let conn : Conn Addr = record { shared = shared; queries_handled = 0; sent = [] } in
      record w {
        shared = shared;
        tcp_tasks = record { addr = task.addr; started = some conn } ∷ rest;
      }

module _ {Name Addr : Type 0} ⦃api : DnsApi Name⦄ ⦃k : Key Addr⦄ (c : Codec Name) where
  abbrev pub run_udp_task :
      UdpEnv → Option (UdpTask Addr × List (UdpTask Addr)) → World Name Addr → World Name Addr
  run_udp_task env none w = w
  run_udp_task env (some (task, rest)) w =
      let (shared, result) = handle_udp_query c env w.zones task.addr task.bytes w.shared in
      record w { shared = shared; udp_tasks = rest; finished = (task, result) ∷ w.finished }

  abbrev pub after_turn : Addr → List (TcpTask Addr) → Turn Addr → World Name Addr → World Name Addr
  after_turn addr rest (again conn) w = record w {
    shared = conn.shared;
    tcp_tasks = record { addr = addr; started = some conn } ∷ rest;
  }
  after_turn addr rest (waiting conn) w = record w {
    shared = conn.shared;
    tcp_tasks = record { addr = addr; started = some conn } ∷ rest;
  }
  after_turn addr rest (done conn result) w = record w {
    shared = conn.shared;
    tcp_tasks = rest;
    closed = conn ∷ w.closed;
  }

  -- A connection goes on from where it is, with what the tasks share now.
  abbrev pub resume : World Name Addr → Conn Addr → Conn Addr
  resume w conn = record conn { shared = w.shared }

  abbrev pub run_conn :
      Round Name
      → Frame
      → Addr
      → List (TcpTask Addr)
      → Option (Conn Addr)
      → World Name Addr
      → World Name Addr
  run_conn env frame addr rest none w = w
  run_conn env frame addr rest (some conn) w =
      after_turn addr rest
        (tcp_loop c addr (max_queries_of c addr w.tcp_config)
          ((record env { zones = w.zones }, frame) ∷ []) (resume w conn))
        w

  abbrev pub run_tcp_task :
      Round Name
      → Frame
      → Option (TcpTask Addr × List (TcpTask Addr))
      → World Name Addr
      → World Name Addr
  run_tcp_task env frame none w = w
  run_tcp_task env frame (some (task, rest)) w = run_conn env frame task.addr rest task.started w

  -- one event
  unfoldable pub perform : Event Name Addr → World Name Addr → World Name Addr
  unfolding udp_received tcp_accepted
  perform (Event.udp_bound succeeds) w = record w { udp = bound succeeds }
  perform (Event.tcp_bound succeeds) w = record w { tcp = bound succeeds }
  perform (Event.datagram received) w = udp_received received w
  perform (Event.connection accepted) w = tcp_accepted accepted w
  perform Event.udp_cancelled w = record w { udp = Future.returned (ok tt) }
  perform Event.tcp_cancelled w = record w { tcp = Future.returned (ok tt) }
  perform Event.udp_joined w = record w { outcome = result_of w.udp }
  perform Event.tcp_joined w = record w { outcome = result_of w.tcp }
  perform Event.run_cancelled w = record w { outcome = some (ok tt) }
  perform (Event.udp_task n env) w = run_udp_task env (pick n w.udp_tasks) w
  perform (Event.tcp_start n) w = start_tcp_task (pick n w.tcp_tasks) w
  perform (Event.tcp_task n env frame) w = run_tcp_task env frame (pick n w.tcp_tasks) w
  perform (Event.reloaded zones) w = record w { zones = zones }
  perform Event.cancel w = record w { cancelled = true }

  -- When an event can come. Once `run` has returned, the two loops are dropped. Spawned tasks can
  -- still go on here, which includes what they do in the time until the runtime drops them.
  abbrev pub IsEnabled : Event Name Addr → World Name Addr → Type 0
  IsEnabled (Event.udp_bound _) w = (w.outcome ≡ none) × (w.udp ≡ Future.unbound)
  IsEnabled (Event.tcp_bound _) w = (w.outcome ≡ none) × (w.tcp ≡ Future.unbound)
  IsEnabled (Event.datagram _) w = (w.outcome ≡ none) × (w.udp ≡ Future.listening)
  IsEnabled (Event.connection _) w = (w.outcome ≡ none) × (w.tcp ≡ Future.listening)
  IsEnabled Event.udp_cancelled w =
      (w.outcome ≡ none) × (w.udp ≡ Future.listening) × (w.cancelled ≡ true)
  IsEnabled Event.tcp_cancelled w =
      (w.outcome ≡ none) × (w.tcp ≡ Future.listening) × (w.cancelled ≡ true)
  IsEnabled Event.udp_joined w =
      (w.outcome ≡ none) × ((r : Result ServerError (Unit {0})) × (w.udp ≡ Future.returned r))
  IsEnabled Event.tcp_joined w =
      (w.outcome ≡ none) × ((r : Result ServerError (Unit {0})) × (w.tcp ≡ Future.returned r))
  IsEnabled Event.run_cancelled w = (w.outcome ≡ none) × (w.cancelled ≡ true)
  IsEnabled (Event.udp_task n _) w =
      (t : UdpTask Addr × List (UdpTask Addr)) × (pick n w.udp_tasks ≡ some t)
  IsEnabled (Event.tcp_start n) w =
      (t : TcpTask Addr × List (TcpTask Addr)) × (pick n w.tcp_tasks ≡ some t)
      × (t.0.started ≡ none)
  IsEnabled (Event.tcp_task n _ _) w =
      (t : TcpTask Addr × List (TcpTask Addr)) × (pick n w.tcp_tasks ≡ some t)
      × ((conn : Conn Addr) × (t.0.started ≡ some conn))
  IsEnabled (Event.reloaded _) w = Unit
  IsEnabled Event.cancel w = Unit

  -- The worlds that events lead to, with the events, the last one first.
  pub data Run (w₀ : World Name Addr) : List (Event Name Addr) → World Name Addr → Type 0 where
    here : Run w₀ [] w₀
    next :
        {es : List (Event Name Addr)} {w : World Name Addr}
        → Run w₀ es w
        → (e : Event Name Addr) → IsEnabled e w
        → Run w₀ (e ∷ es) (perform e w)
