-- ===== src/Server/Run/Sources.antt =====
-- The zones that the tasks answer from: the first ones, or those of a reload.
use lrmdns.Prelude.{
  ℕ, ◌≡◌, refl, sym, Option, none, some, List, [], ◌∷◌, All, All-append, leb, Bool-cases,
  Option-cases, inl, inr,
}
use lrmdns.Prelude.Result.{Result, ok, err}
use lrmdns.HashMap.{Key}
use lrmdns.Dns.Name.{DnsApi}
use lrmdns.Dns.Rr.{Bytes}
use lrmdns.Zone.Store.{ZoneStore}
use lrmdns.Zone.Store.Valid.{HasValidZones}
use lrmdns.Server.{Codec, ServerError, Shared}
use lrmdns.Server.Udp.{UdpEnv, handle_udp_query}
use lrmdns.Server.Udp.Supplied.{IsSupplied, handle_udp_query-IsSupplied}
use mathlib.Core.Path.{subst}
use lrmdns.Server.Tcp.{
  Conn, Frame, Round, Turn, again, done, waiting, proceed, tcp_loop, handle_frame,
}
use lrmdns.Server.Tcp.Closing.{end_conn}
use lrmdns.Server.Tcp.Supplied.{IsSuppliedFrame}
use lrmdns.Server.Tcp.Sent.{handle_frame-All}
use lrmdns.Server.State.{DnsServer, UdpTask, TcpTask, World, Event, start, pick}
use lrmdns.Server.Run.Pick.{pick-All}
use lrmdns.Server.Run.{
  Run, here, next, perform, run_conn, after_turn, resume, udp_received, tcp_accepted,
}

module _ {Name Addr : Type 0} ⦃api : DnsApi Name⦄ ⦃k : Key Addr⦄ (c : Codec Name)
    (IsSource : ZoneStore Name → Type 0) where
  -- a reload that stores zones from a source
  abbrev pub Reloads : Event Name Addr → Type 0
  Reloads (Event.reloaded zones) = IsSource zones
  Reloads _ = Unit

  -- What was sent for the task has its answers from zones of a source.
  abbrev pub IsSourced : UdpTask Addr × Result ServerError Bytes → Type 0
  IsSourced (task, err e) = Unit
  IsSourced (task, ok buf) =
      (zones : ZoneStore Name) × IsSource zones × IsSupplied c zones (c.from_bytes task.bytes) buf

  -- Each frame of the connection has its answers from zones of a source.
  abbrev pub HasFrames : Conn Addr → Type 0
  HasFrames conn =
      All (λ f. (zones : ZoneStore Name) × IsSource zones × IsSuppliedFrame c zones f) conn.sent

  abbrev HasStarted : Option (Conn Addr) → Type 0
  HasStarted none = Unit
  HasStarted (some conn) = HasFrames conn

  abbrev pub HasTask : TcpTask Addr → Type 0
  HasTask task = HasStarted task.started

  -- The zones are from a source, and so is what each UDP task and each connection, open or
  -- closed, has sent.
  pub record HasSources (w : World Name Addr) : Type 0 where
    pub zones : IsSource w.zones
    pub finished : All IsSourced w.finished
    pub running : All HasTask w.tcp_tasks
    pub closed : All HasFrames w.closed

  module _ (valid : (zones : ZoneStore Name) → IsSource zones → HasValidZones zones) where
    handled-IsSourced :
        (env : UdpEnv) (zones : ZoneStore Name) (task : UdpTask Addr) (s : Shared Addr)
        (result : Result ServerError Bytes)
        → IsSource zones
        → (handle_udp_query c env zones task.addr task.bytes s).1 ≡ result
        → IsSourced (task, result)
    handled-IsSourced env zones task s (err e) i h = tt
    handled-IsSourced env zones task s (ok buf) i h =
        (zones, i, handle_udp_query-IsSupplied c env zones (valid zones i) task.addr task.bytes s h)

    -- what the events that read and write nothing leave alone
    keep :
        {w w' : World Name Addr}
        → w'.zones ≡ w.zones
        → w'.finished ≡ w.finished
        → w'.tcp_tasks ≡ w.tcp_tasks
        → w'.closed ≡ w.closed
        → HasSources w
        → HasSources w'
    keep z f o l h = record {
      zones = subst IsSource (sym z) h.zones;
      finished = subst (All IsSourced) (sym f) h.finished;
      running = subst (All HasTask) (sym o) h.running;
      closed = subst (All HasFrames) (sym l) h.closed;
    }

    proceed-HasFrames :
        (addr : Addr) (max_queries : ℕ) (t : Turn Addr)
        → HasFrames (end_conn t)
        → HasFrames (end_conn (proceed (tcp_loop c addr max_queries []) t))
    unfolding tcp_loop
    proceed-HasFrames addr max_queries (again conn) h =
        elim (Bool-cases (leb max_queries conn.queries_handled)) [ inl b ↦ rw b h | inr b ↦ rw b h ]
    proceed-HasFrames addr max_queries (done conn result) h = h
    proceed-HasFrames addr max_queries (waiting conn) h = h

    tcp_loop-HasFrames :
        (addr : Addr) (max_queries : ℕ) (env : Round Name) (frame : Frame) (conn : Conn Addr)
        → IsSource env.zones
        → HasFrames conn
        → HasFrames (end_conn (tcp_loop c addr max_queries ((env, frame) ∷ []) conn))
    unfolding tcp_loop
    tcp_loop-HasFrames addr max_queries env frame conn i h =
        elim (Bool-cases (leb max_queries conn.queries_handled)) [
          | inl b ↦ rw b h
          | inr b ↦ rw b (
              proceed-HasFrames addr max_queries (handle_frame c addr env frame conn) (
                handle_frame-All c addr env (valid env.zones i) _ (λ f s. (env.zones, i, s)) frame
                  conn h))
        ]

    after_turn-HasSources :
        (addr : Addr) (rest : List (TcpTask Addr)) (t : Turn Addr) (w : World Name Addr)
        → HasSources w
        → All HasTask rest
        → HasFrames (end_conn t)
        → HasSources (after_turn c addr rest t w)
    after_turn-HasSources addr rest (again conn) w h r f = record {
      zones = h.zones;
      finished = h.finished;
      running = (f, r);
      closed = h.closed;
    }
    after_turn-HasSources addr rest (waiting conn) w h r f = record {
      zones = h.zones;
      finished = h.finished;
      running = (f, r);
      closed = h.closed;
    }
    after_turn-HasSources addr rest (done conn result) w h r f = record {
      zones = h.zones;
      finished = h.finished;
      running = r;
      closed = (f, h.closed);
    }

    run_conn-HasSources :
        (env : Round Name) (frame : Frame) (addr : Addr) (rest : List (TcpTask Addr))
        (started : Option (Conn Addr)) (w : World Name Addr)
        → HasSources w
        → All HasTask rest
        → HasStarted started
        → HasSources (run_conn c env frame addr rest started w)
    run_conn-HasSources env frame addr rest none w h r s = h
    run_conn-HasSources env frame addr rest (some conn) w h r s =
        after_turn-HasSources addr rest _ w h r
          (tcp_loop-HasFrames addr _ _ frame (resume c w conn) h.zones s)

    perform-HasSources :
        (e : Event Name Addr) (w : World Name Addr)
        → Reloads e
        → HasSources w
        → HasSources (perform c e w)
    unfolding perform udp_received tcp_accepted
    perform-HasSources (Event.udp_bound b) w i h = keep refl refl refl refl h
    perform-HasSources (Event.tcp_bound b) w i h = keep refl refl refl refl h
    perform-HasSources (Event.datagram none) w i h = h
    perform-HasSources (Event.datagram (some (bytes, addr))) w i h = keep refl refl refl refl h
    perform-HasSources (Event.connection none) w i h = h
    perform-HasSources (Event.connection (some addr)) w i h = record {
      zones = h.zones;
      finished = h.finished;
      running = All-append HasTask w.tcp_tasks _ h.running (tt, tt);
      closed = h.closed;
    }
    perform-HasSources Event.udp_cancelled w i h = keep refl refl refl refl h
    perform-HasSources Event.tcp_cancelled w i h = keep refl refl refl refl h
    perform-HasSources Event.udp_joined w i h = keep refl refl refl refl h
    perform-HasSources Event.tcp_joined w i h = keep refl refl refl refl h
    perform-HasSources Event.run_cancelled w i h = keep refl refl refl refl h
    perform-HasSources (Event.udp_task n env) w i h = elim (Option-cases (pick n w.udp_tasks)) [
      | inl e ↦ rw e h
      | inr ((task, rest), e) ↦ rw e (record {
        zones = h.zones;
        finished = (handled-IsSourced env w.zones task w.shared _ h.zones refl, h.finished);
        running = h.running;
        closed = h.closed;
      })
    ]
    perform-HasSources (Event.tcp_start n) w i h = elim (Option-cases (pick n w.tcp_tasks)) [
      | inl e ↦ rw e h
      | inr (t, e) ↦ rw e (record {
        zones = h.zones;
        finished = h.finished;
        running = (tt, (pick-All HasTask n w.tcp_tasks e h.running).1);
        closed = h.closed;
      })
    ]
    perform-HasSources (Event.tcp_task n env frame) w i h =
        elim (Option-cases (pick n w.tcp_tasks)) [
          | inl e ↦ rw e h
          | inr ((task, rest), e) ↦
              let (t, r) = pick-All HasTask n w.tcp_tasks e h.running in
              rw e (run_conn-HasSources env frame task.addr rest task.started w h r t)
        ]
    perform-HasSources (Event.reloaded zones) w i h = record {
      zones = i;
      finished = h.finished;
      running = h.running;
      closed = h.closed;
    }
    perform-HasSources Event.cancel w i h = keep refl refl refl refl h

    -- Where the first zones of a server and those of every reload are from a source, and what comes
    -- from it is well formed: the zones are from it at any time, and the answers in every reply,
    -- over UDP or TCP, are records of zones from that source.
    pub Run-HasSources :
        (server : DnsServer Name Addr) {es : List (Event Name Addr)} {w : World Name Addr}
        → Run c (start server) es w
        → IsSource server.processor
        → All Reloads es
        → HasSources w
    unfolding start
    Run-HasSources server here i r = record { zones = i; finished = tt; running = tt; closed = tt }
    Run-HasSources server (next {es} {w} run e _) i r =
        perform-HasSources e w r.0 (Run-HasSources server run i r.1)
