-- ===== src/Main/Lifetime/Exit.antt =====
-- When a process ends.
use lrmdns.Prelude.{
  ℕ, ◌≡◌, refl, ◌∙◌, true, false, Option, none, some, List, ◌++◌, arith, Option-cases, inl, inr,
}
use lrmdns.Prelude.Result.{Result, ok, err}
use lrmdns.HashMap.{Key}
use lrmdns.Dns.Name.{DnsApi}
use lrmdns.Config.{ZoneConfig}
use lrmdns.Metrics.Log.{log_summary}
use lrmdns.Zone.Store.{ZoneStore}
use lrmdns.Zone.File.Rdata.{Readers, ParseError}
use lrmdns.Server.{Codec, ServerError, bind}
use lrmdns.Server.Tcp.{Conn, Frame, Round, Turn, again, done, waiting}
use lrmdns.Server.State.{DnsServer, TcpTask, World, Event, start, pick}
use lrmdns.Server.Run.{perform, run_conn, after_turn, udp_received, tcp_accepted}
use lrmdns.Server.Run.Shutdown.{Justifies, Run-Justifies}
use lrmdns.Main.{Process, hangup, user1, stop, load_zones, reload, handle_signal}
use lrmdns.Main.Lifetime.{
  Happening, turn, signal, is_own, CanHappen, go_on, Life, born, lives, begin, Life-IsRun,
}

module _ {Name Addr : Type 0} ⦃api : DnsApi Name⦄ ⦃k : Key Addr⦄ (c : Codec Name) where
  after_turn-cancelled :
      (addr : Addr) (rest : List (TcpTask Addr)) (t : Turn Addr) (w : World Name Addr)
      → (after_turn c addr rest t w).cancelled ≡ w.cancelled
  after_turn-cancelled addr rest (again conn) w = refl
  after_turn-cancelled addr rest (waiting conn) w = refl
  after_turn-cancelled addr rest (done conn r) w = refl

  run_conn-cancelled :
      (env : Round Name) (frame : Frame) (addr : Addr) (rest : List (TcpTask Addr))
      (started : Option (Conn Addr)) (w : World Name Addr)
      → (run_conn c env frame addr rest started w).cancelled ≡ w.cancelled
  run_conn-cancelled env frame addr rest none w = refl
  run_conn-cancelled env frame addr rest (some conn) w = after_turn-cancelled addr rest _ w

  -- the events of the server do not cancel the token
  perform-cancelled :
      (e : Event Name Addr) (w : World Name Addr)
      → is_own e ≡ true
      → (perform c e w).cancelled ≡ w.cancelled
  unfolding perform udp_received tcp_accepted
  perform-cancelled (Event.udp_bound b) w h = refl
  perform-cancelled (Event.tcp_bound b) w h = refl
  perform-cancelled (Event.datagram none) w h = refl
  perform-cancelled (Event.datagram (some (bytes, addr))) w h = refl
  perform-cancelled (Event.connection none) w h = refl
  perform-cancelled (Event.connection (some addr)) w h = refl
  perform-cancelled Event.udp_cancelled w h = refl
  perform-cancelled Event.tcp_cancelled w h = refl
  perform-cancelled Event.udp_joined w h = refl
  perform-cancelled Event.tcp_joined w h = refl
  perform-cancelled Event.run_cancelled w h = refl
  perform-cancelled (Event.udp_task n env) w h = elim (Option-cases (pick n w.udp_tasks)) [
    | inl e ↦ rw e refl
    | inr (t, e) ↦ rw e refl
  ]
  perform-cancelled (Event.tcp_start n) w h = elim (Option-cases (pick n w.tcp_tasks)) [
    | inl e ↦ rw e refl
    | inr (t, e) ↦ rw e refl
  ]
  perform-cancelled (Event.tcp_task n env frame) w h = elim (Option-cases (pick n w.tcp_tasks)) [
    | inl e ↦ rw e refl
    | inr ((task, rest), e) ↦ rw e (run_conn-cancelled env frame task.addr rest task.started w)
  ]
  perform-cancelled (Event.reloaded zones) w h = cc
  perform-cancelled Event.cancel w h = cc

  module _ (readers : Readers Name) (zones : List ZoneConfig) where
    reload-cancelled :
        (r : Result ParseError (ZoneStore Name)) (w : World Name Addr)
        → (reload readers r w).cancelled ≡ w.cancelled
    reload-cancelled (ok s) w = refl
    reload-cancelled (err e) w = refl

    -- A signal that stops has come: at some time before, handle_signals was going on; then the signal
    -- came, and has cancelled the token, stopped the loop and logged a summary of the counters of the
    -- server at that moment, at the end of what was logged until now.
    pub record IsStopped (p₀ p : Process Name Addr) : Type 0 where
      pub before : Process Name Addr
      pub earlier : Life c readers zones p₀ before
      pub going_on : before.handling ≡ true
      pub now : ℕ
      pub later : Life c readers zones (go_on c readers zones (signal now stop) before) p
      pub stopped : p.handling ≡ false
      pub cancelled : p.world.cancelled ≡ true
      pub summary : p.logged ≡ before.logged ++ log_summary now before.world.shared.metrics

    -- What a result of `run` says of the process.
    abbrev pub Ends :
        Process Name Addr → Process Name Addr → Option (Result ServerError (Unit {0})) → Type 0
    Ends p₀ p none = Unit
    Ends p₀ p (some (err e)) = e ≡ bind
    Ends p₀ p (some (ok _)) = IsStopped p₀ p

    -- Before a signal stops the loop, the token is not cancelled.
    data Stage (p₀ p : Process Name Addr) : Type 0 where
      handles : p.handling ≡ true → p.world.cancelled ≡ false → Stage p₀ p
      stops : IsStopped p₀ p → Stage p₀ p

    Ends-of_Justifies :
        (p₀ p : Process Name Addr) (r : Option (Result ServerError (Unit {0})))
        → Stage p₀ p
        → Justifies p.world.cancelled r
        → Ends p₀ p r
    Ends-of_Justifies p₀ p none g j = tt
    Ends-of_Justifies p₀ p (some (err e)) g j = j
    Ends-of_Justifies p₀ p (some (ok _)) (handles h n) j = cc
    Ends-of_Justifies p₀ p (some (ok _)) (stops s) j = s

    turn-Stage :
        (p₀ : Process Name Addr) (e : Event Name Addr) (p : Process Name Addr)
        → CanHappen c readers zones (turn e) p
        → Stage p₀ p
        → Stage p₀ (go_on c readers zones (turn e) p)
    unfolding go_on
    turn-Stage p₀ e p i (handles h n) = handles h (perform-cancelled e p.world i.0 ∙ n)
    turn-Stage p₀ e p i (stops s) = stops (record {
      before = s.before;
      earlier = s.earlier;
      going_on = s.going_on;
      now = s.now;
      later = lives s.later (turn e) i;
      stopped = s.stopped;
      cancelled = perform-cancelled e p.world i.0 ∙ s.cancelled;
      summary = s.summary;
    })

    go_on-Stage :
        (p₀ : Process Name Addr) (h : Happening Name Addr) (p : Process Name Addr)
        → Life c readers zones p₀ p
        → CanHappen c readers zones h p
        → Stage p₀ p
        → Stage p₀ (go_on c readers zones h p)
    unfolding go_on handle_signal
    go_on-Stage p₀ (turn e) p l i g = turn-Stage p₀ e p i g
    go_on-Stage p₀ (signal now s) p l i (stops g) = absurd (ground (arith, g.stopped))
    go_on-Stage p₀ (signal now (hangup files)) p l i (handles h n) =
        handles h (reload-cancelled (load_zones readers files zones) p.world ∙ n)
    go_on-Stage p₀ (signal now user1) p l i (handles h n) = handles h n
    go_on-Stage p₀ (signal now stop) p l i (handles h n) = stops (record {
      before = p;
      earlier = l;
      going_on = h;
      now = now;
      later = born;
      stopped = refl;
      cancelled = refl;
      summary = refl;
    })

    Life-Stage :
        (server : DnsServer Name Addr) {p : Process Name Addr}
        → Life c readers zones (begin server) p
        → Stage (begin server) p
    unfolding begin start
    Life-Stage server born = handles refl refl
    Life-Stage server (lives {p} l h i) = go_on-Stage (begin server) h p l i (Life-Stage server l)

    -- Whatever happens, `run` returns without an error only after a signal has stopped
    -- handle_signals, whose last lines are then a summary of the counters that the server had when
    -- that signal was handled, and with an error only because an address could not be bound: no
    -- datagram and no connection, no error of `recv_from` or `accept`, and no reload ends it.
    pub Life-Ends :
        (server : DnsServer Name Addr) {p : Process Name Addr}
        → Life c readers zones (begin server) p
        → Ends (begin server) p p.world.outcome
    Life-Ends server {p} l =
        Ends-of_Justifies (begin server) p p.world.outcome (Life-Stage server l)
          (Run-Justifies c server (Life-IsRun c readers zones server (λ path. none) l).run)
