-- ===== src/Server/Run/Requests.antt =====
-- What an event asks of the rate limiter, and what it serves: the handlers serve exactly what the
-- limiter admits.
use lrmdns.Prelude.{
  ℕ, ◌≡◌, refl, ap, ◌∙◌, Option, none, some, List, [], ◌∷◌, if◌then◌else◌, Option-cases, inl, inr,
}
use lrmdns.HashMap.{Key}
use lrmdns.Dns.Name.{DnsApi}
use lrmdns.RateLimit.{Readings}
use lrmdns.Server.{Codec, Shared, check_limit}
use lrmdns.Server.Tcp.{Conn, Frame, Round, Turn, again, done, max_queries_of, tcp_loop}
use lrmdns.Server.State.{UdpTask, TcpTask, World, Event, pick}
use lrmdns.Server.Run.{perform, resume, run_conn, after_turn}
use lrmdns.Metrics.{Metrics}
use lrmdns.Server.Tcp.Closing.{end_conn}
use lrmdns.Server.Run.Served.{
  eq_self, has_query, is_served, admits, turn_call-cases, handle_udp_query-is_served,
  turn-has_query,
}
use lrmdns.Server.Run.Calls.{turn_call}

module _ {Name Addr : Type 0} ⦃api : DnsApi Name⦄ ⦃k : Key Addr⦄ (c : Codec Name) where
  abbrev pub conn_call :
      World Name Addr → Round Name → Frame → Addr → Option (Conn Addr) → Option (Addr × Readings)
  conn_call w env frame addr none = none
  conn_call w env frame addr (some conn) =
      turn_call c addr (record env { zones = w.zones }) (max_queries_of c addr w.tcp_config) frame
        (resume c w conn)

  abbrev pub tcp_call :
      World Name Addr
      → Round Name
      → Frame
      → Option (TcpTask Addr × List (TcpTask Addr))
      → Option (Addr × Readings)
  tcp_call w env frame none = none
  tcp_call w env frame (some (task, rest)) = conn_call w env frame task.addr task.started

  abbrev pub udp_call :
      Readings → Option (UdpTask Addr × List (UdpTask Addr)) → Option (Addr × Readings)
  udp_call t none = none
  udp_call t (some (task, rest)) = some (task.addr, t)

  -- The call of the rate limiter that an event makes, if it makes one.
  abbrev pub call_of : Event Name Addr → World Name Addr → Option (Addr × Readings)
  call_of (Event.udp_task n env) w = udp_call env.readings (pick n w.udp_tasks)
  call_of (Event.tcp_task n env frame) w = tcp_call w env frame (pick n w.tcp_tasks)
  call_of _ w = none

  abbrev pub served_udp :
      Metrics → Metrics → Readings → Option (UdpTask Addr × List (UdpTask Addr)) → List (Addr × ℕ)
  served_udp before after t none = []
  served_udp before after t (some (task, rest)) =
      if is_served before after then (task.addr, t.now) ∷ [] else []

  abbrev pub served_tcp :
      Metrics → Metrics → Readings → Option (TcpTask Addr × List (TcpTask Addr)) → List (Addr × ℕ)
  served_tcp before after t none = []
  served_tcp before after t (some (task, rest)) =
      if has_query before after then (task.addr, t.now) ∷ [] else []

  -- What an event serves, as the counters before and after it tell: a datagram that counts as a query
  -- or as an error, or a message of a connection that counts as a query; with the client, and the
  -- time at which the rate limiter read the clock.
  abbrev pub served : Event Name Addr → World Name Addr → List (Addr × ℕ)
  served (Event.udp_task n env) w =
      served_udp w.shared.metrics (perform c (Event.udp_task n env) w).shared.metrics env.readings
        (pick n w.udp_tasks)
  served (Event.tcp_task n env frame) w =
      served_tcp w.shared.metrics (perform c (Event.tcp_task n env frame) w).shared.metrics
        env.readings (pick n w.tcp_tasks)
  served _ w = []

  abbrev pub passed_by : Option (Addr × Readings) → World Name Addr → List (Addr × ℕ)
  passed_by none w = []
  passed_by (some (a, t)) w = if (check_limit a t w.shared).1 then (a, t.now) ∷ [] else []

  after_turn-metrics :
      (addr : Addr) (rest : List (TcpTask Addr)) (t : Turn Addr) (w : World Name Addr)
      → (after_turn c addr rest t w).shared ≡ (end_conn t).shared
  after_turn-metrics addr rest (again conn) w = refl
  after_turn-metrics addr rest (done conn r) w = refl
  after_turn-metrics addr rest (Turn.waiting conn) w = refl

  -- the call of a connection's turn has the task's client and the event's readings
  served_call :
      (env : Round Name) (frame : Frame) (addr : Addr) (max_queries : ℕ) (w : World Name Addr)
      (conn : Conn Addr)
      → (if admits c addr env (turn_call c addr env max_queries frame conn) w.shared
          then (addr, env.readings.now) ∷ []
          else [])
        ≡ passed_by (turn_call c addr env max_queries frame conn) w
  served_call env frame addr max_queries w conn =
      elim (turn_call-cases c addr env max_queries frame conn) [
        | inl e ↦ rw e refl
        | inr e ↦ rw e refl
      ]

  served_conn :
      (env : Round Name) (frame : Frame) (addr : Addr) (rest : List (TcpTask Addr))
      (started : Option (Conn Addr)) (w : World Name Addr)
      → (if has_query w.shared.metrics (run_conn c env frame addr rest started w).shared.metrics
          then (addr, env.readings.now) ∷ []
          else [])
        ≡ passed_by (conn_call w env frame addr started) w
  served_conn env frame addr rest none w = rw (eq_self w.shared.metrics.total_queries) refl
  served_conn env frame addr rest (some conn) w =
      let now = record env { zones = w.zones } in
      let max_queries = max_queries_of c addr w.tcp_config in
      let turn = tcp_loop c addr max_queries ((now, frame) ∷ []) (resume c w conn) in
      let moved =
        ap (λ (s : Shared Addr). has_query w.shared.metrics s.metrics)
          (after_turn-metrics addr rest turn w)
        ∙ turn-has_query c addr now max_queries frame (resume c w conn) in
      rw moved (served_call now frame addr max_queries w (resume c w conn))

  pub served-passed_by :
      (e : Event Name Addr) (w : World Name Addr) → served e w ≡ passed_by (call_of e w) w
  unfolding perform
  served-passed_by (Event.udp_task n env) w = elim (Option-cases (pick n w.udp_tasks)) [
    | inl e ↦ rw e refl
    | inr ((task, rest), e) ↦
        rw (e, handle_udp_query-is_served c env w.zones task.addr task.bytes w.shared) refl
  ]
  served-passed_by (Event.tcp_task n env frame) w = elim (Option-cases (pick n w.tcp_tasks)) [
    | inl e ↦ rw e refl
    | inr ((task, rest), e) ↦ rw e (served_conn env frame task.addr rest task.started w)
  ]
  served-passed_by (Event.udp_bound b) w = refl
  served-passed_by (Event.tcp_bound b) w = refl
  served-passed_by (Event.datagram r) w = refl
  served-passed_by (Event.connection r) w = refl
  served-passed_by Event.udp_cancelled w = refl
  served-passed_by Event.tcp_cancelled w = refl
  served-passed_by Event.udp_joined w = refl
  served-passed_by Event.tcp_joined w = refl
  served-passed_by Event.run_cancelled w = refl
  served-passed_by (Event.tcp_start n) w = refl
  served-passed_by (Event.reloaded zones) w = refl
  served-passed_by Event.cancel w = refl
