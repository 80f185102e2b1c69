-- ===== src/Server/Run/Limited.antt =====
-- The rate limit over the UDP and the TCP tasks together, in any order.
use mathlib.Core.List.{append-nil}
use mathlib.Core.Path.{subst}
use lrmdns.Prelude.{
  ℕ, ◌≡◌, refl, sym, ◌∙◌, Option, none, some, List, [], ◌∷◌, ◌++◌, Option-cases, inl, inr, arith,
}
use lrmdns.HashMap.{Key}
use lrmdns.Dns.Name.{DnsApi}
use lrmdns.RateLimit.{RateLimiter, Readings, check_rate_limit, from_secs}
use lrmdns.RateLimit
use lrmdns.RateLimit.Runs.{run, AllInOrder, IsBounded, end_of, run-IsBounded}
use lrmdns.Server.{Codec, check_limit}
use lrmdns.Server.Tcp.{Conn, Frame, Round, Turn, again, done, max_queries_of, tcp_loop}
use lrmdns.Server.State.{DnsServer, TcpTask, World, Event, start, pick}
use lrmdns.Server.Run.{
  Run, here, next, perform, resume, run_conn, after_turn, udp_received, tcp_accepted,
}
use lrmdns.Server.Run.Calls.{after_call, limiter_of, handle_udp_query-limiter, turn-limiter}
use lrmdns.Server.Run.Requests.{conn_call, call_of, served, passed_by, served-passed_by}

module _ {ℓ} {A : Type ℓ} where
  abbrev pub singleton_of : Option A → List A
  singleton_of none = []
  singleton_of (some a) = a ∷ []

module _ {Name Addr : Type 0} ⦃api : DnsApi Name⦄ ⦃k : Key Addr⦄ (c : Codec Name) where
  after_turn-limiter :
      (addr : Addr) (rest : List (TcpTask Addr)) (t : Turn Addr) (w : World Name Addr)
      → (after_turn c addr rest t w).shared.rate_limiter ≡ limiter_of t
  after_turn-limiter addr rest (again conn) w = refl
  after_turn-limiter addr rest (done conn r) w = refl
  after_turn-limiter addr rest (Turn.waiting conn) w = refl

  run_conn-limiter :
      (env : Round Name) (frame : Frame) (addr : Addr) (rest : List (TcpTask Addr))
      (started : Option (Conn Addr)) (w : World Name Addr)
      → (run_conn c env frame addr rest started w).shared.rate_limiter
        ≡ after_call (conn_call c w env frame addr started) w.shared.rate_limiter
  run_conn-limiter env frame addr rest none w = refl
  run_conn-limiter env frame addr rest (some conn) w =
      let now = record env { zones = w.zones } in
      let max_queries = max_queries_of c addr w.tcp_config in
      after_turn-limiter addr rest
        (tcp_loop c addr max_queries ((now, frame) ∷ []) (resume c w conn)) w
      ∙ turn-limiter c addr now max_queries frame (resume c w conn)

  perform-limiter :
      (e : Event Name Addr) (w : World Name Addr)
      → (perform c e w).shared.rate_limiter ≡ after_call (call_of c e w) w.shared.rate_limiter
  unfolding perform udp_received tcp_accepted
  perform-limiter (Event.udp_bound b) w = refl
  perform-limiter (Event.tcp_bound b) w = refl
  perform-limiter (Event.datagram none) w = refl
  perform-limiter (Event.datagram (some (bytes, addr))) w = refl
  perform-limiter (Event.connection none) w = refl
  perform-limiter (Event.connection (some addr)) w = refl
  perform-limiter Event.udp_cancelled w = refl
  perform-limiter Event.tcp_cancelled w = refl
  perform-limiter Event.udp_joined w = refl
  perform-limiter Event.tcp_joined w = refl
  perform-limiter Event.run_cancelled w = refl
  perform-limiter (Event.udp_task n env) w = elim (Option-cases (pick n w.udp_tasks)) [
    | inl e ↦ rw e refl
    | inr ((task, rest), e) ↦
        rw e (handle_udp_query-limiter c env w.zones task.addr task.bytes w.shared)
  ]
  perform-limiter (Event.tcp_start n) w = elim (Option-cases (pick n w.tcp_tasks)) [
    | inl e ↦ rw e refl
    | inr (t, e) ↦ rw e refl
  ]
  perform-limiter (Event.tcp_task n env frame) w = elim (Option-cases (pick n w.tcp_tasks)) [
    | inl e ↦ rw e refl
    | inr ((task, rest), e) ↦ rw e (run_conn-limiter env frame task.addr rest task.started w)
  ]
  perform-limiter (Event.reloaded zones) w = refl
  perform-limiter Event.cancel w = refl

  module _ {w₀ : World Name Addr} where
    -- The calls of the rate limiter in the order of the events.
    abbrev pub calls :
        {es : List (Event Name Addr)} {w : World Name Addr} → Run c w₀ es w → List (Addr × Readings)
    calls here = []
    calls (next {es} {w} r e i) = calls r ++ singleton_of (call_of c e w)

    -- The queries that were served, each with its client and its time.
    abbrev pub all_served :
        {es : List (Event Name Addr)} {w : World Name Addr} → Run c w₀ es w → List (Addr × ℕ)
    all_served here = []
    all_served (next {es} {w} r e i) = all_served r ++ served c e w

  run-append :
      (xs ys : List (Addr × Readings)) (state : RateLimiter Addr × List (Addr × ℕ))
      → run (xs ++ ys) state ≡ run ys (run xs state)
  unfolding run
  run-append [] ys state = refl
  run-append ((a, t) ∷ xs) ys (r, log) = run-append xs ys _

  -- The state of the limiter and the log of its contract, while the server runs.
  abbrev Follows : World Name Addr → List (Addr × ℕ) → RateLimiter Addr × List (Addr × ℕ) → Type 0
  Follows w log (l, log') = (w.shared.rate_limiter ≡ some l) × (log ≡ log')

  step-Follows :
      (call : Option (Addr × Readings)) (w : World Name Addr) (after : Option (RateLimiter Addr))
      (log : List (Addr × ℕ)) (state : RateLimiter Addr × List (Addr × ℕ))
      → Follows w log state
      → after ≡ after_call call w.shared.rate_limiter
      → (after ≡ some (run (singleton_of call) state).0)
        × (log ++ passed_by c call w ≡ (run (singleton_of call) state).1)
  unfolding run check_limit
  step-Follows none w after log (l, log') (e, same) h = (h ∙ e, append-nil log ∙ same)
  step-Follows (some (a, t)) w after log (l, log') (e, same) h =
      (h ∙ rw e refl, rw (e, same) (ground (arith, append-nil log')))

  Run-Follows :
      (server : DnsServer Name Addr) (l : RateLimiter Addr) {es : List (Event Name Addr)}
      {w : World Name Addr}
      → server.rate_limiter ≡ some l
      → (r : Run c (start server) es w) → Follows w (all_served r) (run (calls r) (l, []))
  unfolding start run
  Run-Follows server l h here = (h, refl)
  Run-Follows server l h (next {es} {w} r e i) =
      let state = run (calls r) (l, []) in
      rw (served-passed_by c e w) (
        subst (Follows (perform c e w) (all_served r ++ passed_by c (call_of c e w) w))
          (sym (run-append (calls r) (singleton_of (call_of c e w)) (l, [])))
          (step-Follows (call_of c e w) w (perform c e w).shared.rate_limiter (all_served r) state
            (Run-Follows server l h r) (perform-limiter e w)))

  -- With a rate limit of `max_qps`, in whatever order the UDP and TCP tasks go on, and whether the
  -- queries come by UDP or TCP: as long as the clock does not go back, no second that ends at the last
  -- query or later holds more than `max_qps` queries of one client that the handlers served, which
  -- are the datagrams that they counted as a query or an error and the messages of connections that
  -- they counted as a query.
  pub Run-IsBounded :
      (server : DnsServer Name Addr) (max_qps now : ℕ) {es : List (Event Name Addr)}
      {w : World Name Addr}
      → server.rate_limiter ≡ some (RateLimit.new max_qps now)
      → (r : Run c (start server) es w) → AllInOrder now (calls r)
      → IsBounded max_qps (from_secs 1) (all_served r) (end_of now (calls r))
  Run-IsBounded server max_qps now h r o =
      subst (λ log. IsBounded max_qps (from_secs 1) log (end_of now (calls r)))
        (sym (Run-Follows server (RateLimit.new max_qps now) h r).1)
        (run-IsBounded max_qps now (calls r) o)
