-- ===== src/Server/Run/Tasks.antt =====
-- The UDP tasks: each datagram that is received is handled once, and what is sent answers it.
use mathlib.Core.List.{Perm, perm_middle, append_assoc, append-nil}
use mathlib.Core.List.Perm
use mathlib.Core.Path.{subst}
use lrmdns.Prelude.{
  Option, ℕ, ◌≡◌, refl, Bool, none, some, List, [], ◌∷◌, ◌++◌, map, All, take, Option-cases, inl,
  inr,
}
use lrmdns.Prelude.Result.{Result, ok, err}
use lrmdns.HashMap.{Key}
use lrmdns.Dns.Name.{DnsApi}
use lrmdns.Dns.Rr.{Bytes}
use lrmdns.Zone.Store.{ZoneStore}
use lrmdns.Server.{Codec, ServerError, Shared}
use lrmdns.Server.Udp.{UdpEnv, handle_udp_query}
use lrmdns.Server.Udp.Paths.{RepliesTo, reply_id, handle_udp_query-RepliesTo}
use lrmdns.Server.Tcp.{Conn, Frame, Round, Turn, again, done}
use lrmdns.Server.State.{DnsServer, UdpTask, TcpTask, World, Event, start, pick, max_udp_recv_size}
use lrmdns.Server.Run.Pick.{pick-Perm}
use lrmdns.Server.Run.{
  Run, here, next, perform, run_udp_task, run_conn, after_turn, udp_received, tcp_accepted,
}

module _ {ℓ} {A : Type ℓ} where
  -- one more element at the end
  snoc-Perm : (l f ws : List A) (t : A) → Perm l (f ++ ws) → Perm (t ∷ l) (f ++ (ws ++ t ∷ []))
  snoc-Perm l f ws t p = subst (Perm (t ∷ l)) (append_assoc f ws (t ∷ [])) (
      Perm.trans (Perm.cons t p) (
        Perm.symm (
          subst (λ r. Perm ((f ++ ws) ++ t ∷ []) (t ∷ r)) (append-nil (f ++ ws))
            (perm_middle (f ++ ws) []))))

  -- one element from the second part to the first
  move-Perm :
      (l f ws rest : List A) (t : A)
      → Perm l (f ++ ws)
      → Perm ws (t ∷ rest)
      → Perm l (t ∷ (f ++ rest))
  move-Perm l f ws rest t p q =
      Perm.trans p (Perm.trans (Perm.append_left f q) (perm_middle f rest))

module _ {Name Addr : Type 0} where
  -- The UDP tasks that events spawn: a datagram, cut to the buffer, and its sender.
  abbrev pub received : List (Event Name Addr) → List (UdpTask Addr)
  received [] = []
  received (Event.datagram (some (bytes, addr)) ∷ es) =
      record { bytes = take max_udp_recv_size bytes; addr = addr } ∷ received es
  received (_ ∷ es) = received es

  -- the tasks that are finished, in any order, and those that wait
  abbrev pub all_tasks : World Name Addr → List (UdpTask Addr)
  all_tasks w = map (λ f. f.0) w.finished ++ w.udp_tasks

module _ {Name Addr : Type 0} ⦃api : DnsApi Name⦄ ⦃k : Key Addr⦄ (c : Codec Name) where
  -- A datagram that is sent for the task encodes a response with the id of the query, or with
  -- that in the first two bytes of the datagram.
  abbrev pub IsAnswered : UdpTask Addr × Result ServerError Bytes → Type 0
  IsAnswered (task, err e) = Unit
  IsAnswered (task, ok buf) =
      (admitted : Bool) × RepliesTo c (reply_id admitted task.bytes (c.from_bytes task.bytes)) buf

  handled-IsAnswered :
      (env : UdpEnv) (zones : ZoneStore Name) (task : UdpTask Addr) (s : Shared Addr)
      (result : Result ServerError Bytes)
      → (handle_udp_query c env zones task.addr task.bytes s).1 ≡ result
      → IsAnswered (task, result)
  handled-IsAnswered env zones task s (err e) h = tt
  handled-IsAnswered env zones task s (ok buf) h =
      (_, handle_udp_query-RepliesTo c env zones task.addr task.bytes s h)

  abbrev pub IsHandling : List (Event Name Addr) → World Name Addr → Type 0
  IsHandling es w = Perm (received es) (all_tasks w) × All IsAnswered w.finished

  run_udp_task-IsHandling :
      (es : List (Event Name Addr)) (env : UdpEnv) (n : ℕ) (w : World Name Addr)
      → IsHandling es w
      → IsHandling es (run_udp_task c env (pick n w.udp_tasks) w)
  run_udp_task-IsHandling es env n w h = elim (Option-cases (pick n w.udp_tasks)) [
    | inl e ↦ rw e h
    | inr ((task, rest), e) ↦ rw e (
        (
          move-Perm (received es) (map (λ f. f.0) w.finished) w.udp_tasks rest task h.0
              (pick-Perm n w.udp_tasks e),
          (handled-IsAnswered env w.zones task w.shared _ refl, h.1),
        ))
  ]

  after_turn-IsHandling :
      (es : List (Event Name Addr)) (addr : Addr) (rest : List (TcpTask Addr)) (t : Turn Addr)
      (w : World Name Addr)
      → IsHandling es w
      → IsHandling es (after_turn c addr rest t w)
  after_turn-IsHandling es addr rest (again conn) w h = h
  after_turn-IsHandling es addr rest (Turn.waiting conn) w h = h
  after_turn-IsHandling es addr rest (done conn r) w h = h

  run_conn-IsHandling :
      (es : List (Event Name Addr)) (env : Round Name) (frame : Frame) (addr : Addr)
      (rest : List (TcpTask Addr)) (started : Option (Conn Addr)) (w : World Name Addr)
      → IsHandling es w
      → IsHandling es (run_conn c env frame addr rest started w)
  run_conn-IsHandling es env frame addr rest none w h = h
  run_conn-IsHandling es env frame addr rest (some conn) w h =
      after_turn-IsHandling es addr rest _ w h

  perform-IsHandling :
      (es : List (Event Name Addr)) (e : Event Name Addr) (w : World Name Addr)
      → IsHandling es w
      → IsHandling (e ∷ es) (perform c e w)
  unfolding perform udp_received tcp_accepted
  perform-IsHandling es (Event.udp_bound b) w h = h
  perform-IsHandling es (Event.tcp_bound b) w h = h
  perform-IsHandling es (Event.datagram none) w h = h
  perform-IsHandling es (Event.datagram (some (bytes, addr))) w h =
      (snoc-Perm (received es) (map (λ f. f.0) w.finished) w.udp_tasks _ h.0, h.1)
  perform-IsHandling es (Event.connection none) w h = h
  perform-IsHandling es (Event.connection (some addr)) w h = h
  perform-IsHandling es Event.udp_cancelled w h = h
  perform-IsHandling es Event.tcp_cancelled w h = h
  perform-IsHandling es Event.udp_joined w h = h
  perform-IsHandling es Event.tcp_joined w h = h
  perform-IsHandling es Event.run_cancelled w h = h
  perform-IsHandling es (Event.udp_task n env) w h = run_udp_task-IsHandling es env n w h
  perform-IsHandling es (Event.tcp_start n) w h = elim (Option-cases (pick n w.tcp_tasks)) [
    | inl e ↦ rw e h
    | inr (t, e) ↦ rw e h
  ]
  perform-IsHandling es (Event.tcp_task n env frame) w h =
      elim (Option-cases (pick n w.tcp_tasks)) [
        | inl e ↦ rw e h
        | inr ((task, rest), e) ↦
            rw e (run_conn-IsHandling es env frame task.addr rest task.started w h)
      ]
  perform-IsHandling es (Event.reloaded zones) w h = h
  perform-IsHandling es Event.cancel w h = h

  -- In every world that a new server can reach, whatever the order of its events, the tasks that are
  -- finished and those that wait are together the datagrams received, each as often as it came,
  -- cut to 4096 bytes; and what a finished task sent encodes a response with the id of its query, or
  -- that in its first two bytes.
  pub Run-IsHandling :
      (server : DnsServer Name Addr) {es : List (Event Name Addr)} {w : World Name Addr}
      → Run c (start server) es w
      → IsHandling es w
  unfolding start
  Run-IsHandling server here = (Perm.nil, tt)
  Run-IsHandling server (next {es} {w} r e i) = perform-IsHandling es e w (Run-IsHandling server r)
