-- ===== src/Server/Run/Shutdown.antt =====
-- When `run` returns.
use lrmdns.Prelude.{◌≡◌, refl, Bool, true, false, Option, none, some, List, Option-cases, inl, inr}
use lrmdns.Prelude.Result.{Result, ok, err}
use lrmdns.HashMap.{Key}
use lrmdns.Dns.Name.{DnsApi}
use lrmdns.Server.{Codec, ServerError, bind}
use lrmdns.Server.Tcp.{Conn, Frame, Round, Turn, again, done}
use lrmdns.Server.State.{DnsServer, TcpTask, World, Event, Future, start, pick, bound, result_of}
use lrmdns.Server.Run.{
  Run, here, next, perform, IsEnabled, run_conn, after_turn, udp_received, tcp_accepted,
}

-- A return without an error needs the token, and an error an address that could not be bound.
abbrev pub IsJustified : Bool → Result ServerError (Unit {0}) → Type 0
IsJustified cancelled (ok _) = cancelled ≡ true
IsJustified cancelled (err e) = e ≡ bind

abbrev pub Justifies : Bool → Option (Result ServerError (Unit {0})) → Type 0
Justifies cancelled none = Unit
Justifies cancelled (some r) = IsJustified cancelled r

abbrev JustifiesFuture : Bool → Future → Type 0
JustifiesFuture cancelled (Future.returned r) = IsJustified cancelled r
JustifiesFuture cancelled _ = Unit

bound-Justifies : (cancelled b : Bool) → JustifiesFuture cancelled (bound b)
bound-Justifies cancelled true = tt
bound-Justifies cancelled false = refl

result_of-Justifies :
    (cancelled : Bool) (f : Future)
    → JustifiesFuture cancelled f
    → Justifies cancelled (result_of f)
result_of-Justifies cancelled Future.unbound h = tt
result_of-Justifies cancelled Future.listening h = tt
result_of-Justifies cancelled (Future.returned r) h = h

IsJustified-cancel :
    (b : Bool) (r : Result ServerError (Unit {0})) → IsJustified b r → IsJustified true r
IsJustified-cancel b (ok _) h = refl
IsJustified-cancel b (err e) h = h

Justifies-cancel :
    (b : Bool) (r : Option (Result ServerError (Unit {0}))) → Justifies b r → Justifies true r
Justifies-cancel b none h = tt
Justifies-cancel b (some r) h = IsJustified-cancel b r h

JustifiesFuture-cancel : (b : Bool) (f : Future) → JustifiesFuture b f → JustifiesFuture true f
JustifiesFuture-cancel b Future.unbound h = tt
JustifiesFuture-cancel b Future.listening h = tt
JustifiesFuture-cancel b (Future.returned r) h = IsJustified-cancel b r h

module _ {Name Addr : Type 0} ⦃api : DnsApi Name⦄ ⦃k : Key Addr⦄ (c : Codec Name) where
  abbrev IsSound : World Name Addr → Type 0
  IsSound w =
      JustifiesFuture w.cancelled w.udp
      × JustifiesFuture w.cancelled w.tcp
      × Justifies w.cancelled w.outcome

  after_turn-IsSound :
      (addr : Addr) (rest : List (TcpTask Addr)) (t : Turn Addr) (w : World Name Addr)
      → IsSound w
      → IsSound (after_turn c addr rest t w)
  after_turn-IsSound addr rest (again conn) w h = h
  after_turn-IsSound addr rest (Turn.waiting conn) w h = h
  after_turn-IsSound addr rest (done conn r) w h = h

  run_conn-IsSound :
      (env : Round Name) (frame : Frame) (addr : Addr) (rest : List (TcpTask Addr))
      (started : Option (Conn Addr)) (w : World Name Addr)
      → IsSound w
      → IsSound (run_conn c env frame addr rest started w)
  run_conn-IsSound env frame addr rest none w h = h
  run_conn-IsSound env frame addr rest (some conn) w h = after_turn-IsSound addr rest _ w h

  perform-IsSound :
      (e : Event Name Addr) (w : World Name Addr)
      → IsEnabled c e w
      → IsSound w
      → IsSound (perform c e w)
  unfolding perform udp_received tcp_accepted
  perform-IsSound (Event.udp_bound b) w i h = (bound-Justifies w.cancelled b, h.1, h.2)
  perform-IsSound (Event.tcp_bound b) w i h = (h.0, bound-Justifies w.cancelled b, h.2)
  perform-IsSound (Event.datagram none) w i h = h
  perform-IsSound (Event.datagram (some (bytes, addr))) w i h = h
  perform-IsSound (Event.connection none) w i h = h
  perform-IsSound (Event.connection (some addr)) w i h = h
  perform-IsSound Event.udp_cancelled w i h = (i.2, h.1, h.2)
  perform-IsSound Event.tcp_cancelled w i h = (h.0, i.2, h.2)
  perform-IsSound Event.udp_joined w i h = (h.0, h.1, result_of-Justifies w.cancelled w.udp h.0)
  perform-IsSound Event.tcp_joined w i h = (h.0, h.1, result_of-Justifies w.cancelled w.tcp h.1)
  perform-IsSound Event.run_cancelled w i h = (h.0, h.1, i.1)
  perform-IsSound (Event.udp_task n env) w i h = elim (Option-cases (pick n w.udp_tasks)) [
    | inl e ↦ rw e h
    | inr (t, e) ↦ rw e h
  ]
  perform-IsSound (Event.tcp_start n) w i h = elim (Option-cases (pick n w.tcp_tasks)) [
    | inl e ↦ rw e h
    | inr (t, e) ↦ rw e h
  ]
  perform-IsSound (Event.tcp_task n env frame) w i h = elim (Option-cases (pick n w.tcp_tasks)) [
    | inl e ↦ rw e h
    | inr ((task, rest), e) ↦ rw e (run_conn-IsSound env frame task.addr rest task.started w h)
  ]
  perform-IsSound (Event.reloaded zones) w i h = h
  perform-IsSound Event.cancel w i h = (
    JustifiesFuture-cancel w.cancelled w.udp h.0,
    JustifiesFuture-cancel w.cancelled w.tcp h.1,
    Justifies-cancel w.cancelled w.outcome h.2,
  )

  Run-IsSound :
      (server : DnsServer Name Addr) {es : List (Event Name Addr)} {w : World Name Addr}
      → Run c (start server) es w
      → IsSound w
  unfolding start
  Run-IsSound server here = (tt, tt, tt)
  Run-IsSound server (next {es} {w} r e i) = perform-IsSound e w i (Run-IsSound server r)

  -- Whatever the order of events, `run` of a new server returns without an error only once the token
  -- is cancelled, and with an error only because an address could not be bound: no datagram and no
  -- connection, and no error of `recv_from` or `accept`, ends it.
  pub Run-Justifies :
      (server : DnsServer Name Addr) {es : List (Event Name Addr)} {w : World Name Addr}
      → Run c (start server) es w
      → Justifies w.cancelled w.outcome
  Run-Justifies server r = (Run-IsSound server r).2
