-- ===== src/Main/Lifetime.antt =====
-- src/main.rs: the process after its start, where the server and handle_signals take turns in any
-- order. The store of a reload is written in one step with the reading of the files, and it is
-- handle_signals alone that writes the zones and cancels the token.
pub mod Sources
pub mod Exit
use mathlib.Core.List.{Memᴰ}
use lrmdns.Prelude.{ℕ, ◌≡◌, refl, All-imp, Bool, true, false, List, [], ◌∷◌, All, inl, inr}
use lrmdns.Prelude.Result.{ok, err, Result, Result-cases}
use lrmdns.HashMap.{Key}
use lrmdns.Dns.Name.{DnsApi}
use lrmdns.Config.{ZoneConfig}
use lrmdns.Zone.Store.{ZoneStore}
use lrmdns.Zone.File.Rdata.{Readers, ParseError}
use lrmdns.Server.{Codec}
use lrmdns.Server.State.{DnsServer, World, Event, start}
use lrmdns.Server.Run.{Run, here, next, perform, IsEnabled}
use lrmdns.Server.Run.Sources.{Reloads}
use lrmdns.Main.Loading.{IsReadIn, IsReadIn-more}
use lrmdns.Main.{Files, Signal, hangup, user1, stop, Process, load_zones, reload, handle_signal}

-- An event of the server, or a signal with the time when it is handled.
pub data Happening (Name Addr : Type 0) : Type 0 where
  turn : Event Name Addr → Happening Name Addr
  signal : ℕ → Signal → Happening Name Addr

-- an event of the server itself
abbrev pub is_own : {Name Addr : Type 0} → Event Name Addr → Bool
is_own (Event.reloaded zones) = false
is_own Event.cancel = false
is_own _ = true

-- the process as the server starts
unfoldable pub begin : {Name Addr : Type 0} → DnsServer Name Addr → Process Name Addr
begin server = record { world = start server; handling = true; logged = [] }

module _ {Name Addr : Type 0} ⦃api : DnsApi Name⦄ ⦃k : Key Addr⦄ (c : Codec Name)
    (readers : Readers Name) (zones : List ZoneConfig) where
  unfoldable pub go_on : Happening Name Addr → Process Name Addr → Process Name Addr
  go_on (turn e) p = record p { world = perform c e p.world }
  go_on (signal now s) p = handle_signal readers zones now s p

  abbrev pub CanHappen : Happening Name Addr → Process Name Addr → Type 0
  CanHappen (turn e) p = (is_own e ≡ true) × IsEnabled c e p.world
  CanHappen (signal now s) p = p.handling ≡ true

  -- The processes that come of a first one.
  pub data Life (p₀ : Process Name Addr) : Process Name Addr → Type 0 where
    born : Life p₀ p₀
    lives :
        {p : Process Name Addr}
        → Life p₀ p
        → (h : Happening Name Addr) → CanHappen h p
        → Life p₀ (go_on h p)

  -- What the files held each time when the process read its zones: at the start, when they held
  -- `first`, and at each SIGHUP.
  abbrev pub reads : {p₀ p : Process Name Addr} → Files → Life p₀ p → List Files
  reads first born = first ∷ []
  reads first (lives l (signal now (hangup files)) i) = files ∷ reads first l
  reads first (lives l _ i) = reads first l

  -- the start is one of those times
  pub first-read :
      {p₀ p : Process Name Addr} (first : Files) (l : Life p₀ p) → Memᴰ first (reads first l)
  first-read first born = Memᴰ.head refl
  first-read first (lives l (turn e) i) = first-read first l
  first-read first (lives l (signal now (hangup files)) i) = Memᴰ.tail (first-read first l)
  first-read first (lives l (signal now user1) i) = first-read first l
  first-read first (lives l (signal now stop) i) = first-read first l

  -- The server runs, and each reload stores zones that were read at one of the times.
  pub record IsRun (times : List Files) (server : DnsServer Name Addr) (w : World Name Addr)
      : Type 0 where
    pub events : List (Event Name Addr)
    pub run : Run c (start server) events w
    pub reloads : All (Reloads c (IsReadIn readers zones times)) events

  own-Reloads :
      (times : List Files) (e : Event Name Addr)
      → is_own e ≡ true
      → Reloads c (IsReadIn readers zones times) e
  own-Reloads times (Event.reloaded zones) h = cc
  own-Reloads times (Event.udp_bound b) h = tt
  own-Reloads times (Event.tcp_bound b) h = tt
  own-Reloads times (Event.datagram r) h = tt
  own-Reloads times (Event.connection r) h = tt
  own-Reloads times Event.udp_cancelled h = tt
  own-Reloads times Event.tcp_cancelled h = tt
  own-Reloads times Event.udp_joined h = tt
  own-Reloads times Event.tcp_joined h = tt
  own-Reloads times Event.run_cancelled h = tt
  own-Reloads times (Event.udp_task n env) h = tt
  own-Reloads times (Event.tcp_start n) h = tt
  own-Reloads times (Event.tcp_task n env frame) h = tt
  own-Reloads times Event.cancel h = tt

  Reloads-more :
      (files : Files) (times : List Files) (e : Event Name Addr)
      → Reloads c (IsReadIn readers zones times) e
      → Reloads c (IsReadIn readers zones (files ∷ times)) e
  Reloads-more files times (Event.reloaded s) h = IsReadIn-more readers zones files times s h
  Reloads-more files times (Event.udp_bound b) h = tt
  Reloads-more files times (Event.tcp_bound b) h = tt
  Reloads-more files times (Event.datagram r) h = tt
  Reloads-more files times (Event.connection r) h = tt
  Reloads-more files times Event.udp_cancelled h = tt
  Reloads-more files times Event.tcp_cancelled h = tt
  Reloads-more files times Event.udp_joined h = tt
  Reloads-more files times Event.tcp_joined h = tt
  Reloads-more files times Event.run_cancelled h = tt
  Reloads-more files times (Event.udp_task n env) h = tt
  Reloads-more files times (Event.tcp_start n) h = tt
  Reloads-more files times (Event.tcp_task n env frame) h = tt
  Reloads-more files times Event.cancel h = tt

  module _ (server : DnsServer Name Addr) where
    next-IsRun :
        {times : List Files} {w : World Name Addr}
        → IsRun times server w
        → (e : Event Name Addr) → IsEnabled c e w
        → Reloads c (IsReadIn readers zones times) e
        → IsRun times server (perform c e w)
    next-IsRun r e i l = record {
      events = e ∷ r.events;
      run = next r.run e i;
      reloads = (l, r.reloads);
    }

    more-IsRun :
        (files : Files) (times : List Files) (w : World Name Addr)
        → IsRun times server w
        → IsRun (files ∷ times) server w
    more-IsRun files times w r = record {
      events = r.events;
      run = r.run;
      reloads = All-imp _ _ r.events (Reloads-more files times) r.reloads;
    }

    reload-IsRun :
        (files : Files) (times : List Files) (w : World Name Addr)
        → IsRun times server w
        → IsRun (files ∷ times) server (reload readers (load_zones readers files zones) w)
    unfolding perform
    reload-IsRun files times w r =
        let more = more-IsRun files times w r in
        elim (Result-cases (load_zones readers files zones)) [
          | inl (s, e) ↦ rw e (next-IsRun more (Event.reloaded s) tt (files, Memᴰ.head refl, e))
          | inr (x, e) ↦ rw e more
        ]

    -- Whatever happens, the server of a process runs as a server by itself does, and each reload
    -- stores zones that were read at the start or at a SIGHUP.
    pub Life-IsRun :
        (first : Files) {p : Process Name Addr} (l : Life (begin server) p)
        → IsRun (reads first l) server p.world
    unfolding begin go_on handle_signal perform
    Life-IsRun first born = record { events = []; run = here; reloads = tt }
    Life-IsRun first (lives l (turn e) i) =
        next-IsRun (Life-IsRun first l) e i.1 (own-Reloads (reads first l) e i.0)
    Life-IsRun first (lives {p} l (signal now (hangup files)) i) =
        reload-IsRun files (reads first l) p.world (Life-IsRun first l)
    Life-IsRun first (lives l (signal now user1) i) = Life-IsRun first l
    Life-IsRun first (lives l (signal now stop) i) =
        next-IsRun (Life-IsRun first l) Event.cancel tt tt
