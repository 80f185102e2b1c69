-- ===== src/RateLimit/Cleanup.antt =====
-- What a removal of old entries leaves to see: the queries that are still in a window.
use lrmdns.Prelude.{ℕ, ◌≤◌, ◌≡◌, refl, Option, none, List, [], ◌∷◌, arith, retain, option_or}
use lrmdns.HashMap.{Key, Map, get}
use lrmdns.HashMap.Laws.{get-cong}
use lrmdns.HashMap.Distinct.{Distinct}
use lrmdns.RateLimit.{ClientState, fresh, no_queries, cleanup_clients}

-- Removing what is old now removes nothing that a later window holds.
pub retain-retain :
    (window now later : ℕ) (qs : List ℕ)
    → now ≤ later
    → retain (fresh window later) (retain (fresh window now) qs) ≡ retain (fresh window later) qs
retain-retain window now later [] h = refl
retain-retain window now later (q ∷ qs) h = ground (arith, retain-retain window now later qs h)

-- The queries of a client's entry that are in the window which ends at a time.
abbrev pub entry_recent : ℕ → ℕ → Option ClientState → List ℕ
entry_recent window now c = retain (fresh window now) (option_or c no_queries).queries

module _ {Addr : Type 0} ⦃k : Key Addr⦄ where
  get-cleanup_none :
      (window now : ℕ) (a : Addr) (m : Map Addr ClientState)
      → get a m ≡ none
      → get a (cleanup_clients window now m) ≡ none
  unfolding get cleanup_clients
  get-cleanup_none window now a [] h = refl
  get-cleanup_none window now a ((b, c) ∷ m) h = ground (arith, get-cleanup_none window now a m)

  pub cleanup-Distinct :
      (window now : ℕ) (m : Map Addr ClientState)
      → Distinct m
      → Distinct (cleanup_clients window now m)
  unfolding cleanup_clients
  cleanup-Distinct window now [] h = tt
  cleanup-Distinct window now ((b, c) ∷ m) h =
      ground (arith, cleanup-Distinct window now m h.1, get-cleanup_none window now b m)

  -- `cleanup` changes no later window of any client.
  pub recent-cleanup_clients :
      (window now later : ℕ) (a : Addr) (m : Map Addr ClientState)
      → now ≤ later
      → Distinct m
      → entry_recent window later (get a (cleanup_clients window now m))
        ≡ entry_recent window later (get a m)
  unfolding get cleanup_clients
  recent-cleanup_clients window now later a [] h d = refl
  recent-cleanup_clients window now later a ((b, c) ∷ m) h d = ground (
    arith,
    recent-cleanup_clients window now later a m h d.1,
    retain-retain window now later c.queries h,
    get-cong b a m,
    get-cleanup_none window now a m,
  )
