-- ===== src/RateLimit.antt =====
-- src/ratelimit.rs: RateLimiter. The mutex makes each call of `check_rate_limit` one step. An
-- `Instant` is a number of nanoseconds, and the readings of the clock are arguments.
pub mod Spec
pub mod Cleanup
pub mod Refinement
pub mod Runs
use lrmdns.Prelude.{
  ℕ, ◌+◌, ◌-◌, ◌*◌, ◌^◌, Bool, true, false, List, [], ◌∷◌, ◌++◌, if◌then◌else◌, ltb, leb, length,
  retain, is_empty, option_or,
}
use lrmdns.HashMap.{Key, Map, get, modify}

-- Duration::from_secs(n)
abbrev pub from_secs : ℕ → ℕ
from_secs n = n * 10 ^ 9

pub record ClientState : Type 0 where
  pub queries : List ℕ

pub record RateLimiter (Addr : Type 0) : Type 0 where
  pub clients : Map Addr ClientState
  pub max_qps : ℕ
  pub window : ℕ
  pub last_cleanup : ℕ

-- RateLimiter::new, at a time
unfoldable pub new : {Addr : Type 0} → ℕ → ℕ → RateLimiter Addr
new max_qps now = record {
  clients = [];
  max_qps = max_qps;
  window = from_secs 1;
  last_cleanup = now;
}

-- `now.duration_since(timestamp) < window`: the duration is 0 for a timestamp after `now`
abbrev pub fresh : ℕ → ℕ → ℕ → Bool
fresh window now timestamp = ltb (now - timestamp) window

abbrev pub no_queries : ClientState
no_queries = record { queries = [] }

abbrev pub keep_fresh : ℕ → ℕ → ClientState → ClientState
keep_fresh window now c = record { queries = retain (fresh window now) c.queries }

-- `self.clients.retain(…)` in RateLimiterInner::cleanup
unfoldable pub cleanup_clients :
    {Addr : Type 0} → ℕ → ℕ → Map Addr ClientState → Map Addr ClientState
cleanup_clients window now [] = []
cleanup_clients window now ((a, c) ∷ m) =
    let rest = cleanup_clients window now m in
    let kept = keep_fresh window now c in if is_empty kept.queries then rest else (a, kept) ∷ rest

-- RateLimiterInner::cleanup
unfoldable pub cleanup : {Addr : Type 0} → ℕ → RateLimiter Addr → RateLimiter Addr
cleanup now r = record r { clients = cleanup_clients r.window now r.clients }

-- The four readings of the clock in one call, in their order.
pub record Readings : Type 0 where
  pub elapsed_at : ℕ
  pub cleanup_at : ℕ
  pub stamped_at : ℕ
  pub now : ℕ

-- the cleanup every 60 seconds
unfoldable pub maybe_cleanup : {Addr : Type 0} → Readings → RateLimiter Addr → RateLimiter Addr
maybe_cleanup t r =
    if ltb (from_secs 60) (t.elapsed_at - r.last_cleanup)
    then record (cleanup t.cleanup_at r) { last_cleanup = t.stamped_at }
    else r

-- `client.queries.len() >= max_qps`, after the old queries are removed
abbrev pub exceeded : ℕ → ℕ → ℕ → ClientState → Bool
exceeded max_qps window now c = leb max_qps (length (keep_fresh window now c).queries)

-- what the call leaves of the client's entry
abbrev pub touch : ℕ → ℕ → ℕ → ClientState → ClientState
touch max_qps window now c =
    if exceeded max_qps window now c
    then keep_fresh window now c
    else record { queries = (keep_fresh window now c).queries ++ now ∷ [] }

module _ {Addr : Type 0} ⦃k : Key Addr⦄ where
  abbrev pub client : Addr → RateLimiter Addr → ClientState
  client a r = option_or (get a r.clients) no_queries

  -- RateLimiter::check_rate_limit
  unfoldable pub check_rate_limit : Addr → Readings → RateLimiter Addr → RateLimiter Addr × Bool
  check_rate_limit a t r₀ =
      let r = maybe_cleanup t r₀ in
      (
        record r { clients = modify a no_queries (touch r.max_qps r.window t.now) r.clients },
        if exceeded r.max_qps r.window t.now (client a r) then false else true,
      )
