-- ===== src/RateLimit/Refinement.antt =====
-- `check_rate_limit` is a sliding window over the queries that were admitted.
use lrmdns.Prelude.{
  ℕ, ◌≤◌, ◌≡◌, refl, true, false, List, [], ◌∷◌, ◌++◌, arith, if◌then◌else◌, ltb, retain,
  Bool-cases, inl, inr, retain-append, ◌∙◌, ◌-◌,
}
use mathlib.Core.List.{append-nil}
use lrmdns.HashMap.{Key, get, modify}
use lrmdns.HashMap.Laws.{get-modify}
use lrmdns.HashMap.Distinct.{Distinct, modify-Distinct}
use lrmdns.RateLimit.{
  ClientState, RateLimiter, Readings, fresh, no_queries, exceeded, touch, cleanup_clients, cleanup,
  maybe_cleanup, client, check_rate_limit, new, from_secs,
}
use lrmdns.RateLimit.Cleanup.{entry_recent, retain-retain, cleanup-Distinct, recent-cleanup_clients}
use lrmdns.RateLimit.Spec.{in_window, admits, admit, in_window-cong, in_window-append}

-- The clock does not go back, from the last call through this one.
pub record InOrder (before : ℕ) (t : Readings) : Type 0 where
  pub begins : before ≤ t.cleanup_at
  pub ends : t.cleanup_at ≤ t.now

-- what `touch` leaves of an entry, in a window that ends at `now` or later
recent-touch :
    (max_qps window now later : ℕ) (c : ClientState)
    → now ≤ later
    → retain (fresh window later) (touch max_qps window now c).queries
      ≡ retain (fresh window later) c.queries
        ++ (if exceeded max_qps window now c
            then []
            else (if fresh window later now then now ∷ [] else []))
recent-touch max_qps window now later c h = ground (
  arith,
  retain-append (fresh window later) (retain (fresh window now) c.queries) (now ∷ []),
  retain-retain window now later c.queries h,
  append-nil (retain (fresh window later) c.queries),
)

module _ {Addr : Type 0} ⦃k : Key Addr⦄ where
  -- From `now` on, the limiter holds of each client what the log has in the window.
  pub record Refines (r : RateLimiter Addr) (log : List (Addr × ℕ)) (now : ℕ) : Type 0 where
    pub distinct : Distinct r.clients
    pub agrees :
        (a : Addr) (later : ℕ)
        → now ≤ later
        → entry_recent r.window later (get a r.clients) ≡ in_window r.window later a log

  pub new-Refines : (max_qps now : ℕ) → Refines (new max_qps now) [] now
  unfolding new get
  new-Refines max_qps now = record { distinct = tt; agrees = λ a later h. refl }

  module _ (t : Readings) {r : RateLimiter Addr} {log : List (Addr × ℕ)} {before : ℕ}
      (f : Refines r log before) (o : InOrder before t) where
    cleanup-agrees :
        (a : Addr) (later : ℕ)
        → t.cleanup_at ≤ later
        → entry_recent r.window later (get a (cleanup_clients r.window t.cleanup_at r.clients))
          ≡ in_window r.window later a log
    cleanup-agrees a later h =
        recent-cleanup_clients r.window t.cleanup_at later a r.clients h f.distinct
        ∙ f.agrees a later (omega (arith, o))

    maybe_cleanup-Refines : Refines (maybe_cleanup t r) log t.cleanup_at
    unfolding maybe_cleanup cleanup
    maybe_cleanup-Refines = elim (Bool-cases (ltb (from_secs 60) (t.elapsed_at - r.last_cleanup))) [
      | inl b ↦ rw b (record {
        distinct = cleanup-Distinct r.window t.cleanup_at r.clients f.distinct;
        agrees = cleanup-agrees;
      })
      | inr b ↦ rw b (record {
        distinct = f.distinct;
        agrees = λ a later h. f.agrees a later (omega (arith, o));
      })
    ]

  module _ (a : Addr) (r : RateLimiter Addr) (log : List (Addr × ℕ)) (before now : ℕ)
      (f : Refines r log before) (h : before ≤ now) {max_qps window : ℕ}
      (same_max : r.max_qps ≡ max_qps) (same_window : r.window ≡ window) where
    touch-agrees :
        (b : Addr) (later : ℕ)
        → now ≤ later
        → entry_recent r.window later
            (get b (modify a no_queries (touch r.max_qps r.window now) r.clients))
          ≡ in_window r.window later b (admit max_qps window log a now)
    touch-agrees b later g = ground (
      arith,
      get-modify a b no_queries (touch r.max_qps r.window now) r.clients,
      recent-touch r.max_qps r.window now later (client a r) g,
      f.agrees a later,
      f.agrees b later,
      f.agrees a now h,
      in_window-cong r.window later a b log,
      in_window-append r.window later b a now log,
      append-nil (in_window r.window later b log),
    )

    touch-Refines :
        Refines
          (record r { clients = modify a no_queries (touch r.max_qps r.window now) r.clients })
          (admit max_qps window log a now)
          now
    touch-Refines = record {
      distinct = modify-Distinct a no_queries (touch r.max_qps r.window now) r.clients f.distinct;
      agrees = touch-agrees;
    }

    exceeded-admits :
        (if exceeded r.max_qps r.window now (client a r) then false else true)
        ≡ admits max_qps window log a now
    exceeded-admits = ground (arith, f.agrees a now h)

  -- `cleanup` leaves the limits.
  maybe_cleanup-limits :
      (t : Readings) (r : RateLimiter Addr)
      → ((maybe_cleanup t r).max_qps ≡ r.max_qps) × ((maybe_cleanup t r).window ≡ r.window)
  unfolding maybe_cleanup cleanup
  maybe_cleanup-limits t r = ground arith

  pub check_rate_limit-limits :
      (a : Addr) (t : Readings) (r : RateLimiter Addr)
      → ((check_rate_limit a t r).0.max_qps ≡ r.max_qps)
        × ((check_rate_limit a t r).0.window ≡ r.window)
  unfolding check_rate_limit
  check_rate_limit-limits a t r = maybe_cleanup-limits t r

  -- With a clock that does not go back, a call admits the query exactly if fewer than `max_qps`
  -- admitted queries of its client are in the window, removes nothing that a later window holds,
  -- of any client, and records the query exactly if it is admitted.
  pub check_rate_limit-Refines :
      (a : Addr) (t : Readings) (r : RateLimiter Addr) (log : List (Addr × ℕ)) (before : ℕ)
      → Refines r log before
      → InOrder before t
      → let (r', admitted) = check_rate_limit a t r in
        (admitted ≡ admits r.max_qps r.window log a t.now)
        × Refines r' (admit r.max_qps r.window log a t.now) t.now
  unfolding check_rate_limit
  check_rate_limit-Refines a t r log before f o =
      let r₁ = maybe_cleanup t r in
      let f₁ : Refines r₁ log t.cleanup_at = maybe_cleanup-Refines t f o in
      let (same_max, same_window) = maybe_cleanup-limits t r in
      (
        exceeded-admits a r₁ log t.cleanup_at t.now f₁ o.ends same_max same_window,
        touch-Refines a r₁ log t.cleanup_at t.now f₁ o.ends same_max same_window,
      )
