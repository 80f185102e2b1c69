-- ===== src/Suite/Limits.antt =====
-- The unit tests of src/ratelimit.rs. The calls of a test are made at times that it gives, in
-- nanoseconds, and all at one time where it does not sleep between them.
use lrmdns.Prelude.{
  ℕ, zero, suc, ◌-◌, ◌*◌, Bool, true, false, not, ◌&&◌, ◌≡◌, refl, Option, none, some, [], ◌∷◌,
  ◌==◌, ltb, length, is_some, if◌then◌else◌,
}
use lrmdns.HashMap.{get, modify, contains_key}
use lrmdns.Dns.Rr.{Bytes}
use lrmdns.RateLimit.{
  RateLimiter, Readings, from_secs, cleanup_clients, cleanup, maybe_cleanup, check_rate_limit,
}
use lrmdns.RateLimit
use lrmdns.Suite.Names.{byte_key}
use lrmdns.Suite.Files.{all_true}

-- `Duration::from_millis(n)`
abbrev millis : ℕ → ℕ
millis n = n * 1000000

abbrev at : ℕ → Readings
at now = record { elapsed_at = now; cleanup_at = now; stamped_at = now; now = now }

abbrev new_limiter : ℕ → RateLimiter Bytes
new_limiter max_qps = RateLimit.new max_qps 0

-- the limiter after a call at a time, if the call is allowed
abbrev allowed : ℕ → Bytes → RateLimiter Bytes → Option (RateLimiter Bytes)
allowed now addr limiter =
    let (after, admitted) = check_rate_limit addr (at now) limiter in
    if admitted then some after else none

-- `for _ in 0..n { assert!(limiter.check_rate_limit(addr)) }`
abbrev allowed_times : ℕ → ℕ → Bytes → Option (RateLimiter Bytes) → Option (RateLimiter Bytes)
allowed_times zero now addr limiter = limiter
allowed_times (suc n) now addr limiter = elim limiter [
  | some l ↦ allowed_times n now addr (allowed now addr l)
  | none ↦ none
]

-- `for i in 1..=n` with one call for the address that ends in `i`
abbrev allowed_each : ℕ → Bytes → Option (RateLimiter Bytes) → Option (RateLimiter Bytes)
allowed_each zero prefix limiter = limiter
allowed_each (suc i) prefix limiter =
    allowed_times 1 0 (suc i ∷ prefix) (allowed_each i prefix limiter)

-- the assertions so far hold, and this one of the limiter
abbrev and_then : (RateLimiter Bytes → Bool) → Option (RateLimiter Bytes) → Bool
and_then p (some limiter) = p limiter
and_then p none = false

-- `assert!(!limiter.check_rate_limit(addr))`
abbrev refuses : ℕ → Bytes → RateLimiter Bytes → Bool
refuses now addr limiter = not (check_rate_limit addr (at now) limiter).1

abbrev after_call : ℕ → Bytes → RateLimiter Bytes → RateLimiter Bytes
after_call now addr limiter = (check_rate_limit addr (at now) limiter).0

-- addresses, with the last byte first
abbrev localhost : Bytes
localhost = 1 ∷ 0 ∷ 0 ∷ 127 ∷ []

abbrev other_host : Bytes
other_host = 2 ∷ 0 ∷ 0 ∷ 127 ∷ []

abbrev pub test_rate_limiting : Bool
test_rate_limiting =
    and_then (refuses 0 localhost) (allowed_times 10 0 localhost (some (new_limiter 10)))

abbrev both_times : ℕ → Option (RateLimiter Bytes) → Option (RateLimiter Bytes)
both_times zero limiter = limiter
both_times (suc n) limiter =
    both_times n (allowed_times 1 0 other_host (allowed_times 1 0 localhost limiter))

abbrev pub test_different_ips : Bool
test_different_ips =
    and_then (λ l. refuses 0 localhost l && refuses 0 other_host (after_call 0 localhost l))
      (both_times 5 (some (new_limiter 5)))

abbrev pub test_window_expiration : Bool
test_window_expiration =
    and_then
      (λ l.
        refuses 0 localhost l
        && is_some (allowed (millis 1100) localhost (after_call 0 localhost l)))
      (allowed_times 5 0 localhost (some (new_limiter 5)))

-- the clock is at 61 seconds when `last_cleanup` is set to 61 seconds before
abbrev pub test_cleanup_triggered : Bool
test_cleanup_triggered =
    and_then (λ l. ltb (from_secs 61 - l.last_cleanup) (from_secs 5))
      (allowed_times 1 (from_secs 61) (100 ∷ 0 ∷ 0 ∷ 127 ∷ [])
        (allowed_each 20 (0 ∷ 0 ∷ 127 ∷ []) (some (new_limiter 10))))

abbrev pub test_cleanup_removes_old_clients : Bool
test_cleanup_removes_old_clients =
    and_then (λ l. (length l.clients == 10) && (length (cleanup (millis 1100) l).clients == 0))
      (allowed_each 10 (0 ∷ 168 ∷ 192 ∷ []) (some (new_limiter 10)))

abbrev pub test_partial_cleanup : Bool
test_partial_cleanup =
    and_then (λ l. contains_key (2 ∷ 0 ∷ 0 ∷ 10 ∷ []) (cleanup (millis 1200) l).clients)
      (allowed_times 1 (millis 600) (2 ∷ 0 ∷ 0 ∷ 10 ∷ [])
        (allowed_times 1 0 (1 ∷ 0 ∷ 0 ∷ 10 ∷ []) (some (new_limiter 10))))

abbrev ipv6_host : Bytes
ipv6_host = 1 ∷ 0 ∷ 0 ∷ 0 ∷ 0 ∷ 0 ∷ 3512 ∷ 8193 ∷ []

abbrev pub test_ipv6_addresses : Bool
test_ipv6_addresses =
    and_then (refuses 0 ipv6_host) (allowed_times 3 0 ipv6_host (some (new_limiter 3)))

abbrev pub test_zero_rate_limit : Bool
test_zero_rate_limit = refuses 0 localhost (new_limiter 0)

-- Every test of this file passes.
limit_tests_pass :
    all_true (
      test_rate_limiting ∷ test_different_ips ∷ test_window_expiration ∷ test_cleanup_triggered
      ∷ test_cleanup_removes_old_clients ∷ test_partial_cleanup ∷ test_ipv6_addresses
      ∷ test_zero_rate_limit ∷ [])
    ≡ true
unfolding RateLimit.new cleanup_clients cleanup maybe_cleanup check_rate_limit get modify
    contains_key
limit_tests_pass = refl
