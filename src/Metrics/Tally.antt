-- ===== src/Metrics/Tally.antt =====
-- Each counter against the updates that it counts.
use lrmdns.Prelude.{ℕ, ◌+◌, ◌≡◌, Bool, true, false, List, [], ◌∷◌, arith, if◌then◌else◌, option_or}
use lrmdns.HashMap.{◌==ₖ◌, get}
use lrmdns.HashMap.Laws.{get-modify, get-cong}
use lrmdns.Dns.Rr.{RecordType, rtype_key}
use lrmdns.Dns.Op.{ResponseCode}
use lrmdns.Metrics.{
  Metrics, u64, record_query, record_response, record_query_type, record_latency,
  record_tcp_connection, record_tcp_connection_closed, record_tcp_connection_timeout,
  record_rate_limited, record_error,
}
use lrmdns.Metrics.Counts.{Update, apply, apply_all}

-- how many of the updates the test selects
unfoldable pub tally : (Update → Bool) → List Update → ℕ
tally p [] = 0
tally p (u ∷ us) = (if p u then 1 else 0) + tally p us

abbrev pub is_query : Update → Bool
is_query (Update.query _ _) = true
is_query _ = false

abbrev pub is_no_error : Update → Bool
is_no_error (Update.response ResponseCode.no_error) = true
is_no_error _ = false

abbrev pub is_nx_domain : Update → Bool
is_nx_domain (Update.response ResponseCode.nx_domain) = true
is_nx_domain _ = false

abbrev pub is_refused : Update → Bool
is_refused (Update.response ResponseCode.refused) = true
is_refused _ = false

abbrev pub is_type : RecordType → Update → Bool
is_type t (Update.query_type s) = s ==ₖ t
is_type t _ = false

-- the counter grows by one for each update that the test selects, modulo 2^64
Grows : (Metrics → ℕ) → (Update → Bool) → Type 0
Grows counter p =
    (u : Update) (m : Metrics)
    → u64 (counter (apply u m)) ≡ u64 (counter m + (if p u then 1 else 0))

apply_all-Grows :
    (counter : Metrics → ℕ) (p : Update → Bool)
    → Grows counter p
    → (us : List Update) (m : Metrics)
    → u64 (counter (apply_all us m)) ≡ u64 (counter m + tally p us)
unfolding apply_all tally Grows
apply_all-Grows counter p g [] m = ground arith
apply_all-Grows counter p g (u ∷ us) m =
    omega (arith, apply_all-Grows counter p g us (apply u m), g u m)

abbrev pub types_of : RecordType → Metrics → ℕ
types_of t m = option_or (get t m.query_types) 0

-- what each update does to each counter
module _ (u : Update) (m : Metrics) where
  grows-total :
      u64 (apply u m).total_queries ≡ u64 (m.total_queries + (if is_query u then 1 else 0))
  unfolding apply record_query record_response record_latency
  grows-total = ground arith

  grows-no_error :
      u64 (apply u m).noerror_responses
      ≡ u64 (m.noerror_responses + (if is_no_error u then 1 else 0))
  unfolding apply record_query record_response record_latency
  grows-no_error = ground arith

  grows-nx_domain :
      u64 (apply u m).nxdomain_responses
      ≡ u64 (m.nxdomain_responses + (if is_nx_domain u then 1 else 0))
  unfolding apply record_query record_response record_latency
  grows-nx_domain = ground arith

  grows-refused :
      u64 (apply u m).refused_responses
      ≡ u64 (m.refused_responses + (if is_refused u then 1 else 0))
  unfolding apply record_query record_response record_latency
  grows-refused = ground arith

Grows-types : (t : RecordType) → Grows (types_of t) (is_type t)
unfolding Grows apply record_query record_response record_latency record_query_type
    record_tcp_connection record_tcp_connection_closed record_tcp_connection_timeout
    record_rate_limited record_error
Grows-types t (Update.query_type s) m =
    ground (arith, get-modify s t 0 (λ n. u64 (n + 1)) m.query_types, get-cong s t m.query_types)
Grows-types t (Update.query p e) m = ground arith
Grows-types t (Update.response c) m = ground arith
Grows-types t _ m = omega arith

-- After any updates, in any order, the counters of queries, of NOERROR, NXDOMAIN and REFUSED
-- responses, and of each query type have grown by the number of those updates, modulo 2^64.
pub apply_all-tallies :
    (us : List Update) (m : Metrics) (t : RecordType)
    → let m' = apply_all us m in
      (u64 m'.total_queries ≡ u64 (m.total_queries + tally is_query us))
      × (u64 m'.noerror_responses ≡ u64 (m.noerror_responses + tally is_no_error us))
      × (u64 m'.nxdomain_responses ≡ u64 (m.nxdomain_responses + tally is_nx_domain us))
      × (u64 m'.refused_responses ≡ u64 (m.refused_responses + tally is_refused us))
      × (u64 (types_of t m') ≡ u64 (types_of t m + tally (is_type t) us))
unfolding Grows
apply_all-tallies us m t = (
  apply_all-Grows (λ x. x.total_queries) is_query grows-total us m,
  apply_all-Grows (λ x. x.noerror_responses) is_no_error grows-no_error us m,
  apply_all-Grows (λ x. x.nxdomain_responses) is_nx_domain grows-nx_domain us m,
  apply_all-Grows (λ x. x.refused_responses) is_refused grows-refused us m,
  apply_all-Grows (types_of t) (is_type t) (Grows-types t) us m,
)
