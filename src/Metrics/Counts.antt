-- ===== src/Metrics/Counts.antt =====
-- Any run of the server's updates: what the counters add up to.
use lrmdns.Prelude.{ℕ, ◌+◌, ◌≤◌, ◌<◌, ◌≡◌, Bool, List, [], ◌∷◌, arith}
use lrmdns.Dns.Rr.{RecordType, rtype_key}
use lrmdns.Dns.Op.{ResponseCode}
use lrmdns.Metrics.{
  Metrics, Protocol, u64, u64_max, new, record_tcp_connection, record_tcp_connection_closed,
  record_tcp_connection_timeout, record_query, record_response, record_query_type, record_latency,
  record_rate_limited, record_error,
}

-- One update: the server's tasks make them in any order.
pub data Update : Type 0 where
  connection connection_timeout limited error : Update
  connection_closed : ℕ → Update
  query : Protocol → Bool → Update
  response : ResponseCode → Update
  query_type : RecordType → Update
  latency : ℕ → Update

unfoldable pub apply : Update → Metrics → Metrics
unfolding record_tcp_connection record_tcp_connection_closed record_tcp_connection_timeout
    record_query record_response record_query_type record_latency record_rate_limited record_error
apply Update.connection m = record_tcp_connection m
apply Update.connection_timeout m = record_tcp_connection_timeout m
apply Update.limited m = record_rate_limited m
apply Update.error m = record_error m
apply (Update.connection_closed n) m = record_tcp_connection_closed n m
apply (Update.query p e) m = record_query p e m
apply (Update.response c) m = record_response c m
apply (Update.query_type t) m = record_query_type t m
apply (Update.latency n) m = record_latency n m

unfoldable pub apply_all : List Update → Metrics → Metrics
apply_all [] m = m
apply_all (u ∷ us) m = apply_all us (apply u m)

-- What holds between any two updates.
pub record IsConsistent (m : Metrics) : Type 0 where
  pub totals : m.total_queries ≡ u64 (m.udp_queries + m.tcp_queries)
  pub min_bounded : m.min_latency_us ≤ u64_max
  pub max_bounded : m.max_latency_us ≤ u64_max
  pub latencies_ordered : m.min_latency_us < u64_max → m.min_latency_us ≤ m.max_latency_us

pub new-IsConsistent : (start : ℕ) → IsConsistent (new start)
unfolding new
new-IsConsistent start = ground arith

apply-IsConsistent : (u : Update) (m : Metrics) → IsConsistent m → IsConsistent (apply u m)
unfolding apply
apply-IsConsistent (Update.query p e) m h = ground arith
apply-IsConsistent (Update.response c) m h = ground arith
apply-IsConsistent (Update.latency n) m h = ground arith
apply-IsConsistent _ m h = ground arith

-- Any updates, in any order, keep these: the total of the queries is that of the two protocols,
-- modulo 2^64; the least and the greatest latency fit 64 bits; and the least is at most the greatest
-- once it is below its start value of 2^64 - 1.
pub apply_all-IsConsistent :
    (us : List Update) (m : Metrics) → IsConsistent m → IsConsistent (apply_all us m)
unfolding apply_all
apply_all-IsConsistent [] m h = h
apply_all-IsConsistent (u ∷ us) m h =
    apply_all-IsConsistent us (apply u m) (apply-IsConsistent u m h)
