-- ===== src/Suite/Counters.antt =====
-- The unit tests of src/metrics.rs. The calls of a test are a list of updates; the threads of
-- test_concurrent_updates run one after the other.
use lrmdns.Prelude.{
  ℕ, zero, suc, ◌+◌, ◌*◌, ◌/◌, ◌%◌, Bool, true, false, ◌&&◌, ◌≡◌, refl, Option, none, some, List,
  [], ◌∷◌, ◌++◌, ◌==◌, leb, if◌then◌else◌,
}
use lrmdns.HashMap.{get, modify}
use lrmdns.Dns.Rr.{RecordType, rtype_key, rtype_eq}
use lrmdns.Dns.Op.{ResponseCode}
use lrmdns.Metrics.{
  Metrics, MetricsSnapshot, Protocol, record_tcp_connection, record_tcp_connection_closed,
  record_tcp_connection_timeout, record_query, record_response, record_query_type, record_latency,
  record_rate_limited, record_error, get_snapshot,
}
use lrmdns.Metrics
use lrmdns.Metrics.Counts.{Update, apply, apply_all}
use lrmdns.Suite.Files.{all_true}

-- the snapshot after the updates of new counters
abbrev snapshot : List Update → MetricsSnapshot
snapshot us = get_snapshot 0 (apply_all us (Metrics.new 0))

abbrev pub test_metrics_recording : Bool
test_metrics_recording =
    let s = snapshot (
      Update.query Protocol.udp false
      ∷ Update.query Protocol.tcp true
      ∷ Update.response ResponseCode.no_error
      ∷ Update.response ResponseCode.nx_domain
      ∷ Update.query_type RecordType.a
      ∷ Update.latency 1500
      ∷ []) in
    (s.total_queries == 2)
    && (s.udp_queries == 1)
    && (s.tcp_queries == 1)
    && (s.edns_queries == 1)
    && (s.noerror_responses == 1)
    && (s.nxdomain_responses == 1)
    && (s.avg_latency_us == 750)

abbrev pub test_all_response_codes : Bool
test_all_response_codes =
    let s = snapshot (
      Update.response ResponseCode.no_error
      ∷ Update.response ResponseCode.nx_domain
      ∷ Update.response ResponseCode.serv_fail
      ∷ Update.response ResponseCode.refused
      ∷ Update.response ResponseCode.form_err
      ∷ []) in
    (s.noerror_responses == 1)
    && (s.nxdomain_responses == 1)
    && (s.servfail_responses == 1)
    && (s.refused_responses == 1)
    && (s.formerr_responses == 1)

abbrev pub test_rate_limited_and_errors : Bool
test_rate_limited_and_errors =
    let s =
      snapshot
        (Update.limited ∷ Update.limited ∷ Update.error ∷ Update.error ∷ Update.error ∷ []) in
    (s.rate_limited == 2) && (s.errors == 3)

abbrev times : ℕ → List Update → List Update
times zero us = []
times (suc n) us = us ++ times n us

abbrev pub test_latency_min_max : Bool
test_latency_min_max =
    let s = snapshot (
      times 5 (Update.query Protocol.udp false ∷ [])
      ++ Update.latency 100
        ∷ Update.latency 500
        ∷ Update.latency 50
        ∷ Update.latency 1000
        ∷ Update.latency 200
        ∷ []) in
    (s.min_latency_us == 50)
    && (s.max_latency_us == 1000)
    && (s.avg_latency_us == (100 + 500 + 50 + 1000 + 200) / 5)

abbrev is_some_of : ℕ → Option ℕ → Bool
is_some_of n (some m) = m == n
is_some_of n none = false

abbrev pub test_multiple_query_types : Bool
test_multiple_query_types =
    let s = snapshot (
      Update.query_type RecordType.a
      ∷ Update.query_type RecordType.aaaa
      ∷ Update.query_type RecordType.a
      ∷ Update.query_type RecordType.mx
      ∷ Update.query_type RecordType.a
      ∷ Update.query_type RecordType.aaaa
      ∷ []) in
    is_some_of 3 (get RecordType.a s.query_types)
    && is_some_of 2 (get RecordType.aaaa s.query_types)
    && is_some_of 1 (get RecordType.mx s.query_types)

abbrev pub test_zero_queries_latency : Bool
test_zero_queries_latency =
    ((snapshot []).avg_latency_us == 0) && ((snapshot []).total_queries == 0)

-- the snapshot is taken 100 milliseconds after the start
abbrev pub test_uptime : Bool
test_uptime = leb (100 * 1000000) (get_snapshot (100 * 1000000) (Metrics.new 0)).uptime

-- the updates of thread `i`
abbrev thread : ℕ → List Update
thread i = times 100 (
    Update.query (if i % 2 == 0 then Protocol.udp else Protocol.tcp) (i % 3 == 0)
    ∷ Update.response ResponseCode.no_error
    ∷ Update.query_type RecordType.a
    ∷ Update.latency 100
    ∷ [])

abbrev threads_below : ℕ → List Update
threads_below zero = []
threads_below (suc i) = threads_below i ++ thread i

abbrev pub test_concurrent_updates : Bool
test_concurrent_updates =
    let s = snapshot (threads_below 10) in
    (s.total_queries == 1000) && (s.noerror_responses == 1000)

-- YXDomain has the number 6
abbrev pub test_unknown_response_code : Bool
test_unknown_response_code =
    let s =
      snapshot
        (Update.response ResponseCode.not_imp ∷ Update.response (ResponseCode.other 6) ∷ []) in
    (s.noerror_responses == 0)
    && (s.nxdomain_responses == 0)
    && (s.servfail_responses == 0)
    && (s.refused_responses == 0)
    && (s.formerr_responses == 0)

-- the average is the quotient `n / d`
abbrev averages : ℕ → MetricsSnapshot → Bool
averages n s = s.queries_per_connection.0 == n * s.queries_per_connection.1

abbrev pub test_tcp_connection_metrics : Bool
test_tcp_connection_metrics =
    let s = snapshot (times 3 (Update.connection ∷ [])) in (s.tcp_connections == 3) && averages 0 s

abbrev pub test_tcp_queries_per_connection : Bool
test_tcp_queries_per_connection =
    let s = snapshot (
      Update.connection
      ∷ Update.connection_closed 5
      ∷ Update.connection
      ∷ Update.connection_closed 3
      ∷ []) in
    (s.tcp_connections == 2) && averages 4 s

abbrev pub test_tcp_connection_timeouts : Bool
test_tcp_connection_timeouts =
    let s = snapshot (times 2 (Update.connection ∷ Update.connection_timeout ∷ [])) in
    s.tcp_connection_timeouts == 2

abbrev pub test_tcp_metrics_zero_connections : Bool
test_tcp_metrics_zero_connections =
    let s = snapshot [] in
    (s.tcp_connections == 0) && averages 0 s && (s.tcp_connection_timeouts == 0)

abbrev pub test_tcp_connection_with_zero_queries : Bool
test_tcp_connection_with_zero_queries =
    let s = snapshot (Update.connection ∷ Update.connection_closed 0 ∷ []) in
    (s.tcp_connections == 1) && averages 0 s

-- Every test of this file passes.
counter_tests_pass :
    all_true (
      test_metrics_recording ∷ test_all_response_codes ∷ test_rate_limited_and_errors
      ∷ test_latency_min_max ∷ test_multiple_query_types ∷ test_zero_queries_latency ∷ test_uptime
      ∷ test_concurrent_updates ∷ test_unknown_response_code ∷ test_tcp_connection_metrics
      ∷ test_tcp_queries_per_connection ∷ test_tcp_connection_timeouts
      ∷ test_tcp_metrics_zero_connections ∷ test_tcp_connection_with_zero_queries ∷ [])
    ≡ true
unfolding record_tcp_connection record_tcp_connection_closed record_tcp_connection_timeout
    record_query record_response record_query_type record_latency record_rate_limited record_error
    get_snapshot Metrics.new apply apply_all get modify rtype_eq
counter_tests_pass = refl
