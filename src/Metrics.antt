-- ===== src/Metrics.antt =====
-- src/metrics.rs: the counters. Each is an `AtomicU64`, so an addition wraps at 2^64, and each
-- update is one step of its own. The average over connections, an `f64`, is kept as its two parts;
-- log lines are left out.
pub mod Counts
pub mod Tally
pub mod Log
use lrmdns.Prelude.{
  ℕ, ◌+◌, ◌-◌, ◌/◌, ◌%◌, ◌^◌, Bool, true, false, List, [], ◌∷◌, if◌then◌else◌, ltb, ◌==◌,
}
use lrmdns.HashMap.{Map, modify}
use lrmdns.Dns.Rr.{RecordType, rtype_key}
use lrmdns.Dns.Op.{ResponseCode}

abbrev pub u64 : ℕ → ℕ
u64 n = n % 2 ^ 64

-- u64::MAX
abbrev pub u64_max : ℕ
u64_max = 2 ^ 64 - 1

pub data Protocol : Type 0 where
  udp tcp : Protocol

pub record Metrics : Type 0 where
  pub total_queries : ℕ
  pub udp_queries : ℕ
  pub tcp_queries : ℕ
  pub edns_queries : ℕ
  pub noerror_responses : ℕ
  pub nxdomain_responses : ℕ
  pub servfail_responses : ℕ
  pub refused_responses : ℕ
  pub formerr_responses : ℕ
  pub query_types : Map RecordType ℕ
  pub total_latency_us : ℕ
  pub min_latency_us : ℕ
  pub max_latency_us : ℕ
  pub rate_limited : ℕ
  pub errors : ℕ
  pub tcp_connections : ℕ
  pub tcp_queries_per_connection : ℕ
  pub tcp_connection_timeouts : ℕ
  pub start_time : ℕ

-- Metrics::new, at a time
unfoldable pub new : ℕ → Metrics
new start_time = record {
  total_queries = 0;
  udp_queries = 0;
  tcp_queries = 0;
  edns_queries = 0;
  noerror_responses = 0;
  nxdomain_responses = 0;
  servfail_responses = 0;
  refused_responses = 0;
  formerr_responses = 0;
  query_types = [];
  total_latency_us = 0;
  min_latency_us = u64_max;
  max_latency_us = 0;
  rate_limited = 0;
  errors = 0;
  tcp_connections = 0;
  tcp_queries_per_connection = 0;
  tcp_connection_timeouts = 0;
  start_time = start_time;
}

unfoldable pub record_tcp_connection : Metrics → Metrics
record_tcp_connection m = record m { tcp_connections = u64 (m.tcp_connections + 1) }

unfoldable pub record_tcp_connection_closed : ℕ → Metrics → Metrics
record_tcp_connection_closed queries_handled m = record m {
  tcp_queries_per_connection = u64 (m.tcp_queries_per_connection + queries_handled);
}

unfoldable pub record_tcp_connection_timeout : Metrics → Metrics
record_tcp_connection_timeout m = record m {
  tcp_connection_timeouts = u64 (m.tcp_connection_timeouts + 1);
}

-- the `match protocol` of record_query
abbrev pub count_protocol : Protocol → Metrics → Metrics
count_protocol Protocol.udp m = record m { udp_queries = u64 (m.udp_queries + 1) }
count_protocol Protocol.tcp m = record m { tcp_queries = u64 (m.tcp_queries + 1) }

unfoldable pub record_query : Protocol → Bool → Metrics → Metrics
record_query protocol edns m =
    let m₁ = record m { total_queries = u64 (m.total_queries + 1) } in
    let m₂ = count_protocol protocol m₁ in
    if edns then record m₂ { edns_queries = u64 (m₂.edns_queries + 1) } else m₂

unfoldable pub record_response : ResponseCode → Metrics → Metrics
record_response ResponseCode.no_error m = record m {
  noerror_responses = u64 (m.noerror_responses + 1);
}
record_response ResponseCode.nx_domain m = record m {
  nxdomain_responses = u64 (m.nxdomain_responses + 1);
}
record_response ResponseCode.serv_fail m = record m {
  servfail_responses = u64 (m.servfail_responses + 1);
}
record_response ResponseCode.refused m = record m {
  refused_responses = u64 (m.refused_responses + 1);
}
record_response ResponseCode.form_err m = record m {
  formerr_responses = u64 (m.formerr_responses + 1);
}
record_response _ m = m

unfoldable pub record_query_type : RecordType → Metrics → Metrics
record_query_type t m = record m { query_types = modify t 0 (λ n. u64 (n + 1)) m.query_types }

-- a latency in microseconds, `as_micros() as u64`
unfoldable pub record_latency : ℕ → Metrics → Metrics
record_latency micros m =
    let latency_us = u64 micros in
    record m {
      total_latency_us = u64 (m.total_latency_us + latency_us);
      min_latency_us = if ltb latency_us m.min_latency_us then latency_us else m.min_latency_us;
      max_latency_us = if ltb m.max_latency_us latency_us then latency_us else m.max_latency_us;
    }

unfoldable pub record_rate_limited : Metrics → Metrics
record_rate_limited m = record m { rate_limited = u64 (m.rate_limited + 1) }

unfoldable pub record_error : Metrics → Metrics
record_error m = record m { errors = u64 (m.errors + 1) }

-- MetricsSnapshot; `queries_per_connection` holds the two numbers whose quotient is
-- `avg_queries_per_connection`, (0, 1) where the source has 0.0.
pub record MetricsSnapshot : Type 0 where
  pub total_queries : ℕ
  pub udp_queries : ℕ
  pub tcp_queries : ℕ
  pub edns_queries : ℕ
  pub noerror_responses : ℕ
  pub nxdomain_responses : ℕ
  pub servfail_responses : ℕ
  pub refused_responses : ℕ
  pub formerr_responses : ℕ
  pub query_types : Map RecordType ℕ
  pub avg_latency_us : ℕ
  pub min_latency_us : ℕ
  pub max_latency_us : ℕ
  pub rate_limited : ℕ
  pub errors : ℕ
  pub tcp_connections : ℕ
  pub queries_per_connection : ℕ × ℕ
  pub tcp_connection_timeouts : ℕ
  pub uptime : ℕ

-- Metrics::get_snapshot, at a time
unfoldable pub get_snapshot : ℕ → Metrics → MetricsSnapshot
get_snapshot now m = record {
  total_queries = m.total_queries;
  udp_queries = m.udp_queries;
  tcp_queries = m.tcp_queries;
  edns_queries = m.edns_queries;
  noerror_responses = m.noerror_responses;
  nxdomain_responses = m.nxdomain_responses;
  servfail_responses = m.servfail_responses;
  refused_responses = m.refused_responses;
  formerr_responses = m.formerr_responses;
  query_types = m.query_types;
  avg_latency_us = if ltb 0 m.total_queries then m.total_latency_us / m.total_queries else 0;
  min_latency_us = if m.min_latency_us == u64_max then 0 else m.min_latency_us;
  max_latency_us = m.max_latency_us;
  rate_limited = m.rate_limited;
  errors = m.errors;
  tcp_connections = m.tcp_connections;
  queries_per_connection =
      if ltb 0 m.tcp_connections then (m.tcp_queries_per_connection, m.tcp_connections) else (0, 1);
  tcp_connection_timeouts = m.tcp_connection_timeouts;
  uptime = now - m.start_time;
}
