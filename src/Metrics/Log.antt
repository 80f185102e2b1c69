-- ===== src/Metrics/Log.antt =====
-- src/metrics.rs: the lines that MetricsSnapshot::log writes. A quotient of two `f64` is kept as
-- its two numbers, the formatting of numbers is left out, and the uptime is in nanoseconds.
pub mod Top
use lrmdns.Prelude.{
  ℕ, ◌*◌, ◌^◌, Bool, not, List, [], ◌∷◌, ◌++◌, map, if◌then◌else◌, ltb, is_empty, sort, take,
}
use lrmdns.HashMap.{Map}
use lrmdns.Dns.Rr.{RecordType}
use lrmdns.Metrics.{Metrics, MetricsSnapshot, get_snapshot}

pub data Line : Type 0 where
  title : Line
  uptime : ℕ → Line
  total_queries : ℕ → Line
  protocol : ℕ → ℕ → ℕ → Line
  responses : ℕ → ℕ → ℕ → ℕ → ℕ → Line
  query_types_follow : Line
  query_type : RecordType → ℕ → Line
  performance : ℕ × ℕ → ℕ × ℕ → ℕ × ℕ → ℕ × ℕ → Line
  rate_limited : ℕ → Line
  errors : ℕ → Line
  tcp_connections : ℕ → ℕ × ℕ → ℕ → Line

-- `b.1.cmp(a.1)`: a greater count first
abbrev pub counts_more : RecordType × ℕ → RecordType × ℕ → Bool
counts_more a b = ltb b.1 a.1

-- the ten types that are asked for most
unfoldable pub top_types : Map RecordType ℕ → List (RecordType × ℕ)
top_types query_types = take 10 (sort counts_more query_types)

abbrev pub lines_if : Bool → List Line → List Line
lines_if b lines = if b then lines else []

-- MetricsSnapshot::log
unfoldable pub log : MetricsSnapshot → List Line
unfolding top_types
log s =
    Line.title
    ∷ Line.uptime s.uptime
    ∷ Line.total_queries s.total_queries
    ∷ Line.protocol s.udp_queries s.tcp_queries s.edns_queries
    ∷ Line.responses s.noerror_responses s.nxdomain_responses s.servfail_responses
        s.refused_responses s.formerr_responses
    ∷ (lines_if (not (is_empty s.query_types))
          (Line.query_types_follow ∷ map (λ e. Line.query_type e.0 e.1) (top_types s.query_types))
        ++ (lines_if (ltb 0 s.total_queries) (
              Line.performance (s.avg_latency_us, 1000) (s.min_latency_us, 1000)
                (s.max_latency_us, 1000) (s.total_queries * 10 ^ 9, s.uptime)
              ∷ [])
            ++ (lines_if (ltb 0 s.rate_limited) (Line.rate_limited s.rate_limited ∷ [])
                ++ (lines_if (ltb 0 s.errors) (Line.errors s.errors ∷ [])
                    ++ lines_if (ltb 0 s.tcp_connections) (
                        Line.tcp_connections s.tcp_connections s.queries_per_connection
                          s.tcp_connection_timeouts
                        ∷ [])))))

-- Metrics::log_summary, at a time
unfoldable pub log_summary : ℕ → Metrics → List Line
unfolding log get_snapshot
log_summary now m = log (get_snapshot now m)
