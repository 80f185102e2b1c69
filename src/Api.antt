-- ===== src/Api.antt =====
-- src/api.rs: the routes and the documents that they answer with. A route is a GET request; another
-- path is the web framework's. An uptime is in nanoseconds.
pub mod QueryTypes
use Prim.Native.String.{String}
use text.Mathlib.Text.{◌==◌}
use text.Mathlib.TextEquality.{eq_iff}
use lrmdns.Prelude.{
  ℕ, ◌/◌, ◌^◌, ◌≡◌, refl, sym, ◌∙◌, Bool, true, List, [], ◌∷◌, if◌then◌else◌, ltb, Option, none,
  some,
}
use lrmdns.HashMap.{Key, Map, insert}
use lrmdns.Dns.Rr.{RecordType}
use lrmdns.Metrics.{Metrics, MetricsSnapshot, get_snapshot}

instance abbrev pub string_key : Key String
string_key = record {
  eq = λ a b. a == b;
  eq_refl = λ a. (eq_iff a a).1 refl;
  eq_sym = λ a b h. (eq_iff b a).1 (sym ((eq_iff a b).0 h));
  eq_trans = λ a b c h i. (eq_iff a c).1 ((eq_iff a b).0 h ∙ (eq_iff b c).0 i);
}

-- serde_json's values, as far as the documents use them.
mutual
  pub data Value : Type 0 where
    number : ℕ → Value
    string : String → Value
    object : Fields → Value

  pub data Fields : Type 0 where
    end : Fields
    field : String → Value → Fields → Fields

-- health_check
unfoldable pub health_check : Value
health_check = object (field "status" (string "healthy") (field "service" (string "lrmdns") end))

-- the object of a map
unfoldable pub fields_of : Map String ℕ → Fields
fields_of [] = end
fields_of ((name, n) ∷ m) = field name (number n) (fields_of m)

-- `.collect()` into a map: each name is inserted, and a name that comes again replaces the count
unfoldable pub collect : List (String × ℕ) → Map String ℕ → Map String ℕ
collect [] m = m
collect ((name, n) ∷ rest) m = collect rest (insert name n m)

-- `debug` is `{:?}` of a record type
unfoldable pub named : (RecordType → String) → Map RecordType ℕ → List (String × ℕ)
named debug [] = []
named debug ((t, n) ∷ m) = (debug t, n) ∷ named debug m

unfoldable pub query_types : (RecordType → String) → Map RecordType ℕ → Map String ℕ
query_types debug m = collect (named debug m) []

abbrev pub as_secs : ℕ → ℕ
as_secs uptime = uptime / 10 ^ 9

-- queries per second since the start, 0 in the first second
unfoldable pub qps : MetricsSnapshot → ℕ
qps s = if ltb 0 (as_secs s.uptime) then s.total_queries / as_secs s.uptime else 0

-- the document of get_metrics
unfoldable pub metrics_document : (RecordType → String) → MetricsSnapshot → Value
unfolding fields_of
metrics_document debug s = object (
    field "uptime_seconds" (number (as_secs s.uptime)) (
      field "queries"
        (object (
          field "total" (number s.total_queries) (
            field "udp" (number s.udp_queries)
              (field "tcp" (number s.tcp_queries) (field "edns" (number s.edns_queries) end)))))
        (field "responses"
          (object (
            field "noerror" (number s.noerror_responses) (
              field "nxdomain" (number s.nxdomain_responses) (
                field "servfail" (number s.servfail_responses) (
                  field "refused" (number s.refused_responses)
                    (field "formerr" (number s.formerr_responses) end))))))
          (field "query_types" (object (fields_of (query_types debug s.query_types))) (
            field "performance"
              (object (
                field "avg_latency_us" (number s.avg_latency_us) (
                  field "min_latency_us" (number s.min_latency_us) (
                    field "max_latency_us" (number s.max_latency_us)
                      (field "qps" (number (qps s)) end)))))
              (field "rate_limited" (number s.rate_limited)
                (field "errors" (number s.errors) end)))))))

-- get_metrics, at a time
unfoldable pub get_metrics : (RecordType → String) → ℕ → Metrics → Value
get_metrics debug now m = metrics_document debug (get_snapshot now m)

-- create_router: what a GET of a path answers
unfoldable pub create_router : (RecordType → String) → ℕ → Metrics → String → Option Value
create_router debug now m path =
    if path == "/health"
    then some health_check
    else (if path == "/metrics" then some (get_metrics debug now m) else none)
