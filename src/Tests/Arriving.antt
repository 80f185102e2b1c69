-- ===== src/Tests/Arriving.antt =====
-- A series of datagrams, and the average latency after it.
use lrmdns.Prelude.{ℕ, ◌≡◌, ◌∙◌, refl, none, List, [], ◌∷◌, arith}
use lrmdns.HashMap.{get, insert, modify, contains_key}
use lrmdns.Dns.Rr.{rtype_eq, from_rdata}
use lrmdns.Zone.{
  lookup, contains_name, lookup_wildcard, wildcard_loop, wildcard_at, add_record, push_record,
  get_soa_record,
}
use lrmdns.Zone.Store.{add_zone, find_zone, best_loop, best_step}
use lrmdns.Protocol.{
  start_response, dnssec_ok, covers_type, find_records, answer_found, chase, chase_all,
  answer_negative, answer, add_authority, add_edns, answer_in_zone, process_query,
}
use lrmdns.Metrics
use lrmdns.Metrics.{get_snapshot}
use lrmdns.Server.{Shared, check_limit, error_reply, id_of}
use lrmdns.Server.Udp.{
  reply_form_err, truncate, trim, max_udp_size, fit_response, handle_udp_query, answer_udp,
}
use lrmdns.Server.Udp.Latency.{Arrival, handle_all, total_time, queries_in, avg_latency-handle_all}
use lrmdns.Tests.Samples.{names, address_key, store, codec}
use lrmdns.Tests.Serving.{env, datagram}

-- a query that is answered, and two bytes that are no query, each after 12 microseconds
abbrev unlimited : Shared ℕ
unlimited = record { rate_limiter = none; metrics = Metrics.new 0 }

abbrev arrivals : List (Arrival ℕ)
arrivals =
    record { env = env; addr = 7; bytes = datagram }
    ∷ record { env = env; addr = 7; bytes = 0 ∷ 77 ∷ [] }
    ∷ []

arrivals_sums :
    (total_time codec store arrivals unlimited ≡ 24)
    × (queries_in codec store arrivals unlimited ≡ 1)
unfolding handle_udp_query check_limit reply_form_err error_reply id_of answer_udp fit_response
    max_udp_size truncate trim add_zone find_zone best_loop best_step insert get modify contains_key
    lookup contains_name lookup_wildcard wildcard_loop wildcard_at add_record push_record from_rdata
    rtype_eq get_soa_record start_response dnssec_ok covers_type find_records answer_found chase
    chase_all answer_negative answer add_authority add_edns answer_in_zone process_query
arrivals_sums = (refl, refl)

avg_latency-handle_all_example :
    (get_snapshot 9 (handle_all codec store arrivals unlimited).metrics).avg_latency_us ≡ 24
avg_latency-handle_all_example =
    avg_latency-handle_all codec store arrivals unlimited 0 9 refl (omega (arith, arrivals_sums.0))
      (omega (arith, arrivals_sums.1)) (omega (arith, arrivals_sums.1))
    ∙ rw (arrivals_sums.0, arrivals_sums.1) refl
