-- ===== src/Tests/Serving.antt =====
-- The UDP and the TCP handler at concrete inputs: what is sent, and what is counted.
use lrmdns.Prelude.{ℕ, ◌≡◌, refl, true, none, some, [], ◌∷◌, arith}
use lrmdns.Prelude.Result.{ok}
use lrmdns.HashMap.{get, insert}
use lrmdns.Dns.Rr.{Bytes, RecordType}
use lrmdns.Dns.Op.{Message}
use lrmdns.Zone.{add_record, get_all_records, inner_records}
use lrmdns.Zone.Store.{find_zone, best_loop, best_step, add_zone}
use lrmdns.RateLimit
use lrmdns.Metrics
use lrmdns.Metrics.{u64}
use lrmdns.Server.{id_of, error_reply, Shared, check_limit}
use lrmdns.Server.Udp.{
  reply_form_err, truncate, UdpEnv, max_udp_size, fit_response, handle_udp_query,
}
use lrmdns.Server.Udp.Size.{Sent, fit_response-Sent}
use lrmdns.Server.Udp.Paths.{
  datagrams, datagrams-handle_udp_query, RepliesTo, handle_udp_query-RepliesTo,
}
use lrmdns.Server.Tcp.{
  message, Round, Conn, done, Written, written, serve_query, handle_frame, tcp_loop,
}
use lrmdns.Server.Tcp.Closing.{Counted, handle_frame-message_Counted, tcp_loop-bounded}
use lrmdns.Server.Tcp.Transfer.{Frames, nil, cons, serve_query-transfer}
use lrmdns.Tests.Samples.{
  names, address_key, www, www_a, store, parent_zone, question, plainly, codec, zeros,
}

-- two records of 600 bytes under the limit of 512
abbrev large : Message Bytes
large = record (plainly www RecordType.a) { answers = www_a ∷ www_a ∷ [] }

abbrev cut_large : Message Bytes
cut_large = record large { answers = []; truncated = true }

fit_large : fit_response codec large ≡ ok (cut_large, 0 ∷ 77 ∷ [])
unfolding fit_response max_udp_size truncate
fit_large = refl

fit_response-Sent_example : Sent codec large cut_large (0 ∷ 77 ∷ [])
fit_response-Sent_example = fit_response-Sent codec large fit_large

abbrev readings : ℕ → RateLimit.Readings
readings n = record { elapsed_at = n; cleanup_at = n; stamped_at = n; now = n }

abbrev pub env : UdpEnv
env = record { readings = readings 1000; sends = true; elapsed = 12 }

abbrev shared : Shared ℕ
shared = record { rate_limiter = some (RateLimit.new 5 1000); metrics = Metrics.new 0 }

-- the id 77, A, and the name
abbrev pub datagram : Bytes
datagram = 0 ∷ 77 ∷ 1 ∷ www

datagrams-handle_udp_query_example :
    u64 (datagrams (handle_udp_query codec env store 7 datagram shared).0.metrics) ≡ 1
unfolding Metrics.new
datagrams-handle_udp_query_example = datagrams-handle_udp_query codec env store 7 datagram shared

-- two bytes that are no query get FORMERR with their id
short_reply : (handle_udp_query codec env store 7 (0 ∷ 77 ∷ []) shared).1 ≡ ok (0 ∷ 77 ∷ [])
unfolding handle_udp_query check_limit RateLimit.check_rate_limit RateLimit.maybe_cleanup
    RateLimit.new get reply_form_err error_reply id_of
short_reply = refl

handle_udp_query-RepliesTo_example : RepliesTo codec 77 (0 ∷ 77 ∷ [])
unfolding check_limit RateLimit.check_rate_limit RateLimit.maybe_cleanup RateLimit.new get id_of
handle_udp_query-RepliesTo_example =
    handle_udp_query-RepliesTo codec env store 7 (0 ∷ 77 ∷ []) shared short_reply

abbrev pub round : Round Bytes
round = record { zones = store; readings = readings 1000; elapsed = 12; writes = λ n. true }

abbrev conn : Conn ℕ
conn = record { shared = shared; queries_handled = 3; sent = [] }

-- a connection with 3 of 4 queries: what comes after the next message makes no difference
tcp_loop-bounded_example :
    tcp_loop codec 7 4
      ((round, message 0 5 (some datagram)) ∷ (round, message 0 5 (some datagram)) ∷ [])
      conn
    ≡ tcp_loop codec 7 4 ((round, message 0 5 (some datagram)) ∷ []) conn
tcp_loop-bounded_example =
    tcp_loop-bounded codec 7 4 ((round, (0, 5, some datagram)) ∷ [])
      ((round, message 0 5 (some datagram)) ∷ []) conn (omega arith)

handle_frame-message_Counted_example :
    Counted codec 7 conn (handle_frame codec 7 round (message 0 0 none) conn)
handle_frame-message_Counted_example = handle_frame-message_Counted codec 7 round 0 0 none conn

abbrev axfr : Message Bytes
axfr = plainly (99 ∷ []) RecordType.axfr

-- a zone without records: its SOA record twice
abbrev soa_frame : Written
soa_frame = written (0 ∷ 77 ∷ zeros 600)

frames :
    Frames {Addr = ℕ} codec 7 round 77
      (question (99 ∷ []) RecordType.axfr)
      (get_all_records parent_zone)
      (soa_frame ∷ soa_frame ∷ [])
unfolding get_all_records inner_records
frames = cons refl (cons refl nil)

finds_parent : find_zone store (99 ∷ []) ≡ some parent_zone
unfolding find_zone best_loop best_step add_zone insert get add_record
finds_parent = refl

serve_query-transfer_example :
    (conn' : Conn ℕ) × ((serve_query codec 7 round axfr conn ≡ done conn' (ok tt))
      × (conn'.sent ≡ soa_frame ∷ soa_frame ∷ []))
serve_query-transfer_example =
    serve_query-transfer codec 7 round axfr (question (99 ∷ []) RecordType.axfr) parent_zone
      (soa_frame ∷ soa_frame ∷ []) conn refl refl finds_parent (λ m. refl) frames
