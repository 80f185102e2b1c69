-- ===== src/Server/Run/Served.antt =====
-- Which datagrams and messages the handlers serve, as the counters tell: a query that is answered adds
-- one to the queries, a datagram that cannot be parsed one to the errors, and one that is refused for
-- the rate limit neither.
use lrmdns.Prelude.{
  ℕ, ◌+◌, ◌≡◌, refl, ◌∙◌, ◌⊎◌, Bool, true, false, not, ◌||◌, Option, none, some, [], ◌∷◌, arith,
  leb, ◌==◌, first, is_some, Bool-cases, inl, inr, ap,
}
use lrmdns.HashMap.{Key, ◌==ₖ◌}
use lrmdns.Dns.Name.{DnsApi}
use lrmdns.Dns.Rr.{Bytes, RecordType, rtype_key}
use lrmdns.Dns.Op.{Query, Message}
use lrmdns.Zone.{Zone, get_all_records}
use lrmdns.Zone.Store.{ZoneStore, find_zone}
use lrmdns.RateLimit.{Readings}
use lrmdns.Metrics.{
  Metrics, Protocol, u64, record_query, record_query_type, record_response, record_latency,
  record_error, record_rate_limited, record_tcp_connection_closed, record_tcp_connection_timeout,
}
use lrmdns.Server.{Codec, Shared, check_limit, count_query_type}
use lrmdns.Server.Udp.{UdpEnv, handle_udp_query, answer_udp, reply_form_err, refuse_limited}
use lrmdns.Server.Udp
use lrmdns.Server.Tcp.{
  Frame, Round, Conn, Turn, again, done, count, transfer, answer_tcp, transfer_or_answer,
  serve_query, handle_query, handle_parsed, handle_body, handle_frame, proceed, tcp_loop,
}
use lrmdns.Server.Tcp.Closing.{end_conn, stream_records-Counted}
use lrmdns.Server.Run.Calls.{bytes_call, bad_length, frame_call, turn_call}

-- the counter of the queries has moved
abbrev pub has_query : Metrics → Metrics → Bool
has_query before after = not (after.total_queries == before.total_queries)

-- the counter of the queries or that of the errors has moved
abbrev pub is_served : Metrics → Metrics → Bool
is_served before after = has_query before after || not (after.errors == before.errors)

u64_moves : (n : ℕ) → (u64 (n + 1) == n) ≡ false
u64_moves n = ground arith

pub eq_self : (n : ℕ) → (n == n) ≡ true
eq_self n = ground arith

module _ {Name Addr : Type 0} ⦃api : DnsApi Name⦄ ⦃k : Key Addr⦄ (c : Codec Name) where
  module _ (env : UdpEnv) (zones : ZoneStore Name) where
    answer_udp-is_served :
        (query : Message Name) (s : Shared Addr)
        → is_served s.metrics (answer_udp c env zones query s).0.metrics ≡ true
    unfolding answer_udp record_query record_query_type record_response record_latency
    answer_udp-is_served query s = ground (arith, u64_moves s.metrics.total_queries)

    reply_form_err-is_served :
        (bytes : Bytes) (s : Shared Addr)
        → is_served s.metrics (reply_form_err c env bytes s).0.metrics ≡ true
    unfolding reply_form_err record_response record_latency record_error
    reply_form_err-is_served bytes s = ground (arith, u64_moves s.metrics.errors)

    refuse_limited-is_served :
        (bytes : Bytes) (s : Shared Addr)
        → is_served s.metrics (refuse_limited c env bytes s).0.metrics ≡ false
    unfolding refuse_limited record_rate_limited
    refuse_limited-is_served bytes s =
        ground (arith, eq_self s.metrics.total_queries, eq_self s.metrics.errors)

    udp_parsed-is_served :
        (bytes : Bytes) (query : Option (Message Name)) (s : Shared Addr)
        → is_served s.metrics (Udp.handle_parsed c env zones bytes query s).0.metrics ≡ true
    udp_parsed-is_served bytes none s = reply_form_err-is_served bytes s
    udp_parsed-is_served bytes (some query) s = answer_udp-is_served query s

    -- A datagram is served exactly if the rate limiter admits it.
    pub handle_udp_query-is_served :
        (addr : Addr) (bytes : Bytes) (s : Shared Addr)
        → is_served s.metrics (handle_udp_query c env zones addr bytes s).0.metrics
          ≡ (check_limit addr env.readings s).1
    unfolding handle_udp_query check_limit
    handle_udp_query-is_served addr bytes s =
        let s₁ = (check_limit addr env.readings s).0 in
        elim (Bool-cases (check_limit addr env.readings s).1) [
          | inl b ↦ rw b (udp_parsed-is_served bytes (c.from_bytes bytes) s₁)
          | inr b ↦ rw b (refuse_limited-is_served bytes s₁)
        ]

  abbrev queries_after : Turn Addr → ℕ
  queries_after turn = (end_conn turn).shared.metrics.total_queries

  module _ (addr : Addr) (env : Round Name) where
    answer_tcp-queries :
        (query : Message Name) (conn : Conn Addr)
        → queries_after (answer_tcp c addr env query conn) ≡ conn.shared.metrics.total_queries
    unfolding answer_tcp record_response record_latency
    answer_tcp-queries query conn = ground arith

    transfer-queries :
        (query : Message Name) (question : Query Name) (z : Option (Zone Name)) (conn : Conn Addr)
        → queries_after (transfer c addr env query question z conn)
          ≡ conn.shared.metrics.total_queries
    unfolding transfer record_response record_latency
    transfer-queries query question none conn = ground arith
    transfer-queries query question (some z) conn =
        ground
          (arith, stream_records-Counted c addr env query.id question 0 (get_all_records z) conn)

    transfer_or_answer-queries :
        (query : Message Name) (question : Option (Query Name)) (conn : Conn Addr)
        → queries_after (transfer_or_answer c addr env query question conn)
          ≡ conn.shared.metrics.total_queries
    transfer_or_answer-queries query none conn = answer_tcp-queries query conn
    transfer_or_answer-queries query (some question) conn =
        elim (Bool-cases (question.query_type ==ₖ RecordType.axfr)) [
          | inl b ↦ rw b (transfer-queries query question (find_zone env.zones question.name) conn)
          | inr b ↦ rw b (answer_tcp-queries query conn)
        ]

    serve_query-queries :
        (query : Message Name) (conn : Conn Addr)
        → queries_after (serve_query c addr env query conn)
          ≡ u64 (conn.shared.metrics.total_queries + 1)
    unfolding serve_query record_query record_query_type
    serve_query-queries query conn =
        transfer_or_answer-queries query (first query.queries) (
          count (count_query_type (first query.queries))
            (count (record_query Protocol.tcp (is_some query.edns)) conn))
        ∙ ground arith

    -- whether a call that is made admits the query
    abbrev pub admits : Option (Addr × Readings) → Shared Addr → Bool
    admits none s = false
    admits (some (a, t)) s = (check_limit a t s).1

    abbrev has_query_after : Conn Addr → Turn Addr → Bool
    has_query_after conn turn = has_query conn.shared.metrics (end_conn turn).shared.metrics

    handle_query-has_query :
        (query : Message Name) (conn : Conn Addr)
        → has_query_after conn (handle_query c addr env query conn)
          ≡ (check_limit addr env.readings conn.shared).1
    unfolding handle_query check_limit record_response record_latency record_rate_limited
    handle_query-has_query query conn =
        let (shared, _) = check_limit addr env.readings conn.shared in
        elim (Bool-cases (check_limit addr env.readings conn.shared).1) [
          | inl b ↦ rw b (
              ap (λ n. not (n == conn.shared.metrics.total_queries))
                (serve_query-queries query (record conn { shared = shared }))
              ∙ rw (u64_moves conn.shared.metrics.total_queries) refl)
          | inr b ↦ rw b (ground (arith, eq_self conn.shared.metrics.total_queries))
        ]

    handle_parsed-has_query :
        (bytes : Bytes) (query : Option (Message Name)) (conn : Conn Addr)
        → has_query_after conn (handle_parsed c addr env bytes query conn)
          ≡ admits (elim query [ none ↦ none | some q ↦ some (addr, env.readings) ]) conn.shared
    unfolding record_response record_latency record_error
    handle_parsed-has_query bytes none conn =
        ground (arith, eq_self conn.shared.metrics.total_queries)
    handle_parsed-has_query bytes (some query) conn = handle_query-has_query query conn

    handle_body-has_query :
        (body : Option Bytes) (conn : Conn Addr)
        → has_query_after conn (handle_body c addr env body conn)
          ≡ admits (bytes_call c addr env body) conn.shared
    handle_body-has_query none conn = rw (eq_self conn.shared.metrics.total_queries) refl
    handle_body-has_query (some bytes) conn =
        handle_parsed-has_query bytes (c.from_bytes bytes) conn

    handle_frame-has_query :
        (frame : Frame) (conn : Conn Addr)
        → has_query_after conn (handle_frame c addr env frame conn)
          ≡ admits (frame_call c addr env frame) conn.shared
    unfolding handle_frame record_error record_tcp_connection_closed record_tcp_connection_timeout
    handle_frame-has_query Frame.timed_out conn =
        ground (arith, eq_self conn.shared.metrics.total_queries)
    handle_frame-has_query Frame.closed conn =
        ground (arith, eq_self conn.shared.metrics.total_queries)
    handle_frame-has_query Frame.failed conn =
        ground (arith, eq_self conn.shared.metrics.total_queries)
    handle_frame-has_query (Frame.message hi lo body) conn =
        elim (Bool-cases (bad_length c addr env hi lo)) [
          | inl b ↦ rw (b, eq_self conn.shared.metrics.total_queries) refl
          | inr b ↦ rw b (handle_body-has_query body conn)
        ]

    proceed-queries :
        (max_queries : ℕ) (turn : Turn Addr)
        → queries_after (proceed (tcp_loop c addr max_queries []) turn) ≡ queries_after turn
    unfolding tcp_loop record_tcp_connection_closed
    proceed-queries max_queries (again conn) = ground arith
    proceed-queries max_queries (done conn r) = refl
    proceed-queries max_queries (Turn.waiting conn) = refl

    -- A turn of a connection counts a query exactly if it makes a call of the rate limiter that
    -- admits it.
    pub turn-has_query :
        (max_queries : ℕ) (frame : Frame) (conn : Conn Addr)
        → has_query_after conn (tcp_loop c addr max_queries ((env, frame) ∷ []) conn)
          ≡ admits (turn_call c addr env max_queries frame conn) conn.shared
    unfolding tcp_loop record_tcp_connection_closed
    turn-has_query max_queries frame conn =
        elim (Bool-cases (leb max_queries conn.queries_handled)) [
          | inl b ↦ rw (b, eq_self conn.shared.metrics.total_queries) refl
          | inr b ↦ rw b (
              ap (λ n. not (n == conn.shared.metrics.total_queries))
                (proceed-queries max_queries (handle_frame c addr env frame conn))
              ∙ handle_frame-has_query frame conn)
        ]

    bytes_call-cases :
        (query : Option (Message Name))
        → let call : Option (Addr × Readings) = elim query [
          | none ↦ none
          | some q ↦ some (addr, env.readings)
        ] in
          (call ≡ none) ⊎ (call ≡ some (addr, env.readings))
    bytes_call-cases none = inl refl
    bytes_call-cases (some query) = inr refl

    frame_call-cases :
        (frame : Frame)
        → (frame_call c addr env frame ≡ none)
          ⊎ (frame_call c addr env frame ≡ some (addr, env.readings))
    frame_call-cases Frame.timed_out = inl refl
    frame_call-cases Frame.closed = inl refl
    frame_call-cases Frame.failed = inl refl
    frame_call-cases (Frame.message hi lo none) = elim (Bool-cases (bad_length c addr env hi lo)) [
      | inl b ↦ inl (rw b refl)
      | inr b ↦ inl (rw b refl)
    ]
    frame_call-cases (Frame.message hi lo (some bytes)) =
        elim (Bool-cases (bad_length c addr env hi lo)) [
          | inl b ↦ inl (rw b refl)
          | inr b ↦ rw b (bytes_call-cases (c.from_bytes bytes))
        ]

    -- The call of a turn is for the client of the connection, at the readings of the round.
    pub turn_call-cases :
        (max_queries : ℕ) (frame : Frame) (conn : Conn Addr)
        → (turn_call c addr env max_queries frame conn ≡ none)
          ⊎ (turn_call c addr env max_queries frame conn ≡ some (addr, env.readings))
    turn_call-cases max_queries frame conn =
        elim (Bool-cases (leb max_queries conn.queries_handled)) [
          | inl b ↦ inl (rw b refl)
          | inr b ↦ rw b (frame_call-cases frame)
        ]
