-- ===== src/Server/Run/Calls.antt =====
-- The calls of the rate limiter that the tasks make, one for each datagram and one for each message
-- that a connection parses.
use lrmdns.Prelude.{
  ℕ, ◌*◌, ◌+◌, ◌≡◌, refl, Bool, ◌||◌, Option, none, some, [], ◌∷◌, arith, if◌then◌else◌, ltb, leb,
  ◌==◌, first, is_some, Bool-cases, inl, inr, ◌∙◌,
}
use lrmdns.HashMap.{Key, ◌==ₖ◌}
use lrmdns.Dns.Name.{DnsApi}
use lrmdns.Dns.Rr.{Bytes, RecordType, rtype_key}
use lrmdns.Dns.Op.{Query, Message}
use lrmdns.Zone.{Zone, get_all_records}
use lrmdns.Zone.Store.{ZoneStore, find_zone}
use lrmdns.RateLimit.{RateLimiter, Readings}
use lrmdns.Metrics.{Protocol, record_query}
use lrmdns.Server.{Codec, Shared, check_limit, limiter_check, count_query_type}
use lrmdns.Server.Udp.{UdpEnv, handle_udp_query, answer_udp, reply_form_err, refuse_limited}
use lrmdns.Server.Udp
use lrmdns.Server.Tcp.{
  Frame, Round, Conn, Turn, again, done, count, max_tcp_dns_packet_size, transfer, answer_tcp,
  transfer_or_answer, serve_query, handle_query, handle_parsed, handle_body, handle_frame, proceed,
  tcp_loop,
}
use lrmdns.Server.Tcp.Closing.{end_conn, stream_records-Counted}

module _ {Addr : Type 0} ⦃k : Key Addr⦄ where
  -- the limiter after a call of `check_rate_limit`, if there is one
  abbrev pub after_call :
      Option (Addr × Readings) → Option (RateLimiter Addr) → Option (RateLimiter Addr)
  after_call none l = l
  after_call (some (a, t)) l = (limiter_check a t l).0

  abbrev pub limiter_of : Turn Addr → Option (RateLimiter Addr)
  limiter_of turn = (end_conn turn).shared.rate_limiter

module _ {Name Addr : Type 0} ⦃api : DnsApi Name⦄ ⦃k : Key Addr⦄ (c : Codec Name) where
  module _ (env : UdpEnv) (zones : ZoneStore Name) where
    udp_parsed-limiter :
        (bytes : Bytes) (query : Option (Message Name)) (s : Shared Addr)
        → (Udp.handle_parsed c env zones bytes query s).0.rate_limiter ≡ s.rate_limiter
    unfolding answer_udp reply_form_err
    udp_parsed-limiter bytes none s = ground arith
    udp_parsed-limiter bytes (some query) s = ground arith

    refuse_limited-limiter :
        (bytes : Bytes) (s : Shared Addr)
        → (refuse_limited c env bytes s).0.rate_limiter ≡ s.rate_limiter
    unfolding refuse_limited
    refuse_limited-limiter bytes s = ground arith

    pub handle_udp_query-limiter :
        (addr : Addr) (bytes : Bytes) (s : Shared Addr)
        → (handle_udp_query c env zones addr bytes s).0.rate_limiter
          ≡ after_call (some (addr, env.readings)) s.rate_limiter
    unfolding handle_udp_query check_limit
    handle_udp_query-limiter addr bytes s =
        let s₁ = (check_limit addr env.readings s).0 in
        elim (Bool-cases (check_limit addr env.readings s).1) [
          | inl b ↦ rw b (udp_parsed-limiter bytes (c.from_bytes bytes) s₁)
          | inr b ↦ rw b (refuse_limited-limiter bytes s₁)
        ]

  module _ (addr : Addr) (env : Round Name) where
    answer_tcp-limiter :
        (query : Message Name) (conn : Conn Addr)
        → limiter_of (answer_tcp c addr env query conn) ≡ conn.shared.rate_limiter
    unfolding answer_tcp
    answer_tcp-limiter query conn = ground arith

    transfer-limiter :
        (query : Message Name) (question : Query Name) (z : Option (Zone Name)) (conn : Conn Addr)
        → limiter_of (transfer c addr env query question z conn) ≡ conn.shared.rate_limiter
    unfolding transfer
    transfer-limiter query question none conn = ground arith
    transfer-limiter query question (some z) conn =
        ground
          (arith, stream_records-Counted c addr env query.id question 0 (get_all_records z) conn)

    transfer_or_answer-limiter :
        (query : Message Name) (question : Option (Query Name)) (conn : Conn Addr)
        → limiter_of (transfer_or_answer c addr env query question conn) ≡ conn.shared.rate_limiter
    transfer_or_answer-limiter query none conn = answer_tcp-limiter query conn
    transfer_or_answer-limiter query (some question) conn =
        elim (Bool-cases (question.query_type ==ₖ RecordType.axfr)) [
          | inl b ↦ rw b (transfer-limiter query question (find_zone env.zones question.name) conn)
          | inr b ↦ rw b (answer_tcp-limiter query conn)
        ]

    serve_query-limiter :
        (query : Message Name) (conn : Conn Addr)
        → limiter_of (serve_query c addr env query conn) ≡ conn.shared.rate_limiter
    unfolding serve_query
    serve_query-limiter query conn = transfer_or_answer-limiter query (first query.queries) (
        count (count_query_type (first query.queries))
          (count (record_query Protocol.tcp (is_some query.edns)) conn))

    handle_query-limiter :
        (query : Message Name) (conn : Conn Addr)
        → limiter_of (handle_query c addr env query conn)
          ≡ after_call (some (addr, env.readings)) conn.shared.rate_limiter
    unfolding handle_query check_limit
    handle_query-limiter query conn =
        let (shared, _) = check_limit addr env.readings conn.shared in
        elim (Bool-cases (check_limit addr env.readings conn.shared).1) [
          | inl b ↦ rw b (serve_query-limiter query (record conn { shared = shared }))
          | inr b ↦ ground arith
        ]

    -- The call for the bytes of a message: one if they are parsed.
    abbrev pub bytes_call : Option Bytes → Option (Addr × Readings)
    bytes_call none = none
    bytes_call (some bytes) = elim (c.from_bytes bytes) [
      | none ↦ none
      | some query ↦ some (addr, env.readings)
    ]

    handle_parsed-limiter :
        (bytes : Bytes) (query : Option (Message Name)) (conn : Conn Addr)
        → limiter_of (handle_parsed c addr env bytes query conn)
          ≡ after_call
              (elim query [ none ↦ none | some q ↦ some (addr, env.readings) ])
              conn.shared.rate_limiter
    handle_parsed-limiter bytes none conn = ground arith
    handle_parsed-limiter bytes (some query) conn = handle_query-limiter query conn

    handle_body-limiter :
        (body : Option Bytes) (conn : Conn Addr)
        → limiter_of (handle_body c addr env body conn)
          ≡ after_call (bytes_call body) conn.shared.rate_limiter
    handle_body-limiter none conn = refl
    handle_body-limiter (some bytes) conn = handle_parsed-limiter bytes (c.from_bytes bytes) conn

    abbrev pub bad_length : ℕ → ℕ → Bool
    bad_length hi lo = ((hi * 256 + lo) == 0) || ltb max_tcp_dns_packet_size (hi * 256 + lo)

    -- The call for a frame: one for a message of an admissible length that is parsed.
    abbrev pub frame_call : Frame → Option (Addr × Readings)
    frame_call (Frame.message hi lo body) = if bad_length hi lo then none else bytes_call body
    frame_call frame = none

    handle_frame-limiter :
        (frame : Frame) (conn : Conn Addr)
        → limiter_of (handle_frame c addr env frame conn)
          ≡ after_call (frame_call frame) conn.shared.rate_limiter
    unfolding handle_frame
    handle_frame-limiter Frame.timed_out conn = refl
    handle_frame-limiter Frame.closed conn = refl
    handle_frame-limiter Frame.failed conn = refl
    handle_frame-limiter (Frame.message hi lo body) conn = elim (Bool-cases (bad_length hi lo)) [
      | inl b ↦ rw b refl
      | inr b ↦ rw b (handle_body-limiter body conn)
    ]

    proceed-limiter :
        (max_queries : ℕ) (turn : Turn Addr)
        → limiter_of (proceed (tcp_loop c addr max_queries []) turn) ≡ limiter_of turn
    unfolding tcp_loop
    proceed-limiter max_queries (again conn) = ground arith
    proceed-limiter max_queries (done conn r) = refl
    proceed-limiter max_queries (Turn.waiting conn) = refl

    -- The call of one turn of a connection: none if it has answered all the queries it may.
    abbrev pub turn_call : ℕ → Frame → Conn Addr → Option (Addr × Readings)
    turn_call max_queries frame conn =
        if leb max_queries conn.queries_handled then none else frame_call frame

    pub turn-limiter :
        (max_queries : ℕ) (frame : Frame) (conn : Conn Addr)
        → limiter_of (tcp_loop c addr max_queries ((env, frame) ∷ []) conn)
          ≡ after_call (turn_call max_queries frame conn) conn.shared.rate_limiter
    unfolding tcp_loop
    turn-limiter max_queries frame conn = elim (Bool-cases (leb max_queries conn.queries_handled)) [
      | inl b ↦ rw b refl
      | inr b ↦ rw b (
          proceed-limiter max_queries (handle_frame c addr env frame conn)
          ∙ handle_frame-limiter frame conn)
    ]
