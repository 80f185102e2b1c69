-- ===== src/Server/Tcp/Closing.antt =====
-- How a connection ends: the bound on its queries, and what its end adds to the counters.
use lrmdns.Prelude.{
  ℕ, suc, ◌+◌, ◌≤◌, ◌≡◌, refl, true, ◌⊎◌, inl, inr, Option, none, some, List, [], ◌∷◌, ◌++◌, map,
  length, arith, first, is_some, leb, Bool-cases,
}
use lrmdns.HashMap.{Key, ◌==ₖ◌}
use lrmdns.Dns.Name.{DnsApi}
use lrmdns.Dns.Rr.{Bytes, Record, RecordType, rtype_key}
use lrmdns.Dns.Op.{Query, Message}
use lrmdns.Zone.{Zone, get_all_records}
use lrmdns.Zone.Store.{find_zone}
use lrmdns.Metrics.{
  Protocol, u64, record_query, record_query_type, record_response, record_latency,
  record_rate_limited, record_error, record_tcp_connection_closed, record_tcp_connection_timeout,
}
use lrmdns.Server.{Codec, check_limit, encode_or_fail, count_query_type}
use lrmdns.Server.Tcp.{
  Frame, message, count, Round, Conn, Turn, again, done, waiting, stream_records, write_then,
  axfr_message, transfer, answer_tcp, transfer_or_answer, serve_query, handle_query, handle_parsed,
  handle_body, handle_frame, proceed, tcp_loop,
}

-- the connection after a turn
abbrev pub end_conn : {Addr : Type 0} → Turn Addr → Conn Addr
end_conn (again conn) = conn
end_conn (done conn result) = conn
end_conn (waiting conn) = conn

-- a round that reads a message: its two length bytes, and the body if it comes
abbrev pub as_round : {Name : Type 0} → Round Name × (ℕ × ℕ × Option Bytes) → Round Name × Frame
as_round (env, (hi, lo, body)) = (env, message hi lo body)

module _ {Name Addr : Type 0} ⦃api : DnsApi Name⦄ ⦃k : Key Addr⦄ (c : Codec Name)
    (addr : Addr) where
  -- What a round does to the number of queries and to the sum over closed connections.
  abbrev pub Counted : Conn Addr → Turn Addr → Type 0
  Counted conn (again conn') =
      (conn'.queries_handled ≡ suc conn.queries_handled)
      × (conn'.shared.metrics.tcp_queries_per_connection
          ≡ conn.shared.metrics.tcp_queries_per_connection)
  Counted conn (done conn' result) =
      (conn'.queries_handled ≡ conn.queries_handled)
      × (conn'.shared.metrics.tcp_queries_per_connection
          ≡ conn.shared.metrics.tcp_queries_per_connection)
  Counted conn (waiting conn') = ⊥

  pub stream_records-Counted :
      (env : Round Name) (id : ℕ) (question : Query Name) (n : ℕ) (rs : List (Record Name))
      (conn : Conn Addr)
      → ((stream_records c addr env id question n rs conn).0.queries_handled ≡ conn.queries_handled)
        × ((stream_records c addr env id question n rs conn).0.shared ≡ conn.shared)
  unfolding stream_records
  stream_records-Counted env id question n [] conn = (refl, refl)
  stream_records-Counted env id question n (r ∷ rs) conn = ground (
    arith,
    stream_records-Counted env id question (suc n) rs
        (write_then c addr (env.writes n) (encode_or_fail c (axfr_message c addr id question r))
          conn).0,
  )

  answer_tcp-Counted :
      (env : Round Name) (query : Message Name) (conn : Conn Addr)
      → Counted conn (answer_tcp c addr env query conn)
  unfolding answer_tcp record_response record_latency
  answer_tcp-Counted env query conn = ground arith

  transfer-Counted :
      (env : Round Name) (query : Message Name) (question : Query Name) (z : Option (Zone Name))
      (conn : Conn Addr)
      → Counted conn (transfer c addr env query question z conn)
  unfolding transfer record_response record_latency
  transfer-Counted env query question none conn = ground arith
  transfer-Counted env query question (some z) conn =
      ground (arith, stream_records-Counted env query.id question 0 (get_all_records z) conn)

  transfer_or_answer-Counted :
      (env : Round Name) (query : Message Name) (question : Option (Query Name)) (conn : Conn Addr)
      → Counted conn (transfer_or_answer c addr env query question conn)
  transfer_or_answer-Counted env query none conn = answer_tcp-Counted env query conn
  transfer_or_answer-Counted env query (some question) conn =
      elim (Bool-cases (question.query_type ==ₖ RecordType.axfr)) [
        | inl b ↦
            rw b (transfer-Counted env query question (find_zone env.zones question.name) conn)
        | inr b ↦ rw b (answer_tcp-Counted env query conn)
      ]

  -- `Counted` looks at two numbers of the connection, so it holds from any other with the same two.
  Counted-from :
      (conn conn₁ : Conn Addr) (turn : Turn Addr)
      → conn₁.queries_handled ≡ conn.queries_handled
      → conn₁.shared.metrics.tcp_queries_per_connection
        ≡ conn.shared.metrics.tcp_queries_per_connection
      → Counted conn₁ turn
      → Counted conn turn
  Counted-from conn conn₁ (again x) p q h = ground arith
  Counted-from conn conn₁ (done x r) p q h = ground arith
  Counted-from conn conn₁ (waiting x) p q h = h

  serve_query-Counted :
      (env : Round Name) (query : Message Name) (conn : Conn Addr)
      → Counted conn (serve_query c addr env query conn)
  unfolding serve_query record_query record_query_type
  serve_query-Counted env query conn =
      let conn₁ =
        count (count_query_type (first query.queries))
          (count (record_query Protocol.tcp (is_some query.edns)) conn) in
      Counted-from conn conn₁ (serve_query c addr env query conn) refl (ground arith)
        (transfer_or_answer-Counted env query (first query.queries) conn₁)

  handle_query-Counted :
      (env : Round Name) (query : Message Name) (conn : Conn Addr)
      → Counted conn (handle_query c addr env query conn)
  unfolding handle_query check_limit record_response record_latency record_rate_limited
  handle_query-Counted env query conn =
      let (shared, admitted) = check_limit addr env.readings conn.shared in
      let conn₁ = record conn { shared = shared } in
      elim (Bool-cases admitted) [
        | inl b ↦ rw b (Counted-from conn conn₁ _ refl refl (serve_query-Counted env query conn₁))
        | inr b ↦ rw b (ground arith)
      ]

  handle_parsed-Counted :
      (env : Round Name) (bytes : Bytes) (query : Option (Message Name)) (conn : Conn Addr)
      → Counted conn (handle_parsed c addr env bytes query conn)
  unfolding record_response record_latency record_error
  handle_parsed-Counted env bytes none conn = ground arith
  handle_parsed-Counted env bytes (some query) conn = handle_query-Counted env query conn

  handle_body-Counted :
      (env : Round Name) (body : Option Bytes) (conn : Conn Addr)
      → Counted conn (handle_body c addr env body conn)
  handle_body-Counted env none conn = (refl, refl)
  handle_body-Counted env (some bytes) conn =
      handle_parsed-Counted env bytes (c.from_bytes bytes) conn

  -- A round that reads a message adds one query and goes on, or ends the connection with the number
  -- of queries unchanged. Either way it leaves the sum of the queries over closed connections: what
  -- a connection handled before it ends on a message is never added to it.
  pub handle_frame-message_Counted :
      (env : Round Name) (hi lo : ℕ) (body : Option Bytes) (conn : Conn Addr)
      → Counted conn (handle_frame c addr env (message hi lo body) conn)
  unfolding handle_frame record_error
  handle_frame-message_Counted env hi lo body conn =
      ground (arith, handle_body-Counted env body conn)

  -- A connection that times out while it waits for a length, or whose client goes away, or where that
  -- read fails, sends nothing, and adds its queries to the sum over closed connections, modulo 2^64.
  pub handle_frame-idle :
      (env : Round Name) (frame : Frame) (conn : Conn Addr)
      → (frame ≡ Frame.timed_out) ⊎ ((frame ≡ Frame.closed) ⊎ (frame ≡ Frame.failed))
      → let conn' = end_conn (handle_frame c addr env frame conn) in
        (conn'.queries_handled ≡ conn.queries_handled)
        × (conn'.shared.metrics.tcp_queries_per_connection
            ≡ u64 (conn.shared.metrics.tcp_queries_per_connection + conn.queries_handled))
        × (conn'.sent ≡ conn.sent)
  unfolding handle_frame record_tcp_connection_timeout record_tcp_connection_closed
  handle_frame-idle env frame conn h = ground arith

  -- A loop that goes on from a message goes on with one query more, or ends.
  proceed-Counted :
      (conn : Conn Addr) (turn : Turn Addr) (loop loop' : Conn Addr → Turn Addr)
      → Counted conn turn
      → ((next : Conn Addr)
          → next.queries_handled ≡ suc conn.queries_handled
          → loop next ≡ loop' next)
      → proceed loop turn ≡ proceed loop' turn
  proceed-Counted conn (again next) loop loop' h agree = agree next h.0
  proceed-Counted conn (done next result) loop loop' h agree = refl
  proceed-Counted conn (waiting next) loop loop' h agree = absurd h

  -- A connection reads no more messages than the limit allows: after `n` messages, where the
  -- queries that it had handled before and `n` reach the limit, whatever else comes in makes no
  -- difference to what it sends, to the counters, or to how it ends.
  pub tcp_loop-bounded :
      (max_queries : ℕ) (messages : List (Round Name × (ℕ × ℕ × Option Bytes)))
      (later : List (Round Name × Frame)) (conn : Conn Addr)
      → max_queries ≤ length messages + conn.queries_handled
      → tcp_loop c addr max_queries (map as_round messages ++ later) conn
        ≡ tcp_loop c addr max_queries (map as_round messages) conn
  unfolding tcp_loop
  tcp_loop-bounded max_queries [] [] conn h = refl
  tcp_loop-bounded max_queries [] ((env, frame) ∷ later) conn h =
      let full : leb max_queries conn.queries_handled ≡ true = ground (arith, h) in rw full refl
  tcp_loop-bounded max_queries ((env, (hi, lo, body)) ∷ rest) later conn h =
      elim (Bool-cases (leb max_queries conn.queries_handled)) [
        | inl b ↦ rw b refl
        | inr b ↦ rw b (
            proceed-Counted conn (handle_frame c addr env (message hi lo body) conn)
              (tcp_loop c addr max_queries (map as_round rest ++ later))
              (tcp_loop c addr max_queries (map as_round rest))
              (handle_frame-message_Counted env hi lo body conn)
              (λ next e. tcp_loop-bounded max_queries rest later next (omega (arith, h, e))))
      ]
