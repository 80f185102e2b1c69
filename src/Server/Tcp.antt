-- ===== src/Server/Tcp.antt =====
-- src/server.rs: handle_tcp_connection. One round of the loop reads one frame; what the network,
-- the clock and the zone lock yield in a round is an argument. The frames that are written and the
-- counters are the state.
pub mod Transfer
pub mod Closing
pub mod Supplied
pub mod Sent
use lrmdns.Prelude.{
  ℕ, suc, ◌+◌, ◌*◌, ◌%◌, ◌^◌, Bool, true, false, not, ◌||◌, Option, none, some, List, [], ◌∷◌, ◌++◌,
  if◌then◌else◌, ltb, leb, ◌==◌, length, first, is_some,
}
use lrmdns.Prelude.Result.{Result, ok, err}
use lrmdns.HashMap.{Key, ◌==ₖ◌}
use lrmdns.Dns.Name.{DnsApi}
use lrmdns.Dns.Rr.{Bytes, RecordType, rtype_key, Record}
use lrmdns.Dns.Op.{MessageType, OpCode, ResponseCode, Query, Message, new_message}
use lrmdns.Zone.{Zone, get_all_records}
use lrmdns.Zone.Store.{ZoneStore, find_zone}
use lrmdns.Protocol.{process_query}
use lrmdns.RateLimit.{Readings}
use lrmdns.Config.{TcpConfig}
use lrmdns.Metrics.{
  Metrics, Protocol, record_query, record_response, record_latency, record_rate_limited,
  record_error, record_tcp_connection, record_tcp_connection_closed, record_tcp_connection_timeout,
}
use lrmdns.Server.{
  Codec, ServerError, send, read, Shared, update, check_limit, id_of, error_reply, encode_or_fail,
  count_query_type,
}

abbrev pub max_tcp_dns_packet_size : ℕ
max_tcp_dns_packet_size = 65535

-- What reading from the stream yields: a timeout, an end of file or an error in place of the length
-- prefix, or its two bytes and then the message, `none` for an error.
pub data Frame : Type 0 where
  timed_out closed failed : Frame
  message : ℕ → ℕ → Option Bytes → Frame

-- One round: the zones at that time, the clock, the time since the start of the round, and whether
-- the n-th write of the round succeeds.
pub record Round (Name : Type 0) : Type 0 where
  pub zones : ZoneStore Name
  pub readings : Readings
  pub elapsed : ℕ
  pub writes : ℕ → Bool

-- A frame that is written: the length as a `u16`, and the message.
pub record Written : Type 0 where
  pub prefix : ℕ
  pub body : Bytes

abbrev pub written : Bytes → Written
written buf = record { prefix = length buf % 2 ^ 16; body = buf }

pub record Conn (Addr : Type 0) : Type 0 where
  pub shared : Shared Addr
  pub queries_handled : ℕ  -- u64
  pub sent : List Written

-- The next round, or the end of the connection with the handler's result.
pub data Turn (Addr : Type 0) : Type 0 where
  again : Conn Addr → Turn Addr
  done : Conn Addr → Result ServerError (Unit {0}) → Turn Addr
  waiting : Conn Addr → Turn Addr

module _ {Addr : Type 0} where
  abbrev pub count : (Metrics → Metrics) → Conn Addr → Conn Addr
  count f conn = record conn { shared = update f conn.shared }

  abbrev pub put : Bytes → Conn Addr → Conn Addr
  put buf conn = record conn { sent = conn.sent ++ written buf ∷ [] }

  abbrev pub proceed : (Conn Addr → Turn Addr) → Turn Addr → Turn Addr
  proceed loop (again conn) = loop conn
  proceed loop (done conn result) = done conn result
  proceed loop (waiting conn) = waiting conn

  abbrev pub close : Conn Addr → Conn Addr
  close conn = count (record_tcp_connection_closed conn.queries_handled) conn

  -- encode, write and update, and end the connection
  abbrev pub reply_and_end :
      {Name : Type 0}
      → Round Name
      → Result ServerError Bytes
      → (Metrics → Metrics)
      → Conn Addr
      → Turn Addr
  reply_and_end env (err e) after conn = done conn (err e)
  reply_and_end env (ok buf) after conn =
      if env.writes 0 then done (count after (put buf conn)) (ok tt) else done conn (err send)

module _ {Name Addr : Type 0} ⦃api : DnsApi Name⦄ ⦃k : Key Addr⦄ (c : Codec Name)
    (addr : Addr) where
  -- one message of a zone transfer
  abbrev pub axfr_message : ℕ → Query Name → Record Name → Message Name
  axfr_message id question r = record new_message {
    id = id;
    message_type = MessageType.response;
    op_code = OpCode.query;
    authoritative = true;
    queries = question ∷ [];
    answers = r ∷ [];
  }

  abbrev pub write_then :
      Bool → Result ServerError Bytes → Conn Addr → Conn Addr × Result ServerError (Unit {0})
  write_then writes (err e) conn = (conn, err e)
  write_then writes (ok buf) conn = if writes then (put buf conn, ok tt) else (conn, err send)

  -- `?` on the result of a write
  abbrev pub stop_on_error :
      Conn Addr
      → Conn Addr × Result ServerError (Unit {0})
      → Result ServerError (Unit {0})
      → Conn Addr × Result ServerError (Unit {0})
  stop_on_error conn rest (ok _) = rest
  stop_on_error conn rest (err e) = (conn, err e)

  -- `for record in all_records`, the n-th write first
  unfoldable pub stream_records :
      Round Name
      → ℕ
      → Query Name
      → ℕ
      → List (Record Name)
      → Conn Addr
      → Conn Addr × Result ServerError (Unit {0})
  stream_records env id question n [] conn = (conn, ok tt)
  stream_records env id question n (r ∷ rs) conn =
      let (conn', result) =
        write_then (env.writes n) (encode_or_fail c (axfr_message id question r)) conn in
      let rest = stream_records env id question (suc n) rs conn' in stop_on_error conn' rest result

  abbrev pub end_transfer : Round Name → Conn Addr × Result ServerError (Unit {0}) → Turn Addr
  end_transfer env (conn, ok _) =
      done (count (λ m. record_latency env.elapsed (record_response ResponseCode.no_error m)) conn)
        (ok tt)
  end_transfer env (conn, err e) = done conn (err e)

  -- `is_axfr`, once the zone is looked up
  unfoldable pub transfer :
      Round Name → Message Name → Query Name → Option (Zone Name) → Conn Addr → Turn Addr
  unfolding error_reply
  transfer env query question (some z) conn =
      end_transfer env (stream_records env query.id question 0 (get_all_records z) conn)
  transfer env query question none conn =
      reply_and_end env
        (encode_or_fail c
          (record (error_reply query.id ResponseCode.refused) { queries = question ∷ [] }))
        (λ m. record_latency env.elapsed (record_response ResponseCode.refused m)) conn

  abbrev pub write_answer :
      Round Name → Message Name → Result ServerError Bytes → Conn Addr → Turn Addr
  write_answer env response (err e) conn = done conn (err e)
  write_answer env response (ok buf) conn =
      if env.writes 0
      then again
          (record (count
            (λ m. record_latency env.elapsed (record_response response.response_code m))
            (put buf conn)) { queries_handled = suc conn.queries_handled })
      else done conn (err send)

  -- a query that is no zone transfer
  unfoldable pub answer_tcp : Round Name → Message Name → Conn Addr → Turn Addr
  answer_tcp env query conn =
      let response = process_query env.zones query in
      write_answer env response (encode_or_fail c response) conn

  abbrev pub transfer_or_answer :
      Round Name → Message Name → Option (Query Name) → Conn Addr → Turn Addr
  transfer_or_answer env query none conn = answer_tcp env query conn
  transfer_or_answer env query (some question) conn =
      if question.query_type ==ₖ RecordType.axfr
      then transfer env query question (find_zone env.zones question.name) conn
      else answer_tcp env query conn

  -- a query that is parsed and within the rate limit
  unfoldable pub serve_query : Round Name → Message Name → Conn Addr → Turn Addr
  serve_query env query conn = transfer_or_answer env query (first query.queries) (
      count (count_query_type (first query.queries))
        (count (record_query Protocol.tcp (is_some query.edns)) conn))

  unfoldable pub handle_query : Round Name → Message Name → Conn Addr → Turn Addr
  handle_query env query conn =
      let (shared, admitted) = check_limit addr env.readings conn.shared in
      let conn₁ = record conn { shared = shared } in
      if admitted
      then serve_query env query conn₁
      else reply_and_end env (encode_or_fail c (error_reply query.id ResponseCode.refused))
          (record_latency env.elapsed)
          (count (λ m. record_response ResponseCode.refused (record_rate_limited m)) conn₁)

  abbrev pub handle_parsed : Round Name → Bytes → Option (Message Name) → Conn Addr → Turn Addr
  handle_parsed env bytes (some query) conn = handle_query env query conn
  handle_parsed env bytes none conn =
      reply_and_end env (encode_or_fail c (error_reply (id_of bytes) ResponseCode.form_err))
        (record_latency env.elapsed)
        (count (λ m. record_response ResponseCode.form_err (record_error m)) conn)

  abbrev pub handle_body : Round Name → Option Bytes → Conn Addr → Turn Addr
  handle_body env none conn = done conn (err read)
  handle_body env (some bytes) conn = handle_parsed env bytes (c.from_bytes bytes) conn

  -- one round, after the check of the number of queries
  unfoldable pub handle_frame : Round Name → Frame → Conn Addr → Turn Addr
  handle_frame env Frame.timed_out conn =
      done (close (count record_tcp_connection_timeout conn)) (ok tt)
  handle_frame env Frame.closed conn = done (close conn) (ok tt)
  handle_frame env Frame.failed conn = done (close conn) (err read)
  handle_frame env (Frame.message hi lo body) conn =
      let msg_len = hi * 256 + lo in
      if (msg_len == 0) || ltb max_tcp_dns_packet_size msg_len
      then done (count record_error conn) (ok tt)
      else handle_body env body conn

  -- The loop, over the rounds that come. The connection waits where they end.
  unfoldable pub tcp_loop : ℕ → List (Round Name × Frame) → Conn Addr → Turn Addr
  tcp_loop max_queries [] conn =
      if leb max_queries conn.queries_handled then done (close conn) (ok tt) else waiting conn
  tcp_loop max_queries ((env, frame) ∷ rest) conn =
      if leb max_queries conn.queries_handled
      then done (close conn) (ok tt)
      else proceed (tcp_loop max_queries rest) (handle_frame env frame conn)

  abbrev pub max_queries_of : Option TcpConfig → ℕ
  max_queries_of none = 100
  max_queries_of (some config) = config.max_queries_per_connection

  -- handle_tcp_connection
  unfoldable pub handle_tcp_connection :
      Option TcpConfig → List (Round Name × Frame) → Shared Addr → Turn Addr
  handle_tcp_connection config rounds shared =
      tcp_loop (max_queries_of config) rounds
        (record { shared = update record_tcp_connection shared; queries_handled = 0; sent = [] })
