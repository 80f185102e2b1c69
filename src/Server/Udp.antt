-- ===== src/Server/Udp.antt =====
-- src/server.rs: handle_udp_query. The result is the datagram that is sent, or the error; a send
-- that fails leaves out the updates that follow it.
pub mod Size
pub mod Paths
pub mod Supplied
pub mod Latency
use lrmdns.Prelude.{
  ℕ, Bool, true, false, not, Option, none, some, List, [], ◌∷◌, if◌then◌else◌, ltb, leb, length,
  first, is_empty, is_some,
}
use lrmdns.Prelude.Result.{Result, ok, err, ◌>>=◌}
use lrmdns.HashMap.{Key}
use lrmdns.Dns.Name.{DnsApi}
use lrmdns.Dns.Rr.{Bytes}
use lrmdns.Dns.Op.{ResponseCode, Message}
use lrmdns.Zone.Store.{ZoneStore}
use lrmdns.Protocol.{process_query}
use lrmdns.RateLimit.{Readings}
use lrmdns.Metrics.{
  Metrics, Protocol, record_query, record_response, record_latency, record_rate_limited,
  record_error,
}
use lrmdns.Server.{
  Codec, ServerError, send, Shared, update, check_limit, id_of, error_reply, encode_or_fail,
  count_query_type, max_dns_packet_size,
}

-- EDNS payload size of the response, or 512
unfoldable pub max_udp_size : {Name : Type 0} → Message Name → ℕ
max_udp_size response = elim response.edns [ some e ↦ e.max_payload | none ↦ max_dns_packet_size ]

-- Whether a smaller message fits, and the message as far as it is cut down.
pub data Trim (Name : Type 0) : Type 0 where
  fits : Message Name → Bytes → Trim Name
  too_large : Message Name → Trim Name

module _ {Name : Type 0} (c : Codec Name) (limit : ℕ) where
  abbrev pub trimmed : Message Name → Bytes → Trim Name
  trimmed m buf = if leb (length buf) limit then fits m buf else too_large m

  -- One of the three loops: `take` empties the section, so the body runs once, or not at all if the
  -- section is empty.
  unfoldable pub trim : Bool → Message Name → Message Name → Result ServerError (Trim Name)
  trim section_empty m taken =
      if section_empty
      then ok (too_large m)
      else (do buf ← encode_or_fail c taken; ok (trimmed taken buf))

  abbrev pub take_answers : Message Name → Message Name
  take_answers m = record m { answers = [] }

  abbrev pub take_name_servers : Message Name → Message Name
  take_name_servers m = record m { name_servers = [] }

  abbrev pub take_additionals : Message Name → Message Name
  take_additionals m = record m { additionals = [] }

  -- the minimal message, sent whatever its size
  abbrev pub last_resort : Trim Name → Result ServerError (Message Name × Bytes)
  last_resort (fits m buf) = ok (m, buf)
  last_resort (too_large m) = do buf ← encode_or_fail c m; ok (m, buf)

  abbrev pub trim_additionals : Trim Name → Result ServerError (Message Name × Bytes)
  trim_additionals (fits m buf) = ok (m, buf)
  trim_additionals (too_large m) = do
    t ← trim (is_empty m.additionals) m (take_additionals m)
    last_resort t

  abbrev pub trim_name_servers : Trim Name → Result ServerError (Message Name × Bytes)
  trim_name_servers (fits m buf) = ok (m, buf)
  trim_name_servers (too_large m) = do
    t ← trim (is_empty m.name_servers) m (take_name_servers m)
    trim_additionals t

  -- the truncated response and its encoding
  unfoldable pub truncate : Message Name → Result ServerError (Message Name × Bytes)
  unfolding trim
  truncate response = do
    let truncated = record response { truncated = true }
    t ← trim (is_empty truncated.answers) truncated (take_answers truncated)
    trim_name_servers t

-- the check of the size
abbrev pub fit_encoded :
    {Name : Type 0} → Codec Name → Message Name → Bytes → Result ServerError (Message Name × Bytes)
fit_encoded c response buf =
    if ltb (max_udp_size response) (length buf)
    then truncate c (max_udp_size response) response
    else ok (response, buf)

-- the response that goes out, and its encoding
unfoldable pub fit_response :
    {Name : Type 0} → Codec Name → Message Name → Result ServerError (Message Name × Bytes)
fit_response c response = do buf ← encode_or_fail c response; fit_encoded c response buf

-- What the environment decides in one call: the clock of the limiter, whether the socket sends,
-- and the time since the start in microseconds.
pub record UdpEnv : Type 0 where
  pub readings : Readings
  pub sends : Bool
  pub elapsed : ℕ

module _ {Name Addr : Type 0} ⦃api : DnsApi Name⦄ ⦃k : Key Addr⦄ (c : Codec Name)
    (env : UdpEnv) where
  -- `socket.send_to(…).await?`, then the updates
  abbrev pub send_then :
      Bytes → (Metrics → Metrics) → Shared Addr → Shared Addr × Result ServerError Bytes
  send_then buf after s = if env.sends then (update after s, ok buf) else (s, err send)

  abbrev pub reply_with :
      Result ServerError Bytes
      → (Metrics → Metrics)
      → Shared Addr
      → Shared Addr × Result ServerError Bytes
  reply_with (ok buf) after s = send_then buf after s
  reply_with (err e) after s = (s, err e)

  unfoldable pub refuse_limited : Bytes → Shared Addr → Shared Addr × Result ServerError Bytes
  refuse_limited bytes s =
      reply_with (encode_or_fail c (error_reply (id_of bytes) ResponseCode.refused)) (λ m. m)
        (update record_rate_limited s)

  unfoldable pub reply_form_err : Bytes → Shared Addr → Shared Addr × Result ServerError Bytes
  reply_form_err bytes s =
      reply_with (encode_or_fail c (error_reply (id_of bytes) ResponseCode.form_err))
        (record_latency env.elapsed)
        (update (λ m. record_response ResponseCode.form_err (record_error m)) s)

  abbrev pub send_fitted :
      Result ServerError (Message Name × Bytes)
      → Shared Addr
      → Shared Addr × Result ServerError Bytes
  send_fitted (ok (m, buf)) s =
      send_then buf (λ x. record_latency env.elapsed (record_response m.response_code x)) s
  send_fitted (err e) s = (s, err e)

  -- a query that is parsed
  unfoldable pub answer_udp :
      ZoneStore Name → Message Name → Shared Addr → Shared Addr × Result ServerError Bytes
  answer_udp zones query s =
      let s₁ = update (record_query Protocol.udp (is_some query.edns)) s in
      let s₂ = update (count_query_type (first query.queries)) s₁ in
      send_fitted (fit_response c (process_query zones query)) s₂

  abbrev pub handle_parsed :
      ZoneStore Name
      → Bytes
      → Option (Message Name)
      → Shared Addr
      → Shared Addr × Result ServerError Bytes
  handle_parsed zones bytes none s = reply_form_err bytes s
  handle_parsed zones bytes (some query) s = answer_udp zones query s

  -- handle_udp_query
  unfoldable pub handle_udp_query :
      ZoneStore Name → Addr → Bytes → Shared Addr → Shared Addr × Result ServerError Bytes
  handle_udp_query zones addr bytes s =
      let (s₁, admitted) = check_limit addr env.readings s in
      if admitted
      then handle_parsed zones bytes (c.from_bytes bytes) s₁
      else refuse_limited bytes s₁
