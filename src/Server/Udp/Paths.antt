-- ===== src/Server/Udp/Paths.antt =====
-- One datagram, one reply, one count: the paths of the UDP handler together.
use lrmdns.Prelude.{
  ℕ, ◌+◌, ◌≡◌, refl, Bool, true, false, Option, none, some, arith, Bool-cases, inl, inr, ◌∙◌, ap,
}
use lrmdns.Prelude.Result.{ok, Result-cases}
use lrmdns.HashMap.{Key}
use lrmdns.Dns.Name.{DnsApi}
use lrmdns.Dns.Rr.{Bytes}
use lrmdns.Dns.Op.{MessageType, ResponseCode, Message}
use lrmdns.Zone.Store.{ZoneStore}
use lrmdns.Protocol.{process_query}
use lrmdns.Protocol.Header.{process_query-echoes}
use lrmdns.Metrics.{
  Metrics, u64, record_query, record_response, record_latency, record_rate_limited, record_error,
  record_query_type,
}
use lrmdns.Server.{Codec, Shared, check_limit, id_of, error_reply}
use lrmdns.Server.Udp.{
  UdpEnv, fit_response, handle_udp_query, handle_parsed, answer_udp, reply_form_err, refuse_limited,
}
use lrmdns.Server.Udp.Size.{Sent, whole, cut, fit_response-Sent}

-- the queries, the refused datagrams and the errors so far
abbrev pub datagrams : Metrics → ℕ
datagrams m = m.total_queries + m.rate_limited + m.errors

-- The id that the reply must have: the query's, or that in the first two bytes.
abbrev pub reply_id : {Name : Type 0} → Bool → Bytes → Option (Message Name) → ℕ
reply_id true bytes (some query) = query.id
reply_id true bytes none = id_of bytes
reply_id false bytes query = id_of bytes

pub record RepliesTo {Name : Type 0} (c : Codec Name) (id : ℕ) (buf : Bytes) : Type 0 where
  pub reply : Message Name
  pub encoded : c.to_bytes reply ≡ some buf
  pub message_type : reply.message_type ≡ MessageType.response
  pub same_id : reply.id ≡ id

RepliesTo-of_Sent :
    {Name : Type 0} (c : Codec Name) (query response : Message Name) {m : Message Name}
    {buf out : Bytes}
    → response.id ≡ query.id
    → response.message_type ≡ MessageType.response
    → buf ≡ out
    → Sent c response m buf
    → RepliesTo c query.id out
RepliesTo-of_Sent c query response {m} same is_response e (whole p enc l) = record {
  reply = response;
  encoded = enc ∙ ap some e;
  message_type = is_response;
  same_id = same;
}
RepliesTo-of_Sent c query response {m} same is_response e (cut enc l i) = record {
  reply = m;
  encoded = i.encoded ∙ ap some e;
  message_type = i.message_type ∙ is_response;
  same_id = i.id ∙ same;
}

module _ {Name Addr : Type 0} ⦃api : DnsApi Name⦄ ⦃k : Key Addr⦄ (c : Codec Name) (env : UdpEnv)
    (zones : ZoneStore Name) where
  datagrams-answer_udp :
      (query : Message Name) (s : Shared Addr)
      → u64 (datagrams (answer_udp c env zones query s).0.metrics) ≡ u64 (datagrams s.metrics + 1)
  unfolding answer_udp record_query record_response record_latency record_query_type
  datagrams-answer_udp query s = ground arith

  datagrams-reply_form_err :
      (bytes : Bytes) (s : Shared Addr)
      → u64 (datagrams (reply_form_err c env bytes s).0.metrics) ≡ u64 (datagrams s.metrics + 1)
  unfolding reply_form_err record_response record_latency record_error
  datagrams-reply_form_err bytes s = ground arith

  datagrams-refuse_limited :
      (bytes : Bytes) (s : Shared Addr)
      → u64 (datagrams (refuse_limited c env bytes s).0.metrics) ≡ u64 (datagrams s.metrics + 1)
  unfolding refuse_limited record_rate_limited
  datagrams-refuse_limited bytes s = ground arith

  datagrams-handle_parsed :
      (bytes : Bytes) (query : Option (Message Name)) (s : Shared Addr)
      → u64 (datagrams (handle_parsed c env zones bytes query s).0.metrics)
        ≡ u64 (datagrams s.metrics + 1)
  datagrams-handle_parsed bytes none s = datagrams-reply_form_err bytes s
  datagrams-handle_parsed bytes (some query) s = datagrams-answer_udp query s

  -- Every datagram adds one to the queries, the rate-limited queries or the errors, modulo 2^64.
  pub datagrams-handle_udp_query :
      (addr : Addr) (bytes : Bytes) (s : Shared Addr)
      → u64 (datagrams (handle_udp_query c env zones addr bytes s).0.metrics)
        ≡ u64 (datagrams s.metrics + 1)
  unfolding handle_udp_query check_limit
  datagrams-handle_udp_query addr bytes s =
      let s₁ = (check_limit addr env.readings s).0 in
      elim (Bool-cases (check_limit addr env.readings s).1) [
        | inl b ↦ rw b (datagrams-handle_parsed bytes (c.from_bytes bytes) s₁)
        | inr b ↦ rw b (datagrams-refuse_limited bytes s₁)
      ]

  answer_udp-RepliesTo :
      (query : Message Name) (s : Shared Addr) {buf : Bytes}
      → (answer_udp c env zones query s).1 ≡ ok buf
      → RepliesTo c query.id buf
  unfolding answer_udp
  answer_udp-RepliesTo query s h =
      elim (Result-cases (fit_response c (process_query zones query))) [
        | inl ((m, out), e) ↦
            RepliesTo-of_Sent c query (process_query zones query) {m = m} {buf = out}
              (process_query-echoes zones query).0 (process_query-echoes zones query).1
              (ground arith) (fit_response-Sent c (process_query zones query) (ground arith))
        | inr (e, p) ↦ absurd (ground arith)
      ]

  reply_form_err-RepliesTo :
      (bytes : Bytes) (s : Shared Addr) {buf : Bytes}
      → (reply_form_err c env bytes s).1 ≡ ok buf
      → RepliesTo c (id_of bytes) buf
  unfolding reply_form_err error_reply
  reply_form_err-RepliesTo bytes s h = record {
    reply = error_reply (id_of bytes) ResponseCode.form_err;
    encoded = ground arith;
    message_type = refl;
    same_id = refl;
  }

  refuse_limited-RepliesTo :
      (bytes : Bytes) (s : Shared Addr) {buf : Bytes}
      → (refuse_limited c env bytes s).1 ≡ ok buf
      → RepliesTo c (id_of bytes) buf
  unfolding refuse_limited error_reply
  refuse_limited-RepliesTo bytes s h = record {
    reply = error_reply (id_of bytes) ResponseCode.refused;
    encoded = ground arith;
    message_type = refl;
    same_id = refl;
  }

  handle_parsed-RepliesTo :
      (bytes : Bytes) (query : Option (Message Name)) (s : Shared Addr) {buf : Bytes}
      → (handle_parsed c env zones bytes query s).1 ≡ ok buf
      → RepliesTo c (reply_id true bytes query) buf
  handle_parsed-RepliesTo bytes none s h = reply_form_err-RepliesTo bytes s h
  handle_parsed-RepliesTo bytes (some query) s h = answer_udp-RepliesTo query s h

  -- A datagram that is sent encodes a response with the id of the query, on every path; where the
  -- query is rate limited or not parsed, with the id in its first two bytes.
  pub handle_udp_query-RepliesTo :
      (addr : Addr) (bytes : Bytes) (s : Shared Addr) {buf : Bytes}
      → (handle_udp_query c env zones addr bytes s).1 ≡ ok buf
      → RepliesTo c (reply_id (check_limit addr env.readings s).1 bytes (c.from_bytes bytes)) buf
  unfolding handle_udp_query
  handle_udp_query-RepliesTo addr bytes s {buf} h =
      let s₁ = (check_limit addr env.readings s).0 in
      elim (Bool-cases (check_limit addr env.readings s).1) [
        | inl b ↦ rw b (handle_parsed-RepliesTo bytes (c.from_bytes bytes) s₁ (rw b at h))
        | inr b ↦ rw b (refuse_limited-RepliesTo bytes s₁ (rw b at h))
      ]
