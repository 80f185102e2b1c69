-- ===== src/Server.antt =====
-- src/server.rs: what the UDP and the TCP handler share: the state that the tasks share, the
-- encoding of messages, and the short error replies.
pub mod Udp
pub mod Tcp
pub mod State
pub mod Run
use lrmdns.Prelude.{
  ℕ, ◌+◌, ◌*◌, Bool, true, false, not, ◌&&◌, Option, none, some, List, [], ◌∷◌, if◌then◌else◌,
  first, is_some,
}
use lrmdns.Prelude.Result.{Result, ok, err}
use lrmdns.HashMap.{Key}
use lrmdns.Dns.Rr.{Bytes}
use lrmdns.Dns.Op.{MessageType, ResponseCode, Query, Message, new_message}
use lrmdns.RateLimit.{RateLimiter, Readings, check_rate_limit}
use lrmdns.Metrics.{Metrics, record_query_type}

abbrev pub max_dns_packet_size : ℕ
max_dns_packet_size = 512

-- The crate's `Message::from_bytes` and `to_bytes`; `none` is an error.
pub record Codec (Name : Type 0) : Type 0 where
  pub from_bytes : Bytes → Option (Message Name)
  pub to_bytes : Message Name → Option Bytes

pub data ServerError : Type 0 where
  encode send read bind : ServerError

-- The limiter and the counters, which all tasks share.
pub record Shared (Addr : Type 0) : Type 0 where
  pub rate_limiter : Option (RateLimiter Addr)
  pub metrics : Metrics

abbrev pub update : {Addr : Type 0} → (Metrics → Metrics) → Shared Addr → Shared Addr
update f s = record s { metrics = f s.metrics }

module _ {Addr : Type 0} ⦃k : Key Addr⦄ where
  abbrev pub limiter_check :
      Addr → Readings → Option (RateLimiter Addr) → Option (RateLimiter Addr) × Bool
  limiter_check a t none = (none, true)
  limiter_check a t (some r) = let (r', admitted) = check_rate_limit a t r in (some r', admitted)

  -- `limiter.check_rate_limit(addr.ip())` if there is a limiter; true lets the query pass
  unfoldable pub check_limit : Addr → Readings → Shared Addr → Shared Addr × Bool
  check_limit a t s =
      let (limiter, admitted) = limiter_check a t s.rate_limiter in
      (record s { rate_limiter = limiter }, admitted)

-- the query id in the first two bytes, or 0
unfoldable pub id_of : Bytes → ℕ
id_of (b₀ ∷ b₁ ∷ _) = b₀ * 256 + b₁
id_of _ = 0

-- a response without a question, for a query that is refused or cannot be parsed
unfoldable pub error_reply : {Name : Type 0} → ℕ → ResponseCode → Message Name
error_reply id code = record new_message {
  id = id;
  message_type = MessageType.response;
  response_code = code;
}

abbrev pub or_encode_error : Option Bytes → Result ServerError Bytes
or_encode_error none = err encode
or_encode_error (some buf) = ok buf

-- `to_bytes()` with `?`
abbrev pub encode_or_fail : {Name : Type 0} → Codec Name → Message Name → Result ServerError Bytes
encode_or_fail c m = or_encode_error (c.to_bytes m)

-- `if let Some(question) = query.queries().first() { metrics.record_query_type(…) }`
abbrev pub count_query_type : {Name : Type 0} → Option (Query Name) → Metrics → Metrics
count_query_type none m = m
count_query_type (some question) m = record_query_type question.query_type m
