-- ===== src/Server/Udp/Size.antt =====
-- What a UDP client receives: the whole response if it fits, else a truncated one.
use lrmdns.Prelude.{ℕ, ◌≤◌, ◌<◌, ◌≡◌, ◌⊎◌, inl, inr, true, some, [], arith, length, Bool-cases, ltb}
use lrmdns.Prelude.Result.{ok, bind-eq-ok}
use lrmdns.Dns.Name.{DnsApi}
use lrmdns.Dns.Rr.{Bytes}
use lrmdns.Dns.Op.{Query, Message, Edns}
use lrmdns.Zone.{Zone}
use lrmdns.Zone.Store.{ZoneStore}
use lrmdns.Protocol.{process_query}
use lrmdns.Protocol.Answers.{Asks, process_query-edns}
use lrmdns.Server.{Codec, encode_or_fail}
use lrmdns.Server.Udp.{max_udp_size, truncate, fit_response, fit_encoded}

module _ {Name : Type 0} (c : Codec Name) where
  -- `m`, encoded as `buf`, is a cut of `m₀` with the TC flag: only sections are emptied, additional
  -- records last, and one that is larger than the limit has none left.
  pub record IsCut (limit : ℕ) (m₀ m : Message Name) (buf : Bytes) : Type 0 where
    pub encoded : c.to_bytes m ≡ some buf
    pub flagged : m.truncated ≡ true
    pub id : m.id ≡ m₀.id
    pub message_type : m.message_type ≡ m₀.message_type
    pub response_code : m.response_code ≡ m₀.response_code
    pub queries : m.queries ≡ m₀.queries
    pub edns : m.edns ≡ m₀.edns
    pub answers : m.answers ≡ []
    pub name_servers : (m.name_servers ≡ m₀.name_servers) ⊎ (m.name_servers ≡ [])
    pub additionals : (m.additionals ≡ m₀.additionals) ⊎ (m.additionals ≡ [])
    pub fits_or_empty : (length buf ≤ limit) ⊎ ((m.name_servers ≡ []) × (m.additionals ≡ []))

  truncate-IsCut :
      (limit : ℕ) (m₀ : Message Name) {m : Message Name} {buf : Bytes}
      → truncate c limit m₀ ≡ ok (m, buf)
      → IsCut limit m₀ m buf
  unfolding truncate
  truncate-IsCut limit m₀ h = ground arith

  -- The whole response goes out unless it is larger than the limit; then a cut of it does.
  pub data Sent (response : Message Name) : Message Name → Bytes → Type 0 where
    whole :
        {m : Message Name} {buf : Bytes}
        → m ≡ response
        → c.to_bytes response ≡ some buf
        → length buf ≤ max_udp_size response
        → Sent response m buf
    cut :
        {m : Message Name} {buf full : Bytes}
        → c.to_bytes response ≡ some full
        → max_udp_size response < length full
        → IsCut (max_udp_size response) response m buf
        → Sent response m buf

  fit_encoded-Sent :
      (response : Message Name) (full : Bytes) {m : Message Name} {buf : Bytes}
      → c.to_bytes response ≡ some full
      → fit_encoded c response full ≡ ok (m, buf)
      → Sent response m buf
  fit_encoded-Sent response full {m} {buf} e h =
      elim (Bool-cases (ltb (max_udp_size response) (length full))) [
        | inl b ↦
            cut {full = full} e (ground arith)
              (truncate-IsCut (max_udp_size response) response (rw b at h))
        | inr b ↦ whole (ground arith) (ground arith) (ground arith)
      ]

  -- A UDP response that is sent is the whole response, within the limit, or else a cut of it with
  -- the TC flag, which is within the limit or has no record left in any section.
  pub fit_response-Sent :
      (response : Message Name) {m : Message Name} {buf : Bytes}
      → fit_response c response ≡ ok (m, buf)
      → Sent response m buf
  unfolding fit_response
  fit_response-Sent response h =
      let (full, e, h') = bind-eq-ok (encode_or_fail c response) (fit_encoded c response) h in
      fit_encoded-Sent response full (ground arith) h'

-- For a query with EDNS, a standard one, no zone transfer, whose name a zone answers for, the size
-- limit is the 4096 bytes that the server advertises, whatever payload the client can receive.
pub max_udp_size-process_query :
    {Name : Type 0} ⦃api : DnsApi Name⦄ {s : ZoneStore Name} {q : Message Name}
    {question : Query Name} {z : Zone Name} (client : Edns)
    → Asks s q question z
    → q.edns ≡ some client
    → max_udp_size (process_query s q) ≡ 4096
unfolding max_udp_size
max_udp_size-process_query client ask e = ground (arith, process_query-edns ask)
