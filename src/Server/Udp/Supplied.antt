-- ===== src/Server/Udp/Supplied.antt =====
-- Where the answers of a reply over UDP come from.
use lrmdns.Prelude.{
  ◌≡◌, sym, ◌∙◌, ap, Option, none, some, [], All, All-imp, first, arith, Bool-cases, Option-cases,
  inl, inr,
}
use mathlib.Core.Path.{subst}
use lrmdns.Prelude.Result.{ok, Result-cases}
use lrmdns.HashMap.{Key}
use lrmdns.Dns.Name.{DnsApi}
use lrmdns.Dns.Rr.{Bytes, Record}
use lrmdns.Dns.Op.{ResponseCode, Query, Message}
use lrmdns.Zone.Store.{ZoneStore}
use lrmdns.Zone.Store.Valid.{HasValidZones}
use lrmdns.Protocol.{process_query}
use lrmdns.Protocol.Sources.{Comes, process_query-sources}
use lrmdns.Server.{Codec, Shared, check_limit, id_of, error_reply}
use lrmdns.Server.Udp.{
  UdpEnv, fit_response, handle_udp_query, handle_parsed, answer_udp, reply_form_err, refuse_limited,
}
use lrmdns.Server.Udp.Size.{Sent, whole, cut, fit_response-Sent}

-- the first question of a query, if it could be parsed
abbrev pub question_of : {Name : Type 0} → Option (Message Name) → Option (Query Name)
question_of none = none
question_of (some query) = first query.queries

module _ {Name : Type 0} ⦃api : DnsApi Name⦄ where
  -- The query has a question, and the record comes from the zone that owns its name.
  abbrev pub IsSupply : ZoneStore Name → Option (Message Name) → Record Name → Type 0
  IsSupply s query r =
      (question : Query Name) × (question_of query ≡ some question) × Comes s question r

  -- `buf` encodes a reply whose answers come from the zones.
  pub record IsSupplied (c : Codec Name) (s : ZoneStore Name) (query : Option (Message Name))
      (buf : Bytes) : Type 0 where
    pub reply : Message Name
    pub encoded : c.to_bytes reply ≡ some buf
    pub supplied : All (IsSupply s query) reply.answers

  answers-unasked :
      (s : ZoneStore Name) (q : Message Name)
      → first q.queries ≡ none
      → (process_query s q).answers ≡ []
  unfolding process_query
  answers-unasked s q h = ground arith

  process_query-IsSupply :
      (s : ZoneStore Name) (q : Message Name)
      → HasValidZones s
      → All (IsSupply s (some q)) (process_query s q).answers
  process_query-IsSupply s q h = elim (Option-cases (first q.queries)) [
    | inl e ↦ rw (answers-unasked s q e) tt
    | inr (question, e) ↦
        All-imp (Comes s question) (IsSupply s (some q)) (process_query s q).answers
          (λ r f. (question, e, f)) (process_query-sources s q question h e)
  ]

  Sent-IsSupplied :
      (c : Codec Name) (s : ZoneStore Name) (query : Message Name) {m : Message Name}
      {buf out : Bytes}
      → HasValidZones s
      → buf ≡ out
      → Sent c (process_query s query) m buf
      → IsSupplied c s (some query) out
  Sent-IsSupplied c s query {m} h e (whole p enc l) = record {
    reply = process_query s query;
    encoded = enc ∙ ap some e;
    supplied = process_query-IsSupply s query h;
  }
  Sent-IsSupplied c s query {m} h e (cut enc l i) = record {
    reply = m;
    encoded = i.encoded ∙ ap some e;
    supplied = subst (All (IsSupply s (some query))) (sym i.answers) tt;
  }

  -- an error reply has no answers
  error_reply-IsSupplied :
      (c : Codec Name) (s : ZoneStore Name) (query : Option (Message Name)) (bytes : Bytes)
      (code : ResponseCode) {buf : Bytes}
      → c.to_bytes (error_reply (id_of bytes) code) ≡ some buf
      → IsSupplied c s query buf
  unfolding error_reply
  error_reply-IsSupplied c s query bytes code e = record {
    reply = error_reply (id_of bytes) code;
    encoded = e;
    supplied = tt;
  }

module _ {Name Addr : Type 0} ⦃api : DnsApi Name⦄ ⦃k : Key Addr⦄ (c : Codec Name) (env : UdpEnv)
    (zones : ZoneStore Name) (valid : HasValidZones zones) where
  answer_udp-IsSupplied :
      (query : Message Name) (s : Shared Addr) {buf : Bytes}
      → (answer_udp c env zones query s).1 ≡ ok buf
      → IsSupplied c zones (some query) buf
  unfolding answer_udp
  answer_udp-IsSupplied query s h =
      elim (Result-cases (fit_response c (process_query zones query))) [
        | inl ((m, out), e) ↦
            Sent-IsSupplied c zones query {m = m} {buf = out} valid (ground arith)
              (fit_response-Sent c (process_query zones query) (ground arith))
        | inr (e, p) ↦ absurd (ground arith)
      ]

  handle_parsed-IsSupplied :
      (bytes : Bytes) (query : Option (Message Name)) (s : Shared Addr) {buf : Bytes}
      → (handle_parsed c env zones bytes query s).1 ≡ ok buf
      → IsSupplied c zones query buf
  unfolding reply_form_err
  handle_parsed-IsSupplied bytes none s h =
      error_reply-IsSupplied c zones none bytes ResponseCode.form_err (ground arith)
  handle_parsed-IsSupplied bytes (some query) s h = answer_udp-IsSupplied query s h

  -- Where the zones are well formed, a datagram that is sent encodes a reply whose answers come
  -- from the zone that owns the name of the question; without a question it has no answers.
  pub handle_udp_query-IsSupplied :
      (addr : Addr) (bytes : Bytes) (s : Shared Addr) {buf : Bytes}
      → (handle_udp_query c env zones addr bytes s).1 ≡ ok buf
      → IsSupplied c zones (c.from_bytes bytes) buf
  unfolding handle_udp_query refuse_limited
  handle_udp_query-IsSupplied addr bytes s {buf} h =
      let s₁ = (check_limit addr env.readings s).0 in
      elim (Bool-cases (check_limit addr env.readings s).1) [
        | inl b ↦ handle_parsed-IsSupplied bytes (c.from_bytes bytes) s₁ (rw b at h)
        | inr b ↦
            error_reply-IsSupplied c zones (c.from_bytes bytes) bytes ResponseCode.refused
              (ground arith)
      ]
