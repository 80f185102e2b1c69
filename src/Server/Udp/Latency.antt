-- ===== src/Server/Udp/Latency.antt =====
-- The average latency after a series of datagrams: the sum is over the replies, the count over the
-- queries.
use lrmdns.Prelude.{
  ℕ, ◌+◌, ◌/◌, ◌^◌, ◌<◌, ◌≡◌, refl, ◌∙◌, Bool, true, Option, none, some, List, [], ◌∷◌, arith,
  Bool-cases, inl, inr,
}
use lrmdns.Prelude.Result.{Result, ok}
use lrmdns.HashMap.{Key}
use lrmdns.Dns.Name.{DnsApi}
use lrmdns.Dns.Rr.{Bytes}
use lrmdns.Dns.Op.{Message}
use lrmdns.Zone.Store.{ZoneStore}
use lrmdns.Metrics.{
  Metrics, get_snapshot, record_query, record_response, record_query_type, record_latency,
  record_error, record_rate_limited,
}
use lrmdns.Metrics
use lrmdns.Server.{Codec, ServerError, Shared, check_limit}
use lrmdns.Server.Udp.{
  UdpEnv, handle_udp_query, handle_parsed, answer_udp, reply_form_err, refuse_limited,
}

-- A datagram with its sender, and what the environment decides while it is handled.
pub record Arrival (Addr : Type 0) : Type 0 where
  pub env : UdpEnv
  pub addr : Addr
  pub bytes : Bytes

-- the time until the reply, if the datagram is admitted and a reply is sent
abbrev pub reply_time : Bool → Result ServerError Bytes → ℕ → ℕ
reply_time true (ok buf) elapsed = elapsed
reply_time _ _ elapsed = 0

-- 1 for a datagram that is admitted and parsed
abbrev pub query_in : {Name : Type 0} → Bool → Option (Message Name) → ℕ
query_in true (some query) = 1
query_in _ _ = 0

-- The sum of the latencies and the number of queries after a result, when these were added.
abbrev Adds : Metrics → ℕ → ℕ → Metrics → Type 0
Adds m time queries m' =
    (m.total_latency_us + time < 2 ^ 64 → m'.total_latency_us ≡ m.total_latency_us + time)
    × (m.total_queries + queries < 2 ^ 64 → m'.total_queries ≡ m.total_queries + queries)

module _ {Name Addr : Type 0} ⦃api : DnsApi Name⦄ ⦃k : Key Addr⦄ (c : Codec Name)
    (zones : ZoneStore Name) where
  abbrev pub handle : Arrival Addr → Shared Addr → Shared Addr × Result ServerError Bytes
  handle a s = handle_udp_query c a.env zones a.addr a.bytes s

  -- one call of the handler after the other
  abbrev pub handle_all : List (Arrival Addr) → Shared Addr → Shared Addr
  handle_all [] s = s
  handle_all (a ∷ rest) s = handle_all rest (handle a s).0

  abbrev pub time_of : Arrival Addr → Shared Addr → ℕ
  time_of a s = reply_time (check_limit a.addr a.env.readings s).1 (handle a s).1 a.env.elapsed

  abbrev pub query_of : Arrival Addr → Shared Addr → ℕ
  query_of a s = query_in (check_limit a.addr a.env.readings s).1 (c.from_bytes a.bytes)

  -- the times until the replies, summed up
  abbrev pub total_time : List (Arrival Addr) → Shared Addr → ℕ
  total_time [] s = 0
  total_time (a ∷ rest) s = time_of a s + total_time rest (handle a s).0

  -- how many of the datagrams are admitted and parsed
  abbrev pub queries_in : List (Arrival Addr) → Shared Addr → ℕ
  queries_in [] s = 0
  queries_in (a ∷ rest) s = query_of a s + queries_in rest (handle a s).0

  answer_udp-Adds :
      (env : UdpEnv) (query : Message Name) (s : Shared Addr)
      → let (s', result) = answer_udp c env zones query s in
        Adds s.metrics (reply_time true result env.elapsed) 1 s'.metrics
  unfolding answer_udp record_query record_query_type record_response record_latency
  answer_udp-Adds env query s = (λ h. ground (arith, h), λ h. ground (arith, h))

  reply_form_err-Adds :
      (env : UdpEnv) (bytes : Bytes) (s : Shared Addr)
      → let (s', result) = reply_form_err c env bytes s in
        Adds s.metrics (reply_time true result env.elapsed) 0 s'.metrics
  unfolding reply_form_err record_response record_latency record_error
  reply_form_err-Adds env bytes s = (λ h. ground (arith, h), λ h. ground (arith, h))

  refuse_limited-Adds :
      (env : UdpEnv) (bytes : Bytes) (s : Shared Addr)
      → Adds s.metrics 0 0 (refuse_limited c env bytes s).0.metrics
  unfolding refuse_limited record_rate_limited
  refuse_limited-Adds env bytes s = (λ h. ground (arith, h), λ h. ground (arith, h))

  handle_parsed-Adds :
      (env : UdpEnv) (bytes : Bytes) (query : Option (Message Name)) (s : Shared Addr)
      → let (s', result) = handle_parsed c env zones bytes query s in
        Adds s.metrics (reply_time true result env.elapsed) (query_in true query) s'.metrics
  handle_parsed-Adds env bytes none s = reply_form_err-Adds env bytes s
  handle_parsed-Adds env bytes (some query) s = answer_udp-Adds env query s

  handle-Adds :
      (a : Arrival Addr) (s : Shared Addr)
      → Adds s.metrics (time_of a s) (query_of a s) (handle a s).0.metrics
  unfolding handle_udp_query check_limit
  handle-Adds a s =
      let s₁ = (check_limit a.addr a.env.readings s).0 in
      elim (Bool-cases (check_limit a.addr a.env.readings s).1) [
        | inl b ↦ rw b (handle_parsed-Adds a.env a.bytes (c.from_bytes a.bytes) s₁)
        | inr b ↦ rw b (refuse_limited-Adds a.env a.bytes s₁)
      ]

  handle_all-Adds :
      (arrivals : List (Arrival Addr)) (s : Shared Addr)
      → Adds s.metrics
          (total_time arrivals s)
          (queries_in arrivals s)
          (handle_all arrivals s).metrics
  handle_all-Adds [] s = (λ h. omega arith, λ h. omega arith)
  handle_all-Adds (a ∷ rest) s =
      let (time, count) = handle-Adds a s in
      let (times, counts) = handle_all-Adds rest (handle a s).0 in
      (
        λ h. let p = time (omega (arith, h)) in omega (arith, p, times (omega (arith, h, p))),
        λ h. let p = count (omega (arith, h)) in omega (arith, p, counts (omega (arith, h, p))),
      )

  -- After any datagrams, from new counters and with sums that fit 64 bits: the average latency of a
  -- snapshot divides the times of all replies to admitted datagrams, those that could not be parsed
  -- included, by the number of admitted datagrams that were parsed.
  pub avg_latency-handle_all :
      (arrivals : List (Arrival Addr)) (s : Shared Addr) (start now : ℕ)
      → s.metrics ≡ Metrics.new start
      → total_time arrivals s < 2 ^ 64
      → 0 < queries_in arrivals s
      → queries_in arrivals s < 2 ^ 64
      → (get_snapshot now (handle_all arrivals s).metrics).avg_latency_us
        ≡ total_time arrivals s / queries_in arrivals s
  unfolding get_snapshot Metrics.new
  avg_latency-handle_all arrivals s start now e h positive fits =
      let no_time : s.metrics.total_latency_us ≡ 0 = rw e refl in
      let no_query : s.metrics.total_queries ≡ 0 = rw e refl in
      let (times, counts) = handle_all-Adds arrivals s in
      let time : (handle_all arrivals s).metrics.total_latency_us ≡ total_time arrivals s =
        times (omega (arith, no_time, h)) ∙ omega (arith, no_time) in
      let count : (handle_all arrivals s).metrics.total_queries ≡ queries_in arrivals s =
        counts (omega (arith, no_query, fits)) ∙ omega (arith, no_query) in
      ground (arith, time, count, positive)
