-- ===== src/Server/Tcp/Transfer.antt =====
-- A zone transfer: which frames it writes.
use lrmdns.Prelude.{
  ℕ, suc, ◌≡◌, refl, ◌∙◌, ap, sym, true, Option, some, List, [], ◌∷◌, ◌++◌, arith, first, is_some,
}
use mathlib.Core.List.{append_assoc, append-nil}
use lrmdns.Prelude.Result.{ok}
use lrmdns.HashMap.{Key, ◌==ₖ◌}
use lrmdns.Dns.Name.{DnsApi}
use lrmdns.Dns.Rr.{Bytes, Record, RecordType, rtype_key}
use lrmdns.Dns.Op.{Query, Message, ResponseCode}
use lrmdns.Zone.{Zone, get_all_records}
use lrmdns.Zone.Store.{find_zone}
use lrmdns.Metrics.{Protocol, record_query, record_response, record_latency}
use lrmdns.Server.{Codec, count_query_type}
use lrmdns.Server.Tcp.{
  Round, Conn, done, Written, written, stream_records, axfr_message, end_transfer, transfer,
  transfer_or_answer, serve_query, put, count,
}

module _ {Name Addr : Type 0} ⦃api : DnsApi Name⦄ ⦃k : Key Addr⦄ (c : Codec Name) (addr : Addr)
    (env : Round Name) where
  -- These messages are encoded as these frames, in order.
  pub data Frames (id : ℕ) (question : Query Name)
      : List (Record Name) → List Written → Type 0 where
    nil : Frames id question [] []
    cons :
        {r : Record Name} {rs : List (Record Name)} {buf : Bytes} {fs : List Written}
        → c.to_bytes (axfr_message c addr id question r) ≡ some buf
        → Frames id question rs fs
        → Frames id question (r ∷ rs) (written buf ∷ fs)

  stream_records-Frames :
      (id : ℕ) (question : Query Name) (n : ℕ) (rs : List (Record Name)) (fs : List Written)
      (conn : Conn Addr)
      → ((m : ℕ) → env.writes m ≡ true)
      → Frames id question rs fs
      → stream_records c addr env id question n rs conn
        ≡ (record conn { sent = conn.sent ++ fs }, ok tt)
  unfolding stream_records
  stream_records-Frames id question n [] [] conn w nil =
      ap (λ l. (record conn { sent = l }, ok tt)) (sym (append-nil conn.sent))
  stream_records-Frames id question n [] (_ ∷ _) conn w x = elim x [ ]
  stream_records-Frames id question n (_ ∷ _) [] conn w x = elim x [ ]
  stream_records-Frames id question n (r ∷ rs) (f ∷ fs) conn w (cons {buf = buf} e x) =
      let ih = stream_records-Frames id question (suc n) rs fs (put buf conn) w x in
      let a = append_assoc {0} conn.sent (written buf ∷ []) fs in
      let wn = w n in ground (arith, e, wn, ih, a)

  transfer_or_answer-transfer :
      (query : Message Name) (question : Query Name) (z : Zone Name) (o : Option (Query Name))
      (fs : List Written) (conn : Conn Addr)
      → o ≡ some question
      → question.query_type ≡ RecordType.axfr
      → find_zone env.zones question.name ≡ some z
      → ((m : ℕ) → env.writes m ≡ true)
      → Frames query.id question (get_all_records z) fs
      → transfer_or_answer c addr env query o conn
        ≡ end_transfer c addr env (record conn { sent = conn.sent ++ fs }, ok tt)
  unfolding transfer
  transfer_or_answer-transfer query question z o fs conn ho ht hz w f =
      let all = stream_records-Frames query.id question 0 (get_all_records z) fs conn w f in
      let is_axfr = ap (λ t. t ==ₖ RecordType.axfr) ht ∙ rtype_key.eq_refl RecordType.axfr in
      rw ho (rw (is_axfr, hz) (ap (end_transfer c addr env) all))

  -- Where every write succeeds and the message of each record can be encoded, a query of type AXFR for a name whose zone is `z` ends the connection
  -- without an error, and what it has written in addition is one frame for each record of the zone, in order.
  pub serve_query-transfer :
      (query : Message Name) (question : Query Name) (z : Zone Name) (fs : List Written)
      (conn : Conn Addr)
      → first query.queries ≡ some question
      → question.query_type ≡ RecordType.axfr
      → find_zone env.zones question.name ≡ some z
      → ((m : ℕ) → env.writes m ≡ true)
      → Frames query.id question (get_all_records z) fs
      → (conn' : Conn Addr) × ((serve_query c addr env query conn ≡ done conn' (ok tt))
          × (conn'.sent ≡ conn.sent ++ fs))
  unfolding serve_query transfer stream_records
  serve_query-transfer query question z fs conn hq ht hz w f =
      let conn₁ =
        count (count_query_type (first query.queries))
          (count (record_query Protocol.tcp (is_some query.edns)) conn) in
      let conn₂ = record conn₁ { sent = conn₁.sent ++ fs } in
      let conn₃ =
        count (λ m. record_latency env.elapsed (record_response ResponseCode.no_error m)) conn₂ in
      (
        conn₃,
        (
          transfer_or_answer-transfer query question z (first query.queries) fs conn₁ hq ht hz w f,
          refl,
        ),
      )
