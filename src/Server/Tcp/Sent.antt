-- ===== src/Server/Tcp/Sent.antt =====
-- The frames that a round writes: each is supplied by the zones of the round.
use lrmdns.Prelude.{
  ℕ, suc, ◌≡◌, refl, Bool, true, false, Option, none, some, List, [], ◌∷◌, All, All-append, first,
  arith, Bool-cases, Option-cases, inl, inr, ltb, ◌==◌, ◌||◌, ◌+◌, ◌*◌,
}
use lrmdns.Prelude.Result.{Result, ok, err, Result-cases}
use lrmdns.HashMap.{Key, ◌==ₖ◌}
use lrmdns.Dns.Name.{DnsApi}
use lrmdns.Dns.Rr.{Bytes, RecordType, rtype_key, Record}
use lrmdns.Dns.Op.{Query, Message}
use lrmdns.Zone.{Zone, get_all_records}
use lrmdns.Zone.Store.{find_zone}
use lrmdns.Zone.Store.Valid.{HasValidZones, find_zone-IsWellFormed}
use lrmdns.Protocol.{process_query}
use lrmdns.Metrics.{Metrics}
use lrmdns.Server.{Codec, ServerError, check_limit, encode_or_fail, error_reply}
use lrmdns.Server.Tcp.{
  Frame, Round, Written, Conn, stream_records, write_then, axfr_message, transfer, end_transfer,
  reply_and_end, write_answer, answer_tcp, transfer_or_answer, stop_on_error, serve_query,
  handle_query, handle_body, handle_frame, put, message, max_tcp_dns_packet_size,
}
use lrmdns.Server.Tcp.Closing.{end_conn}
use lrmdns.Server.Tcp.Supplied.{
  Has, Publishes, IsSuppliedFrame, get_all_records-Has, process_query-Publishes,
}

module _ {Name Addr : Type 0} ⦃api : DnsApi Name⦄ ⦃k : Key Addr⦄ (c : Codec Name) (addr : Addr)
    (env : Round Name) (valid : HasValidZones env.zones) (P : Written → Type 0)
    (give : (f : Written) → IsSuppliedFrame c env.zones f → P f) where
  put-All :
      (m : Message Name) (buf : Bytes) (conn : Conn Addr)
      → encode_or_fail c m ≡ ok buf
      → All (Publishes env.zones m.queries) m.answers
      → All P conn.sent
      → All P (put buf conn).sent
  put-All m buf conn e a h =
      All-append P conn.sent _ h
        (give _ (record { prefix = refl; reply = m; encoded = ground arith; supplied = a }), tt)

  -- a reply that ends the connection
  reply_and_end-All :
      (m : Message Name) (after : Metrics → Metrics) (conn : Conn Addr)
      → All (Publishes env.zones m.queries) m.answers
      → All P conn.sent
      → All P (end_conn (reply_and_end env (encode_or_fail c m) after conn)).sent
  reply_and_end-All m after conn a h = elim (Result-cases (encode_or_fail c m)) [
    | inl (buf, e) ↦ elim (Bool-cases (env.writes 0)) [
      | inl b ↦ rw (e, b) (put-All m buf conn e a h)
      | inr b ↦ rw (e, b) h
    ]
    | inr (x, e) ↦ rw e h
  ]

  write_answer-All :
      (m : Message Name) (conn : Conn Addr)
      → All (Publishes env.zones m.queries) m.answers
      → All P conn.sent
      → All P (end_conn (write_answer c addr env m (encode_or_fail c m) conn)).sent
  write_answer-All m conn a h = elim (Result-cases (encode_or_fail c m)) [
    | inl (buf, e) ↦ elim (Bool-cases (env.writes 0)) [
      | inl b ↦ rw (e, b) (put-All m buf conn e a h)
      | inr b ↦ rw (e, b) h
    ]
    | inr (x, e) ↦ rw e h
  ]

  answer_tcp-All :
      (query : Message Name) (conn : Conn Addr)
      → All P conn.sent
      → All P (end_conn (answer_tcp c addr env query conn)).sent
  unfolding answer_tcp
  answer_tcp-All query conn h =
      write_answer-All (process_query env.zones query) conn
        (process_query-Publishes env.zones query valid) h

  write_then-All :
      (m : Message Name) (writes : Bool) (conn : Conn Addr)
      → All (Publishes env.zones m.queries) m.answers
      → All P conn.sent
      → All P (write_then c addr writes (encode_or_fail c m) conn).0.sent
  write_then-All m true conn a h = elim (Result-cases (encode_or_fail c m)) [
    | inl (buf, e) ↦ rw e (put-All m buf conn e a h)
    | inr (x, e) ↦ rw e h
  ]
  write_then-All m false conn a h = elim (Result-cases (encode_or_fail c m)) [
    | inl (buf, e) ↦ rw e h
    | inr (x, e) ↦ rw e h
  ]

  -- Going on after a write, or ending where it failed.
  step-All :
      (result : Result ServerError (Unit {0})) (rest : Conn Addr × Result ServerError (Unit {0}))
      (conn : Conn Addr)
      → All P rest.0.sent
      → All P conn.sent
      → All P (stop_on_error c addr conn rest result).0.sent
  step-All (ok _) rest conn r h = r
  step-All (err e) rest conn r h = h

  stream_records-All :
      (id : ℕ) (question : Query Name) (z : Zone Name) (n : ℕ) (rs : List (Record Name))
      (conn : Conn Addr)
      → find_zone env.zones question.name ≡ some z
      → All (Has z) rs
      → All P conn.sent
      → All P (stream_records c addr env id question n rs conn).0.sent
  unfolding stream_records
  stream_records-All id question z n [] conn o a h = h
  stream_records-All id question z n (r ∷ rs) conn o a h =
      let m = axfr_message c addr id question r in
      let published : Publishes env.zones m.queries r = record {
        question = question;
        asked = refl;
        zone = z;
        owned = o;
        has = a.0;
      } in
      let written = write_then-All m (env.writes n) conn (published, tt) h in
      step-All _ _ _ (stream_records-All id question z (suc n) rs _ o a.1 written) written

  end_transfer-All :
      (r : Conn Addr × Result ServerError (Unit {0}))
      → All P r.0.sent
      → All P (end_conn (end_transfer c addr env r)).sent
  end_transfer-All (conn, ok _) h = h
  end_transfer-All (conn, err e) h = h

  transfer-All :
      (query : Message Name) (question : Query Name) (conn : Conn Addr)
      → All P conn.sent
      → All P
          (end_conn
            (transfer c addr env query question (find_zone env.zones question.name) conn)).sent
  unfolding transfer error_reply
  transfer-All query question conn h = elim (Option-cases (find_zone env.zones question.name)) [
    | inl e ↦ rw e (reply_and_end-All _ _ conn tt h)
    | inr (z, e) ↦ rw e (
        end_transfer-All _ (
          stream_records-All query.id question z 0 (get_all_records z) conn e
            (get_all_records-Has z (find_zone-IsWellFormed env.zones question.name valid e)) h))
  ]

  transfer_or_answer-All :
      (query : Message Name) (question : Option (Query Name)) (conn : Conn Addr)
      → All P conn.sent
      → All P (end_conn (transfer_or_answer c addr env query question conn)).sent
  transfer_or_answer-All query none conn h = answer_tcp-All query conn h
  transfer_or_answer-All query (some question) conn h =
      elim (Bool-cases (question.query_type ==ₖ RecordType.axfr)) [
        | inl b ↦ rw b (transfer-All query question conn h)
        | inr b ↦ rw b (answer_tcp-All query conn h)
      ]

  handle_query-All :
      (query : Message Name) (conn : Conn Addr)
      → All P conn.sent
      → All P (end_conn (handle_query c addr env query conn)).sent
  unfolding handle_query serve_query error_reply
  handle_query-All query conn h = elim (Bool-cases (check_limit addr env.readings conn.shared).1) [
    | inl b ↦ rw b (transfer_or_answer-All query (first query.queries) _ h)
    | inr b ↦ rw b (reply_and_end-All _ _ _ tt h)
  ]

  handle_body-All :
      (body : Option Bytes) (conn : Conn Addr)
      → All P conn.sent
      → All P (end_conn (handle_body c addr env body conn)).sent
  unfolding error_reply
  handle_body-All none conn h = h
  handle_body-All (some bytes) conn h = elim (Option-cases (c.from_bytes bytes)) [
    | inl e ↦ rw e (reply_and_end-All _ _ _ tt h)
    | inr (query, e) ↦ rw e (handle_query-All query conn h)
  ]

  -- Where the zones of a round are well formed, each frame that the round writes encodes a reply
  -- with answers that the zone of its question has.
  pub handle_frame-All :
      (frame : Frame) (conn : Conn Addr)
      → All P conn.sent
      → All P (end_conn (handle_frame c addr env frame conn)).sent
  unfolding handle_frame
  handle_frame-All Frame.timed_out conn h = h
  handle_frame-All Frame.closed conn h = h
  handle_frame-All Frame.failed conn h = h
  handle_frame-All (message hi lo body) conn h =
      let msg_len = hi * 256 + lo in
      elim (Bool-cases ((msg_len == 0) || ltb max_tcp_dns_packet_size msg_len)) [
        | inl b ↦ rw b h
        | inr b ↦ rw b (handle_body-All body conn h)
      ]
