-- ===== src/Protocol/Header.antt =====
-- What building the answer leaves alone: every field but the code and the sections.
use lrmdns.Prelude.{
  ◌≡◌, Bool, true, false, if◌then◌else◌, is_some, Option, none, some, List, [], arith,
}
use lrmdns.Dns.Name.{DnsApi}
use lrmdns.Dns.Rr.{RecordType, Record}
use lrmdns.Dns.Op.{MessageType, OpCode, Query, Message, set_authoritative}
use lrmdns.Zone.{Zone}
use lrmdns.Zone.Store.{ZoneStore}
use lrmdns.Protocol.{
  find_records, answer, answer_missing, chase_all, add_authority, add_edns, answer_in_zone,
  process_query, dnssec_ok,
}
use lrmdns.Protocol.Chase.{chase_all-eq}

pub record SameHeader {Name : Type 0} (m₀ m : Message Name) : Type 0 where
  pub id : m.id ≡ m₀.id
  pub message_type : m.message_type ≡ m₀.message_type
  pub op_code : m.op_code ≡ m₀.op_code
  pub authoritative : m.authoritative ≡ m₀.authoritative
  pub truncated : m.truncated ≡ m₀.truncated
  pub recursion_desired : m.recursion_desired ≡ m₀.recursion_desired
  pub recursion_available : m.recursion_available ≡ m₀.recursion_available
  pub queries : m.queries ≡ m₀.queries
  pub additionals : m.additionals ≡ m₀.additionals
  pub edns : m.edns ≡ m₀.edns

module _ {Name : Type 0} ⦃api : DnsApi Name⦄ where
  module _ (z : Zone Name) (question : Query Name) (do_flag : Bool) (m : Message Name) where
    chase_all-SameHeader :
        (t : RecordType) (rs : List (Record Name)) → SameHeader m (chase_all z t rs m)
    chase_all-SameHeader t rs = rw chase_all-eq (ground arith)

    answer_missing-SameHeader :
        (found : Option (List (Record Name)))
        → SameHeader m (answer_missing z question.name question.query_type found m)
    unfolding answer
    answer_missing-SameHeader none = ground arith
    answer_missing-SameHeader (some rs) =
        ground (arith, chase_all-SameHeader question.query_type rs)

    pub answer-SameHeader :
        (found : Option (List (Record Name)))
        → SameHeader m (answer z question.name question.query_type do_flag found m)
    unfolding answer
    answer-SameHeader (some rs) = ground arith
    answer-SameHeader none =
        answer_missing-SameHeader (find_records z question.name RecordType.cname)

  pub add_authority-SameHeader :
      (z : Zone Name) (m : Message Name) → SameHeader m (add_authority z m)
  unfolding add_authority
  add_authority-SameHeader z m = ground arith

  -- Of a response from a zone: what is kept, the AA flag and the EDNS record.
  pub record FromZone (q m₀ m : Message Name) : Type 0 where
    pub id : m.id ≡ m₀.id
    pub message_type : m.message_type ≡ m₀.message_type
    pub op_code : m.op_code ≡ m₀.op_code
    pub authoritative : m.authoritative ≡ true
    pub truncated : m.truncated ≡ m₀.truncated
    pub recursion_desired : m.recursion_desired ≡ m₀.recursion_desired
    pub recursion_available : m.recursion_available ≡ m₀.recursion_available
    pub queries : m.queries ≡ m₀.queries
    pub additionals : m.additionals ≡ m₀.additionals
    pub edns : m.edns ≡ (
        if is_some q.edns
        then some (record { max_payload = 4096; version = 0; dnssec_ok = dnssec_ok q })
        else m₀.edns)

  pub answer_in_zone-FromZone :
      (q : Message Name) (question : Query Name) (z : Zone Name) (m : Message Name)
      → FromZone q m (answer_in_zone q question z m)
  unfolding answer_in_zone add_edns
  answer_in_zone-FromZone q question z m =
      let found = find_records z question.name question.query_type in
      let answered =
        answer z question.name question.query_type (dnssec_ok q) found (set_authoritative m) in
      ground (
        arith,
        answer-SameHeader z question (dnssec_ok q) (set_authoritative m) found,
        add_authority-SameHeader z answered,
      )

  -- Whatever the query and the zones, the response is a response to it: it has the query's id and
  -- RD flag, the opcode QUERY, no RA flag, no TC flag, and no additional records.
  pub process_query-echoes :
      (s : ZoneStore Name) (q : Message Name)
      → let r = process_query s q in
        (r.id ≡ q.id)
        × (r.message_type ≡ MessageType.response)
        × (r.op_code ≡ OpCode.query)
        × (r.recursion_desired ≡ q.recursion_desired)
        × (r.recursion_available ≡ false)
        × (r.truncated ≡ false)
        × (r.additionals ≡ [])
  unfolding process_query
  process_query-echoes s q = grind (arith, answer_in_zone-FromZone)
