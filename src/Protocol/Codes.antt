-- ===== src/Protocol/Codes.antt =====
-- When a response refuses, and when it denies the name.
use lrmdns.Prelude.{◌≡◌, ◌≢◌, ◌↔◌, false, Option, none, some, arith, first}
use lrmdns.HashMap.{◌==ₖ◌}
use lrmdns.Dns.Name.{DnsApi}
use lrmdns.Dns.Rr.{RecordType, rtype_key}
use lrmdns.Dns.Op.{OpCode, ResponseCode, Query, Message, add_query}
use lrmdns.Zone.{Zone, contains_name}
use lrmdns.Zone.Store.{ZoneStore, find_zone}
use lrmdns.Protocol.{
  start_response, find_records, answer, add_authority, add_edns, answer_in_zone, answer_question,
  dispatch, process_query,
}

module _ {Name : Type 0} ⦃api : DnsApi Name⦄ where
  -- Neither records of the type nor a CNAME, and the zone does not have the name.
  abbrev pub Absent : Query Name → Zone Name → Type 0
  Absent question z =
      (contains_name z question.name ≡ false)
      × (find_records z question.name question.query_type ≡ none)
      × (find_records z question.name RecordType.cname ≡ none)

  abbrev pub AbsentIn : Query Name → Option (Zone Name) → Type 0
  AbsentIn question none = ⊥
  AbsentIn question (some z) = Absent question z

  -- The first question, no zone transfer, is for a name that its zone does not have.
  abbrev pub Denied : ZoneStore Name → Option (Query Name) → Type 0
  Denied s none = ⊥
  Denied s (some question) =
      ((question.query_type ==ₖ RecordType.axfr) ≡ false)
      × AbsentIn question (find_zone s question.name)

  -- The first question, no zone transfer, is for a name that no zone answers for.
  abbrev pub Unowned : ZoneStore Name → Option (Query Name) → Type 0
  Unowned s none = ⊥
  Unowned s (some question) =
      ((question.query_type ==ₖ RecordType.axfr) ≡ false) × (find_zone s question.name ≡ none)

  module _ (q : Message Name) (question : Query Name) where
    answer_in_zone-nx_domain :
        (z : Zone Name) (m : Message Name)
        → ((answer_in_zone q question z m).response_code ≡ ResponseCode.nx_domain)
          ↔ Absent question z
    unfolding answer_in_zone answer add_authority add_edns
    answer_in_zone-nx_domain z m = ground arith

    answer_in_zone-ne-refused :
        (z : Zone Name) (m : Message Name)
        → (answer_in_zone q question z m).response_code ≢ ResponseCode.refused
    unfolding answer_in_zone answer add_authority add_edns
    answer_in_zone-ne-refused z m = ground arith

    answer_question-nx_domain :
        (z : Option (Zone Name)) (m : Message Name)
        → ((answer_question q question z m).response_code ≡ ResponseCode.nx_domain)
          ↔ AbsentIn question z
    answer_question-nx_domain none m = ground arith
    answer_question-nx_domain (some z) m = answer_in_zone-nx_domain z m

    answer_question-refused :
        (z : Option (Zone Name)) (m : Message Name)
        → ((answer_question q question z m).response_code ≡ ResponseCode.refused) ↔ (z ≡ none)
    answer_question-refused none m = ground arith
    answer_question-refused (some z) m = ground (arith, answer_in_zone-ne-refused z m)

  module _ (s : ZoneStore Name) (q : Message Name) where
    dispatch-nx_domain :
        (question : Option (Query Name))
        → ((dispatch s q question (start_response q)).response_code ≡ ResponseCode.nx_domain)
          ↔ Denied s question
    unfolding start_response
    dispatch-nx_domain none = ground arith
    dispatch-nx_domain (some question) =
        let m = add_query question (start_response q) in
        ground (arith, answer_question-nx_domain q question (find_zone s question.name) m)

    dispatch-refused :
        (question : Option (Query Name))
        → ((dispatch s q question (start_response q)).response_code ≡ ResponseCode.refused)
          ↔ Unowned s question
    unfolding start_response
    dispatch-refused none = ground arith
    dispatch-refused (some question) =
        let m = add_query question (start_response q) in
        ground (arith, answer_question-refused q question (find_zone s question.name) m)

    -- NXDOMAIN exactly for a standard query, no zone transfer, whose first question asks for a name
    -- that its zone does not have and that no wildcard answers, neither for the type nor for CNAME.
    pub process_query-nx_domain :
        ((process_query s q).response_code ≡ ResponseCode.nx_domain)
        ↔ ((q.op_code ≡ OpCode.query) × Denied s (first q.queries))
    unfolding process_query
    process_query-nx_domain = ground (arith, dispatch-nx_domain (first q.queries))

    -- REFUSED exactly for a standard query, no zone transfer, whose first question asks for a name
    -- that no zone of the store answers for.
    pub process_query-refused :
        ((process_query s q).response_code ≡ ResponseCode.refused)
        ↔ ((q.op_code ≡ OpCode.query) × Unowned s (first q.queries))
    unfolding process_query
    process_query-refused = ground (arith, dispatch-refused (first q.queries))
