-- ===== src/Protocol.antt =====
-- src/protocol.rs: QueryProcessor::process_query. The source returns `Ok` on every path, so the
-- model returns the response itself. Reading the zones under the lock is an argument, and log
-- lines are left out.
pub mod Chase
pub mod Header
pub mod Answers
pub mod Codes
pub mod Sources
pub mod Order
use lrmdns.Prelude.{
  Bool, false, not, ◌&&◌, Option, none, some, List, [], ◌∷◌, if◌then◌else◌, first, retain, is_empty,
  is_some,
}
use lrmdns.HashMap.{◌==ₖ◌}
use lrmdns.Dns.Name.{DnsApi}
use lrmdns.Dns.Rr.{RecordType, rtype_key, Record, RData}
use lrmdns.Dns.Op.{
  MessageType, OpCode, ResponseCode, Query, Message, new_message, new_edns, set_response_code,
  set_authoritative, add_query, add_answers, add_name_servers, is_query, is_no_error,
}
use lrmdns.Zone.{Zone, lookup, contains_name, lookup_wildcard, get_soa_record}
use lrmdns.Zone.Store.{ZoneStore, find_zone}

-- the response before the first test
unfoldable pub start_response : {Name : Type 0} → Message Name → Message Name
start_response q = record new_message {
  id = q.id;
  message_type = MessageType.response;
  op_code = OpCode.query;
  recursion_desired = q.recursion_desired;
  recursion_available = false;
}

-- `dnssec_ok` of the query's EDNS record, false without one
unfoldable pub dnssec_ok : {Name : Type 0} → Message Name → Bool
dnssec_ok q = elim q.edns [ some e ↦ e.dnssec_ok | none ↦ false ]

-- the test on a stored record: an RRSIG that covers the queried type
unfoldable pub covers_type : {Name : Type 0} → RecordType → Record Name → Bool
covers_type t r = elim r.rdata [ some (RData.sig s) ↦ s.type_covered ==ₖ t | _ ↦ false ]

module _ {Name : Type 0} ⦃api : DnsApi Name⦄ where
  -- the exact name if it is there, else a wildcard
  unfoldable pub find_records : Zone Name → Name → RecordType → Option (List (Record Name))
  find_records z n t = if contains_name z n then lookup z n t else lookup_wildcard z n t

  abbrev pub covering : RecordType → Option (List (Record Name)) → List (Record Name)
  covering t none = []
  covering t (some sigs) = retain (covers_type t) sigs

  -- the records that are found, and with the DO flag their signatures
  unfoldable pub answer_found :
      Zone Name → Name → RecordType → Bool → List (Record Name) → Message Name → Message Name
  unfolding covers_type
  answer_found z n t do_flag rs m =
      let m₁ = add_answers rs m in
      let m₂ = if do_flag then add_answers (covering t (lookup z n RecordType.sig)) m₁ else m₁ in
      set_response_code ResponseCode.no_error m₂

  abbrev pub add_target : Option (List (Record Name)) → Message Name → Message Name
  add_target none m = m
  add_target (some rs) m = add_answers rs m

  abbrev pub chase_target :
      Zone Name → RecordType → Option (RData Name) → Message Name → Message Name
  chase_target z t (some (RData.cname target)) m = add_target (lookup z target t) m
  chase_target z t _ m = m

  -- the records of the queried type at the target of a CNAME record
  unfoldable pub chase : Zone Name → RecordType → Record Name → Message Name → Message Name
  chase z t r m = chase_target z t r.rdata m

  -- `for cname_record in cname_records`
  unfoldable pub chase_all :
      Zone Name → RecordType → List (Record Name) → Message Name → Message Name
  unfolding chase
  chase_all z t [] m = m
  chase_all z t (r ∷ rs) m = chase_all z t rs (chase z t r (add_answers (r ∷ []) m))

  -- neither records nor a CNAME: the SOA record goes into the authority section
  unfoldable pub answer_negative : Zone Name → Name → Message Name → Message Name
  answer_negative z n m = add_name_servers (get_soa_record z ∷ []) (
      set_response_code
        (if contains_name z n then ResponseCode.no_error else ResponseCode.nx_domain) m)

  abbrev pub answer_missing :
      Zone Name → Name → RecordType → Option (List (Record Name)) → Message Name → Message Name
  answer_missing z n t (some cnames) m =
      set_response_code ResponseCode.no_error (chase_all z t cnames m)
  answer_missing z n t none m = answer_negative z n m

  -- `match lookup_result`
  unfoldable pub answer :
      Zone Name
      → Name
      → RecordType
      → Bool
      → Option (List (Record Name))
      → Message Name
      → Message Name
  unfolding answer_found answer_negative
  answer z n t do_flag (some rs) m = answer_found z n t do_flag rs m
  answer z n t do_flag none m = answer_missing z n t (find_records z n RecordType.cname) m

  -- the NS records of the zone, for a positive response
  unfoldable pub add_authority : Zone Name → Message Name → Message Name
  add_authority z m =
      if is_no_error m.response_code && not (is_empty m.answers)
      then elim (lookup z z.origin RecordType.ns) [ some rs ↦ add_name_servers rs m | none ↦ m ]
      else m

  -- our EDNS record, if the query has one
  unfoldable pub add_edns : Message Name → Message Name → Message Name
  unfolding dnssec_ok
  add_edns q m =
      if is_some q.edns
      then record m {
        edns = some (record new_edns { max_payload = 4096; version = 0; dnssec_ok = dnssec_ok q });
      }
      else m

  -- from `response.set_authoritative(true)` on
  unfoldable pub answer_in_zone :
      Message Name → Query Name → Zone Name → Message Name → Message Name
  answer_in_zone q question z m =
      let found = find_records z question.name question.query_type in
      add_edns q (
        add_authority z
          (answer z question.name question.query_type (dnssec_ok q) found (set_authoritative m)))

  abbrev pub answer_question :
      Message Name → Query Name → Option (Zone Name) → Message Name → Message Name
  answer_question q question none m = set_response_code ResponseCode.refused m
  answer_question q question (some z) m = answer_in_zone q question z m

  abbrev pub dispatch :
      ZoneStore Name → Message Name → Option (Query Name) → Message Name → Message Name
  dispatch s q none m = set_response_code ResponseCode.form_err m
  dispatch s q (some question) m =
      if question.query_type ==ₖ RecordType.axfr
      then set_authoritative (add_query question m)
      else answer_question q question (find_zone s question.name) (add_query question m)

  -- QueryProcessor::process_query
  unfoldable pub process_query : ZoneStore Name → Message Name → Message Name
  unfolding start_response
  process_query s q =
      if not (is_query q.op_code)
      then set_response_code ResponseCode.not_imp (start_response q)
      else dispatch s q (first q.queries) (start_response q)
