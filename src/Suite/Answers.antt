-- ===== src/Suite/Answers.antt =====
-- The unit tests of src/protocol.rs. The processor is `process_query` on a store.
pub mod Props
use lrmdns.Prelude.{
  ℕ, Bool, true, false, not, ◌&&◌, ◌≡◌, refl, Option, none, some, List, [], ◌∷◌, is_some, is_empty,
  length, ◌==◌, tail, first,
}
use lrmdns.HashMap.{◌==ₖ◌, get, modify, insert, contains_key}
use lrmdns.Dns.Rr.{RecordType, rtype_key, rtype_eq, Record, RData, from_rdata}
use lrmdns.Dns.Op.{
  MessageType, OpCode, ResponseCode, Query, Message, Edns, new_message, new_edns, add_query,
}
use lrmdns.Zone.{
  Zone, add_record, push_record, lookup, contains_name, lookup_wildcard, wildcard_loop, wildcard_at,
  get_soa_record,
}
use lrmdns.Zone
use lrmdns.Zone.Store.{ZoneStore, add_zone, find_zone, best_loop, best_step}
use lrmdns.Zone.Store
use lrmdns.Protocol.{
  start_response, dnssec_ok, covers_type, find_records, answer_found, chase, chase_all,
  answer_negative, answer, add_authority, add_edns, answer_in_zone, process_query,
}
use lrmdns.Suite.Names.{name, Labels, dns_names}
use lrmdns.Suite.Files.{all_true}
use lrmdns.Suite.Zones.{ipv4_addr, example_zone, a_record, first_has_address}

abbrev pub response_code_eq : ResponseCode → ResponseCode → Bool
response_code_eq ResponseCode.no_error ResponseCode.no_error = true
response_code_eq ResponseCode.form_err ResponseCode.form_err = true
response_code_eq ResponseCode.serv_fail ResponseCode.serv_fail = true
response_code_eq ResponseCode.nx_domain ResponseCode.nx_domain = true
response_code_eq ResponseCode.not_imp ResponseCode.not_imp = true
response_code_eq ResponseCode.refused ResponseCode.refused = true
response_code_eq (ResponseCode.other m) (ResponseCode.other n) = m == n
response_code_eq _ _ = false

abbrev ns_record : Record Labels
ns_record = from_rdata (name "example.com.") 3600 (RData.ns (name "ns1.example.com."))

abbrev pub create_test_zone : Zone Labels
create_test_zone = add_record ns_record (
    add_record (a_record (name "www.example.com.") 3600 (ipv4_addr 192 0 2 1))
      (example_zone 2025120601))

-- a store with this zone
abbrev pub store_of : Zone Labels → ZoneStore Labels
store_of z = add_zone z Store.new

-- `Query::query(name, rtype)`, of class IN
abbrev pub query_for : Labels → RecordType → Query Labels
query_for n t = record { name = n; query_type = t; query_class = 1 }

-- a new message with an id and one question
abbrev pub asking : ℕ → Labels → RecordType → Message Labels
asking id n t = add_query (query_for n t) (record new_message { id = id })

-- what the test zone answers
abbrev pub response_to : Message Labels → Message Labels
response_to query = process_query (store_of create_test_zone) query

abbrev pub test_successful_query : Bool
test_successful_query =
    let response = response_to (asking 1234 (name "www.example.com.") RecordType.a) in
    (response.id == 1234)
    && response_code_eq response.response_code ResponseCode.no_error
    && response.authoritative
    && (length response.answers == 1)

abbrev pub test_nxdomain_query : Bool
test_nxdomain_query =
    let response = response_to (asking 5678 (name "nonexistent.example.com.") RecordType.a) in
    response_code_eq response.response_code ResponseCode.nx_domain
    && response.authoritative
    && (length response.answers == 0)

abbrev pub test_refused_query : Bool
test_refused_query =
    let response = response_to (asking 0 (name "example.org.") RecordType.a) in
    response_code_eq response.response_code ResponseCode.refused

abbrev wildcard_zone : Zone Labels
wildcard_zone = add_record ns_record (
    add_record (a_record (name "www.example.com.") 3600 (ipv4_addr 192 0 2 10)) (
      add_record (a_record (name "*.example.com.") 3600 (ipv4_addr 192 0 2 100))
        (example_zone 2025120601)))

abbrev pub test_wildcard_query : Bool
test_wildcard_query =
    let processor = process_query (store_of wildcard_zone) in
    let wild = processor (asking 1111 (name "random.example.com.") RecordType.a) in
    let own = processor (asking 2222 (name "www.example.com.") RecordType.a) in
    (wild.id == 1111)
    && response_code_eq wild.response_code ResponseCode.no_error
    && wild.authoritative
    && (length wild.answers == 1)
    && first_has_address (ipv4_addr 192 0 2 100) (some wild.answers)
    && (own.id == 2222)
    && response_code_eq own.response_code ResponseCode.no_error
    && (length own.answers == 1)
    && first_has_address (ipv4_addr 192 0 2 10) (some own.answers)

abbrev pub asking_with_edns : ℕ → Bool → Message Labels
asking_with_edns id do_flag = record (asking id (name "www.example.com.") RecordType.a) {
  edns = some (record new_edns { max_payload = 4096; dnssec_ok = do_flag });
}

abbrev has_do_flag : Option Edns → Bool
has_do_flag none = false
has_do_flag (some e) = e.dnssec_ok

abbrev pub test_dnssec_ok_flag : Bool
test_dnssec_ok_flag =
    let response = response_to (asking_with_edns 3333 true) in
    (response.id == 3333)
    && response_code_eq response.response_code ResponseCode.no_error
    && has_do_flag response.edns

abbrev pub no_question : ℕ → Message Labels
no_question id = record new_message { id = id }

abbrev pub test_empty_query : Bool
test_empty_query =
    let response = response_to (no_question 9999) in
    (response.id == 9999) && response_code_eq response.response_code ResponseCode.form_err

-- OpCode::Update, whose number is 5
abbrev pub updating : ℕ → Message Labels
updating id = record (asking id (name "www.example.com.") RecordType.a) { op_code = OpCode.other 5 }

abbrev pub test_invalid_opcode : Bool
test_invalid_opcode =
    let response = response_to (updating 4444) in
    (response.id == 4444) && response_code_eq response.response_code ResponseCode.not_imp

abbrev pub test_query_for_different_zone : Bool
test_query_for_different_zone =
    let response = response_to (asking 5555 (name "www.different-zone.com.") RecordType.a) in
    (response.id == 5555) && response_code_eq response.response_code ResponseCode.refused

abbrev pub test_multiple_queries_in_message : Bool
test_multiple_queries_in_message =
    let response = response_to (
      add_query (query_for (name "mail.example.com.") RecordType.a)
        (asking 6666 (name "www.example.com.") RecordType.a)) in
    (response.id == 6666) && (length response.queries == 1)

abbrev pub test_query_without_recursion_desired : Bool
test_query_without_recursion_desired =
    let response =
      response_to (record (asking 7777 (name "www.example.com.") RecordType.a) {
        recursion_desired = false;
      }) in
    (response.id == 7777)
    && response_code_eq response.response_code ResponseCode.no_error
    && not response.recursion_desired
    && not response.recursion_available

abbrev alias_zone : Zone Labels
alias_zone =
    add_record
      (from_rdata (name "alias.example.com.") 3600 (RData.cname (name "nonexistent.example.com.")))
      (example_zone 2025120601)

abbrev first_is_cname : List (Record Labels) → Bool
first_is_cname (r ∷ rs) = elim r.rdata [ some (RData.cname n) ↦ true | _ ↦ false ]
first_is_cname [] = false

abbrev pub test_cname_without_target : Bool
test_cname_without_target =
    let response =
      process_query (store_of alias_zone) (asking 8888 (name "alias.example.com.") RecordType.a) in
    (response.id == 8888)
    && response_code_eq response.response_code ResponseCode.no_error
    && (length response.answers == 1)
    && first_is_cname response.answers

abbrev pub test_axfr_query : Bool
test_axfr_query =
    let response = response_to (asking 9000 (name "example.com.") RecordType.axfr) in
    (response.id == 9000) && response.authoritative && (length response.queries == 1)

-- Every test of this file passes.
answer_tests_pass :
    all_true (
      test_successful_query ∷ test_nxdomain_query ∷ test_refused_query ∷ test_wildcard_query
      ∷ test_dnssec_ok_flag ∷ test_empty_query ∷ test_invalid_opcode ∷ test_query_for_different_zone
      ∷ test_multiple_queries_in_message ∷ test_query_without_recursion_desired
      ∷ test_cname_without_target ∷ test_axfr_query ∷ [])
    ≡ true
unfolding add_zone find_zone best_loop best_step Store.new insert get modify contains_key lookup
    contains_name lookup_wildcard wildcard_loop wildcard_at add_record push_record from_rdata
    rtype_eq get_soa_record Zone.new start_response dnssec_ok covers_type find_records answer_found
    chase chase_all answer_negative answer add_authority add_edns answer_in_zone process_query
answer_tests_pass = refl
