-- ===== src/Suite/Answers/Props.antt =====
-- The property tests of src/protocol.rs. A test is a function of the values that are generated for it.
use lrmdns.Prelude.{
  ℕ, Bool, true, false, not, ◌&&◌, ◌||◌, ◌≡◌, refl, Option, none, some, List, [], ◌∷◌, ◌==◌, arith,
}
use lrmdns.HashMap.{◌==ₖ◌, get, modify, insert, contains_key}
use lrmdns.Dns.Rr.{RecordType, rtype_key, rtype_eq, rtype_eq_refl, from_rdata}
use lrmdns.Dns.Op.{MessageType, ResponseCode, Query, Edns}
use lrmdns.Zone.{
  Zone, add_record, push_record, lookup, contains_name, lookup_wildcard, wildcard_loop, wildcard_at,
  get_soa_record,
}
use lrmdns.Zone
use lrmdns.Zone.Store.{add_zone, find_zone, best_loop, best_step}
use lrmdns.Zone.Store
use lrmdns.Protocol.{
  start_response, dnssec_ok, covers_type, find_records, answer_found, chase, chase_all,
  answer_negative, answer, add_authority, add_edns, answer_in_zone, process_query,
}
use lrmdns.Protocol.Header.{process_query-echoes, answer_in_zone-FromZone}
use lrmdns.Suite.Names.{name, Labels, labels_eq, labels_eq_refl, dns_names}
use lrmdns.Suite.Answers.{
  response_code_eq, response_to, asking, asking_with_edns, no_question, updating, store_of,
  create_test_zone, query_for,
}

abbrev pub prop_query_id_matches_response : ℕ → Bool
prop_query_id_matches_response query_id =
    (response_to (asking query_id (name "www.example.com.") RecordType.a)).id == query_id

abbrev is_response : MessageType → Bool
is_response MessageType.response = true
is_response MessageType.query = false

abbrev pub prop_response_is_always_response_type : ℕ → Bool
prop_response_is_always_response_type query_id =
    is_response (response_to (asking query_id (name "www.example.com.") RecordType.a)).message_type

abbrev same_flag : Bool → Bool → Bool
same_flag true b = b
same_flag false b = not b

abbrev pub prop_recursion_desired_flag_copied : Bool → Bool
prop_recursion_desired_flag_copied rd =
    let response =
      response_to
        (record (asking 1234 (name "www.example.com.") RecordType.a) { recursion_desired = rd }) in
    same_flag response.recursion_desired rd && not response.recursion_available

abbrev pub prop_empty_query_returns_formerr : ℕ → Bool
prop_empty_query_returns_formerr query_id =
    response_code_eq (response_to (no_question query_id)).response_code ResponseCode.form_err

abbrev pub prop_unsupported_opcode_returns_notimp : ℕ → Bool
prop_unsupported_opcode_returns_notimp query_id =
    response_code_eq (response_to (updating query_id)).response_code ResponseCode.not_imp

-- one question, with this name and this type
abbrev is_question : Labels → RecordType → List (Query Labels) → Bool
is_question n t (q ∷ []) = labels_eq q.name n && (q.query_type ==ₖ t)
is_question n t _ = false

abbrev pub prop_response_has_question_section : Labels → RecordType → Bool
prop_response_has_question_section n rtype =
    let response = response_to (asking 1 n rtype) in
    response_code_eq response.response_code ResponseCode.form_err
    || is_question n rtype response.queries

abbrev do_flag_is : Bool → Option Edns → Bool
do_flag_is do_flag none = true
do_flag_is do_flag (some e) = same_flag e.dnssec_ok do_flag

abbrev pub prop_dnssec_ok_flag_preserved : Bool → Bool
prop_dnssec_ok_flag_preserved do_flag =
    do_flag_is do_flag (response_to (asking_with_edns 1 do_flag)).edns

prop_query_id_matches_response_lem : (query_id : ℕ) → prop_query_id_matches_response query_id ≡ true
prop_query_id_matches_response_lem query_id = rw (process_query-echoes _ _).0 (ground arith)

prop_response_is_always_response_type_lem :
    (query_id : ℕ) → prop_response_is_always_response_type query_id ≡ true
prop_response_is_always_response_type_lem query_id = rw (process_query-echoes _ _).1 refl

prop_recursion_desired_flag_copied_lem : (rd : Bool) → prop_recursion_desired_flag_copied rd ≡ true
prop_recursion_desired_flag_copied_lem rd =
    let (_, _, _, desired, available, _, _) =
      process_query-echoes (store_of create_test_zone)
        (record (asking 1234 (name "www.example.com.") RecordType.a) { recursion_desired = rd }) in
    rw (desired, available) (ground arith)

prop_empty_query_returns_formerr_lem :
    (query_id : ℕ) → prop_empty_query_returns_formerr query_id ≡ true
unfolding start_response process_query
prop_empty_query_returns_formerr_lem query_id = refl

prop_unsupported_opcode_returns_notimp_lem :
    (query_id : ℕ) → prop_unsupported_opcode_returns_notimp query_id ≡ true
unfolding start_response process_query
prop_unsupported_opcode_returns_notimp_lem query_id = refl

queries-one :
    (n : Labels) (t : RecordType) → (response_to (asking 1 n t)).queries ≡ query_for n t ∷ []
unfolding start_response process_query
queries-one n t = grind (arith, answer_in_zone-FromZone)

prop_response_has_question_section_lem :
    (n : Labels) (t : RecordType) → prop_response_has_question_section n t ≡ true
prop_response_has_question_section_lem n t =
    rw (queries-one n t, labels_eq_refl n) (rw (rtype_eq_refl t) (ground arith))

prop_dnssec_ok_flag_preserved_lem : (do_flag : Bool) → prop_dnssec_ok_flag_preserved do_flag ≡ true
unfolding add_zone find_zone best_loop best_step Store.new insert get modify contains_key lookup
    contains_name lookup_wildcard wildcard_loop wildcard_at add_record push_record from_rdata
    rtype_eq get_soa_record Zone.new start_response dnssec_ok covers_type find_records answer_found
    chase chase_all answer_negative answer add_authority add_edns answer_in_zone process_query
prop_dnssec_ok_flag_preserved_lem true = refl
prop_dnssec_ok_flag_preserved_lem false = refl
