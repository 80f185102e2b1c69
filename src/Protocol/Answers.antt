-- ===== src/Protocol/Answers.antt =====
-- What a query gets, case by case, once a zone is found for its name.
use lrmdns.Prelude.{
  ◌≡◌, refl, Bool, true, false, Option, none, some, List, [], ◌∷◌, ◌++◌, arith, if◌then◌else◌,
  first, is_empty, is_some, option_or, retain,
}
use mathlib.Core.List.{append-nil}
use lrmdns.HashMap.{◌==ₖ◌}
use lrmdns.Dns.Name.{DnsApi, name_key}
use lrmdns.Dns.Rr.{RecordType, rtype_key, Record, RData}
use lrmdns.Dns.Op.{OpCode, ResponseCode, Query, Message, set_authoritative, add_query}
use lrmdns.Zone.{Zone, lookup, contains_name, get_soa_record}
use lrmdns.Zone.Store.{ZoneStore, find_zone}
use lrmdns.Protocol.{
  covers_type, start_response, dnssec_ok, covering, find_records, answer, add_authority, add_edns,
  answer_in_zone, process_query,
}
use lrmdns.Protocol.Header.{answer_in_zone-FromZone}
use lrmdns.Protocol.Chase.{chased, chase_all-eq}

-- RDATA that signs the records of the type
abbrev pub signs : {Name : Type 0} → RecordType → Option (RData Name) → Bool
signs t (some (RData.sig s)) = s.type_covered ==ₖ t
signs t _ = false

module _ {Name : Type 0} ⦃api : DnsApi Name⦄ where
  -- the RRSIG records at the name that cover the type
  abbrev pub signatures : Zone Name → Name → RecordType → List (Record Name)
  signatures z n t = retain (λ r. signs t r.rdata) (option_or (lookup z n RecordType.sig) [])

  covers_type-signs : (t : RecordType) (r : Record Name) → covers_type t r ≡ signs t r.rdata
  unfolding covers_type
  covers_type-signs t r = ground arith

  retain-covers_type :
      (t : RecordType) (rs : List (Record Name))
      → retain (covers_type t) rs ≡ retain (λ r. signs t r.rdata) rs
  retain-covers_type t [] = refl
  retain-covers_type t (r ∷ rs) = rw (covers_type-signs t r, retain-covers_type t rs)

  covering-signs :
      (t : RecordType) (sigs : Option (List (Record Name)))
      → covering t sigs ≡ retain (λ r. signs t r.rdata) (option_or sigs [])
  covering-signs t none = refl
  covering-signs t (some rs) = retain-covers_type t rs

  -- The query asks `question`, and `z` answers it: a standard query, no zone transfer, and a zone.
  pub record Asks (s : ZoneStore Name) (q : Message Name) (question : Query Name) (z : Zone Name)
      : Type 0 where
    pub standard : q.op_code ≡ OpCode.query
    pub asked : first q.queries ≡ some question
    pub plain : (question.query_type ==ₖ RecordType.axfr) ≡ false
    pub owned : find_zone s question.name ≡ some z

  module _ {s : ZoneStore Name} {q : Message Name} {question : Query Name} {z : Zone Name}
      (ask : Asks s q question z) where
    -- Of a standard query, no zone transfer, whose name a zone answers for: a name with neither
    -- records of the type nor a CNAME, wildcards included, gets no answer, the SOA record alone in the
    -- authority section, and NOERROR if the zone has the name, else NXDOMAIN.
    pub process_query-negative :
        find_records z question.name question.query_type ≡ none
        → find_records z question.name RecordType.cname ≡ none
        → ((process_query s q).answers ≡ [])
          × ((process_query s q).name_servers ≡ get_soa_record z ∷ [])
          × ((process_query s q).response_code ≡ (
              if contains_name z question.name
              then ResponseCode.no_error
              else ResponseCode.nx_domain))
    unfolding process_query answer_in_zone answer add_authority add_edns
    process_query-negative h k = ground (arith, ask)

    -- Of a standard query, no zone transfer, whose name a zone answers for: a name with records of
    -- the type, its own or a wildcard's, gets them, in their order, with the DO flag followed by the
    -- RRSIG records at the name that cover the type, under NOERROR; the authority section has the
    -- NS records of the zone unless there is no answer.
    pub process_query-positive :
        {rs : List (Record Name)}
        → find_records z question.name question.query_type ≡ some rs
        → let signed = if dnssec_ok q then signatures z question.name question.query_type else [] in
          ((process_query s q).answers ≡ rs ++ signed)
          × ((process_query s q).response_code ≡ ResponseCode.no_error)
          × ((process_query s q).name_servers ≡ (
              if is_empty (rs ++ signed)
              then []
              else option_or (lookup z z.origin RecordType.ns) []))
    unfolding process_query answer_in_zone answer add_authority add_edns
    process_query-positive {rs} h = ground (
      arith,
      ask,
      append-nil rs,
      covering-signs question.query_type (lookup z question.name RecordType.sig),
    )

    -- Of a standard query, no zone transfer, whose name a zone answers for: a name with a CNAME and no
    -- records of the type gets each CNAME record, followed by the records
    -- of the type at its target in the same zone, if there are any: one link and no more.
    pub process_query-alias :
        {cnames : List (Record Name)}
        → find_records z question.name question.query_type ≡ none
        → find_records z question.name RecordType.cname ≡ some cnames
        → ((process_query s q).answers ≡ chased z question.query_type cnames)
          × ((process_query s q).response_code ≡ ResponseCode.no_error)
    unfolding process_query answer_in_zone answer add_authority add_edns
    process_query-alias {cnames} h k = ground (
      arith,
      ask,
      chase_all-eq z question.query_type cnames
          (set_authoritative (add_query question (start_response q))),
    )

    -- To a standard query, no zone transfer, whose name a zone answers for, the response has an EDNS
    -- record exactly if the query has one: it advertises 4096 bytes,
    -- version 0, and the query's DO flag.
    pub process_query-edns : (process_query s q).edns ≡ (
        if is_some q.edns
        then some (record { max_payload = 4096; version = 0; dnssec_ok = dnssec_ok q })
        else none)
    unfolding process_query
    process_query-edns =
        ground
          (arith, ask, answer_in_zone-FromZone q question z (add_query question (start_response q)))

    -- To a standard query, no zone transfer, whose name a zone answers for, the response has the AA
    -- flag, and the first question of the query as its only one.
    pub process_query-authoritative :
        ((process_query s q).authoritative ≡ true) × ((process_query s q).queries ≡ question ∷ [])
    unfolding process_query
    process_query-authoritative =
        ground
          (arith, ask, answer_in_zone-FromZone q question z (add_query question (start_response q)))

    -- Of a standard query, no zone transfer, whose name a zone answers for: where the zone does not
    -- have the name and a wildcard has records of the type, those are all the answers, whatever the DO
    -- flag. No signature goes with them, since the RRSIG records are looked up at the queried name.
    pub process_query-wildcard_unsigned :
        {rs : List (Record Name)}
        → contains_name z question.name ≡ false
        → find_records z question.name question.query_type ≡ some rs
        → (process_query s q).answers ≡ rs
    unfolding lookup contains_name
    process_query-wildcard_unsigned {rs} h k =
        ground (arith, process_query-positive k, append-nil rs)
