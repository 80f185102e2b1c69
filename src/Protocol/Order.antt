-- ===== src/Protocol/Order.antt =====
-- The response does not depend on the order of the maps.
use lrmdns.Prelude.{
  ◌≡◌, refl, ◌∙◌, ap, Bool, Option, none, some, List, [], ◌∷◌, arith, first, if◌then◌else◌,
}
use lrmdns.HashMap.{◌==ₖ◌}
use lrmdns.Dns.Name.{DnsApi, name_key}
use lrmdns.Dns.Rr.{RecordType, rtype_key, Record, RData}
use lrmdns.Dns.Op.{Query, Message, set_authoritative, add_query}
use lrmdns.Zone.{Zone, lookup}
use lrmdns.Zone.Same.{Both, SameZone, get_soa_record-Same, lookup_wildcard-Same}
use lrmdns.Zone.Store.{ZoneStore, find_zone}
use lrmdns.Zone.Store.Order.{SameStore, HasNoTies, find_zone-Same}
use lrmdns.Zone.Store.Valid.{HasValidZones}
use lrmdns.Protocol.{
  dnssec_ok, find_records, answer_found, add_target, chase_target, chase, chase_all,
  answer_negative, answer_missing, answer, add_authority, answer_in_zone, answer_question, dispatch,
  process_query, start_response,
}

module _ {Name : Type 0} ⦃api : DnsApi Name⦄ {z y : Zone Name} (same : SameZone z y) where
  find_records-Same : (n : Name) (t : RecordType) → find_records z n t ≡ find_records y n t
  unfolding find_records
  find_records-Same n t =
      ground (arith, same.names n, same.lookups n t, lookup_wildcard-Same same n t)

  chase_target-Same :
      (t : RecordType) (d : Option (RData Name)) (m : Message Name)
      → chase_target z t d m ≡ chase_target y t d m
  chase_target-Same t (some (RData.cname target)) m =
      ap (λ o. add_target o m) (same.lookups target t)
  chase_target-Same t _ m = refl

  chase_all-Same :
      (t : RecordType) (rs : List (Record Name)) (m : Message Name)
      → chase_all z t rs m ≡ chase_all y t rs m
  unfolding chase_all chase
  chase_all-Same t [] m = refl
  chase_all-Same t (r ∷ rs) m = rw (chase_target-Same t r.rdata) (chase_all-Same t rs _)

  answer_negative-Same :
      (n : Name) (m : Message Name) → answer_negative z n m ≡ answer_negative y n m
  unfolding answer_negative
  answer_negative-Same n m = rw (same.names n, get_soa_record-Same same) refl

  answer_missing-Same :
      (n : Name) (t : RecordType) (found : Option (List (Record Name))) (m : Message Name)
      → answer_missing z n t found m ≡ answer_missing y n t found m
  answer_missing-Same n t none m = answer_negative-Same n m
  answer_missing-Same n t (some cnames) m = rw (chase_all-Same t cnames m) refl

  answer_found-Same :
      (n : Name) (t : RecordType) (d : Bool) (rs : List (Record Name)) (m : Message Name)
      → answer_found z n t d rs m ≡ answer_found y n t d rs m
  unfolding answer_found
  answer_found-Same n t d rs m = rw (same.lookups n RecordType.sig) refl

  answer-Same :
      (n : Name) (t : RecordType) (d : Bool) (found : Option (List (Record Name)))
      (m : Message Name)
      → answer z n t d found m ≡ answer y n t d found m
  unfolding answer
  answer-Same n t d (some rs) m = answer_found-Same n t d rs m
  answer-Same n t d none m =
      ap (λ o. answer_missing z n t o m) (find_records-Same n RecordType.cname)
      ∙ answer_missing-Same n t (find_records y n RecordType.cname) m

  add_authority-Same : (m : Message Name) → add_authority z m ≡ add_authority y m
  unfolding add_authority lookup
  add_authority-Same m = rw (same.origin, same.lookups y.origin RecordType.ns) refl

  answer_in_zone-Same :
      (q : Message Name) (question : Query Name) (m : Message Name)
      → answer_in_zone q question z m ≡ answer_in_zone q question y m
  unfolding answer_in_zone
  answer_in_zone-Same q question m =
      rw
        (
          find_records-Same question.name question.query_type,
          answer-Same question.name question.query_type (dnssec_ok q)
              (find_records y question.name question.query_type) (set_authoritative m),
          add_authority-Same,
        )
        refl

module _ {Name : Type 0} ⦃api : DnsApi Name⦄ where
  answer_question-Same :
      (q : Message Name) (question : Query Name) (o o' : Option (Zone Name)) (m : Message Name)
      → Both SameZone o o'
      → answer_question q question o m ≡ answer_question q question o' m
  answer_question-Same q question none none m h = refl
  answer_question-Same q question (some z) (some y) m h = answer_in_zone-Same h q question m
  answer_question-Same q question none (some y) m h = absurd h
  answer_question-Same q question (some z) none m h = absurd h

  dispatch-Same :
      (s s' : ZoneStore Name) (q : Message Name) (question : Option (Query Name)) (m : Message Name)
      → HasNoTies s
      → HasValidZones s
      → HasValidZones s'
      → SameStore s s'
      → dispatch s q question m ≡ dispatch s' q question m
  dispatch-Same s s' q none m no_ties v v' h = refl
  dispatch-Same s s' q (some question) m no_ties v v' h =
      ap
        (λ r.
          if question.query_type ==ₖ RecordType.axfr
          then set_authoritative (add_query question m)
          else r)
        (answer_question-Same q question (find_zone s question.name) (find_zone s' question.name)
          (add_query question m) (find_zone-Same s s' question.name no_ties v v' h))

  -- The response is a function of the zones alone: it does not depend on the order in which the map
  -- of zones, the map of names of a zone or the map of types of a name is iterated. Two valid
  -- stores with the same zones under the same keys give the same response to every query, where
  -- the zones agree in their origin, their SOA data, their names and, under each name and type,
  -- their records; and where of the origins in the store above one name no two have as many labels.
  pub process_query-order :
      (s s' : ZoneStore Name) (q : Message Name)
      → HasNoTies s
      → HasValidZones s
      → HasValidZones s'
      → SameStore s s'
      → process_query s q ≡ process_query s' q
  unfolding process_query
  process_query-order s s' q no_ties v v' h =
      rw (dispatch-Same s s' q (first q.queries) (start_response q) no_ties v v' h) refl
