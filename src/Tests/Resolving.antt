-- ===== src/Tests/Resolving.antt =====
-- Zones, the store and the protocol: runs, and each theorem at a concrete input.
use mathlib.Core.List.{Memᴰ, Perm}
use lrmdns.Prelude.{
  ◌≡◌, ◌↔◌, ◌⊎◌, refl, true, false, none, some, List, [], ◌∷◌, ◌++◌, option_or, All,
}
use lrmdns.HashMap.{◌==ₖ◌, get, values, insert, contains_key, modify}
use lrmdns.Dns.Name.{name_key, star}
use lrmdns.Dns.Rr.{Bytes, RecordType, Record, rtype_eq, rtype_key}
use lrmdns.Dns.Op.{MessageType, OpCode, ResponseCode}
use lrmdns.Zone.{
  lookup, add_record, push_record, lookup_wildcard, wildcard_at, wildcard_loop, contains_name,
  get_soa_record, get_all_records,
}
use lrmdns.Zone.Wildcard.{ClosestWildcard, lookup_wildcard-closest}
use lrmdns.Zone.Axfr.{Stored}
use lrmdns.Zone.Axfr.Once.{stored_records, get_all_records-Perm}
use lrmdns.Zone.Valid.{IsWellFormed, add_record-IsWellFormed}
use lrmdns.Zone.Store.Valid.{HasValidZones, add_zone-HasValidZones}
use lrmdns.Zone.Store.{find_zone, best_loop, best_step, add_zone}
use lrmdns.Zone.Store.Best.{IsLongest, find_zone-IsLongest}
use lrmdns.Protocol.{dnssec_ok, covers_type, find_records, process_query}
use lrmdns.Protocol.Header.{process_query-echoes}
use lrmdns.Protocol.Answers.{
  Asks, process_query-positive, process_query-negative, process_query-alias,
}
use lrmdns.Protocol.Sources.{process_query-wildcard}
use lrmdns.Protocol.Codes.{Denied, Unowned, process_query-nx_domain, process_query-refused}
use lrmdns.Tests.Samples.{
  parent_zone, names, origin, www, alias, below, missing, outside, www_a, www_sig, alias_cname,
  wild_a, origin_ns, origin_nsec, zone, store, question, asking, plainly,
}

lookup_wildcard-below : lookup_wildcard zone below RecordType.a ≡ some (wild_a ∷ [])
unfolding lookup_wildcard wildcard_loop wildcard_at lookup add_record push_record get modify
    rtype_eq
lookup_wildcard-below = refl

lookup_wildcard-closest_example :
    ClosestWildcard zone RecordType.a ((100 ∷ []) ∷ (101 ∷ []) ∷ (99 ∷ []) ∷ []) (wild_a ∷ [])
lookup_wildcard-closest_example =
    lookup_wildcard-closest zone below RecordType.a lookup_wildcard-below

pub zone-IsWellFormed : IsWellFormed zone
zone-IsWellFormed = add_record-IsWellFormed www_a _ (
    add_record-IsWellFormed www_sig _ (
      add_record-IsWellFormed alias_cname _ (
        add_record-IsWellFormed wild_a _ (
          add_record-IsWellFormed origin_ns _
            (add_record-IsWellFormed origin_nsec _ (record { distinct = tt; types = tt }))))))

get_all_records-Perm_example :
    (middle : List (Record Bytes)) × (get_all_records zone
      ≡ get_soa_record zone ∷ (middle ++ get_soa_record zone ∷ []))
    × Perm middle (stored_records zone)
    × ((r : Record Bytes) → Memᴰ r middle ↔ Stored zone r)
get_all_records-Perm_example = get_all_records-Perm zone zone-IsWellFormed

find_zone-below : find_zone store below ≡ some zone
unfolding find_zone best_loop best_step add_zone insert get add_record
find_zone-below = refl

find_zone-IsLongest_example :
    (get below store.zones ≡ some zone)
    ⊎ ((get below store.zones ≡ none) × IsLongest below (values store.zones) zone)
find_zone-IsLongest_example = find_zone-IsLongest store below find_zone-below

find_zone-outside : find_zone store outside ≡ none
unfolding find_zone best_loop best_step add_zone insert get add_record
find_zone-outside = refl

Asks-www : Asks store (asking www RecordType.a) (question www RecordType.a) zone
unfolding find_zone best_loop best_step add_zone insert get add_record rtype_eq
Asks-www = record { standard = refl; asked = refl; plain = refl; owned = refl }

Asks-missing : Asks store (asking missing RecordType.a) (question missing RecordType.a) zone
unfolding find_zone best_loop best_step add_zone insert get add_record rtype_eq
Asks-missing = record { standard = refl; asked = refl; plain = refl; owned = refl }

Asks-alias : Asks store (asking alias RecordType.a) (question alias RecordType.a) zone
unfolding find_zone best_loop best_step add_zone insert get add_record rtype_eq
Asks-alias = record { standard = refl; asked = refl; plain = refl; owned = refl }

Asks-below : Asks store (asking below RecordType.a) (question below RecordType.a) zone
unfolding find_zone best_loop best_step add_zone insert get add_record rtype_eq
Asks-below = record { standard = refl; asked = refl; plain = refl; owned = refl }

has_www : find_records zone www RecordType.a ≡ some (www_a ∷ [])
unfolding find_records lookup add_record push_record get modify rtype_eq contains_name
has_www = refl

process_query-positive_example :
    ((process_query store (asking www RecordType.a)).answers ≡ www_a ∷ www_sig ∷ [])
    × ((process_query store (asking www RecordType.a)).response_code ≡ ResponseCode.no_error)
    × ((process_query store (asking www RecordType.a)).name_servers
        ≡ option_or (lookup zone origin RecordType.ns) [])
unfolding lookup add_record push_record get modify rtype_eq dnssec_ok covers_type
process_query-positive_example = process_query-positive Asks-www has_www

no_missing : (t : RecordType) → find_records zone missing t ≡ none
unfolding find_records lookup_wildcard wildcard_loop wildcard_at lookup add_record push_record get
    modify contains_name
no_missing t = refl

process_query-negative_example :
    ((process_query store (asking missing RecordType.a)).answers ≡ [])
    × ((process_query store (asking missing RecordType.a)).name_servers ≡ get_soa_record zone ∷ [])
    × ((process_query store (asking missing RecordType.a)).response_code ≡ ResponseCode.nx_domain)
unfolding contains_name contains_key add_record push_record get modify
process_query-negative_example =
    process_query-negative Asks-missing (no_missing RecordType.a) (no_missing RecordType.cname)

no_alias_a : find_records zone alias RecordType.a ≡ none
unfolding find_records lookup_wildcard wildcard_loop wildcard_at lookup add_record push_record get
    modify rtype_eq contains_name
no_alias_a = refl

has_alias : find_records zone alias RecordType.cname ≡ some (alias_cname ∷ [])
unfolding find_records lookup add_record push_record get modify rtype_eq contains_name
has_alias = refl

process_query-alias_example :
    ((process_query store (asking alias RecordType.a)).answers ≡ alias_cname ∷ www_a ∷ [])
    × ((process_query store (asking alias RecordType.a)).response_code ≡ ResponseCode.no_error)
unfolding lookup add_record push_record get modify rtype_eq
process_query-alias_example = process_query-alias Asks-alias no_alias_a has_alias

has_below : find_records zone below RecordType.a ≡ some (wild_a ∷ [])
unfolding find_records lookup_wildcard wildcard_loop wildcard_at lookup add_record push_record get
    modify rtype_eq contains_name
has_below = refl

lacks_below : contains_name zone below ≡ false
unfolding contains_name contains_key add_record push_record get modify
lacks_below = refl

process_query-wildcard_example :
    ((process_query store (asking below RecordType.a)).answers ≡ wild_a ∷ [])
    × ((suffix : List Bytes) × (m : Bytes) × (names.from_labels (star ∷ suffix) ≡ some m)
        × All (λ r. (r.name ==ₖ m) ≡ true) (wild_a ∷ []))
process_query-wildcard_example =
    process_query-wildcard Asks-below zone-IsWellFormed lacks_below has_below

pub store-HasValidZones : HasValidZones store
store-HasValidZones = add_zone-HasValidZones zone _ zone-IsWellFormed (
    add_zone-HasValidZones parent_zone _ (record { distinct = tt; types = tt })
      (record { zones = tt; keyed = tt; distinct = tt }))

process_query-echoes_example :
    let r = process_query store (asking missing RecordType.a) in
    (r.id ≡ 77)
    × (r.message_type ≡ MessageType.response)
    × (r.op_code ≡ OpCode.query)
    × (r.recursion_desired ≡ true)
    × (r.recursion_available ≡ false)
    × (r.truncated ≡ false)
    × (r.additionals ≡ [])
process_query-echoes_example = process_query-echoes store (asking missing RecordType.a)

process_query-nx_domain_example :
    ((process_query store (asking missing RecordType.a)).response_code ≡ ResponseCode.nx_domain)
    ↔ (Path OpCode OpCode.query OpCode.query × Denied store (some (question missing RecordType.a)))
process_query-nx_domain_example = process_query-nx_domain store (asking missing RecordType.a)

process_query-refused_example :
    ((process_query store (plainly outside RecordType.a)).response_code ≡ ResponseCode.refused)
    ↔ (Path OpCode OpCode.query OpCode.query × Unowned store (some (question outside RecordType.a)))
process_query-refused_example = process_query-refused store (plainly outside RecordType.a)

-- A zone transfer is left to the TCP handler: the response of `process_query` is empty.
axfr_is_empty : (process_query store (asking origin RecordType.axfr)).answers ≡ []
unfolding process_query rtype_eq
axfr_is_empty = refl
