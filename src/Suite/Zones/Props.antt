-- ===== src/Suite/Zones/Props.antt =====
-- The property tests of src/zone.rs. A test is a function of the values that are generated for it.
-- The names that a test builds from text are given by their labels.
use lrmdns.Prelude.{
  ℕ, zero, suc, ◌+◌, Bool, true, false, not, ◌&&◌, ◌≡◌, refl, none, some, [], ◌∷◌, ◌++◌, is_some,
  ◌==◌, arith, map,
}
use lrmdns.HashMap.{◌==ₖ◌, get, modify, insert}
use lrmdns.Dns.Name.{star}
use lrmdns.Dns.Rr.{Bytes, RecordType, rtype_key, rtype_eq, RData, from_rdata}
use lrmdns.Zone.{Zone, SoaRecord, add_record, push_record, lookup, contains_name, get_soa_record}
use lrmdns.Zone
use lrmdns.Zone.Store.{ZoneStore, add_zone, find_zone, best_loop, best_step}
use lrmdns.Zone.Store
use lrmdns.Suite.Names.{codes, name, Labels, labels_eq_refl, dns_names, labels_eq}
use lrmdns.Suite.Files.{has, is_missing, all_true}
use lrmdns.Suite.Zones.{ipv4_addr, soa_of, example_zone, a_record, first_has_address}

abbrev pub prop_add_and_lookup_record_consistent : Labels → ℕ → Bool
prop_add_and_lookup_record_consistent n ttl =
    has 1
      (lookup (add_record (a_record n ttl (ipv4_addr 192 0 2 1)) (example_zone 1)) n RecordType.a)

abbrev pub prop_lookup_nonexistent_name_returns_none : Labels → Bool
prop_lookup_nonexistent_name_returns_none n = is_missing (lookup (example_zone 1) n RecordType.a)

abbrev pub prop_contains_name_after_add : Labels → Bool
prop_contains_name_after_add n =
    contains_name (add_record (a_record n 3600 (ipv4_addr 192 0 2 1)) (example_zone 1)) n

abbrev both_types : Labels → Zone Labels
both_types n =
    add_record (from_rdata n 3600 (RData.aaaa 42540766411282592856903984951653826561))
      (add_record (a_record n 3600 (ipv4_addr 192 0 2 1)) (example_zone 1))

abbrev pub prop_multiple_records_same_name_different_types : Labels → Bool
prop_multiple_records_same_name_different_types n =
    has 1 (lookup (both_types n) n RecordType.a) && has 1 (lookup (both_types n) n RecordType.aaaa)

abbrev labelled_zones : Bytes → Labels → Zone Labels
labelled_zones suffix n =
    add_record (a_record (codes "www" ∷ suffix ∷ n) 3600 (ipv4_addr 192 0 2 10))
      (add_record (a_record (star ∷ suffix ∷ n) 3600 (ipv4_addr 192 0 2 100)) (example_zone 1))

abbrev pub prop_wildcard_does_not_match_exact_name : Bytes → Bool
prop_wildcard_does_not_match_exact_name wildcard_suffix = first_has_address (ipv4_addr 192 0 2 10) (
    lookup (labelled_zones wildcard_suffix (name "example.com."))
      (codes "www" ∷ wildcard_suffix ∷ name "example.com.") RecordType.a)

abbrev pub prop_soa_record_always_retrievable : ℕ → Bool
prop_soa_record_always_retrievable serial =
    let soa_record = get_soa_record (example_zone serial) in
    labels_eq soa_record.name (name "example.com.") && (soa_record.rtype ==ₖ RecordType.soa)

abbrev pub prop_record_ttl_preserved : Labels → ℕ → Bool
prop_record_ttl_preserved n ttl =
    elim (lookup (add_record (a_record n ttl (ipv4_addr 192 0 2 1)) (example_zone 1)) n
      RecordType.a) [ some (r ∷ rs) ↦ r.ttl == ttl | some [] ↦ false | none ↦ true ]

-- `zone{i}.com.`, for a number of one digit
abbrev numbered : ℕ → Labels
numbered i = (codes "zone" ++ (48 + i) ∷ []) ∷ codes "com" ∷ []

abbrev numbered_soa : ℕ → SoaRecord Labels
numbered_soa i = record (soa_of 1) {
  mname = codes "ns1" ∷ numbered i;
  rname = codes "admin" ∷ numbered i;
}

-- `for i in 0..zone_count`
abbrev numbered_store : ℕ → ZoneStore Labels
numbered_store zero = Store.new
numbered_store (suc i) = add_zone (Zone.new (numbered i) (numbered_soa i)) (numbered_store i)

abbrev finds_below : ℕ → ZoneStore Labels → Bool
finds_below zero store = true
finds_below (suc i) store =
    is_some (find_zone store (codes "www" ∷ numbered i)) && finds_below i store

abbrev pub prop_zone_store_find_zone_consistency : ℕ → Bool
prop_zone_store_find_zone_consistency zone_count =
    let store = numbered_store zone_count in
    finds_below zone_count store && not (is_some (find_zone store (name "www.nonexistent.com.")))

-- for each of the counts that can be generated
prop_zone_store_find_zone_consistency_lem :
    all_true (map prop_zone_store_find_zone_consistency (1 ∷ 2 ∷ 3 ∷ 4 ∷ 5 ∷ [])) ≡ true
unfolding add_zone find_zone best_loop best_step Store.new Zone.new insert get
prop_zone_store_find_zone_consistency_lem = refl

prop_add_and_lookup_record_consistent_lem :
    (n : Labels) (ttl : ℕ) → prop_add_and_lookup_record_consistent n ttl ≡ true
unfolding lookup add_record get modify Zone.new from_rdata push_record rtype_eq
prop_add_and_lookup_record_consistent_lem n ttl = rw (labels_eq_refl n) refl

prop_lookup_nonexistent_name_returns_none_lem :
    (n : Labels) → prop_lookup_nonexistent_name_returns_none n ≡ true
unfolding lookup get Zone.new
prop_lookup_nonexistent_name_returns_none_lem n = refl

prop_contains_name_after_add_lem : (n : Labels) → prop_contains_name_after_add n ≡ true
unfolding contains_name add_record modify get Zone.new from_rdata
prop_contains_name_after_add_lem n = rw (labels_eq_refl n) refl

prop_multiple_records_same_name_different_types_lem :
    (n : Labels) → prop_multiple_records_same_name_different_types n ≡ true
unfolding lookup add_record get modify Zone.new from_rdata push_record rtype_eq
prop_multiple_records_same_name_different_types_lem n =
    rw (labels_eq_refl n) (rw (labels_eq_refl n) refl)

prop_wildcard_does_not_match_exact_name_lem :
    (suffix : Bytes) → prop_wildcard_does_not_match_exact_name suffix ≡ true
unfolding lookup add_record get modify Zone.new from_rdata push_record rtype_eq
prop_wildcard_does_not_match_exact_name_lem suffix =
    rw (labels_eq_refl (suffix ∷ name "example.com.")) refl

prop_soa_record_always_retrievable_lem :
    (serial : ℕ) → prop_soa_record_always_retrievable serial ≡ true
unfolding get_soa_record from_rdata rtype_eq Zone.new
prop_soa_record_always_retrievable_lem serial = refl

prop_record_ttl_preserved_lem : (n : Labels) (ttl : ℕ) → prop_record_ttl_preserved n ttl ≡ true
unfolding lookup add_record get modify Zone.new from_rdata push_record rtype_eq
prop_record_ttl_preserved_lem n ttl = rw (labels_eq_refl n) (ground arith)
