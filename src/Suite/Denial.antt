-- ===== src/Suite/Denial.antt =====
-- The unit tests of src/dnssec.rs on NSEC records that deny a name or a type.
use lrmdns.Prelude.{Bool, true, false, not, ◌≡◌, refl, List, [], ◌∷◌}
use lrmdns.Prelude.Result.{ok, err}
use lrmdns.Dns.Rr.{RecordType, rtype_eq, Record, RData, from_rdata}
use lrmdns.Dnssec.{nsec_denies, validate_nsec_denial}
use lrmdns.Suite.Names.{name, Labels, dns_names}
use lrmdns.Suite.Files.{all_true}

-- the NSEC records prove that the name has no A record
abbrev denies_a : Labels → List (Record Labels) → Bool
denies_a query nsec_records = elim (validate_nsec_denial query RecordType.a nsec_records) [
  | ok u ↦ true
  | err e ↦ false
]

abbrev nsec_record : Labels → Labels → List RecordType → Record Labels
nsec_record owner next types =
    from_rdata owner 300 (RData.nsec (record { next_domain_name = next; type_bit_maps = types }))

abbrev pub test_validate_nsec_denial_empty : Bool
test_validate_nsec_denial_empty = not (denies_a (name "www.example.com.") [])

abbrev pub test_validate_nsec_normal_case : Bool
test_validate_nsec_normal_case = denies_a (name "m.example.com.") (
    nsec_record (name "a.example.com.") (name "z.example.com.")
      (RecordType.ns ∷ RecordType.soa ∷ [])
    ∷ [])

abbrev pub test_validate_nsec_wraparound_case : Bool
test_validate_nsec_wraparound_case =
    denies_a (name "zz.example.com.")
      (nsec_record (name "z.example.com.") (name "a.example.com.") (RecordType.ns ∷ []) ∷ [])

abbrev pub test_validate_nsec_type_bitmap : Bool
test_validate_nsec_type_bitmap = denies_a (name "www.example.com.") (
    nsec_record (name "www.example.com.") (name "z.example.com.")
      (RecordType.ns ∷ RecordType.soa ∷ [])
    ∷ [])

abbrev pub test_validate_nsec_type_exists : Bool
test_validate_nsec_type_exists = not (
    denies_a (name "www.example.com.") (
      nsec_record (name "www.example.com.") (name "z.example.com.")
        (RecordType.a ∷ RecordType.ns ∷ [])
      ∷ []))

abbrev pub test_validate_nsec_multiple_records : Bool
test_validate_nsec_multiple_records = denies_a (name "p.example.com.") (
    nsec_record (name "a.example.com.") (name "m.example.com.") (RecordType.a ∷ [])
    ∷ nsec_record (name "m.example.com.") (name "z.example.com.") (RecordType.a ∷ [])
    ∷ [])

-- Every test of this file passes.
denial_tests_pass :
    all_true (
      test_validate_nsec_denial_empty ∷ test_validate_nsec_normal_case
      ∷ test_validate_nsec_wraparound_case ∷ test_validate_nsec_type_bitmap
      ∷ test_validate_nsec_type_exists ∷ test_validate_nsec_multiple_records ∷ [])
    ≡ true
unfolding nsec_denies validate_nsec_denial from_rdata rtype_eq
denial_tests_pass = refl
