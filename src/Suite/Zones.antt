-- ===== src/Suite/Zones.antt =====
-- The unit tests of src/zone.rs on zones and stores that are built record by record.
pub mod Props
use lrmdns.Prelude.{
  ℕ, ◌+◌, ◌*◌, Bool, true, false, not, ◌&&◌, ◌||◌, ◌≡◌, refl, Option, none, some, List, [], ◌∷◌,
  is_some, is_empty, length, ◌==◌, map, option_or, retain, sort, tail,
}
use lrmdns.Prelude.Int.{pos}
use lrmdns.HashMap.{◌==ₖ◌, get, modify, insert, contains_key}
use lrmdns.Dns.Rr.{RecordType, rtype_key, rtype_eq, Record, RData, from_rdata, record_type_of}
use lrmdns.Zone.{
  Zone, SoaRecord, add_record, push_record, lookup, lookup_wildcard, wildcard_loop, wildcard_at,
  get_soa_record, get_all_records, inner_records, records_at,
}
use lrmdns.Zone
use lrmdns.Zone.Store.{ZoneStore, add_zone, find_zone, best_loop, best_step}
use lrmdns.Zone.Store
use lrmdns.Zone.Text.{Text, text_eq, lines, before, trim}
use lrmdns.Zone.File.{preprocess_zone_content, add_lines, add_line, clean, strip_comment}
use lrmdns.Suite.Names.{codes, name, Labels, dns_names, show_name, bytes_lt}
use lrmdns.Suite.Files.{file, has, is_missing, all_true}

-- `Ipv4Addr::new(a, b, c, d)`
abbrev pub ipv4_addr : ℕ → ℕ → ℕ → ℕ → ℕ
ipv4_addr a b c d = ((a * 256 + b) * 256 + c) * 256 + d

-- the SOA data that the tests share, with a serial number
abbrev pub soa_of : ℕ → SoaRecord Labels
soa_of serial = record {
  mname = name "ns1.example.com.";
  rname = name "admin.example.com.";
  serial = serial;
  refresh = pos 7200;
  retry = pos 3600;
  expire = pos 1209600;
  minimum = 86400;
}

abbrev pub example_zone : ℕ → Zone Labels
example_zone serial = Zone.new (name "example.com.") (soa_of serial)

abbrev pub a_record : Labels → ℕ → ℕ → Record Labels
a_record n ttl address = from_rdata n ttl (RData.a address)

-- the first record is of type A with this address
abbrev pub first_has_address : ℕ → Option (List (Record Labels)) → Bool
first_has_address address (some (r ∷ rs)) = elim r.rdata [
  | some (RData.a n) ↦ n == address
  | _ ↦ false
]
first_has_address address _ = false

abbrev pub test_zone_store_find_zone : Bool
test_zone_store_find_zone =
    let store = add_zone (example_zone 1) Store.new in
    is_some (find_zone store (name "www.example.com."))
    && not (is_some (find_zone store (name "example.org.")))

abbrev wildcard_zone : Zone Labels
wildcard_zone =
    add_record (a_record (name "www.example.com.") 3600 (ipv4_addr 192 0 2 10))
      (add_record (a_record (name "*.example.com.") 3600 (ipv4_addr 192 0 2 100)) (example_zone 1))

abbrev pub test_wildcard_lookup : Bool
test_wildcard_lookup =
    has 1 (lookup wildcard_zone (name "*.example.com.") RecordType.a)
    && has 1 (lookup_wildcard wildcard_zone (name "random.example.com.") RecordType.a)
    && has 1 (lookup wildcard_zone (name "www.example.com.") RecordType.a)
    && first_has_address (ipv4_addr 192 0 2 10)
        (lookup wildcard_zone (name "www.example.com.") RecordType.a)

abbrev pub test_wildcard_with_specific_override : Bool
test_wildcard_with_specific_override =
    first_has_address (ipv4_addr 192 0 2 10)
      (lookup wildcard_zone (name "www.example.com.") RecordType.a)
    && first_has_address (ipv4_addr 192 0 2 100)
        (lookup_wildcard wildcard_zone (name "random.example.com.") RecordType.a)

abbrev pub test_nonexistent_record_type : Bool
test_nonexistent_record_type =
    is_missing (lookup (example_zone 1) (name "example.com.") RecordType.mx)

abbrev starts_with : Text → Text → Bool
starts_with [] s = true
starts_with (c ∷ p) [] = false
starts_with (c ∷ p) (d ∷ s) = (c == d) && starts_with p s

-- `s.contains(p)`
abbrev contains : Text → Text → Bool
contains p [] = is_empty p
contains p (c ∷ s) = let rest = contains p s in starts_with p (c ∷ s) || rest

abbrev merged_soa : List Text → Bool
merged_soa (origin ∷ ttl ∷ soa ∷ ns ∷ []) =
    contains (codes "SOA") soa
    && contains (codes "2024010101") soa
    && contains (codes "86400") soa
    && not (contains (codes ";") soa)
merged_soa _ = false

abbrev pub test_preprocess_zone_content : Bool
test_preprocess_zone_content = merged_soa (
    preprocess_zone_content (
      file (
        "$ORIGIN example.com." ∷ "$TTL 3600" ∷ "@ IN SOA ns1.example.com. admin.example.com. ("
        ∷ "    2024010101  ; Serial" ∷ "    7200        ; Refresh" ∷ "    3600        ; Retry"
        ∷ "    1209600     ; Expire" ∷ "    86400       ; Minimum TTL" ∷ ")"
        ∷ "@ IN NS ns1.example.com." ∷ [])))

abbrev is_of_type : RecordType → Record Labels → Bool
is_of_type t r = r.rtype ==ₖ t

abbrev last_is : (Record Labels → Bool) → List (Record Labels) → Bool
last_is p [] = false
last_is p (r ∷ []) = p r
last_is p (r ∷ rs) = last_is p rs

abbrev first_is : (Record Labels → Bool) → List (Record Labels) → Bool
first_is p [] = false
first_is p (r ∷ rs) = p r

abbrev soa_zone : Zone Labels
soa_zone =
    add_record (a_record (name "www.example.com.") 3600 (ipv4_addr 192 0 2 1))
      (example_zone 2024010101)

abbrev pub test_axfr_should_only_include_two_soa_records : Bool
test_axfr_should_only_include_two_soa_records =
    let all_records = get_all_records (add_record (get_soa_record soa_zone) soa_zone) in
    (length (retain (is_of_type RecordType.soa) all_records) == 2)
    && first_is (is_of_type RecordType.soa) all_records
    && last_is (is_of_type RecordType.soa) all_records

abbrev without_last : List (Record Labels) → List (Record Labels)
without_last [] = []
without_last (r ∷ []) = []
without_last (r ∷ rs) = r ∷ without_last rs

-- sorting the names changes nothing
abbrev texts_eq : List Text → List Text → Bool
texts_eq [] [] = true
texts_eq (s ∷ ss) (t ∷ ts) = text_eq s t && texts_eq ss ts
texts_eq _ _ = false

abbrev a_then_aaaa : List (Record Labels) → Bool
a_then_aaaa (r ∷ s ∷ rs) = is_of_type RecordType.a r && is_of_type RecordType.aaaa s
a_then_aaaa _ = true

abbrev unsorted_zone : Zone Labels
unsorted_zone = add_record (a_record (name "multi.example.com.") 300 (ipv4_addr 192 0 2 4)) (
    add_record
      (from_rdata (name "multi.example.com.") 300
        (RData.aaaa 42540766411282592856903984951653826561))
      (add_record (a_record (name "mmm.example.com.") 300 (ipv4_addr 192 0 2 3)) (
        add_record (a_record (name "aaa.example.com.") 300 (ipv4_addr 192 0 2 2)) (
          add_record (a_record (name "zzz.example.com.") 300 (ipv4_addr 192 0 2 1))
            (example_zone 1)))))

abbrev pub test_get_all_records_canonical_ordering : Bool
test_get_all_records_canonical_ordering =
    let middle_records = without_last (tail (get_all_records unsorted_zone)) in
    let names = map (λ (r : Record Labels). show_name r.name) middle_records in
    texts_eq names (sort bytes_lt names)
    && a_then_aaaa
        (retain (λ r. text_eq (show_name r.name) (codes "multi.example.com.")) middle_records)

-- Every test of this file passes.
zone_tests_pass :
    all_true (
      test_zone_store_find_zone ∷ test_wildcard_lookup ∷ test_wildcard_with_specific_override
      ∷ test_nonexistent_record_type ∷ test_preprocess_zone_content
      ∷ test_axfr_should_only_include_two_soa_records ∷ test_get_all_records_canonical_ordering
      ∷ [])
    ≡ true
unfolding add_zone find_zone best_loop best_step Store.new insert get modify lookup lookup_wildcard
    wildcard_loop wildcard_at add_record push_record from_rdata rtype_eq get_soa_record
    get_all_records inner_records records_at preprocess_zone_content add_lines add_line lines clean
    strip_comment before trim Zone.new
zone_tests_pass = refl
