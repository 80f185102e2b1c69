-- ===== src/Suite/Files/Records.antt =====
-- The tests of src/zone.rs on the types of records in a zone file, and on files that are refused.
use lrmdns.Prelude.{Bool, true, ◌≡◌, refl, [], ◌∷◌, ◌++◌, is_some}
use lrmdns.HashMap.{get, modify}
use lrmdns.Dns.Rr.{RecordType, from_rdata, rtype_eq}
use lrmdns.Zone.{lookup, add_record, push_record, extract_soa_data}
use lrmdns.Zone
use lrmdns.Zone.Text.{lines, before, trim, words, parse_unsigned, parse_i32, trim_quotes}
use lrmdns.Zone.Text.Lines.{unlines}
use lrmdns.Zone.Address.{parse_ipv4, read_ipv4, read_octet, read_digits}
use lrmdns.Zone.File.{preprocess_zone_content, add_lines, add_line, clean, strip_comment}
use lrmdns.Zone.File.Rdata.{
  parse_domain_name, parse_soa, parse_ns, parse_a, parse_mx, parse_srv, parse_ptr, parse_caa,
}
use lrmdns.Zone.File.Secure.{
  parse_naptr, parse_tlsa, parse_sshfp, parse_dnskey, parse_rrsig, parse_nsec, parse_ds,
}
use lrmdns.Zone.File.Parse.{parse_resource_record, parse_owner}
use lrmdns.Zone.File.Load.{parse_zone_file, parse_lines, parse_line, directive}
use lrmdns.Suite.Names.{codes, name, dns_names}
use lrmdns.Suite.Files.{file, after_loading, is_refused, has, repeated, all_true}

abbrev pub test_malformed_zone_file : Bool
test_malformed_zone_file =
    is_refused (file ("$ORIGIN example.com." ∷ "$TTL 3600" ∷ "@ IN NS ns1.example.com." ∷ []))
      "example.com."

abbrev pub test_invalid_ttl : Bool
test_invalid_ttl =
    is_refused
      (file (
        "$ORIGIN example.com." ∷ "$TTL invalid"
        ∷ "@ IN SOA ns1.example.com. admin.example.com. 1 7200 3600 1209600 86400" ∷ []))
      "example.com."

abbrev pub test_invalid_record_data : Bool
test_invalid_record_data =
    is_refused
      (file (
        "$ORIGIN example.com." ∷ "$TTL 3600"
        ∷ "@ IN SOA ns1.example.com. admin.example.com. 1 7200 3600 1209600 86400"
        ∷ "@ IN A invalid.ip.address" ∷ []))
      "example.com."

abbrev pub test_malformed_soa : Bool
test_malformed_soa =
    is_refused (file ("$ORIGIN example.com." ∷ "$TTL 3600" ∷ "@ IN SOA ns1.example.com." ∷ []))
      "example.com."

abbrev pub test_empty_zone_file : Bool
test_empty_zone_file = is_refused (file ([])) "example.com."

abbrev pub test_very_long_domain_name : Bool
test_very_long_domain_name =
    is_refused
      (unlines (
        codes "$ORIGIN example.com."
        ∷ codes "$TTL 3600"
        ∷ codes "@ IN SOA ns1.example.com. admin.example.com. 1 7200 3600 1209600 86400"
        ∷ (repeated 70 97 ++ codes " IN A 192.0.2.1")
        ∷ []))
      "example.com."

abbrev pub test_caa_record_parsing : Bool
test_caa_record_parsing =
    after_loading
      (file (
        "$ORIGIN example.com." ∷ "$TTL 3600"
        ∷ "@ IN SOA ns1.example.com. admin.example.com. 1 7200 3600 1209600 86400"
        ∷ "@ IN CAA 0 issue \"letsencrypt.org\"" ∷ "@ IN CAA 0 issuewild \"letsencrypt.org\""
        ∷ "@ IN CAA 0 iodef \"mailto:admin@example.com\"" ∷ []))
      "example.com." (λ z. has 3 (lookup z (name "example.com.") RecordType.caa))

abbrev pub test_ptr_record_parsing : Bool
test_ptr_record_parsing =
    after_loading
      (file (
        "$ORIGIN 2.0.192.in-addr.arpa." ∷ "$TTL 3600"
        ∷ "@ IN SOA ns1.example.com. admin.example.com. 1 7200 3600 1209600 86400"
        ∷ "1 IN PTR www.example.com." ∷ []))
      "2.0.192.in-addr.arpa."
      (λ z. is_some (lookup z (name "1.2.0.192.in-addr.arpa.") RecordType.ptr))

abbrev pub test_srv_record_parsing : Bool
test_srv_record_parsing =
    after_loading
      (file (
        "$ORIGIN example.com." ∷ "$TTL 3600"
        ∷ "@ IN SOA ns1.example.com. admin.example.com. 1 7200 3600 1209600 86400"
        ∷ "_http._tcp IN SRV 10 60 80 www.example.com." ∷ []))
      "example.com." (λ z. is_some (lookup z (name "_http._tcp.example.com.") RecordType.srv))

abbrev pub test_multiline_mx_record : Bool
test_multiline_mx_record =
    after_loading
      (file (
        "$ORIGIN example.com." ∷ "$TTL 3600"
        ∷ "@ IN SOA ns1.example.com. admin.example.com. 1 7200 3600 1209600 86400" ∷ "@ IN MX ("
        ∷ "    10" ∷ "    mail.example.com." ∷ ")" ∷ "@ IN NS ns1.example.com." ∷ []))
      "example.com." (λ z. has 1 (lookup z (name "example.com.") RecordType.mx))

abbrev pub test_naptr_record_parsing : Bool
test_naptr_record_parsing =
    after_loading
      (file (
        "$ORIGIN example.com." ∷ "$TTL 3600"
        ∷ "@ IN SOA ns1.example.com. admin.example.com. 1 7200 3600 1209600 86400"
        ∷ "_sip._tcp IN NAPTR 100 10 \"u\" \"E2U+sip\" \"!^.*$!sip:info@example.com!\" ." ∷ []))
      "example.com." (λ z. has 1 (lookup z (name "_sip._tcp.example.com.") RecordType.naptr))

-- Every test of this file passes.
pub record_tests_pass :
    all_true (
      test_malformed_zone_file ∷ test_invalid_ttl ∷ test_invalid_record_data ∷ test_malformed_soa
      ∷ test_empty_zone_file ∷ test_very_long_domain_name ∷ test_caa_record_parsing
      ∷ test_ptr_record_parsing ∷ test_srv_record_parsing ∷ test_multiline_mx_record
      ∷ test_naptr_record_parsing ∷ [])
    ≡ true
unfolding parse_zone_file preprocess_zone_content add_lines add_line lines clean strip_comment
    before trim parse_lines parse_line directive parse_resource_record parse_owner words
    parse_unsigned parse_i32 trim_quotes parse_soa parse_ns parse_a parse_mx parse_srv parse_ptr
    parse_caa parse_naptr parse_tlsa parse_sshfp parse_dnskey parse_rrsig parse_nsec parse_ds
    parse_domain_name parse_ipv4 read_ipv4 read_octet read_digits from_rdata extract_soa_data
    rtype_eq add_record push_record modify lookup get Zone.new
record_tests_pass = refl
