-- ===== src/Suite/Files/Secure.antt =====
-- The tests of src/zone.rs on records of DNSSEC, keys and certificates in a zone file.
use lrmdns.Prelude.{Bool, true, ◌≡◌, refl, [], ◌∷◌, ◌&&◌}
use lrmdns.HashMap.{get, modify}
use lrmdns.Dns.Rr.{RecordType, from_rdata, rtype_eq}
use lrmdns.Zone.{lookup, add_record, push_record, extract_soa_data}
use lrmdns.Zone
use lrmdns.Zone.Text.{lines, before, trim, words, parse_unsigned, parse_i32, trim_quotes}
use lrmdns.Zone.Address.{parse_ipv4, read_ipv4, read_octet, read_digits}
use lrmdns.Zone.File.{preprocess_zone_content, add_lines, add_line, clean, strip_comment}
use lrmdns.Zone.File.Rdata.{
  parse_domain_name, parse_soa, parse_ns, parse_a, parse_mx, parse_srv, parse_ptr, parse_caa,
}
use lrmdns.Zone.File.Secure.{
  parse_naptr, parse_tlsa, parse_sshfp, parse_dnskey, parse_rrsig, parse_nsec, parse_ds,
}
use lrmdns.Zone.File.Parse.{parse_resource_record, parse_owner}
use lrmdns.Zone.File.Load.{parse_zone_file, parse_lines, parse_line, directive}
use lrmdns.Suite.Names.{name, dns_names}
use lrmdns.Suite.Files.{file, after_loading, has, is_missing, first_is_dnssec, all_true}

abbrev pub test_dnskey_parsing : Bool
test_dnskey_parsing =
    after_loading
      (file (
        "$ORIGIN example.com." ∷ "$TTL 3600"
        ∷ "@ IN SOA ns1.example.com. admin.example.com. 1 7200 3600 1209600 86400"
        ∷ "@ IN NS ns1.example.com." ∷ "ns1 IN A 192.0.2.1"
        ∷ "@ IN DNSKEY 256 3 8 AwEAAaetidLzsKWUt4swWR8yu0wPHPiUi8LU" ∷ []))
      "example.com."
      (λ z.
        has 1 (lookup z (name "example.com.") RecordType.dnskey)
        && first_is_dnssec (lookup z (name "example.com.") RecordType.dnskey))

abbrev pub test_rrsig_parsing : Bool
test_rrsig_parsing =
    after_loading
      (file (
        "$ORIGIN example.com." ∷ "$TTL 3600"
        ∷ "@ IN SOA ns1.example.com. admin.example.com. 1 7200 3600 1209600 86400"
        ∷ "@ IN NS ns1.example.com." ∷ "ns1 IN A 192.0.2.1"
        ∷ "@ IN RRSIG A 8 2 3600 1767139200 1764547200 12345 example.com. AwEAAaetidLzsKWU" ∷ []))
      "example.com."
      (λ z.
        has 1 (lookup z (name "example.com.") RecordType.sig)
        && first_is_dnssec (lookup z (name "example.com.") RecordType.sig))

abbrev pub test_nsec_parsing : Bool
test_nsec_parsing =
    after_loading
      (file (
        "$ORIGIN example.com." ∷ "$TTL 3600"
        ∷ "@ IN SOA ns1.example.com. admin.example.com. 1 7200 3600 1209600 86400"
        ∷ "@ IN NS ns1.example.com." ∷ "ns1 IN A 192.0.2.1"
        ∷ "@ IN NSEC www.example.com. A NS SOA RRSIG NSEC DNSKEY" ∷ []))
      "example.com."
      (λ z.
        has 1 (lookup z (name "example.com.") RecordType.nsec)
        && first_is_dnssec (lookup z (name "example.com.") RecordType.nsec))

abbrev pub test_ds_parsing : Bool
test_ds_parsing =
    after_loading
      (file (
        "$ORIGIN example.com." ∷ "$TTL 3600"
        ∷ "@ IN SOA ns1.example.com. admin.example.com. 1 7200 3600 1209600 86400"
        ∷ "@ IN NS ns1.example.com." ∷ "ns1 IN A 192.0.2.1"
        ∷ "@ IN DS 12345 8 2 A8B1C2D3E4F506172839405A6B7C8D9E0F1A2B3C4D5E6F70" ∷ []))
      "example.com."
      (λ z.
        has 1 (lookup z (name "example.com.") RecordType.ds)
        && first_is_dnssec (lookup z (name "example.com.") RecordType.ds))

abbrev pub test_invalid_base64_in_dnskey : Bool
test_invalid_base64_in_dnskey =
    after_loading
      (file (
        "$ORIGIN example.com." ∷ "$TTL 3600"
        ∷ "@ IN SOA ns1.example.com. admin.example.com. 1 7200 3600 1209600 86400"
        ∷ "@ IN DNSKEY 256 3 8 !!!INVALID_BASE64!!!" ∷ []))
      "example.com." (λ z. is_missing (lookup z (name "example.com.") RecordType.dnskey))

abbrev pub test_invalid_hex_in_ds : Bool
test_invalid_hex_in_ds =
    after_loading
      (file (
        "$ORIGIN example.com." ∷ "$TTL 3600"
        ∷ "@ IN SOA ns1.example.com. admin.example.com. 1 7200 3600 1209600 86400"
        ∷ "@ IN DS 12345 8 2 ZZZZZZ" ∷ []))
      "example.com." (λ z. is_missing (lookup z (name "example.com.") RecordType.ds))

abbrev pub test_tlsa_record_parsing : Bool
test_tlsa_record_parsing =
    after_loading
      (file (
        "$ORIGIN example.com." ∷ "$TTL 3600"
        ∷ "@ IN SOA ns1.example.com. admin.example.com. 1 7200 3600 1209600 86400"
        ∷ "_443._tcp IN TLSA 3 1 1 D2ABDE240D7CD3EE6B4B28C54DF034B97983A1D16E8A410E4561CB106618E971"
        ∷ []))
      "example.com." (λ z. has 1 (lookup z (name "_443._tcp.example.com.") RecordType.tlsa))

abbrev pub test_sshfp_record_parsing : Bool
test_sshfp_record_parsing =
    after_loading
      (file (
        "$ORIGIN example.com." ∷ "$TTL 3600"
        ∷ "@ IN SOA ns1.example.com. admin.example.com. 1 7200 3600 1209600 86400"
        ∷ "host IN SSHFP 1 2 123456789ABCDEF67890123456789ABCDEF67890123456789ABCDEF6789012" ∷ []))
      "example.com." (λ z. has 1 (lookup z (name "host.example.com.") RecordType.sshfp))

-- Every test of this file passes.
pub secure_tests_pass :
    all_true (
      test_dnskey_parsing ∷ test_rrsig_parsing ∷ test_nsec_parsing ∷ test_ds_parsing
      ∷ test_invalid_base64_in_dnskey ∷ test_invalid_hex_in_ds ∷ test_tlsa_record_parsing
      ∷ test_sshfp_record_parsing ∷ [])
    ≡ true
unfolding parse_zone_file preprocess_zone_content add_lines add_line lines clean strip_comment
    before trim parse_lines parse_line directive parse_resource_record parse_owner words
    parse_unsigned parse_i32 trim_quotes parse_soa parse_ns parse_a parse_mx parse_srv parse_ptr
    parse_caa parse_naptr parse_tlsa parse_sshfp parse_dnskey parse_rrsig parse_nsec parse_ds
    parse_domain_name parse_ipv4 read_ipv4 read_octet read_digits from_rdata extract_soa_data
    rtype_eq add_record push_record modify lookup get Zone.new
secure_tests_pass = refl
