-- ===== src/Suite/Files/Soa.antt =====
-- The tests of src/zone.rs on the layouts of a SOA record in a zone file, and on comments.
use lrmdns.Prelude.{Bool, true, ◌≡◌, refl, [], ◌∷◌, ◌&&◌, is_some, ◌==◌}
use lrmdns.HashMap.{get, modify}
use lrmdns.Dns.Rr.{RecordType, from_rdata, rtype_eq}
use lrmdns.Zone.{lookup, add_record, push_record, extract_soa_data}
use lrmdns.Zone
use lrmdns.Zone.Text.{lines, before, trim, words, parse_unsigned, parse_i32, trim_quotes}
use lrmdns.Zone.Address.{parse_ipv4, read_ipv4, read_octet, read_digits}
use lrmdns.Zone.File.{preprocess_zone_content, add_lines, add_line, clean, strip_comment}
use lrmdns.Zone.File.Rdata.{
  parse_domain_name, parse_soa, parse_ns, parse_a, parse_mx, parse_srv, parse_ptr, parse_caa,
}
use lrmdns.Zone.File.Secure.{
  parse_naptr, parse_tlsa, parse_sshfp, parse_dnskey, parse_rrsig, parse_nsec, parse_ds,
}
use lrmdns.Zone.File.Parse.{parse_resource_record, parse_owner}
use lrmdns.Zone.File.Load.{parse_zone_file, parse_lines, parse_line, directive}
use lrmdns.Suite.Names.{name, dns_names}
use lrmdns.Suite.Files.{file, after_loading, is_pos, all_true}

abbrev pub test_multiline_soa_with_parentheses : Bool
test_multiline_soa_with_parentheses =
    after_loading
      (file (
        "$ORIGIN example.com." ∷ "$TTL 3600" ∷ "@ IN SOA ns1.example.com. admin.example.com. ("
        ∷ "    2024010101  ; Serial" ∷ "    7200        ; Refresh" ∷ "    3600        ; Retry"
        ∷ "    1209600     ; Expire" ∷ "    86400       ; Minimum TTL" ∷ ")"
        ∷ "@ IN NS ns1.example.com." ∷ "ns1 IN A 192.0.2.1" ∷ []))
      "example.com."
      (λ z.
        (z.soa.serial == 2024010101)
        && is_pos z.soa.refresh 7200
        && is_pos z.soa.retry 3600
        && is_pos z.soa.expire 1209600
        && (z.soa.minimum == 86400)
        && is_some (lookup z (name "example.com.") RecordType.ns))

abbrev pub test_multiline_soa_without_inline_comments : Bool
test_multiline_soa_without_inline_comments =
    after_loading
      (file (
        "$ORIGIN example.com." ∷ "$TTL 3600" ∷ "@ IN SOA ns1.example.com. admin.example.com. ("
        ∷ "    2024010101" ∷ "    7200" ∷ "    3600" ∷ "    1209600" ∷ "    86400" ∷ ")"
        ∷ "@ IN NS ns1.example.com." ∷ []))
      "example.com." (λ z. (z.soa.serial == 2024010101))

abbrev pub test_inline_comments_stripped : Bool
test_inline_comments_stripped =
    after_loading
      (file (
        "$ORIGIN example.com." ∷ "$TTL 3600 ; default TTL"
        ∷ "@ IN SOA ns1.example.com. admin.example.com. 1 7200 3600 1209600 86400 ; SOA record"
        ∷ "@ IN NS ns1.example.com. ; nameserver" ∷ "ns1 IN A 192.0.2.1 ; nameserver IP" ∷ []))
      "example.com." (λ z. is_some (lookup z (name "example.com.") RecordType.ns))

abbrev pub test_soa_single_line_format : Bool
test_soa_single_line_format =
    after_loading
      (file (
        "$ORIGIN example.com." ∷ "$TTL 3600"
        ∷ "@ IN SOA ns1.example.com. admin.example.com. 2024010101 7200 3600 1209600 86400"
        ∷ "@ IN NS ns1.example.com." ∷ []))
      "example.com."
      (λ z.
        (z.soa.serial == 2024010101)
        && is_pos z.soa.refresh 7200
        && is_pos z.soa.retry 3600
        && is_pos z.soa.expire 1209600
        && (z.soa.minimum == 86400))

abbrev pub test_soa_multiline_compact : Bool
test_soa_multiline_compact =
    after_loading
      (file (
        "$ORIGIN example.com." ∷ "$TTL 3600" ∷ "@ IN SOA ns1.example.com. admin.example.com. ("
        ∷ "    2024010101 7200 3600 1209600 86400" ∷ ")" ∷ "@ IN NS ns1.example.com." ∷ []))
      "example.com." (λ z. (z.soa.serial == 2024010101) && is_pos z.soa.refresh 7200)

abbrev pub test_soa_multiline_each_field_separate_line : Bool
test_soa_multiline_each_field_separate_line =
    after_loading
      (file (
        "$ORIGIN example.com." ∷ "$TTL 3600" ∷ "@ IN SOA ns1.example.com. admin.example.com. ("
        ∷ "    2024010101" ∷ "    7200" ∷ "    3600" ∷ "    1209600" ∷ "    86400" ∷ ")"
        ∷ "@ IN NS ns1.example.com." ∷ []))
      "example.com." (λ z. (z.soa.serial == 2024010101) && (z.soa.minimum == 86400))

abbrev pub test_soa_multiline_mixed_grouping : Bool
test_soa_multiline_mixed_grouping =
    after_loading
      (file (
        "$ORIGIN example.com." ∷ "$TTL 3600" ∷ "@ IN SOA ns1.example.com. admin.example.com. ("
        ∷ "    2024010101 7200" ∷ "    3600" ∷ "    1209600 86400" ∷ ")"
        ∷ "@ IN NS ns1.example.com." ∷ []))
      "example.com."
      (λ z.
        (z.soa.serial == 2024010101)
        && is_pos z.soa.refresh 7200
        && is_pos z.soa.retry 3600
        && is_pos z.soa.expire 1209600
        && (z.soa.minimum == 86400))

abbrev pub test_soa_with_inline_comments : Bool
test_soa_with_inline_comments =
    after_loading
      (file (
        "$ORIGIN example.com." ∷ "$TTL 3600"
        ∷ "@ IN SOA ns1.example.com. admin.example.com. ( ; Start SOA"
        ∷ "    2024010101  ; Serial number" ∷ "    7200        ; Refresh - 2 hours"
        ∷ "    3600        ; Retry - 1 hour" ∷ "    1209600     ; Expire - 2 weeks"
        ∷ "    86400       ; Minimum TTL - 1 day" ∷ ") ; End SOA"
        ∷ "@ IN NS ns1.example.com. ; Primary NS" ∷ []))
      "example.com."
      (λ z.
        (z.soa.serial == 2024010101)
        && is_pos z.soa.refresh 7200
        && is_pos z.soa.retry 3600
        && is_pos z.soa.expire 1209600
        && (z.soa.minimum == 86400))

abbrev pub test_soa_single_line_with_comment : Bool
test_soa_single_line_with_comment =
    after_loading
      (file (
        "$ORIGIN example.com." ∷ "$TTL 3600"
        ∷ "@ IN SOA ns1.example.com. admin.example.com. 2024010101 7200 3600 1209600 86400 ; Main SOA"
        ∷ "@ IN NS ns1.example.com." ∷ []))
      "example.com." (λ z. (z.soa.serial == 2024010101))

abbrev pub test_soa_with_tabs_and_spaces : Bool
test_soa_with_tabs_and_spaces =
    after_loading
      (file (
        "$ORIGIN example.com." ∷ "$TTL 3600" ∷ "@\tIN\tSOA\tns1.example.com.\tadmin.example.com.\t("
        ∷ "\t\t2024010101\t\t; Serial" ∷ "        7200          ; Refresh" ∷ "\t3600\t\t; Retry"
        ∷ "    1209600    ; Expire" ∷ "\t86400\t; Minimum" ∷ ")" ∷ "@ IN NS ns1.example.com." ∷ []))
      "example.com."
      (λ z. (z.soa.serial == 2024010101) && is_pos z.soa.refresh 7200 && is_pos z.soa.retry 3600)

abbrev pub test_soa_opening_paren_on_same_line_as_name : Bool
test_soa_opening_paren_on_same_line_as_name =
    after_loading
      (file (
        "$ORIGIN example.com." ∷ "$TTL 3600"
        ∷ "@ IN SOA ns1.example.com. admin.example.com. ( 2024010101" ∷ "    7200 3600"
        ∷ "    1209600 86400 )" ∷ "@ IN NS ns1.example.com." ∷ []))
      "example.com." (λ z. (z.soa.serial == 2024010101) && (z.soa.minimum == 86400))

abbrev pub test_soa_multiple_blank_lines_in_parens : Bool
test_soa_multiple_blank_lines_in_parens =
    after_loading
      (file (
        "$ORIGIN example.com." ∷ "$TTL 3600" ∷ "@ IN SOA ns1.example.com. admin.example.com. (" ∷ ""
        ∷ "    2024010101" ∷ "" ∷ "    7200 3600" ∷ "" ∷ "    1209600 86400" ∷ "" ∷ ")"
        ∷ "@ IN NS ns1.example.com." ∷ []))
      "example.com." (λ z. (z.soa.serial == 2024010101))

abbrev pub test_soa_comment_only_lines_in_parens : Bool
test_soa_comment_only_lines_in_parens =
    after_loading
      (file (
        "$ORIGIN example.com." ∷ "$TTL 3600" ∷ "@ IN SOA ns1.example.com. admin.example.com. ("
        ∷ "    ; This is the serial number" ∷ "    2024010101" ∷ "    ; Time values below"
        ∷ "    7200" ∷ "    3600" ∷ "    1209600" ∷ "    86400" ∷ ")" ∷ "@ IN NS ns1.example.com."
        ∷ []))
      "example.com." (λ z. (z.soa.serial == 2024010101) && is_pos z.soa.refresh 7200)

-- Every test of this file passes.
pub soa_tests_pass :
    all_true (
      test_multiline_soa_with_parentheses ∷ test_multiline_soa_without_inline_comments
      ∷ test_inline_comments_stripped ∷ test_soa_single_line_format ∷ test_soa_multiline_compact
      ∷ test_soa_multiline_each_field_separate_line ∷ test_soa_multiline_mixed_grouping
      ∷ test_soa_with_inline_comments ∷ test_soa_single_line_with_comment
      ∷ test_soa_with_tabs_and_spaces ∷ test_soa_opening_paren_on_same_line_as_name
      ∷ test_soa_multiple_blank_lines_in_parens ∷ test_soa_comment_only_lines_in_parens ∷ [])
    ≡ true
unfolding parse_zone_file preprocess_zone_content add_lines add_line lines clean strip_comment
    before trim parse_lines parse_line directive parse_resource_record parse_owner words
    parse_unsigned parse_i32 trim_quotes parse_soa parse_ns parse_a parse_mx parse_srv parse_ptr
    parse_caa parse_naptr parse_tlsa parse_sshfp parse_dnskey parse_rrsig parse_nsec parse_ds
    parse_domain_name parse_ipv4 read_ipv4 read_octet read_digits from_rdata extract_soa_data
    rtype_eq add_record push_record modify lookup get Zone.new
soa_tests_pass = refl
