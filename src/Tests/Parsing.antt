-- ===== src/Tests/Parsing.antt =====
-- Zone files at concrete inputs.
use lrmdns.Prelude.{◌+◌, ◌*◌, ◌^◌, arith, ◌≡◌, ◌≢◌, refl, none, some, [], List, All, map, ◌∷◌, ◌++◌}
use lrmdns.Prelude.Int.{pos, negsuc}
use lrmdns.Prelude.Result.{ok, err}
use lrmdns.Dns.Rr.{Bytes, rtype_eq, from_rdata}
use lrmdns.Zone.{Zone, SoaRecord, add_record, push_record, extract_soa_data, get_soa_record}
use lrmdns.Zone
use lrmdns.Zone.Text.{Text, lines, before, trim, words, parse_unsigned, parse_i32}
use lrmdns.Zone.File.{clean, strip_comment, preprocess_zone_content, add_line, add_lines}
use lrmdns.Zone.File.Joined.{preprocess_zone_content-joins, preprocess_zone_content-swallows}
use lrmdns.Zone.File.Rdata.{Readers, out_of_range, parse_domain_name, parse_soa}
use lrmdns.Zone.File.Parse.{parse_resource_record, parse_owner}
use lrmdns.Zone.File.Load.{parse_zone_file, parse_line, parse_lines}
use lrmdns.Zone.File.Safe.{parse_resource_record-InRange}
use lrmdns.Zone.File.Built.{parse_zone_file-IsWellFormed}
use lrmdns.Zone.Valid.{IsWellFormed}
use lrmdns.Zone.Address.{parse_ipv6, read_groups, read_group, read_digits, read_ipv4, read_octet}
use lrmdns.Zone.Address.Dotted.{dotted}
use lrmdns.Zone.File.Print.{
  Entry, PlainData, soa_entry, record_of_entry, print_file, IsName, IsEntry,
}
use lrmdns.Zone.File.Print.RoundTrip.{Holds, parse_zone_file-print}
use lrmdns.Dns.Rr.{SoaData}
use lrmdns.Tests.Samples.{names, origin}

-- a record over three lines, between two others
abbrev joined_file : Text
joined_file = b'a' ∷ 10 ∷ b'o' ∷ 32 ∷ 40 ∷ 10 ∷ b'x' ∷ 10 ∷ 41 ∷ 10 ∷ b'b' ∷ 10 ∷ []

lines_joined :
    lines joined_file
    ≡ ((b'a' ∷ []) ∷ [])
      ++ ((b'o' ∷ 32 ∷ 40 ∷ []) ∷ (((b'x' ∷ []) ∷ []) ++ (41 ∷ []) ∷ ((b'b' ∷ []) ∷ [])))
unfolding lines
lines_joined = refl

preprocess_zone_content-joins_example :
    preprocess_zone_content joined_file ≡ (b'a' ∷ []) ∷ (b'o' ∷ 32 ∷ b'x' ∷ []) ∷ (b'b' ∷ []) ∷ []
unfolding clean strip_comment before trim
preprocess_zone_content-joins_example =
    preprocess_zone_content-joins joined_file ((b'a' ∷ []) ∷ []) (b'o' ∷ 32 ∷ 40 ∷ [])
      ((b'x' ∷ []) ∷ []) (41 ∷ []) ((b'b' ∷ []) ∷ []) lines_joined ((refl, refl), tt) refl
      ((refl, refl), tt) refl refl ((refl, refl), tt)

-- parentheses that open and close in one line, and a record after them
abbrev swallowed_file : Text
swallowed_file = b'o' ∷ 32 ∷ 40 ∷ 32 ∷ b'1' ∷ 32 ∷ 41 ∷ 10 ∷ b'b' ∷ []

lines_swallowed :
    lines swallowed_file ≡ [] ++ ((b'o' ∷ 32 ∷ 40 ∷ 32 ∷ b'1' ∷ 32 ∷ 41 ∷ []) ∷ (b'b' ∷ []) ∷ [])
unfolding lines
lines_swallowed = refl

preprocess_zone_content-swallows_example :
    preprocess_zone_content swallowed_file ≡ (b'o' ∷ 32 ∷ 32 ∷ b'1' ∷ 32 ∷ 41 ∷ 32 ∷ b'b' ∷ []) ∷ []
unfolding clean strip_comment before trim
preprocess_zone_content-swallows_example =
    preprocess_zone_content-swallows swallowed_file [] (b'o' ∷ 32 ∷ 40 ∷ 32 ∷ b'1' ∷ 32 ∷ 41 ∷ [])
      ((b'b' ∷ []) ∷ []) lines_swallowed tt refl ((refl, refl), tt)

abbrev pub readers : Readers Bytes
readers = record {
  rtype = λ s. none;
  digest_type = λ n. none;
  base64 = some;
  hex = some;
  root = [];
}

parse_resource_record-InRange_example :
    parse_resource_record readers origin 0
      (b'a' ∷ 32 ∷ b'1' ∷ 32 ∷ b'I' ∷ b'N' ∷ 32 ∷ b'N' ∷ b'S' ∷ [])
      60
    ≢ err out_of_range
parse_resource_record-InRange_example =
    parse_resource_record-InRange readers origin 0
      (b'a' ∷ 32 ∷ b'1' ∷ 32 ∷ b'I' ∷ b'N' ∷ 32 ∷ b'N' ∷ b'S' ∷ []) 60

abbrev pub soa_file : Text
soa_file =
    64 ∷ 32 ∷ b'6' ∷ b'0' ∷ 32 ∷ b'I' ∷ b'N' ∷ 32 ∷ b'S' ∷ b'O' ∷ b'A' ∷ 32 ∷ b'n' ∷ 32 ∷ b'h' ∷ 32
    ∷ b'1' ∷ 32 ∷ b'2' ∷ 32 ∷ b'3' ∷ 32 ∷ b'4' ∷ 32 ∷ b'5' ∷ 10 ∷ []

abbrev parsed_soa : SoaRecord Bytes
parsed_soa = record {
  mname = b'n' ∷ b'.' ∷ origin;
  rname = b'h' ∷ b'.' ∷ origin;
  serial = 1;
  refresh = pos 2;
  retry = pos 3;
  expire = pos 4;
  minimum = 5;
}

abbrev pub parsed_zone : Zone Bytes
parsed_zone =
    add_record (record (get_soa_record (Zone.new origin parsed_soa)) { ttl = 60 })
      (Zone.new origin parsed_soa)

pub parse_zone_file-soa : parse_zone_file readers (some soa_file) origin ≡ ok parsed_zone
unfolding parse_zone_file preprocess_zone_content add_lines add_line lines clean strip_comment
    before trim parse_lines parse_line parse_resource_record parse_owner words parse_unsigned
    parse_i32 parse_soa parse_domain_name from_rdata extract_soa_data rtype_eq get_soa_record
    Zone.new
parse_zone_file-soa = refl

parse_zone_file-IsWellFormed_example :
    (names.from_str origin ≡ some parsed_zone.origin) × IsWellFormed parsed_zone
parse_zone_file-IsWellFormed_example =
    parse_zone_file-IsWellFormed readers (some soa_file) origin parse_zone_file-soa

abbrev host : Bytes
host = b'h' ∷ b'.' ∷ []

abbrev printed_soa : SoaData Bytes
printed_soa = record {
  mname = host;
  rname = host;
  serial = 2024;
  refresh = pos 7200;
  retry = negsuc 0;
  expire = pos 0;
  minimum = 4294967295;
}

abbrev printed : List (Entry Bytes)
printed =
    record { name = host; ttl = 60; rdata = PlainData.a 3221225991 }
    ∷ record { name = host; ttl = 0; rdata = PlainData.mx 10 host }
    ∷ record { name = host; ttl = 60; rdata = PlainData.a 1 }
    ∷ []

is_host : IsName host
is_host = record { token = (refl, (refl, tt)); full = refl; reads = refl }

printed-IsEntry : All IsEntry (soa_entry host 3600 printed_soa ∷ printed)
printed-IsEntry = (
  record {
    name = is_host;
    ttl = omega arith;
    rdata = (is_host, is_host, omega arith, omega arith, omega arith, omega arith, omega arith);
  },
  (
    record { name = is_host; ttl = omega arith; rdata = omega arith },
    (
      record { name = is_host; ttl = omega arith; rdata = (omega arith, is_host) },
      (record { name = is_host; ttl = omega arith; rdata = omega arith }, tt),
    ),
  ),
)

parse_zone_file-print_example :
    (z : Zone Bytes) × (parse_zone_file readers
        (some (print_file (soa_entry host 3600 printed_soa ∷ printed)))
        origin
      ≡ ok z)
    × Holds origin printed_soa (map record_of_entry (soa_entry host 3600 printed_soa ∷ printed)) z
parse_zone_file-print_example =
    parse_zone_file-print readers origin origin host 3600 printed_soa printed refl printed-IsEntry

-- the text of an IPv6 address: 2001:db8::c000:207, the last two groups as 192.0.2.7
ipv6_of_text :
    parse_ipv6 (b'2' ∷ b'0' ∷ b'0' ∷ b'1' ∷ 58 ∷ b'd' ∷ b'b' ∷ b'8' ∷ 58 ∷ 58 ∷ dotted 192 0 2 7)
    ≡ some (536939960 * 2 ^ 96 + 3221225991)
unfolding parse_ipv6 read_groups read_group read_digits read_ipv4 read_octet
ipv6_of_text = refl
