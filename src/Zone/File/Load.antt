-- ===== src/Zone/File/Load.antt =====
-- src/zone.rs: parse_zone_file.
use lrmdns.Prelude.{ℕ, suc, ◌||◌, Option, none, some, List, [], ◌∷◌, if◌then◌else◌, is_empty}
use lrmdns.Prelude.Result.{Result, ok, err, ◌>>=◌}
use lrmdns.HashMap.{◌==ₖ◌}
use lrmdns.Dns.Name.{DnsApi}
use lrmdns.Dns.Rr.{RecordType, rtype_key, Record}
use lrmdns.Zone.{Zone, SoaRecord, add_record, extract_soa_data}
use lrmdns.Zone
use lrmdns.Zone.Text.{Text, words, starts_with, parse_unsigned, trim}
use lrmdns.Zone.File.{preprocess_zone_content}
use lrmdns.Zone.File.Rdata.{Readers, Field, ParseError, unreadable, invalid_origin, no_soa, context}
use lrmdns.Zone.File.Parse.{parse_resource_record}

abbrev pub origin_directive_text : Text
origin_directive_text = b'$' ∷ b'O' ∷ b'R' ∷ b'I' ∷ b'G' ∷ b'I' ∷ b'N' ∷ []

abbrev pub ttl_directive_text : Text
ttl_directive_text = b'$' ∷ b'T' ∷ b'T' ∷ b'L' ∷ []

-- The variables of the loop of parse_zone_file.
pub record FileState (Name : Type 0) : Type 0 where
  pub zone : Option (Zone Name)
  pub default_ttl : ℕ
  pub current_origin : Name

abbrev pub second : List Text → Option Text
second (_ ∷ s ∷ _) = some s
second _ = none

module _ {Name : Type 0} ⦃api : DnsApi Name⦄ (readers : Readers Name) (origin : Name) where
  -- a line that starts with `$`
  abbrev pub set_origin : ℕ → Option Text → FileState Name → Result ParseError (FileState Name)
  set_origin line_num none s = ok s
  set_origin line_num (some part) s = do
    n ← context Field.origin_directive line_num (api.from_str part)
    ok (record s { current_origin = n })

  abbrev pub set_ttl : ℕ → Option Text → FileState Name → Result ParseError (FileState Name)
  set_ttl line_num none s = ok s
  set_ttl line_num (some part) s = do
    ttl ← context Field.ttl_directive line_num (parse_unsigned 32 part)
    ok (record s { default_ttl = ttl })

  unfoldable pub directive : ℕ → Text → FileState Name → Result ParseError (FileState Name)
  directive line_num line s =
      if starts_with origin_directive_text line
      then set_origin line_num (second (words line)) s
      else (if starts_with ttl_directive_text line
          then set_ttl line_num (second (words line)) s
          else ok s)

  abbrev pub zone_of_soa : Option (SoaRecord Name) → Option (Zone Name)
  zone_of_soa none = none
  zone_of_soa (some soa_data) = some (Zone.new origin soa_data)

  -- the first SOA record makes the zone
  abbrev pub zone_for : Record Name → Option (Zone Name) → Option (Zone Name)
  zone_for r (some z) = some z
  zone_for r none = if r.rtype ==ₖ RecordType.soa then zone_of_soa (extract_soa_data r) else none

  abbrev pub add_to : Record Name → Option (Zone Name) → Option (Zone Name)
  add_to r none = none
  add_to r (some z) = some (add_record r z)

  abbrev pub add_parsed : Option (Record Name) → FileState Name → FileState Name
  add_parsed none s = s
  add_parsed (some r) s = record s { zone = add_to r (zone_for r s.zone) }

  -- one round of the loop, on a trimmed line
  unfoldable pub parse_line : ℕ → Text → FileState Name → Result ParseError (FileState Name)
  unfolding directive
  parse_line line_num line s =
      if is_empty line || starts_with (b';' ∷ []) line
      then ok s
      else (if starts_with (b'$' ∷ []) line then directive line_num line s else (do
        parsed ← parse_resource_record readers s.current_origin line_num line s.default_ttl
        ok (add_parsed parsed s)))

  unfoldable pub parse_lines : ℕ → List Text → FileState Name → Result ParseError (FileState Name)
  parse_lines line_num [] s = ok s
  parse_lines line_num (line ∷ rest) s = do
    s' ← parse_line line_num (trim line) s
    parse_lines (suc line_num) rest s'

  abbrev pub zone_or_error : Option (Zone Name) → Result ParseError (Zone Name)
  zone_or_error none = err no_soa
  zone_or_error (some z) = ok z

abbrev pub readable : Option Text → Result ParseError Text
readable none = err unreadable
readable (some content) = ok content

abbrev pub valid_origin : {Name : Type 0} → Option Name → Result ParseError Name
valid_origin none = err invalid_origin
valid_origin (some n) = ok n

-- parse_zone_file, with the content of the file, `none` where it cannot be read
unfoldable pub parse_zone_file :
    {Name : Type 0} ⦃api : DnsApi Name⦄
    → Readers Name
    → Option Text
    → Text
    → Result ParseError (Zone Name)
parse_zone_file ⦃api⦄ readers file origin_name = do
  content ← readable file
  origin ← valid_origin (api.from_str origin_name)
  s ←
      parse_lines readers origin 0 (preprocess_zone_content content)
        (record { zone = none; default_ttl = 3600; current_origin = origin })
  zone_or_error readers origin s.zone
