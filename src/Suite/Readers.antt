-- ===== src/Suite/Readers.antt =====
-- What the zone file parser takes from other crates, for the tests: the names of record types and of
-- digest types, base64 and hexadecimal.
use lrmdns.Prelude.{
  ℕ, ◌+◌, ◌-◌, ◌*◌, ◌/◌, ◌%◌, ◌&&◌, Option, none, some, List, [], ◌∷◌, if◌then◌else◌, leb, ◌==◌,
}
use lrmdns.Dns.Rr.{Bytes, RecordType, DigestType}
use lrmdns.Zone.Text.{Text, text_eq}
use lrmdns.Zone.File.Rdata.{Readers}
use lrmdns.Suite.Names.{codes, Labels}

abbrev type_names : List (Text × RecordType)
type_names =
    (codes "A", RecordType.a)
    ∷ (codes "NS", RecordType.ns)
    ∷ (codes "SOA", RecordType.soa)
    ∷ (codes "RRSIG", RecordType.other 46)
    ∷ (codes "NSEC", RecordType.nsec)
    ∷ (codes "DNSKEY", RecordType.dnskey)
    ∷ []

abbrev find_type : Text → List (Text × RecordType) → Option RecordType
find_type s [] = none
find_type s ((t, k) ∷ rest) = let found = find_type s rest in if text_eq s t then some k else found

abbrev digest_type : ℕ → Option DigestType
digest_type n =
    if n == 2 then some DigestType.sha256 else (if n == 4 then some DigestType.sha384 else none)

abbrev hex_value : ℕ → Option ℕ
hex_value c =
    if leb 48 c && leb c 57
    then some (c - 48)
    else (if leb 65 c && leb c 70
        then some (c - 55)
        else (if leb 97 c && leb c 102 then some (c - 87) else none))

abbrev pair_up : Option ℕ → Option ℕ → Option Bytes → Option Bytes
pair_up (some hi) (some lo) (some rest) = some ((hi * 16 + lo) ∷ rest)
pair_up _ _ _ = none

abbrev decode_hex : Text → Option Bytes
decode_hex [] = some []
decode_hex (c ∷ []) = none
decode_hex (c ∷ d ∷ s) = let rest = decode_hex s in pair_up (hex_value c) (hex_value d) rest

abbrev base64_value : ℕ → Option ℕ
base64_value c =
    if leb 65 c && leb c 90
    then some (c - 65)
    else (if leb 97 c && leb c 122
        then some (c - 71)
        else (if leb 48 c && leb c 57
            then some (c + 4)
            else (if c == 43 then some 62 else (if c == 47 then some 63 else none))))

abbrev join_four : Option ℕ → Option ℕ → Option ℕ → Option ℕ → Option Bytes → Option Bytes
join_four (some a) (some b) (some c) (some d) (some rest) =
    some ((a * 4 + b / 16) ∷ (b % 16 * 16 + c / 4) ∷ (c % 4 * 64 + d) ∷ rest)
join_four _ _ _ _ _ = none

-- without padding, which no test has
abbrev decode_base64 : Text → Option Bytes
decode_base64 [] = some []
decode_base64 (a ∷ b ∷ c ∷ d ∷ s) =
    let rest = decode_base64 s in
    join_four (base64_value a) (base64_value b) (base64_value c) (base64_value d) rest
decode_base64 _ = none

abbrev pub readers : Readers Labels
readers = record {
  rtype = λ s. find_type s type_names;
  digest_type = digest_type;
  base64 = decode_base64;
  hex = decode_hex;
  root = [];
}
