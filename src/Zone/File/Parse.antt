-- ===== src/Zone/File/Parse.antt =====
-- src/zone.rs: parse_resource_record.
use lrmdns.Prelude.{ℕ, Option, none, some, List, [], ◌∷◌, ◌++◌, if◌then◌else◌, ltb, length}
use lrmdns.Prelude.Result.{Result, ok, err, ◌>>=◌}
use lrmdns.Dns.Name.{DnsApi}
use lrmdns.Dns.Rr.{rtype_key, Record, RData, from_rdata}
use lrmdns.Zone.Text.{Text, words, text_eq, starts_with, ends_with_dot, parse_unsigned}
use lrmdns.Zone.File.Rdata.{
  Readers, Field, ParseError, out_of_range, context, parse_a, parse_aaaa, parse_ns, parse_soa,
  parse_cname, parse_mx, parse_txt, parse_ptr, parse_srv, parse_caa,
}
use lrmdns.Zone.File.Secure.{
  parse_dnskey, parse_rrsig, parse_nsec, parse_ds, parse_naptr, parse_tlsa, parse_sshfp,
}

-- the record types that the parser supports
pub data Kind : Type 0 where
  a aaaa ns soa cname mx txt ptr srv caa dnskey rrsig nsec ds naptr tlsa sshfp : Kind

abbrev pub kinds : List (Text × Kind)
kinds =
    (b'A' ∷ [], Kind.a)
    ∷ (b'A' ∷ b'A' ∷ b'A' ∷ b'A' ∷ [], Kind.aaaa)
    ∷ (b'N' ∷ b'S' ∷ [], Kind.ns)
    ∷ (b'S' ∷ b'O' ∷ b'A' ∷ [], Kind.soa)
    ∷ (b'C' ∷ b'N' ∷ b'A' ∷ b'M' ∷ b'E' ∷ [], Kind.cname)
    ∷ (b'M' ∷ b'X' ∷ [], Kind.mx)
    ∷ (b'T' ∷ b'X' ∷ b'T' ∷ [], Kind.txt)
    ∷ (b'P' ∷ b'T' ∷ b'R' ∷ [], Kind.ptr)
    ∷ (b'S' ∷ b'R' ∷ b'V' ∷ [], Kind.srv)
    ∷ (b'C' ∷ b'A' ∷ b'A' ∷ [], Kind.caa)
    ∷ (b'D' ∷ b'N' ∷ b'S' ∷ b'K' ∷ b'E' ∷ b'Y' ∷ [], Kind.dnskey)
    ∷ (b'R' ∷ b'R' ∷ b'S' ∷ b'I' ∷ b'G' ∷ [], Kind.rrsig)
    ∷ (b'N' ∷ b'S' ∷ b'E' ∷ b'C' ∷ [], Kind.nsec)
    ∷ (b'D' ∷ b'S' ∷ [], Kind.ds)
    ∷ (b'N' ∷ b'A' ∷ b'P' ∷ b'T' ∷ b'R' ∷ [], Kind.naptr)
    ∷ (b'T' ∷ b'L' ∷ b'S' ∷ b'A' ∷ [], Kind.tlsa)
    ∷ (b'S' ∷ b'S' ∷ b'H' ∷ b'F' ∷ b'P' ∷ [], Kind.sshfp)
    ∷ []

abbrev pub find_kind : Text → List (Text × Kind) → Option Kind
find_kind s [] = none
find_kind s ((t, k) ∷ rest) = let found = find_kind s rest in if text_eq s t then some k else found

abbrev pub class_in : Text
class_in = b'I' ∷ b'N' ∷ []

-- `if parts[idx] == "IN"`
abbrev pub skip_class : List Text → List Text
skip_class [] = []
skip_class (s ∷ rest) = if text_eq s class_in then rest else s ∷ rest

-- the TTL if the word is one, else the default, and the words that are left
abbrev pub take_ttl : ℕ → Text → List Text → ℕ × List Text
take_ttl default_ttl s rest = elim (parse_unsigned 32 s) [
  | some ttl ↦ (ttl, rest)
  | none ↦ (default_ttl, s ∷ rest)
]

module _ {Name : Type 0} ⦃api : DnsApi Name⦄ (readers : Readers Name) (origin : Name)
    (line_num : ℕ) where
  -- the name in the first word
  unfoldable pub parse_owner : Text → Result ParseError Name
  parse_owner s =
      if text_eq s (b'@' ∷ [])
      then ok origin
      else (if text_eq s (b'*' ∷ [])
          then context Field.wildcard_name line_num
              (api.from_str (b'*' ∷ b'.' ∷ api.to_text origin))
          else context
              (if starts_with (b'*' ∷ b'.' ∷ []) s then Field.wildcard_name else Field.owner_name)
              line_num
              (if ends_with_dot s
                then api.from_str s
                else api.from_str (s ++ b'.' ∷ api.to_text origin)))

  -- `match rtype`; `none` is a type that is not supported
  abbrev pub parse_rdata : Option Kind → List Text → Result ParseError (Option (RData Name))
  parse_rdata (some Kind.a) rdata_words = parse_a readers origin line_num rdata_words
  parse_rdata (some Kind.aaaa) rdata_words = parse_aaaa readers origin line_num rdata_words
  parse_rdata (some Kind.ns) rdata_words = parse_ns readers origin line_num rdata_words
  parse_rdata (some Kind.soa) rdata_words = parse_soa readers origin line_num rdata_words
  parse_rdata (some Kind.cname) rdata_words = parse_cname readers origin line_num rdata_words
  parse_rdata (some Kind.mx) rdata_words = parse_mx readers origin line_num rdata_words
  parse_rdata (some Kind.txt) rdata_words = parse_txt readers origin line_num rdata_words
  parse_rdata (some Kind.ptr) rdata_words = parse_ptr readers origin line_num rdata_words
  parse_rdata (some Kind.srv) rdata_words = parse_srv readers origin line_num rdata_words
  parse_rdata (some Kind.caa) rdata_words = parse_caa readers origin line_num rdata_words
  parse_rdata (some Kind.dnskey) rdata_words = parse_dnskey readers origin line_num rdata_words
  parse_rdata (some Kind.rrsig) rdata_words = parse_rrsig readers origin line_num rdata_words
  parse_rdata (some Kind.nsec) rdata_words = parse_nsec readers origin line_num rdata_words
  parse_rdata (some Kind.ds) rdata_words = parse_ds readers origin line_num rdata_words
  parse_rdata (some Kind.naptr) rdata_words = parse_naptr readers origin line_num rdata_words
  parse_rdata (some Kind.tlsa) rdata_words = parse_tlsa readers origin line_num rdata_words
  parse_rdata (some Kind.sshfp) rdata_words = parse_sshfp readers origin line_num rdata_words
  parse_rdata none rdata_words = ok none

  abbrev pub record_of : Name → ℕ → Option (RData Name) → Option (Record Name)
  record_of name ttl none = none
  record_of name ttl (some rdata) = some (from_rdata name ttl rdata)

  -- from the record type on
  abbrev pub parse_typed : Name → ℕ → List Text → Result ParseError (Option (Record Name))
  parse_typed name ttl [] = err out_of_range
  parse_typed name ttl (rtype ∷ rdata_words) = do
    rdata ← parse_rdata (find_kind rtype kinds) rdata_words
    ok (record_of name ttl rdata)

  -- from the TTL or the class on
  abbrev pub parse_rest : ℕ → Name → List Text → Result ParseError (Option (Record Name))
  parse_rest default_ttl name [] = err out_of_range
  parse_rest default_ttl name (s ∷ rest) =
      let (ttl, left) = take_ttl default_ttl s rest in parse_typed name ttl (skip_class left)

  abbrev pub parse_parts : ℕ → List Text → Result ParseError (Option (Record Name))
  parse_parts default_ttl [] = err out_of_range
  parse_parts default_ttl (s ∷ rest) = do name ← parse_owner s; parse_rest default_ttl name rest

  -- parse_resource_record
  unfoldable pub parse_resource_record : Text → ℕ → Result ParseError (Option (Record Name))
  parse_resource_record line default_ttl =
      let parts = words line in
      if ltb (length parts) 4 then ok none else parse_parts default_ttl parts
