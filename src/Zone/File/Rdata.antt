-- ===== src/Zone/File/Rdata.antt =====
-- src/zone.rs: the RDATA of each record type in parse_resource_record, and parse_domain_name. The
-- words of the line from the first of the RDATA on are an argument; `ok none` drops the line. An
-- error names the field and the number of the line.
use lrmdns.Prelude.{
  ℕ, ◌+◌, ◌/◌, ◌%◌, ◌^◌, Bool, ◌||◌, Option, none, some, List, [], ◌∷◌, ◌++◌, if◌then◌else◌, ◌==◌,
  is_empty, option_or,
}
use lrmdns.Prelude.Int.{ℤ}
use lrmdns.Prelude.Result.{Result, ok, err, ◌>>=◌}
use lrmdns.Dns.Name.{DnsApi}
use lrmdns.Dns.Rr.{Bytes, RecordType, RData, DigestType}
use lrmdns.Zone.Address.{parse_ipv4, parse_ipv6}
use lrmdns.Zone.Text.{Text, text_eq, ends_with_dot, join, trim_quotes, parse_unsigned, parse_i32}

-- What the parser calls of other crates: record types and digest types in text, base64 and
-- hexadecimal, and the root name.
pub record Readers (Name : Type 0) : Type 0 where
  pub rtype : Text → Option RecordType
  pub digest_type : ℕ → Option DigestType
  pub base64 : Text → Option Bytes
  pub hex : Text → Option Bytes
  pub root : Name

pub data Field : Type 0 where
  wildcard_name owner_name a aaaa ns cname ptr domain_name : Field
  soa_serial soa_refresh soa_retry soa_expire soa_minimum : Field
  mx_preference mx_exchange srv_priority srv_weight srv_port srv_target caa_flags : Field
  dnskey_flags dnskey_protocol dnskey_algorithm : Field
  rrsig_type_covered rrsig_algorithm rrsig_labels rrsig_original_ttl rrsig_expiration : Field
  rrsig_inception rrsig_key_tag rrsig_signer_name nsec_next_domain_name : Field
  ds_key_tag ds_algorithm ds_digest_type ds_unknown_digest : Field
  naptr_order naptr_preference naptr_replacement : Field
  tlsa_usage tlsa_selector tlsa_matching_type sshfp_algorithm sshfp_fp_type : Field
  origin_directive ttl_directive : Field

-- `out_of_range` is an index beyond the words of the line, which would panic.
pub data ParseError : Type 0 where
  invalid : Field → ℕ → ParseError
  out_of_range unreadable invalid_origin no_soa : ParseError

-- `.context(…)?`
abbrev pub context {ℓ} : {A : Type ℓ} → Field → ℕ → Option A → Result ParseError A
context field line_num none = err (invalid field (line_num + 1))
context field line_num (some x) = ok x

-- `flags & (1 << bit) != 0`
abbrev pub has_bit : ℕ → ℕ → Bool
has_bit bit flags = flags / 2 ^ bit % 2 == 1

abbrev pub issue : Text
issue = b'i' ∷ b's' ∷ b's' ∷ b'u' ∷ b'e' ∷ []

abbrev pub issuewild : Text
issuewild = b'i' ∷ b's' ∷ b's' ∷ b'u' ∷ b'e' ∷ b'w' ∷ b'i' ∷ b'l' ∷ b'd' ∷ []

module _ {Name : Type 0} ⦃api : DnsApi Name⦄ where
  -- parse_domain_name
  unfoldable pub parse_domain_name : Text → Name → Option Name
  parse_domain_name s origin =
      if ends_with_dot s then api.from_str s else api.from_str (s ++ 46 ∷ api.to_text origin)

module _ {Name : Type 0} ⦃api : DnsApi Name⦄ (readers : Readers Name) (origin : Name)
    (line_num : ℕ) where
  -- an optional RDATA: the result of one arm of `match rtype`
  abbrev pub Parsed : Type 0
  Parsed = Result ParseError (Option (RData Name))

  abbrev pub name_in : Field → Text → Result ParseError Name
  name_in field s = context field line_num (parse_domain_name s origin)

  abbrev pub unsigned_in : Field → ℕ → Text → Result ParseError ℕ
  unsigned_in field bits s = context field line_num (parse_unsigned bits s)

  abbrev pub signed_in : Field → Text → Result ParseError ℤ
  signed_in field s = context field line_num (parse_i32 s)

  unfoldable pub parse_a : List Text → Parsed
  parse_a [] = ok none
  parse_a (addr ∷ _) = do ip ← context Field.a line_num (parse_ipv4 addr); ok (some (RData.a ip))

  unfoldable pub parse_aaaa : List Text → Parsed
  parse_aaaa [] = ok none
  parse_aaaa (addr ∷ _) = do
    ip ← context Field.aaaa line_num (parse_ipv6 addr)
    ok (some (RData.aaaa ip))

  unfoldable pub parse_ns : List Text → Parsed
  parse_ns [] = ok none
  parse_ns (nsdname ∷ _) = do n ← name_in Field.ns nsdname; ok (some (RData.ns n))

  unfoldable pub parse_soa : List Text → Parsed
  parse_soa (mname ∷ rname ∷ serial ∷ refresh ∷ retry ∷ expire ∷ minimum ∷ _) = do
    m ← name_in Field.domain_name mname
    r ← name_in Field.domain_name rname
    s ← unsigned_in Field.soa_serial 32 serial
    f ← signed_in Field.soa_refresh refresh
    t ← signed_in Field.soa_retry retry
    e ← signed_in Field.soa_expire expire
    u ← unsigned_in Field.soa_minimum 32 minimum
    ok (
        some (
          RData.soa (record {
            mname = m;
            rname = r;
            serial = s;
            refresh = f;
            retry = t;
            expire = e;
            minimum = u;
          })))
  parse_soa _ = ok none

  unfoldable pub parse_cname : List Text → Parsed
  parse_cname [] = ok none
  parse_cname (target ∷ _) = do n ← name_in Field.cname target; ok (some (RData.cname n))

  unfoldable pub parse_mx : List Text → Parsed
  parse_mx (preference ∷ exchange ∷ _) = do
    p ← unsigned_in Field.mx_preference 16 preference
    x ← name_in Field.mx_exchange exchange
    ok (some (RData.mx p x))
  parse_mx _ = ok none

  -- the words joined by a space, without the quotes around them
  unfoldable pub parse_txt : List Text → Parsed
  parse_txt [] = ok none
  parse_txt (s ∷ rest) = ok (some (RData.txt (trim_quotes (join (32 ∷ []) (s ∷ rest)) ∷ [])))

  unfoldable pub parse_ptr : List Text → Parsed
  parse_ptr [] = ok none
  parse_ptr (ptrdname ∷ _) = do n ← name_in Field.ptr ptrdname; ok (some (RData.ptr n))

  unfoldable pub parse_srv : List Text → Parsed
  parse_srv (priority ∷ weight ∷ port ∷ target ∷ _) = do
    p ← unsigned_in Field.srv_priority 16 priority
    w ← unsigned_in Field.srv_weight 16 weight
    o ← unsigned_in Field.srv_port 16 port
    t ← name_in Field.srv_target target
    ok (some (RData.srv p w o t))
  parse_srv _ = ok none

  -- the issuer of a CAA record: none for other tags, and for an empty value or `;`
  abbrev pub issuer : Text → Text → Option Name
  issuer tag value =
      if text_eq tag issue || text_eq tag issuewild
      then (if is_empty value || text_eq value (59 ∷ [])
          then none
          else some (option_or (api.from_str value) readers.root))
      else none

  unfoldable pub parse_caa : List Text → Parsed
  parse_caa (flags ∷ tag ∷ v ∷ rest) = do
    f ← unsigned_in Field.caa_flags 8 flags
    ok (some (RData.caa (has_bit 7 f) (issuer tag (trim_quotes (join (32 ∷ []) (v ∷ rest))))))
  parse_caa _ = ok none
