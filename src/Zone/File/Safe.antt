-- ===== src/Zone/File/Safe.antt =====
-- No index out of range in the parser of one line of a zone file.
use lrmdns.Prelude.{
  ℕ, ◌≡◌, ◌≢◌, ◌∙◌, ap, false, Option, none, some, List, [], ◌∷◌, arith, ltb, length, Bool-cases,
  Option-cases, inl, inr,
}
use lrmdns.Prelude.Result.{Result, err, Result-cases}
use lrmdns.Dns.Name.{DnsApi}
use lrmdns.Dns.Rr.{rtype_key}
use lrmdns.Zone.Text.{Text, text_eq, words, parse_unsigned}
use lrmdns.Zone.File.Rdata.{
  Readers, ParseError, out_of_range, parse_a, parse_aaaa, parse_ns, parse_soa, parse_cname,
  parse_mx, parse_txt, parse_ptr, parse_srv, parse_caa,
}
use lrmdns.Zone.File.Secure.{
  parse_dnskey, parse_rrsig, parse_nsec, parse_ds, parse_naptr, parse_tlsa, parse_sshfp,
}
use lrmdns.Zone.File.Parse.{
  Kind, kinds, find_kind, parse_rdata, parse_typed, parse_rest, take_ttl, skip_class, class_in,
  parse_parts, parse_owner, parse_resource_record,
}

-- no index out of range
abbrev pub InRange {ℓ} : {A : Type ℓ} → Result ParseError A → Type ℓ
InRange r = r ≢ err out_of_range

module _ {Name : Type 0} ⦃api : DnsApi Name⦄ (readers : Readers Name) (origin : Name)
    (line_num : ℕ) where
  parse_a-InRange : (ws : List Text) → InRange (parse_a readers origin line_num ws)
  unfolding parse_a
  parse_a-InRange ws = ground arith

  parse_aaaa-InRange : (ws : List Text) → InRange (parse_aaaa readers origin line_num ws)
  unfolding parse_aaaa
  parse_aaaa-InRange ws = ground arith

  parse_ns-InRange : (ws : List Text) → InRange (parse_ns readers origin line_num ws)
  unfolding parse_ns
  parse_ns-InRange ws = ground arith

  parse_soa-InRange : (ws : List Text) → InRange (parse_soa readers origin line_num ws)
  unfolding parse_soa
  parse_soa-InRange ws = ground arith

  parse_cname-InRange : (ws : List Text) → InRange (parse_cname readers origin line_num ws)
  unfolding parse_cname
  parse_cname-InRange ws = ground arith

  parse_mx-InRange : (ws : List Text) → InRange (parse_mx readers origin line_num ws)
  unfolding parse_mx
  parse_mx-InRange ws = ground arith

  parse_txt-InRange : (ws : List Text) → InRange (parse_txt readers origin line_num ws)
  unfolding parse_txt
  parse_txt-InRange ws = ground arith

  parse_ptr-InRange : (ws : List Text) → InRange (parse_ptr readers origin line_num ws)
  unfolding parse_ptr
  parse_ptr-InRange ws = ground arith

  parse_srv-InRange : (ws : List Text) → InRange (parse_srv readers origin line_num ws)
  unfolding parse_srv
  parse_srv-InRange ws = ground arith

  parse_caa-InRange : (ws : List Text) → InRange (parse_caa readers origin line_num ws)
  unfolding parse_caa
  parse_caa-InRange ws = ground arith

  parse_dnskey-InRange : (ws : List Text) → InRange (parse_dnskey readers origin line_num ws)
  unfolding parse_dnskey
  parse_dnskey-InRange ws = ground arith

  parse_rrsig-InRange : (ws : List Text) → InRange (parse_rrsig readers origin line_num ws)
  unfolding parse_rrsig
  parse_rrsig-InRange ws = ground arith

  parse_nsec-InRange : (ws : List Text) → InRange (parse_nsec readers origin line_num ws)
  unfolding parse_nsec
  parse_nsec-InRange ws = ground arith

  parse_ds-InRange : (ws : List Text) → InRange (parse_ds readers origin line_num ws)
  unfolding parse_ds
  parse_ds-InRange ws = ground arith

  parse_naptr-InRange : (ws : List Text) → InRange (parse_naptr readers origin line_num ws)
  unfolding parse_naptr
  parse_naptr-InRange ws = ground arith

  parse_tlsa-InRange : (ws : List Text) → InRange (parse_tlsa readers origin line_num ws)
  unfolding parse_tlsa
  parse_tlsa-InRange ws = ground arith

  parse_sshfp-InRange : (ws : List Text) → InRange (parse_sshfp readers origin line_num ws)
  unfolding parse_sshfp
  parse_sshfp-InRange ws = ground arith

  parse_rdata-InRange :
      (k : Option Kind) (ws : List Text) → InRange (parse_rdata readers origin line_num k ws)
  parse_rdata-InRange (some Kind.a) ws = parse_a-InRange ws
  parse_rdata-InRange (some Kind.aaaa) ws = parse_aaaa-InRange ws
  parse_rdata-InRange (some Kind.ns) ws = parse_ns-InRange ws
  parse_rdata-InRange (some Kind.soa) ws = parse_soa-InRange ws
  parse_rdata-InRange (some Kind.cname) ws = parse_cname-InRange ws
  parse_rdata-InRange (some Kind.mx) ws = parse_mx-InRange ws
  parse_rdata-InRange (some Kind.txt) ws = parse_txt-InRange ws
  parse_rdata-InRange (some Kind.ptr) ws = parse_ptr-InRange ws
  parse_rdata-InRange (some Kind.srv) ws = parse_srv-InRange ws
  parse_rdata-InRange (some Kind.caa) ws = parse_caa-InRange ws
  parse_rdata-InRange (some Kind.dnskey) ws = parse_dnskey-InRange ws
  parse_rdata-InRange (some Kind.rrsig) ws = parse_rrsig-InRange ws
  parse_rdata-InRange (some Kind.nsec) ws = parse_nsec-InRange ws
  parse_rdata-InRange (some Kind.ds) ws = parse_ds-InRange ws
  parse_rdata-InRange (some Kind.naptr) ws = parse_naptr-InRange ws
  parse_rdata-InRange (some Kind.tlsa) ws = parse_tlsa-InRange ws
  parse_rdata-InRange (some Kind.sshfp) ws = parse_sshfp-InRange ws
  parse_rdata-InRange none ws = λ p. cc

  parse_typed-InRange :
      (name : Name) (ttl : ℕ) (rtype : Text) (ws : List Text)
      → InRange (parse_typed readers origin line_num name ttl (rtype ∷ ws))
  parse_typed-InRange name ttl rtype ws =
      ground (arith, parse_rdata-InRange (find_kind rtype kinds) ws)

  skip_class-InRange :
      (name : Name) (ttl : ℕ) (s t : Text) (ws : List Text)
      → InRange (parse_typed readers origin line_num name ttl (skip_class (s ∷ t ∷ ws)))
  skip_class-InRange name ttl s t ws = elim (Bool-cases (text_eq s class_in)) [
    | inl y ↦ rw y (parse_typed-InRange name ttl t ws)
    | inr n ↦ rw n (parse_typed-InRange name ttl s (t ∷ ws))
  ]

  -- after the name, three words are enough: a TTL, a class and a type
  parse_rest-InRange :
      (default_ttl : ℕ) (name : Name) (s t u : Text) (ws : List Text)
      → InRange (parse_rest readers origin line_num default_ttl name (s ∷ t ∷ u ∷ ws))
  parse_rest-InRange default_ttl name s t u ws = elim (Option-cases (parse_unsigned 32 s)) [
    | inl e ↦ rw (e, take_ttl) (skip_class-InRange name default_ttl s t (u ∷ ws))
    | inr (ttl, e) ↦ rw (e, take_ttl) (skip_class-InRange name ttl t u ws)
  ]

  parse_owner-InRange : (s : Text) → InRange (parse_owner readers origin line_num s)
  unfolding parse_owner
  parse_owner-InRange s = ground arith

  parse_parts-InRange :
      (default_ttl : ℕ) (parts : List Text)
      → ltb (length parts) 4 ≡ false
      → InRange (parse_parts readers origin line_num default_ttl parts)
  parse_parts-InRange default_ttl [] h = cc
  parse_parts-InRange default_ttl (_ ∷ []) h = cc
  parse_parts-InRange default_ttl (_ ∷ _ ∷ []) h = cc
  parse_parts-InRange default_ttl (_ ∷ _ ∷ _ ∷ []) h = cc
  parse_parts-InRange default_ttl (s ∷ t ∷ u ∷ v ∷ ws) h =
      elim (Result-cases (parse_owner readers origin line_num s)) [
        | inl (n, e) ↦ rw e (parse_rest-InRange default_ttl n t u v ws)
        | inr (x, e) ↦ rw e (λ p. parse_owner-InRange s (e ∙ ap err (ground arith)))
      ]

  -- Parsing a line never uses an index beyond its words, which would stop the program.
  pub parse_resource_record-InRange :
      (line : Text) (default_ttl : ℕ)
      → InRange (parse_resource_record readers origin line_num line default_ttl)
  unfolding parse_resource_record
  parse_resource_record-InRange line default_ttl = elim (Bool-cases (ltb (length (words line)) 4)) [
    | inl y ↦ rw y (λ p. cc)
    | inr n ↦ rw n (parse_parts-InRange default_ttl (words line) n)
  ]
