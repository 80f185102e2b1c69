-- ===== src/Zone/File/Secure.antt =====
-- src/zone.rs: the RDATA of the DNSSEC record types, of NAPTR, TLSA and SSHFP.
use lrmdns.Prelude.{ℕ, Option, none, some, List, [], ◌∷◌}
use lrmdns.Prelude.Result.{Result, ok, ◌>>=◌}
use lrmdns.Dns.Name.{DnsApi}
use lrmdns.Dns.Rr.{Bytes, RecordType, RData}
use lrmdns.Zone.Text.{Text, join, trim_quotes, as_bytes}
use lrmdns.Zone.File.Rdata.{
  Readers, Field, ParseError, context, has_bit, Parsed, name_in, unsigned_in,
}

-- `match …::decode(…) { Ok(x) => …, Err(_) => return Ok(None) }`
abbrev pub decoded {ℓ} : {A : Type ℓ} → Option Bytes → (Bytes → A) → Result ParseError (Option A)
decoded none f = ok none
decoded (some bytes) f = ok (some (f bytes))

-- the words that are record types
abbrev pub known_types : (Text → Option RecordType) → List Text → List RecordType
known_types read [] = []
known_types read (part ∷ rest) =
    let types = known_types read rest in elim (read part) [ some t ↦ t ∷ types | none ↦ types ]

module _ {Name : Type 0} ⦃api : DnsApi Name⦄ (readers : Readers Name) (origin : Name)
    (line_num : ℕ) where
  abbrev number_in : Field → ℕ → Text → Result ParseError ℕ
  number_in = unsigned_in readers origin line_num

  abbrev name_at : Field → Text → Result ParseError Name
  name_at = name_in readers origin line_num

  unfoldable pub parse_dnskey : List Text → Parsed readers origin line_num
  parse_dnskey (flags ∷ protocol ∷ algorithm ∷ k ∷ rest) = do
    f ← number_in Field.dnskey_flags 16 flags
    _ ← number_in Field.dnskey_protocol 8 protocol
    a ← number_in Field.dnskey_algorithm 8 algorithm
    decoded (readers.base64 (join [] (k ∷ rest))) (λ key. RData.dnskey (record {
      zone_key = has_bit 8 f;
      secure_entry_point = has_bit 0 f;
      revoke = has_bit 15 f;
      algorithm = a;
      public_key = key;
    }))
  parse_dnskey _ = ok none

  unfoldable pub parse_rrsig : List Text → Parsed readers origin line_num
  parse_rrsig
        (covered ∷ algorithm ∷ labels ∷ ttl ∷ expiration ∷ inception ∷ tag ∷ signer ∷ g ∷ rest) =
      do
        c ← context Field.rrsig_type_covered line_num (readers.rtype covered)
        a ← number_in Field.rrsig_algorithm 8 algorithm
        l ← number_in Field.rrsig_labels 8 labels
        t ← number_in Field.rrsig_original_ttl 32 ttl
        e ← number_in Field.rrsig_expiration 32 expiration
        i ← number_in Field.rrsig_inception 32 inception
        k ← number_in Field.rrsig_key_tag 16 tag
        n ← name_at Field.rrsig_signer_name signer
        decoded (readers.base64 (join [] (g ∷ rest))) (λ signature. RData.sig (record {
          type_covered = c;
          algorithm = a;
          num_labels = l;
          original_ttl = t;
          sig_expiration = e;
          sig_inception = i;
          key_tag = k;
          signer_name = n;
          sig = signature;
        }))
  parse_rrsig _ = ok none

  unfoldable pub parse_nsec : List Text → Parsed readers origin line_num
  parse_nsec (next ∷ t ∷ rest) = do
    n ← name_at Field.nsec_next_domain_name next
    ok (
        some (
          RData.nsec (record {
            next_domain_name = n;
            type_bit_maps = known_types readers.rtype (t ∷ rest);
          })))
  parse_nsec _ = ok none

  -- an undecodable digest drops the line before its type is read
  abbrev pub ds_with : ℕ → ℕ → ℕ → Option Bytes → Parsed readers origin line_num
  ds_with key_tag algorithm digest_type none = ok none
  ds_with key_tag algorithm digest_type (some digest) = do
    d ← context Field.ds_unknown_digest line_num (readers.digest_type digest_type)
    ok (
        some (
          RData.ds (record {
            key_tag = key_tag;
            algorithm = algorithm;
            digest_type = d;
            digest = digest;
          })))

  unfoldable pub parse_ds : List Text → Parsed readers origin line_num
  parse_ds (tag ∷ algorithm ∷ digest_type ∷ d ∷ rest) = do
    k ← number_in Field.ds_key_tag 16 tag
    a ← number_in Field.ds_algorithm 8 algorithm
    t ← number_in Field.ds_digest_type 8 digest_type
    ds_with k a t (readers.hex (join [] (d ∷ rest)))
  parse_ds _ = ok none

  unfoldable pub parse_naptr : List Text → Parsed readers origin line_num
  parse_naptr (order ∷ preference ∷ flags ∷ services ∷ regexp ∷ replacement ∷ _) = do
    o ← number_in Field.naptr_order 16 order
    p ← number_in Field.naptr_preference 16 preference
    r ← name_at Field.naptr_replacement replacement
    ok (
        some (
          RData.naptr o p (as_bytes (trim_quotes flags)) (as_bytes (trim_quotes services))
            (as_bytes (trim_quotes regexp)) r))
  parse_naptr _ = ok none

  unfoldable pub parse_tlsa : List Text → Parsed readers origin line_num
  parse_tlsa (usage ∷ selector ∷ matching_type ∷ d ∷ rest) = do
    u ← number_in Field.tlsa_usage 8 usage
    s ← number_in Field.tlsa_selector 8 selector
    m ← number_in Field.tlsa_matching_type 8 matching_type
    decoded (readers.hex (join [] (d ∷ rest))) (λ cert. RData.tlsa u s m cert)
  parse_tlsa _ = ok none

  unfoldable pub parse_sshfp : List Text → Parsed readers origin line_num
  parse_sshfp (algorithm ∷ fp_type ∷ d ∷ rest) = do
    a ← number_in Field.sshfp_algorithm 8 algorithm
    t ← number_in Field.sshfp_fp_type 8 fp_type
    decoded (readers.hex (join [] (d ∷ rest))) (λ fp. RData.sshfp a t fp)
  parse_sshfp _ = ok none
