-- ===== src/Dnssec.antt =====
-- src/dnssec.rs: checks of DNSSEC records. Error texts are left out: an error is its kind.
pub mod KeyTag
pub mod Ds
pub mod Denial
pub mod Related
use lrmdns.Prelude.{
  ℕ, ◌+◌, ◌*◌, ◌/◌, ◌%◌, ◌^◌, suc, Bool, true, false, not, ◌&&◌, ◌||◌, Option, none, some, List, [],
  ◌∷◌, ◌++◌, if◌then◌else◌, ltb, ◌==◌, retain, any,
}
use lrmdns.Prelude.Result.{Result, ok, err, ensure, ◌>>=◌, ◌>>◌}
use lrmdns.HashMap.{◌==ₖ◌}
use lrmdns.Dns.Name.{DnsApi, name_key}
use lrmdns.Dns.Rr.{
  Bytes, RecordType, rtype_key, Record, RData, DnskeyData, SigData, NsecData, DsData, DigestType,
}

pub record DnssecConfig : Type 0 where
  pub validate_signatures : Bool
  pub require_dnssec : Bool
  pub auto_include_dnssec : Bool

-- DnssecConfig::default
abbrev pub default_config : DnssecConfig
default_config = record {
  validate_signatures = false;
  require_dnssec = false;
  auto_include_dnssec = true;
}

pub data DnssecError : Type 0 where
  invalid_ds invalid_dnskey invalid_rrsig : DnssecError
  algorithm_mismatch key_tag_mismatch wire_format unsupported_digest digest_mismatch : DnssecError
  clock not_yet_valid expired no_proof : DnssecError

-- The crate's `DNSKEY::flags`, a `u16` made of the three flags, and the hash functions of sha2.
pub record Crypto : Type 0 where
  pub flags : DnskeyData → ℕ
  pub sha256 : Bytes → Bytes
  pub sha384 : Bytes → Bytes
  pub sha512 : Bytes → Bytes

abbrev pub bytes_eq : Bytes → Bytes → Bool
bytes_eq [] [] = true
bytes_eq (x ∷ xs) (y ∷ ys) = (x == y) && bytes_eq xs ys
bytes_eq _ _ = false

-- `flags.to_be_bytes()`
abbrev pub to_be_bytes : ℕ → Bytes
to_be_bytes n = n / 256 ∷ n % 256 ∷ []

abbrev pub as_dnskey : {Name : Type 0} → Option (RData Name) → Result DnssecError DnskeyData
as_dnskey (some (RData.dnskey key)) = ok key
as_dnskey _ = err invalid_dnskey

abbrev pub as_ds : {Name : Type 0} → Option (RData Name) → Result DnssecError DsData
as_ds (some (RData.ds d)) = ok d
as_ds _ = err invalid_ds

abbrev pub as_rrsig : {Name : Type 0} → Option (RData Name) → Result DnssecError (SigData Name)
as_rrsig (some (RData.sig s)) = ok s
as_rrsig _ = err invalid_rrsig

abbrev pub as_nsec : {Name : Type 0} → Option (RData Name) → Option (NsecData Name)
as_nsec (some (RData.nsec n)) = some n
as_nsec _ = none

-- the RDATA of a key: flags, protocol 3, algorithm, public key
unfoldable pub key_rdata : Crypto → DnskeyData → Bytes
key_rdata c key = to_be_bytes (c.flags key) ++ (3 ∷ key.algorithm ∷ key.public_key)

-- one round of the loop over the RDATA, on a `u32`
unfoldable pub add_byte : ℕ → ℕ → ℕ → ℕ
add_byte i ac byte = if i % 2 == 0 then (ac + byte * 2 ^ 8) % 2 ^ 32 else (ac + byte) % 2 ^ 32

-- `for (i, &byte) in rdata.iter().enumerate()`
unfoldable pub key_tag_loop : ℕ → ℕ → Bytes → ℕ
key_tag_loop i ac [] = ac
key_tag_loop i ac (byte ∷ rest) = key_tag_loop (suc i) (add_byte i ac byte) rest

-- `ac += (ac >> 16) & 0xFFFF; (ac & 0xFFFF) as u16`
abbrev pub fold_tag : ℕ → ℕ
fold_tag ac = (ac + ac / 2 ^ 16 % 2 ^ 16) % 2 ^ 32 % 2 ^ 16

-- compute_key_tag
unfoldable pub compute_key_tag : {Name : Type 0} → Crypto → Record Name → Result DnssecError ℕ
unfolding key_rdata
compute_key_tag c dnskey = do
  key ← as_dnskey dnskey.rdata
  ok (fold_tag (key_tag_loop 0 0 (key_rdata c key)))

-- the digest of the type that a DS record names
abbrev pub digest_with : Crypto → DigestType → Bytes → Result DnssecError Bytes
digest_with c DigestType.sha256 input = ok (c.sha256 input)
digest_with c DigestType.sha384 input = ok (c.sha384 input)
digest_with c DigestType.sha512 input = ok (c.sha512 input)
digest_with c (DigestType.other _) input = err unsupported_digest

abbrev pub or_wire_format : Option Bytes → Result DnssecError Bytes
or_wire_format none = err wire_format
or_wire_format (some wire) = ok wire

module _ {Name : Type 0} ⦃api : DnsApi Name⦄ where
  -- verify_ds
  unfoldable pub verify_ds : Crypto → Record Name → Record Name → Result DnssecError (Unit {0})
  verify_ds c ds dnskey = do
    ds_data ← as_ds ds.rdata
    key ← as_dnskey dnskey.rdata
    ensure (ds_data.algorithm == key.algorithm) algorithm_mismatch
    computed_key_tag ← compute_key_tag c dnskey
    ensure (ds_data.key_tag == computed_key_tag) key_tag_mismatch
    owner_name_wire ← or_wire_format (api.to_bytes (api.to_lowercase dnskey.name))
    computed_digest ← digest_with c ds_data.digest_type (owner_name_wire ++ key_rdata c key)
    ensure (bytes_eq computed_digest ds_data.digest) digest_mismatch

  -- one NSEC record of validate_nsec_denial: it covers the name, or lacks the type at the name
  unfoldable pub nsec_denies : Name → RecordType → Name → NsecData Name → Bool
  nsec_denies query_name query_type owner nsec =
      let next = nsec.next_domain_name in
      let covers_name =
        if api.lt owner next
        then api.lt owner query_name && api.lt query_name next
        else api.lt owner query_name || api.lt query_name next in
      covers_name
      || ((query_name ==ₖ owner) && not (any (λ t. t ==ₖ query_type) nsec.type_bit_maps))

  abbrev pub record_denies : Name → RecordType → Name → Option (NsecData Name) → Bool
  record_denies query_name query_type owner none = false
  record_denies query_name query_type owner (some nsec) =
      nsec_denies query_name query_type owner nsec

  -- validate_nsec_denial
  unfoldable pub validate_nsec_denial :
      Name → RecordType → List (Record Name) → Result DnssecError (Unit {0})
  validate_nsec_denial query_name query_type [] = err no_proof
  validate_nsec_denial query_name query_type (r ∷ rs) =
      let rest = validate_nsec_denial query_name query_type rs in
      if record_denies query_name query_type r.name (as_nsec r.rdata) then ok tt else rest

  abbrev pub sig_covers : Name → Name → RecordType → Option (RData Name) → Bool
  sig_covers name owner t (some (RData.sig s)) = (owner ==ₖ name) && (s.type_covered ==ₖ t)
  sig_covers name owner t _ = false

  abbrev pub is_dnskey : Option (RData Name) → Bool
  is_dnskey (some (RData.dnskey _)) = true
  is_dnskey _ = false

  -- find_related_dnssec_records
  unfoldable pub find_related_dnssec_records :
      List (Record Name) → Name → RecordType → List (Record Name)
  find_related_dnssec_records records name t =
      retain (λ r. sig_covers name r.name t r.rdata) records
      ++ retain (λ r. is_dnskey r.rdata) records

abbrev pub or_clock : Option ℕ → Result DnssecError ℕ
or_clock none = err clock
or_clock (some secs) = ok secs

-- check_signature_validity, at a reading of the clock in seconds; `none` is a clock before 1970
unfoldable pub check_signature_validity :
    {Name : Type 0} → Option ℕ → Record Name → Result DnssecError (Unit {0})
check_signature_validity since_epoch rrsig = do
  s ← as_rrsig rrsig.rdata
  secs ← or_clock since_epoch
  let now = secs % 2 ^ 32
  ensure (not (ltb now s.sig_inception)) not_yet_valid
  ensure (not (ltb s.sig_expiration now)) expired
