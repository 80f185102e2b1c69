-- ===== src/Suite/Security.antt =====
-- The unit tests of src/dnssec.rs, with some functions for the hash functions of sha2 and a clock that
-- stands still.
pub mod Ds
use lrmdns.Prelude.{
  ℕ, zero, suc, ◌+◌, ◌-◌, ◌%◌, ◌^◌, Bool, true, false, not, ◌&&◌, ◌≡◌, refl, some, List, [], ◌∷◌,
  ◌++◌, ◌==◌, length, ltb, if◌then◌else◌,
}
use lrmdns.Prelude.Result.{Result, ok, err}
use lrmdns.Dns.Rr.{
  Bytes, RecordType, rtype_eq, Record, RData, DnskeyData, SigData, DigestType, from_rdata,
}
use lrmdns.Dnssec.{
  DnssecConfig, default_config, DnssecError, Crypto, key_rdata, add_byte, key_tag_loop,
  compute_key_tag, verify_ds, nsec_denies, validate_nsec_denial, find_related_dnssec_records,
  check_signature_validity,
}
use lrmdns.Suite.Names.{codes, name, Labels, dns_names}
use lrmdns.Suite.Files.{repeated, all_true}

abbrev pub flags_of : DnskeyData → ℕ
flags_of key =
    (if key.zone_key then 256 else 0)
    + (if key.revoke then 128 else 0)
    + (if key.secure_entry_point then 1 else 0)

-- any functions will do for the tests
abbrev pub crypto : Crypto
crypto = record {
  flags = flags_of;
  sha256 = λ input. 1 ∷ input;
  sha384 = λ input. 2 ∷ input;
  sha512 = λ input. 3 ∷ input;
}

abbrev pub is_ok : {A : Type 0} → Result DnssecError A → Bool
is_ok (ok a) = true
is_ok (err e) = false

abbrev fails_with_not_yet_valid : Result DnssecError (Unit {0}) → Bool
fails_with_not_yet_valid (err DnssecError.not_yet_valid) = true
fails_with_not_yet_valid _ = false

abbrev fails_with_expired : Result DnssecError (Unit {0}) → Bool
fails_with_expired (err DnssecError.expired) = true
fails_with_expired _ = false

abbrev pub test_dnssec_config_default : Bool
test_dnssec_config_default =
    not default_config.validate_signatures
    && not default_config.require_dnssec
    && default_config.auto_include_dnssec

-- `DNSKEY::new(true, false, false, algorithm, public_key)` in a record
abbrev pub key_record : Labels → ℕ → Bytes → Record Labels
key_record owner algorithm public_key = from_rdata owner 300 (
    RData.dnskey (record {
      zone_key = true;
      secure_entry_point = false;
      revoke = false;
      algorithm = algorithm;
      public_key = public_key;
    }))

-- Algorithm::RSASHA256
abbrev pub rsasha256 : ℕ
rsasha256 = 8

abbrev pub example : Labels
example = name "example.com."

abbrev pub tag_or_zero : Bytes → ℕ
tag_or_zero public_key = elim (compute_key_tag crypto (key_record example rsasha256 public_key)) [
  | ok tag ↦ tag
  | err e ↦ 0
]

abbrev pub test_key_tag_computation : Bool
test_key_tag_computation = ltb 0 (tag_or_zero (1 ∷ 2 ∷ 3 ∷ 4 ∷ 5 ∷ []))

abbrev pub up_from : ℕ → ℕ → Bytes
up_from zero start = []
up_from (suc n) start = start ∷ up_from n (suc start)

abbrev down_from : ℕ → Bytes
down_from zero = []
down_from (suc n) = suc n ∷ down_from n

abbrev pub test_key_tag_with_different_keys : Bool
test_key_tag_with_different_keys = not (tag_or_zero (up_from 16 1) == tag_or_zero (down_from 16))

abbrev pub test_find_related_dnssec_records : Bool
test_find_related_dnssec_records = length (find_related_dnssec_records [] example RecordType.a) == 0

abbrev pub test_find_related_dnssec_with_dnskey : Bool
test_find_related_dnssec_with_dnskey =
    length (
      find_related_dnssec_records (key_record example rsasha256 (1 ∷ 2 ∷ 3 ∷ 4 ∷ 5 ∷ []) ∷ [])
        example RecordType.a)
    == 1

abbrev now : ℕ
now = 1700000000

-- a signature record with its type, its expiration and its inception
abbrev sig_record : Labels → RecordType → ℕ → ℕ → Record Labels
sig_record owner t expiration inception = from_rdata owner 300 (
    RData.sig (record {
      type_covered = t;
      algorithm = rsasha256;
      num_labels = 2;
      original_ttl = 300;
      sig_expiration = expiration;
      sig_inception = inception;
      key_tag = 12345;
      signer_name = example;
      sig = 1 ∷ 2 ∷ 3 ∷ 4 ∷ 5 ∷ [];
    }))

abbrev validity : ℕ → ℕ → Result DnssecError (Unit {0})
validity expiration inception =
    check_signature_validity (some now)
      (sig_record (name "www.example.com.") RecordType.a expiration inception)

abbrev pub test_check_signature_validity_future : Bool
test_check_signature_validity_future =
    fails_with_not_yet_valid (validity (now + 86400 + 3600) (now + 86400))

abbrev pub test_check_signature_validity_expired : Bool
test_check_signature_validity_expired =
    fails_with_expired (validity (now - 86400 + 3600) (now - 86400))

abbrev pub test_check_signature_validity_valid : Bool
test_check_signature_validity_valid = is_ok (validity (now + 3600) (now - 3600))

abbrev pub test_check_signature_validity_at_boundary : Bool
test_check_signature_validity_at_boundary = is_ok (validity (now + 3600) now)

abbrev computes_tag : Bytes → Bool
computes_tag public_key = is_ok (compute_key_tag crypto (key_record example rsasha256 public_key))

abbrev pub test_compute_key_tag_odd_length_key : Bool
test_compute_key_tag_odd_length_key = computes_tag (up_from 5 1)

abbrev pub test_compute_key_tag_very_short_key : Bool
test_compute_key_tag_very_short_key = computes_tag (1 ∷ [])

abbrev pub test_compute_key_tag_very_long_key : Bool
test_compute_key_tag_very_long_key = computes_tag (repeated 512 66)

abbrev pub test_find_related_dnssec_with_multiple_rrsigs : Bool
test_find_related_dnssec_with_multiple_rrsigs =
    length (
      find_related_dnssec_records
        (sig_record example RecordType.a 12345 12340
          ∷ sig_record example RecordType.aaaa 12345 12340
          ∷ [])
        example RecordType.a)
    == 1

abbrev pub test_find_related_dnssec_with_wrong_name : Bool
test_find_related_dnssec_with_wrong_name =
    length (
      find_related_dnssec_records (sig_record (name "other.com.") RecordType.a 12345 12340 ∷ [])
        example RecordType.a)
    == 0

-- Every test of this file passes.
security_tests_pass :
    all_true (
      test_dnssec_config_default ∷ test_key_tag_computation ∷ test_key_tag_with_different_keys
      ∷ test_find_related_dnssec_records ∷ test_find_related_dnssec_with_dnskey
      ∷ test_check_signature_validity_future ∷ test_check_signature_validity_expired
      ∷ test_check_signature_validity_valid ∷ test_check_signature_validity_at_boundary
      ∷ test_compute_key_tag_odd_length_key ∷ test_compute_key_tag_very_short_key
      ∷ test_compute_key_tag_very_long_key ∷ test_find_related_dnssec_with_multiple_rrsigs
      ∷ test_find_related_dnssec_with_wrong_name ∷ [])
    ≡ true
unfolding key_rdata add_byte key_tag_loop compute_key_tag find_related_dnssec_records
    check_signature_validity from_rdata rtype_eq
security_tests_pass = refl
