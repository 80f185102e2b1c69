-- ===== src/Suite/Security/Ds.antt =====
-- The unit tests of src/dnssec.rs on verify_ds.
use lrmdns.Prelude.{ℕ, Bool, true, false, ◌≡◌, refl, [], ◌∷◌, ◌++◌}
use lrmdns.Prelude.Result.{Result, err}
use lrmdns.Dns.Rr.{Bytes, Record, RData, DigestType, from_rdata}
use lrmdns.Dnssec.{DnssecError, key_rdata, add_byte, key_tag_loop, compute_key_tag, verify_ds}
use lrmdns.Suite.Names.{codes, name, Labels, dns_names}
use lrmdns.Suite.Files.{repeated, all_true}
use lrmdns.Suite.Security.{crypto, is_ok, key_record, rsasha256, example, tag_or_zero, up_from}

-- Algorithm::ECDSAP256SHA256
abbrev ecdsap256sha256 : ℕ
ecdsap256sha256 = 13

abbrev fails_with_key_tag : Result DnssecError (Unit {0}) → Bool
fails_with_key_tag (err DnssecError.key_tag_mismatch) = true
fails_with_key_tag _ = false

abbrev fails_with_digest : Result DnssecError (Unit {0}) → Bool
fails_with_digest (err DnssecError.digest_mismatch) = true
fails_with_digest _ = false

abbrev fails_with_algorithm : Result DnssecError (Unit {0}) → Bool
fails_with_algorithm (err DnssecError.algorithm_mismatch) = true
fails_with_algorithm _ = false

abbrev ds_record : Labels → ℕ → DigestType → Bytes → Record Labels
ds_record owner tag digest_type digest = from_rdata owner 300 (
    RData.ds
      (record { key_tag = tag; algorithm = rsasha256; digest_type = digest_type; digest = digest }))

abbrev pub test_verify_ds_algorithm_mismatch : Bool
test_verify_ds_algorithm_mismatch = fails_with_algorithm (
    verify_ds crypto (ds_record example 12345 DigestType.sha256 (1 ∷ 2 ∷ 3 ∷ 4 ∷ 5 ∷ []))
      (key_record example ecdsap256sha256 (1 ∷ 2 ∷ 3 ∷ 4 ∷ 5 ∷ [])))

-- the owner name in wire format, flags 256, protocol 3, algorithm 8, and the key
abbrev digest_input : Bytes → Bytes → Bytes
digest_input owner_wire public_key = owner_wire ++ (1 ∷ 0 ∷ 3 ∷ 8 ∷ public_key)

abbrev example_wire : Bytes
example_wire = 7 ∷ (codes "example" ++ 3 ∷ (codes "com" ++ 0 ∷ []))

abbrev pub test_ds_verification_with_correct_wire_format : Bool
test_ds_verification_with_correct_wire_format =
    let public_key = up_from 4 1 in
    is_ok (
      verify_ds crypto
        (ds_record example (tag_or_zero public_key) DigestType.sha256
          (crypto.sha256 (digest_input example_wire public_key)))
        (key_record example rsasha256 public_key))

abbrev pub test_verify_ds_with_sha384_digest : Bool
test_verify_ds_with_sha384_digest =
    let public_key = up_from 6 1 in
    is_ok (
      verify_ds crypto
        (ds_record example (tag_or_zero public_key) DigestType.sha384
          (crypto.sha384 (digest_input example_wire public_key)))
        (key_record example rsasha256 public_key))

abbrev pub test_verify_ds_with_sha512_digest : Bool
test_verify_ds_with_sha512_digest =
    let public_key = up_from 6 10 in
    let owner_name = name "test.example." in
    let owner_wire = 4 ∷ (codes "test" ++ 7 ∷ (codes "example" ++ 0 ∷ [])) in
    is_ok (
      verify_ds crypto
        (ds_record owner_name (tag_or_zero public_key) DigestType.sha512
          (crypto.sha512 (digest_input owner_wire public_key)))
        (key_record owner_name rsasha256 public_key))

abbrev pub test_verify_ds_with_wrong_digest : Bool
test_verify_ds_with_wrong_digest =
    let public_key = up_from 4 1 in
    fails_with_digest (
      verify_ds crypto
        (ds_record example (tag_or_zero public_key) DigestType.sha256 (repeated 32 255))
        (key_record example rsasha256 public_key))

abbrev pub test_verify_ds_with_wrong_key_tag : Bool
test_verify_ds_with_wrong_key_tag =
    let public_key = up_from 4 1 in
    fails_with_key_tag (
      verify_ds crypto
        (ds_record example 65000 DigestType.sha256
          (crypto.sha256 (digest_input example_wire public_key)))
        (key_record example rsasha256 public_key))

-- Every test of this file passes.
ds_tests_pass :
    all_true (
      test_verify_ds_algorithm_mismatch ∷ test_ds_verification_with_correct_wire_format
      ∷ test_verify_ds_with_sha384_digest ∷ test_verify_ds_with_sha512_digest
      ∷ test_verify_ds_with_wrong_digest ∷ test_verify_ds_with_wrong_key_tag ∷ [])
    ≡ true
unfolding key_rdata add_byte key_tag_loop compute_key_tag verify_ds from_rdata
ds_tests_pass = refl
