-- ===== src/Dnssec/Ds.antt =====
-- What a successful check of a DS record or of a signature's times guarantees, and what it takes.
use lrmdns.Prelude.{
  ℕ, ◌≤◌, ◌%◌, ◌^◌, ◌≡◌, refl, ◌↔◌, true, Option, some, [], ◌∷◌, ◌++◌, arith, ◌==◌, ==_iff, ap, sym,
  ◌∙◌,
}
use lrmdns.Prelude.Result.{ok, ensure, bind-eq-ok, ensure-eq-ok}
use lrmdns.Dns.Name.{DnsApi}
use lrmdns.Dns.Rr.{Bytes, Record, RData, DnskeyData, DsData, SigData}
use lrmdns.Dnssec.{
  Crypto, as_ds, as_dnskey, compute_key_tag, key_rdata, digest_with, or_wire_format, bytes_eq,
  verify_ds, check_signature_validity, algorithm_mismatch, key_tag_mismatch,
}

pub bytes_eq_iff : (xs ys : Bytes) → (bytes_eq xs ys ≡ true) ↔ (xs ≡ ys)
bytes_eq_iff [] [] = ground arith
bytes_eq_iff [] (y ∷ ys) = ground arith
bytes_eq_iff (x ∷ xs) [] = ground arith
bytes_eq_iff (x ∷ xs) (y ∷ ys) = ground (arith, bytes_eq_iff xs ys)

pub bytes_eq_refl : (a : Bytes) → bytes_eq a a ≡ true
bytes_eq_refl a = (bytes_eq_iff a a).1 refl

pub bytes_eq-sym : (a b : Bytes) → bytes_eq a b ≡ true → bytes_eq b a ≡ true
bytes_eq-sym a b h = (bytes_eq_iff b a).1 (sym ((bytes_eq_iff a b).0 h))

pub bytes_eq_trans :
    (a b c : Bytes) → bytes_eq a b ≡ true → bytes_eq b c ≡ true → bytes_eq a c ≡ true
bytes_eq_trans a b c h i = (bytes_eq_iff a c).1 ((bytes_eq_iff a b).0 h ∙ (bytes_eq_iff b c).0 i)

module _ {Name : Type 0} ⦃api : DnsApi Name⦄ (c : Crypto) (ds dnskey : Record Name) where
  -- The DS record names the key: its algorithm, its tag, and the digest of the owner name in lower
  -- case, in wire format, followed by the RDATA of the key.
  pub record Authenticates : Type 0 where
    pub ds_data : DsData
    pub key : DnskeyData
    pub wire : Bytes
    pub is_ds : ds.rdata ≡ some (RData.ds ds_data)
    pub is_dnskey : dnskey.rdata ≡ some (RData.dnskey key)
    pub algorithm : ds_data.algorithm ≡ key.algorithm
    pub key_tag : compute_key_tag c dnskey ≡ ok ds_data.key_tag
    pub owner : api.to_bytes (api.to_lowercase dnskey.name) ≡ some wire
    pub digest : digest_with c ds_data.digest_type (wire ++ key_rdata c key) ≡ ok ds_data.digest

  verify_ds_complete : Authenticates → verify_ds c ds dnskey ≡ ok tt
  unfolding verify_ds
  verify_ds_complete a = ground (
    arith,
    ==_iff a.ds_data.algorithm a.key.algorithm,
    bytes_eq_iff a.ds_data.digest a.ds_data.digest,
  )

  as_ds-eq-ok : (d : Option (RData Name)) {x : DsData} → as_ds d ≡ ok x → d ≡ some (RData.ds x)
  as_ds-eq-ok d h = ground arith

  as_dnskey-eq-ok :
      (d : Option (RData Name)) {x : DnskeyData} → as_dnskey d ≡ ok x → d ≡ some (RData.dnskey x)
  as_dnskey-eq-ok d h = ground arith

  or_wire_format-eq-ok : (w : Option Bytes) {x : Bytes} → or_wire_format w ≡ ok x → w ≡ some x
  or_wire_format-eq-ok w h = ground arith

  -- The equations that the tests leave make up the record.
  collect :
      (d : DsData) (key : DnskeyData) (tag : ℕ) (wire digest : Bytes)
      → ds.rdata ≡ some (RData.ds d)
      → dnskey.rdata ≡ some (RData.dnskey key)
      → (d.algorithm == key.algorithm) ≡ true
      → compute_key_tag c dnskey ≡ ok tag
      → (d.key_tag == tag) ≡ true
      → api.to_bytes (api.to_lowercase dnskey.name) ≡ some wire
      → digest_with c d.digest_type (wire ++ key_rdata c key) ≡ ok digest
      → bytes_eq digest d.digest ≡ true
      → Authenticates
  collect d key tag wire digest is_d is_key same_algorithm is_tag same_tag is_wire is_digest same =
      record {
        ds_data = d;
        key = key;
        wire = wire;
        is_ds = is_d;
        is_dnskey = is_key;
        algorithm = (==_iff _ _).0 same_algorithm;
        key_tag = is_tag ∙ ap ok (sym ((==_iff _ _).0 same_tag));
        owner = is_wire;
        digest = is_digest ∙ ap ok ((bytes_eq_iff _ _).0 same);
      }

  verify_ds-sound : verify_ds c ds dnskey ≡ ok tt → Authenticates
  unfolding verify_ds
  verify_ds-sound h =
      let (d, is_d, h₁) = bind-eq-ok (as_ds ds.rdata) _ h in
      let (key, is_key, h₂) = bind-eq-ok (as_dnskey dnskey.rdata) _ h₁ in
      let (u, same_algorithm, h₃) =
        bind-eq-ok (ensure (d.algorithm == key.algorithm) algorithm_mismatch) _ h₂ in
      let (tag, is_tag, h₄) = bind-eq-ok (compute_key_tag c dnskey) _ h₃ in
      let (v, same_tag, h₅) = bind-eq-ok (ensure (d.key_tag == tag) key_tag_mismatch) _ h₄ in
      let (wire, is_wire, h₆) =
        bind-eq-ok (or_wire_format (api.to_bytes (api.to_lowercase dnskey.name))) _ h₅ in
      let (digest, is_digest, h₇) =
        bind-eq-ok (digest_with c d.digest_type (wire ++ key_rdata c key)) _ h₆ in
      collect d key tag wire digest (as_ds-eq-ok ds.rdata is_d)
        (as_dnskey-eq-ok dnskey.rdata is_key) (ensure-eq-ok _ _ same_algorithm) is_tag
        (ensure-eq-ok _ _ same_tag) (or_wire_format-eq-ok _ is_wire) is_digest (ensure-eq-ok _ _ h₇)

  -- A DS record passes against a DNSKEY record exactly if it has the algorithm and the key tag of the
  -- key, and, with a digest type that is supported, the digest of the owner name in lower case and the
  -- RDATA of the key.
  pub verify_ds_iff : (verify_ds c ds dnskey ≡ ok tt) ↔ Authenticates
  verify_ds_iff = (verify_ds-sound, verify_ds_complete)

-- With an RRSIG record and a clock after 1970, the check passes exactly from the inception through
-- the expiration, in seconds modulo 2^32.
pub check_signature_validity_iff :
    {Name : Type 0} (r : Record Name) (s : SigData Name) (secs : ℕ)
    → r.rdata ≡ some (RData.sig s)
    → (check_signature_validity (some secs) r ≡ ok tt)
      ↔ ((s.sig_inception ≤ secs % 2 ^ 32) × (secs % 2 ^ 32 ≤ s.sig_expiration))
unfolding check_signature_validity
check_signature_validity_iff r s secs e = ground arith
