-- ===== src/Dns/Rr.antt =====
-- hickory_proto::rr: record types, record data and records.
use lrmdns.Prelude.{ℕ, ◌≡◌, Bool, true, false, Option, some, List, ℕ_discrete, arith}
use lrmdns.Prelude.Int.{ℤ}
use lrmdns.HashMap.{Key}

abbrev pub Bytes : Type 0
Bytes = List ℕ

-- The types that the source names. `other` holds the code of any other type.
pub data RecordType : Type 0 where
  a aaaa ns soa cname mx txt ptr srv caa dnskey sig nsec ds naptr tlsa sshfp axfr : RecordType
  other : ℕ → RecordType

unfoldable pub RecordType-discrete : Discrete RecordType
RecordType-discrete = hlevel ℕ_discrete

pub decided : {s t : RecordType} → Dec (s ≡ t) → Bool
decided (yes _) = true
decided (no _) = false

unfoldable pub rtype_eq : RecordType → RecordType → Bool
unfolding RecordType-discrete decided
rtype_eq s t = decided (RecordType-discrete s t)

pub rtype_eq_refl : (t : RecordType) → rtype_eq t t ≡ true
unfolding rtype_eq
rtype_eq_refl t = ground arith

eq_of_decided : {s t : RecordType} (d : Dec (s ≡ t)) → decided d ≡ true → s ≡ t
unfolding decided
eq_of_decided (yes p) h = p
eq_of_decided (no _) h = cc

pub eq_of_rtype_eq : (s t : RecordType) → rtype_eq s t ≡ true → s ≡ t
eq_of_rtype_eq s t h = eq_of_decided (RecordType-discrete s t) (unfold rtype_eq in h)

pub rtype_eq-sym : (s t : RecordType) → rtype_eq s t ≡ true → rtype_eq t s ≡ true
rtype_eq-sym s t h = rw (eq_of_rtype_eq s t h) (rtype_eq_refl t)

pub rtype_eq_trans :
    (s t u : RecordType) → rtype_eq s t ≡ true → rtype_eq t u ≡ true → rtype_eq s u ≡ true
rtype_eq_trans s t u h i = rw (eq_of_rtype_eq s t h) i

instance abbrev pub rtype_key : Key RecordType
rtype_key = record {
  eq = rtype_eq;
  eq_refl = rtype_eq_refl;
  eq_sym = rtype_eq-sym;
  eq_trans = rtype_eq_trans;
}

-- The variants that the source builds or matches, with the fields that it gives or reads. An
-- address is its number, an algorithm or another registered code is its `u8`.
pub record SoaData (Name : Type 0) : Type 0 where
  pub mname : Name
  pub rname : Name
  pub serial : ℕ
  pub refresh : ℤ
  pub retry : ℤ
  pub expire : ℤ
  pub minimum : ℕ

pub record DnskeyData : Type 0 where
  pub zone_key : Bool
  pub secure_entry_point : Bool
  pub revoke : Bool
  pub algorithm : ℕ
  pub public_key : Bytes

pub record SigData (Name : Type 0) : Type 0 where
  pub type_covered : RecordType
  pub algorithm : ℕ
  pub num_labels : ℕ
  pub original_ttl : ℕ
  pub sig_expiration : ℕ
  pub sig_inception : ℕ
  pub key_tag : ℕ
  pub signer_name : Name
  pub sig : Bytes

pub record NsecData (Name : Type 0) : Type 0 where
  pub next_domain_name : Name
  pub type_bit_maps : List RecordType

pub data DigestType : Type 0 where
  sha256 sha384 sha512 : DigestType
  other : ℕ → DigestType

pub record DsData : Type 0 where
  pub key_tag : ℕ
  pub algorithm : ℕ
  pub digest_type : DigestType
  pub digest : Bytes

pub data RData (Name : Type 0) : Type 0 where
  a aaaa : ℕ → RData Name
  ns cname ptr : Name → RData Name
  soa : SoaData Name → RData Name
  mx : ℕ → Name → RData Name
  txt : List Bytes → RData Name
  srv : ℕ → ℕ → ℕ → Name → RData Name
  caa : Bool → Option Name → RData Name
  naptr : ℕ → ℕ → Bytes → Bytes → Bytes → Name → RData Name
  tlsa : ℕ → ℕ → ℕ → Bytes → RData Name
  sshfp : ℕ → ℕ → Bytes → RData Name
  dnskey : DnskeyData → RData Name
  sig : SigData Name → RData Name
  nsec : NsecData Name → RData Name
  ds : DsData → RData Name
  other : RecordType → Bytes → RData Name

-- `rdata.record_type()`
unfoldable pub record_type_of : {Name : Type 0} → RData Name → RecordType
record_type_of (RData.a _) = RecordType.a
record_type_of (RData.aaaa _) = RecordType.aaaa
record_type_of (RData.ns _) = RecordType.ns
record_type_of (RData.cname _) = RecordType.cname
record_type_of (RData.ptr _) = RecordType.ptr
record_type_of (RData.soa _) = RecordType.soa
record_type_of (RData.mx _ _) = RecordType.mx
record_type_of (RData.txt _) = RecordType.txt
record_type_of (RData.srv _ _ _ _) = RecordType.srv
record_type_of (RData.caa _ _) = RecordType.caa
record_type_of (RData.naptr _ _ _ _ _ _) = RecordType.naptr
record_type_of (RData.tlsa _ _ _ _) = RecordType.tlsa
record_type_of (RData.sshfp _ _ _) = RecordType.sshfp
record_type_of (RData.dnskey _) = RecordType.dnskey
record_type_of (RData.sig _) = RecordType.sig
record_type_of (RData.nsec _) = RecordType.nsec
record_type_of (RData.ds _) = RecordType.ds
record_type_of (RData.other t _) = t

-- `rdata` is `None` for an empty record.
pub record Record (Name : Type 0) : Type 0 where
  pub name : Name
  pub rtype : RecordType
  pub ttl : ℕ
  pub rdata : Option (RData Name)

-- Record::from_rdata(name, ttl, rdata)
unfoldable pub from_rdata : {Name : Type 0} → Name → ℕ → RData Name → Record Name
unfolding record_type_of
from_rdata n t d = record { name = n; rtype = record_type_of d; ttl = t; rdata = some d }
