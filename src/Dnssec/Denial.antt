-- ===== src/Dnssec/Denial.antt =====
-- What makes an NSEC proof of non-existence, and the records found for an RRset.
use lrmdns.Prelude.{
  ◌≡◌, refl, ◌↔◌, true, false, Option, none, some, List, [], ◌∷◌, arith, any, inl, inr, Bool-cases,
}
use mathlib.Core.List.{Memᴰ}
use lrmdns.Prelude.Result.{ok}
use lrmdns.HashMap.{◌==ₖ◌}
use lrmdns.Dns.Name.{DnsApi, name_key}
use lrmdns.Dns.Rr.{RecordType, rtype_key, Record, NsecData}
use lrmdns.Dnssec.{as_nsec, nsec_denies, record_denies, validate_nsec_denial}

module _ {Name : Type 0} ⦃api : DnsApi Name⦄ (query_name : Name) (query_type : RecordType) where
  -- An NSEC record that leaves no room for the name, or has the name and not the type.
  pub data Denies (owner : Name) (nsec : NsecData Name) : Type 0 where
    between :
        api.lt owner nsec.next_domain_name ≡ true
        → api.lt owner query_name ≡ true
        → api.lt query_name nsec.next_domain_name ≡ true
        → Denies owner nsec
    after_last :
        api.lt owner nsec.next_domain_name ≡ false
        → api.lt owner query_name ≡ true
        → Denies owner nsec
    before_first :
        api.lt owner nsec.next_domain_name ≡ false
        → api.lt query_name nsec.next_domain_name ≡ true
        → Denies owner nsec
    lacks_type :
        (query_name ==ₖ owner) ≡ true
        → any (λ t. t ==ₖ query_type) nsec.type_bit_maps ≡ false
        → Denies owner nsec

  abbrev pub DeniesData : Name → Option (NsecData Name) → Type 0
  DeniesData owner none = ⊥
  DeniesData owner (some nsec) = Denies owner nsec

  nsec_denies-Denies :
      (owner : Name) (nsec : NsecData Name)
      → nsec_denies query_name query_type owner nsec ≡ true
      → Denies owner nsec
  unfolding nsec_denies
  nsec_denies-Denies owner nsec h = grind (arith, between, after_last, before_first, lacks_type)

  nsec_denies_complete :
      (owner : Name) (nsec : NsecData Name)
      → Denies owner nsec
      → nsec_denies query_name query_type owner nsec ≡ true
  unfolding nsec_denies
  nsec_denies_complete owner nsec (between a b c) = ground arith
  nsec_denies_complete owner nsec (after_last a b) = ground arith
  nsec_denies_complete owner nsec (before_first a b) = ground arith
  nsec_denies_complete owner nsec (lacks_type a b) = ground arith

  record_denies_iff :
      (owner : Name) (nsec : Option (NsecData Name))
      → (record_denies query_name query_type owner nsec ≡ true) ↔ DeniesData owner nsec
  record_denies_iff owner none = ground arith
  record_denies_iff owner (some nsec) =
      (nsec_denies-Denies owner nsec, nsec_denies_complete owner nsec)

  validate_nsec_denial_sound :
      (rs : List (Record Name))
      → validate_nsec_denial query_name query_type rs ≡ ok tt
      → (r : Record Name) × Memᴰ r rs × DeniesData r.name (as_nsec r.rdata)
  unfolding validate_nsec_denial
  validate_nsec_denial_sound [] h = cc
  validate_nsec_denial_sound (r ∷ rs) h =
      elim (Bool-cases (record_denies query_name query_type r.name (as_nsec r.rdata))) [
        | inl d ↦ (r, Memᴰ.head refl, (record_denies_iff r.name (as_nsec r.rdata)).0 d)
        | inr n ↦ let (x, m, d) = validate_nsec_denial_sound rs (rw n at h) in (x, Memᴰ.tail m, d)
      ]

  validate_nsec_denial_complete :
      (rs : List (Record Name)) (r : Record Name)
      → Memᴰ r rs
      → DeniesData r.name (as_nsec r.rdata)
      → validate_nsec_denial query_name query_type rs ≡ ok tt
  unfolding validate_nsec_denial
  validate_nsec_denial_complete [] r m d = elim m [ ]
  validate_nsec_denial_complete (x ∷ rs) r (Memᴰ.head e) d =
      let denies : record_denies query_name query_type r.name (as_nsec r.rdata) ≡ true =
        (record_denies_iff r.name (as_nsec r.rdata)).1 d in
      rw (rw e at denies)
  validate_nsec_denial_complete (x ∷ rs) r (Memᴰ.tail m) d =
      ground (arith, validate_nsec_denial_complete rs r m d)

  -- The proof is accepted exactly if one of the records is an NSEC record that denies the name or
  -- its type.
  pub validate_nsec_denial_iff :
      (rs : List (Record Name))
      → (validate_nsec_denial query_name query_type rs ≡ ok tt)
        ↔ ((r : Record Name) × Memᴰ r rs × DeniesData r.name (as_nsec r.rdata))
  validate_nsec_denial_iff rs =
      (validate_nsec_denial_sound rs, λ (r, m, d). validate_nsec_denial_complete rs r m d)
