-- ===== src/Dnssec/Related.antt =====
-- The DNSSEC records that go with an RRset.
use mathlib.Core.List.{Memᴰ}
use lrmdns.Prelude.{
  ◌≡◌, ◌⊎◌, inl, inr, ◌↔◌, Bool, true, Option, some, List, [], ◌∷◌, arith, retain, Bool-cases, ap,
  sym, ◌∙◌,
}
use lrmdns.Prelude.Members.{Mem-append_left, Mem-append_right, Mem-append_cases}
use lrmdns.HashMap.{◌==ₖ◌}
use lrmdns.Dns.Name.{DnsApi, name_key}
use lrmdns.Dns.Rr.{RecordType, rtype_key, Record, RData}
use lrmdns.Dnssec.{sig_covers, is_dnskey, find_related_dnssec_records}

module _ {ℓ} {A : Type ℓ} (p : A → Bool) where
  Mem-retain : (xs : List A) {x : A} → Memᴰ x xs → p x ≡ true → Memᴰ x (retain p xs)
  Mem-retain [] m h = elim m [ ]
  Mem-retain (y ∷ xs) {x} (Memᴰ.head e) h =
      let t : p y ≡ true = ap p (sym e) ∙ h in rw t (Memᴰ.head e)
  Mem-retain (y ∷ xs) (Memᴰ.tail m) h = elim (Bool-cases (p y)) [
    | inl t ↦ rw t (Memᴰ.tail (Mem-retain xs m h))
    | inr f ↦ rw f (Mem-retain xs m h)
  ]

  retain-Mem : (xs : List A) {x : A} → Memᴰ x (retain p xs) → Memᴰ x xs × (p x ≡ true)
  retain-Mem [] m = elim m [ ]
  retain-Mem (y ∷ xs) {x} m = elim (Bool-cases (p y)) [
    | inr f ↦ let (i, h) = retain-Mem xs (rw f at m) in (Memᴰ.tail i, h)
    | inl t ↦
        let m' : Memᴰ x (y ∷ retain p xs) = rw t at m in
        elim m' [
          | Memᴰ.head e ↦ (Memᴰ.head e, ap p e ∙ t)
          | Memᴰ.tail i ↦ let (j, h) = retain-Mem xs i in (Memᴰ.tail j, h)
        ]
  ]

module _ {Name : Type 0} ⦃api : DnsApi Name⦄ where
  -- RDATA of an RRSIG record at the name that covers the type
  abbrev pub SignsType : Name → RecordType → Name → Option (RData Name) → Type 0
  SignsType name t owner (some (RData.sig s)) =
      ((owner ==ₖ name) ≡ true) × ((s.type_covered ==ₖ t) ≡ true)
  SignsType name t owner _ = ⊥

  abbrev pub IsKey : Option (RData Name) → Type 0
  IsKey (some (RData.dnskey k)) = Unit
  IsKey _ = ⊥

  sig_covers_iff :
      (name : Name) (t : RecordType) (owner : Name) (d : Option (RData Name))
      → (sig_covers name owner t d ≡ true) ↔ SignsType name t owner d
  sig_covers_iff name t owner d = ground arith

  is_dnskey_iff : (d : Option (RData Name)) → (is_dnskey {Name = Name} d ≡ true) ↔ IsKey d
  is_dnskey_iff d = ground arith

  -- The result has exactly the RRSIG records at the name that cover the type, and the DNSKEY records,
  -- whatever their names.
  pub find_related_dnssec_records_iff :
      (records : List (Record Name)) (name : Name) (t : RecordType) (r : Record Name)
      → Memᴰ r (find_related_dnssec_records records name t)
        ↔ (Memᴰ r records × (SignsType name t r.name r.rdata ⊎ IsKey r.rdata))
  unfolding find_related_dnssec_records
  find_related_dnssec_records_iff records name t r =
      let covers = λ (x : Record Name). sig_covers name x.name t x.rdata in
      let keys = λ (x : Record Name). is_dnskey x.rdata in
      (
        λ m. elim (Mem-append_cases (retain covers records) (retain keys records) m) [
          | inl i ↦
              let (j, h) = retain-Mem covers records i in
              (j, inl ((sig_covers_iff name t r.name r.rdata).0 h))
          | inr i ↦ let (j, h) = retain-Mem keys records i in (j, inr ((is_dnskey_iff r.rdata).0 h))
        ],
        λ (m, related). elim related [
          | inl h ↦
              Mem-append_left (retain covers records) (retain keys records)
                (Mem-retain covers records m ((sig_covers_iff name t r.name r.rdata).1 h))
          | inr h ↦
              Mem-append_right (retain covers records) (retain keys records)
                (Mem-retain keys records m ((is_dnskey_iff r.rdata).1 h))
        ],
      )
