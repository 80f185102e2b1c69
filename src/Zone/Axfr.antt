-- ===== src/Zone/Axfr.antt =====
-- What a zone transfer is made of: the records of `get_all_records`.
pub mod Once
use mathlib.Core.List.{Memᴰ}
use mathlib.Core.Path.{subst}
use lrmdns.Prelude.{
  ◌≡◌, refl, ◌∙◌, ◌↔◌, true, false, Option, none, some, List, [], ◌∷◌, ◌++◌, sort, Bool-cases,
  Option-cases, inl, inr,
}
use lrmdns.Prelude.Members.{Mem-concat_map, concat_map-Mem, Mem-sort}
use lrmdns.HashMap.{Key, ◌==ₖ◌, Map, keys, get}
use lrmdns.HashMap.Laws.{get-cong}
use lrmdns.Dns.Name.{DnsApi, name_key}
use lrmdns.Dns.Rr.{RecordType, rtype_key, Record, eq_of_rtype_eq}
use lrmdns.Zone.{
  Zone, TypeMap, lookup, records_at, sorted_records, inner_records, get_all_records, get_soa_record,
  types_lookup,
}

module _ {ℓ κ} {K : Type ℓ} {V : Type κ} ⦃k : Key K⦄ where
  -- A key that the map finds is equal to a key that it lists, which finds the same.
  keys-get :
      (key : K) (m : Map K V) {v : V}
      → get key m ≡ some v
      → (j : K) × Memᴰ j (keys m) × ((j ==ₖ key) ≡ true)
  unfolding get
  keys-get key [] e = cc
  keys-get key ((j, w) ∷ m) {v} e = elim (Bool-cases (j ==ₖ key)) [
    | inl t ↦ (j, Memᴰ.head refl, t)
    | inr f ↦ let (i, h, t) = keys-get key m (rw f at e) in (i, Memᴰ.tail h, t)
  ]

module _ {Name : Type 0} ⦃api : DnsApi Name⦄ where
  -- The record is in an RRset of the zone that is no SOA RRset.
  pub record Stored (z : Zone Name) (r : Record Name) : Type 0 where
    pub name : Name
    pub rtype : RecordType
    pub rrset : List (Record Name)
    pub found : lookup z name rtype ≡ some rrset
    pub not_soa : (rtype ==ₖ RecordType.soa) ≡ false
    pub listed : Memᴰ r rrset

  records_at-Mem :
      (types : TypeMap Name) (t : RecordType) (r : Record Name)
      → Memᴰ r (records_at types t)
      → (rs : List (Record Name)) × (get t types ≡ some rs)
        × ((t ==ₖ RecordType.soa) ≡ false)
        × Memᴰ r rs
  unfolding records_at
  records_at-Mem types t r m = elim (Bool-cases (t ==ₖ RecordType.soa)) [
    | inl y ↦ elim (rw y at m) [ ]
    | inr n ↦ elim (Option-cases (get t types)) [
      | inl e ↦ elim (rw (n, e) at m) [ ]
      | inr (rs, e) ↦ (rs, e, n, rw (n, e) at m)
    ]
  ]

  sorted_records-Mem :
      (z : Zone Name) (n : Name) (r : Record Name) (types : Option (TypeMap Name))
      → get n z.records ≡ types
      → Memᴰ r (sorted_records types)
      → Stored z r
  unfolding lookup
  sorted_records-Mem z n r none e m = elim m [ ]
  sorted_records-Mem z n r (some types) e m =
      let (t, _, i) = concat_map-Mem (records_at types) (sort api.rtype_lt (keys types)) m in
      let (rs, f, not_soa, h) = records_at-Mem types t r i in
      record { name = n; rtype = t; rrset = rs; found = rw e f; not_soa = not_soa; listed = h }

  inner_records-Stored : (z : Zone Name) (r : Record Name) → Memᴰ r (inner_records z) → Stored z r
  unfolding inner_records
  inner_records-Stored z r m =
      let (n, _, i) =
        concat_map-Mem (λ n. sorted_records (get n z.records)) (sort api.lt (keys z.records)) m in
      sorted_records-Mem z n r (get n z.records) refl i

  records_at-found :
      (types : TypeMap Name) (t : RecordType) (r : Record Name) (rs : List (Record Name))
      → get t types ≡ some rs
      → (t ==ₖ RecordType.soa) ≡ false
      → Memᴰ r rs
      → Memᴰ r (sorted_records (some types))
  unfolding records_at
  records_at-found types t r rs e n m =
      let (j, i, same) = keys-get t types e in
      let p = eq_of_rtype_eq j t same in
      let listed : Memᴰ t (keys types) = subst (λ x. Memᴰ x (keys types)) p i in
      Mem-concat_map (records_at types) (sort api.rtype_lt (keys types))
        (Mem-sort api.rtype_lt (keys types) listed) (rw (n, e) m)

  Stored-found :
      (z : Zone Name) (n : Name) (t : RecordType) (r : Record Name) (rs : List (Record Name))
      (types : Option (TypeMap Name))
      → get n z.records ≡ types
      → types_lookup t types ≡ some rs
      → (t ==ₖ RecordType.soa) ≡ false
      → Memᴰ r rs
      → Memᴰ r (inner_records z)
  unfolding inner_records
  Stored-found z n t r rs none e f not_soa m = cc
  Stored-found z n t r rs (some types) e f not_soa m =
      let (j, i, same) = keys-get n z.records e in
      let same_types = get-cong j n z.records same ∙ e in
      Mem-concat_map (λ x. sorted_records (get x z.records)) (sort api.lt (keys z.records))
        (Mem-sort api.lt (keys z.records) i)
        (rw same_types (records_at-found types t r rs f not_soa m))

  -- What stands between the two SOA records of a transfer is what the zone's lookups find.
  pub inner_records_iff : (z : Zone Name) (r : Record Name) → Memᴰ r (inner_records z) ↔ Stored z r
  unfolding lookup
  inner_records_iff z r = (
    inner_records-Stored z r,
    λ s.
        Stored-found z s.name s.rtype r s.rrset (get s.name z.records) refl s.found s.not_soa
          s.listed,
  )
