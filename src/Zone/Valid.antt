-- ===== src/Zone/Valid.antt =====
-- What a zone satisfies that is built by `new` and `add_record`: each record is filed under its own
-- name and its own type.
use mathlib.Core.Path.{subst}
use lrmdns.Prelude.{
  ◌≡◌, refl, sym, true, false, Option, none, some, List, [], ◌∷◌, ◌++◌, All, All-imp, is_empty,
}
use lrmdns.HashMap.{◌==ₖ◌, get}
use lrmdns.HashMap.Distinct.{Distinct, Entries, modify-Distinct, modify-Entries, get-Entries}
use lrmdns.Dns.Name.{DnsApi, name_key}
use lrmdns.Dns.Rr.{RecordType, rtype_key, Record, eq_of_rtype_eq}
use lrmdns.Zone.{Zone, SoaRecord, TypeMap, add_record, push_record, lookup, types_lookup}
use lrmdns.Zone

module _ {Name : Type 0} ⦃api : DnsApi Name⦄ where
  abbrev pub IsFiled : Name → RecordType → Record Name → Type 0
  IsFiled n t r = ((r.name ==ₖ n) ≡ true) × (r.rtype ≡ t)

  -- one RRset: not empty, and each record has its name and its type
  pub record IsRrset (n : Name) (t : RecordType) (rs : List (Record Name)) : Type 0 where
    pub nonempty : is_empty rs ≡ false
    pub filed : All (IsFiled n t) rs

  pub record IsTypes (n : Name) (types : TypeMap Name) : Type 0 where
    pub distinct : Distinct types
    pub rrsets : Entries (IsRrset n) types

  -- No name and no type of a name is there twice, and every RRset is one.
  pub record IsWellFormed (z : Zone Name) : Type 0 where
    pub distinct : Distinct z.records
    pub types : Entries IsTypes z.records

  pub new-IsWellFormed : (origin : Name) (soa : SoaRecord Name) → IsWellFormed (Zone.new origin soa)
  unfolding Zone.new
  new-IsWellFormed origin soa = record { distinct = tt; types = tt }

  snoc-IsRrset :
      (n : Name) (t : RecordType) (r : Record Name) (rs : List (Record Name))
      → IsFiled n t r
      → All (IsFiled n t) rs
      → IsRrset n t (rs ++ r ∷ [])
  snoc-IsRrset n t r [] f h = record { nonempty = refl; filed = (f, tt) }
  snoc-IsRrset n t r (x ∷ rs) f h = record {
    nonempty = refl;
    filed = (h.0, (snoc-IsRrset n t r rs f h.1).filed);
  }

  push_record-IsTypes :
      (r : Record Name) (n : Name) (types : TypeMap Name)
      → (r.name ==ₖ n) ≡ true
      → IsTypes n types
      → IsTypes n (push_record r types)
  unfolding push_record
  push_record-IsTypes r n types same h = record {
    distinct = modify-Distinct r.rtype [] (λ rs. rs ++ r ∷ []) types h.distinct;
    rrsets =
        modify-Entries (IsRrset n) r.rtype [] (λ rs. rs ++ r ∷ []) types
          (snoc-IsRrset n r.rtype r [] (same, refl) tt)
          (λ t rs e i. snoc-IsRrset n t r rs (same, sym (eq_of_rtype_eq t r.rtype e)) i.filed)
          h.rrsets;
  }

  pub add_record-IsWellFormed :
      (r : Record Name) (z : Zone Name) → IsWellFormed z → IsWellFormed (add_record r z)
  unfolding add_record
  add_record-IsWellFormed r z h = record {
    distinct = modify-Distinct r.name [] (push_record r) z.records h.distinct;
    types =
        modify-Entries IsTypes r.name [] (push_record r) z.records
          (push_record-IsTypes r r.name [] (api.key.eq_refl r.name)
            (record { distinct = tt; rrsets = tt }))
          (λ n types e i. push_record-IsTypes r n types (api.key.eq_sym n r.name e) i) h.types;
  }

  IsFiled-cong :
      (a b : Name) (t : RecordType) (r : Record Name)
      → (a ==ₖ b) ≡ true
      → IsFiled a t r
      → IsFiled b t r
  IsFiled-cong a b t r e h = (api.key.eq_trans r.name a b h.0 e, h.1)

  IsRrset-cong :
      (a b : Name) (t : RecordType) (rs : List (Record Name))
      → (a ==ₖ b) ≡ true
      → IsRrset a t rs
      → IsRrset b t rs
  IsRrset-cong a b t rs e h = record {
    nonempty = h.nonempty;
    filed = All-imp (IsFiled a t) (IsFiled b t) rs (λ r i. IsFiled-cong a b t r e i) h.filed;
  }

  IsTypes-cong :
      (a b : Name) (types : TypeMap Name) → (a ==ₖ b) ≡ true → IsTypes a types → IsTypes b types
  IsTypes-cong a b types e h = record {
    distinct = h.distinct;
    rrsets =
        All-imp (λ x. IsRrset a x.0 x.1) (λ x. IsRrset b x.0 x.1) types
          (λ x i. IsRrset-cong a b x.0 x.1 e i) h.rrsets;
  }

  types_lookup-IsRrset :
      (n : Name) (t : RecordType) (types : Option (TypeMap Name)) {rs : List (Record Name)}
      → ((found : TypeMap Name) → types ≡ some found → IsTypes n found)
      → types_lookup t types ≡ some rs
      → IsRrset n t rs
  types_lookup-IsRrset n t none h e = cc
  types_lookup-IsRrset n t (some types) {rs} h e =
      get-Entries (IsRrset n)
        (λ a b v same i. subst (λ x. IsRrset n x v) (eq_of_rtype_eq a b same) i) t types
        (h types refl).rrsets e

  -- A lookup in a well-formed zone yields an RRset: not empty, and every record of it has the name and
  -- the type that were asked for.
  pub lookup-IsRrset :
      (z : Zone Name) (n : Name) (t : RecordType) {rs : List (Record Name)}
      → IsWellFormed z
      → lookup z n t ≡ some rs
      → IsRrset n t rs
  unfolding lookup
  lookup-IsRrset z n t h e =
      types_lookup-IsRrset n t (get n z.records)
        (λ types found.
          get-Entries IsTypes (λ a b v same i. IsTypes-cong a b v same i) n z.records h.types found)
        e
