-- ===== src/Zone/Same.antt =====
-- Zones that differ at most in the order of their maps: what a zone answers does not depend on it.
use lrmdns.Prelude.{◌≡◌, refl, Option, none, some, List, [], ◌∷◌, tail, arith}
use lrmdns.Dns.Name.{DnsApi, name_key, star}
use lrmdns.Dns.Rr.{Bytes, RecordType}
use lrmdns.Zone.{
  Zone, lookup, lookup_name, contains_name, lookup_wildcard, wildcard_loop, wildcard_at,
  get_soa_record,
}

-- both are there and related, or neither is
abbrev pub Both {ℓ} : {A : Type ℓ} → (A → A → Type 0) → Option A → Option A → Type 0
Both R none none = Unit
Both R (some a) (some b) = R a b
Both R none (some b) = ⊥
Both R (some a) none = ⊥

module _ {Name : Type 0} ⦃api : DnsApi Name⦄ where
  -- The same origin, the same SOA data, the same names, and under each name and type the same
  -- records in the same order.
  pub record SameZone (z y : Zone Name) : Type 0 where
    pub origin : z.origin ≡ y.origin
    pub soa : z.soa ≡ y.soa
    pub lookups : (n : Name) (t : RecordType) → lookup z n t ≡ lookup y n t
    pub names : (n : Name) → contains_name z n ≡ contains_name y n

  module _ {z y : Zone Name} (same : SameZone z y) where
    pub get_soa_record-Same : get_soa_record z ≡ get_soa_record y
    unfolding get_soa_record
    get_soa_record-Same = rw (same.origin, same.soa) refl

    lookup_name-Same : (n : Option Name) (t : RecordType) → lookup_name z n t ≡ lookup_name y n t
    lookup_name-Same none t = refl
    lookup_name-Same (some n) t = same.lookups n t

    wildcard_at-Same :
        (t : RecordType) (suffix : List Bytes) → wildcard_at z t suffix ≡ wildcard_at y t suffix
    unfolding wildcard_at
    wildcard_at-Same t suffix = lookup_name-Same (api.from_labels (star ∷ suffix)) t

    wildcard_loop-Same :
        (t : RecordType) (ls : List Bytes) → wildcard_loop z t ls ≡ wildcard_loop y t ls
    unfolding wildcard_loop
    wildcard_loop-Same t [] = refl
    wildcard_loop-Same t (l ∷ ls) =
        ground (arith, wildcard_at-Same t (l ∷ ls), wildcard_loop-Same t ls)

    pub lookup_wildcard-Same :
        (n : Name) (t : RecordType) → lookup_wildcard z n t ≡ lookup_wildcard y n t
    unfolding lookup_wildcard
    lookup_wildcard-Same n t = wildcard_loop-Same t (tail (api.labels n))
