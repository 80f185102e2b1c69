-- ===== src/Zone/Store/Order.antt =====
-- The choice of a zone does not depend on the order of the map.
use mathlib.Core.List.{Memᴰ}
use mathlib.Core.Path.{subst}
use lrmdns.Prelude.{
  ℕ, ◌≤◌, ◌≡◌, refl, sym, ◌∙◌, ap, true, Option, none, some, arith, All-mem, All-of_mem,
  Option-cases, inl, inr,
}
use lrmdns.HashMap.{◌==ₖ◌, get, values}
use lrmdns.HashMap.Laws.{get-cong}
use lrmdns.HashMap.Distinct.{values-get, get-values}
use lrmdns.Dns.Name.{DnsApi, name_key}
use lrmdns.Zone.{Zone}
use lrmdns.Zone.Same.{Both, SameZone}
use lrmdns.Zone.Store.{ZoneStore, find_zone}
use lrmdns.Zone.Store.Best.{Covers, AtMost, IsLongest, find_zone-IsLongest, find_zone-none}
use lrmdns.Zone.Store.Valid.{HasValidZones}

module _ {Name : Type 0} ⦃api : DnsApi Name⦄ where
  -- The stores have the same zones under the same keys, in whatever order.
  abbrev pub SameStore : ZoneStore Name → ZoneStore Name → Type 0
  SameStore s s' = (n : Name) → Both SameZone (get n s.zones) (get n s'.zones)

  -- Of the origins in the store above one name, no two have as many labels.
  abbrev pub HasNoTies : ZoneStore Name → Type 0
  HasNoTies s =
      (n : Name) (z y : Zone Name)
      → Memᴰ z (values s.zones)
      → Memᴰ y (values s.zones)
      → Covers n z
      → Covers n y
      → api.num_labels z.origin ≡ api.num_labels y.origin
      → (z.origin ==ₖ y.origin) ≡ true

  SameZone-sym : (z y : Zone Name) → SameZone z y → SameZone y z
  SameZone-sym z y h = record {
    origin = sym h.origin;
    soa = sym h.soa;
    lookups = λ n t. sym (h.lookups n t);
    names = λ n. sym (h.names n);
  }

  Both-sym : (o o' : Option (Zone Name)) → Both SameZone o o' → Both SameZone o' o
  Both-sym none none h = tt
  Both-sym (some z) (some y) h = SameZone-sym z y h
  Both-sym none (some y) h = h
  Both-sym (some z) none h = h

  SameStore-sym : (s s' : ZoneStore Name) → SameStore s s' → SameStore s' s
  SameStore-sym s s' h n = Both-sym (get n s.zones) (get n s'.zones) (h n)

  Both-some :
      (o o' : Option (Zone Name)) {z : Zone Name}
      → Both SameZone o o'
      → o ≡ some z
      → (y : Zone Name) × (o' ≡ some y) × SameZone z y
  Both-some none none h e = cc
  Both-some (some x) (some y) {z} h e =
      let same : x ≡ z = ground arith in (y, refl, subst (λ w. SameZone w y) same h)
  Both-some none (some y) h e = cc
  Both-some (some x) none h e = absurd h

  Both-none : (o o' : Option (Zone Name)) → Both SameZone o o' → o ≡ none → o' ≡ none
  Both-none none none h e = refl
  Both-none (some z) (some y) h e = cc
  Both-none none (some y) h e = absurd h
  Both-none (some z) none h e = cc

  -- a zone of a store is found under its origin
  own-get :
      (s : ZoneStore Name) (z : Zone Name)
      → HasValidZones s
      → Memᴰ z (values s.zones)
      → get z.origin s.zones ≡ some z
  own-get s z v m =
      let (a, p, g) = values-get (λ n y. (n ==ₖ y.origin) ≡ true) s.zones v.distinct v.keyed m in
      sym (get-cong a z.origin s.zones p) ∙ g

  -- its counterpart in the other store
  counterpart :
      (s s' : ZoneStore Name) (z : Zone Name)
      → HasValidZones s
      → SameStore s s'
      → Memᴰ z (values s.zones)
      → (y : Zone Name) × (get z.origin s'.zones ≡ some y) × SameZone z y × Memᴰ y (values s'.zones)
  counterpart s s' z v h m =
      let (y, e, same) =
        Both-some (get z.origin s.zones) (get z.origin s'.zones) (h z.origin) (own-get s z v m) in
      (y, e, same, get-values z.origin s'.zones e)

  AtMost-Same :
      (s s' : ZoneStore Name) (n : Name) (bound : ℕ)
      → HasValidZones s
      → SameStore s s'
      → AtMost n bound (values s'.zones)
      → (z : Zone Name) → Memᴰ z (values s.zones)
      → Covers n z
      → api.num_labels z.origin ≤ bound
  AtMost-Same s s' n bound v h most z m c =
      let (y, _, same, m') = counterpart s s' z v h m in
      let covers : Covers n y = subst (λ o. api.zone_of o n ≡ true) same.origin c in
      let le =
        All-mem (λ (x : Zone Name). Covers n x → api.num_labels x.origin ≤ bound) (values s'.zones)
          most m' covers in
      subst (λ o. api.num_labels o ≤ bound) (sym same.origin) le

  find_zone-none_Same :
      (s s' : ZoneStore Name) (n : Name)
      → HasValidZones s'
      → SameStore s s'
      → find_zone s n ≡ none
      → find_zone s' n ≡ none
  find_zone-none_Same s s' n v' h e =
      let (g, most) = (find_zone-none s n).0 e in
      (find_zone-none s' n).1 (
        Both-none (get n s.zones) (get n s'.zones) (h n) g,
        All-of_mem _ (values s'.zones) (AtMost-Same s' s n 0 v' (SameStore-sym s s' h) most),
      )

  -- what is found under the name itself
  found-own :
      (s : ZoneStore Name) (n : Name) {z y : Zone Name}
      → find_zone s n ≡ some z
      → get n s.zones ≡ some y
      → y ≡ z
  unfolding find_zone
  found-own s n e g = ground arith

  find_zone-IsLongest_inexact :
      (s : ZoneStore Name) (n : Name) {z : Zone Name}
      → find_zone s n ≡ some z
      → get n s.zones ≡ none
      → IsLongest n (values s.zones) z
  find_zone-IsLongest_inexact s n e g = elim (find_zone-IsLongest s n e) [
    | inl found ↦ cc
    | inr (_, l) ↦ l
  ]

  -- two longest zones are the same
  IsLongest-Same :
      (s s' : ZoneStore Name) (n : Name) (z y : Zone Name)
      → HasNoTies s
      → HasValidZones s
      → HasValidZones s'
      → SameStore s s'
      → IsLongest n (values s.zones) z
      → IsLongest n (values s'.zones) y
      → SameZone z y
  IsLongest-Same s s' n z y no_ties v v' h l l' =
      let (x, e, same, m) = counterpart s' s y v' (SameStore-sym s s' h) l'.listed in
      let le = AtMost-Same s s' n _ v h l'.longest z l.listed l.covers in
      let ge = AtMost-Same s' s n _ v' (SameStore-sym s s' h) l.longest y l'.listed l'.covers in
      let covers : Covers n x = subst (λ o. api.zone_of o n ≡ true) same.origin l'.covers in
      let near =
        no_ties n x z m l.listed covers l.covers
          (ap api.num_labels (sym same.origin) ∙ omega (arith, le, ge)) in
      let close : (y.origin ==ₖ z.origin) ≡ true =
        subst (λ o. (o ==ₖ z.origin) ≡ true) (sym same.origin) near in
      let agree = sym e ∙ get-cong y.origin z.origin s.zones close ∙ own-get s z v l.listed in
      let equal : x ≡ z = ground arith in SameZone-sym y z (subst (SameZone y) equal same)

  both_found :
      (s s' : ZoneStore Name) (n : Name) {z y : Zone Name}
      → HasNoTies s
      → HasValidZones s
      → HasValidZones s'
      → SameStore s s'
      → find_zone s n ≡ some z
      → find_zone s' n ≡ some y
      → SameZone z y
  both_found s s' n {z} {y} no_ties v v' h e e' = elim (Option-cases (get n s.zones)) [
    | inl g ↦
        IsLongest-Same s s' n z y no_ties v v' h (find_zone-IsLongest_inexact s n e g)
          (find_zone-IsLongest_inexact s' n e' (Both-none (get n s.zones) (get n s'.zones) (h n) g))
    | inr (x, g) ↦
        let (x', g', same) = Both-some (get n s.zones) (get n s'.zones) (h n) g in
        let p = found-own s n e g in
        let q = found-own s' n e' g' in subst (λ w. SameZone w y) p (subst (SameZone x) q same)
  ]

  -- Of two valid stores with the same zones, in whatever order, the zones found for a name are the
  -- same, or there is none in either.
  pub find_zone-Same :
      (s s' : ZoneStore Name) (n : Name)
      → HasNoTies s
      → HasValidZones s
      → HasValidZones s'
      → SameStore s s'
      → Both SameZone (find_zone s n) (find_zone s' n)
  find_zone-Same s s' n no_ties v v' h = elim (Option-cases (find_zone s n)) [
    | inl e ↦ rw (e, find_zone-none_Same s s' n v' h e) tt
    | inr (z, e) ↦ elim (Option-cases (find_zone s' n)) [
      | inl e' ↦
          let gone = find_zone-none_Same s' s n v (SameStore-sym s s' h) e' in
          absurd (ground (arith, gone, e))
      | inr (y, e') ↦ rw (e, e') (both_found s s' n no_ties v v' h e e')
    ]
  ]
