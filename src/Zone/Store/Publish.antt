-- ===== src/Zone/Store/Publish.antt =====
-- Zones published in a store one after the other: what is published under the names does not
-- depend on the order, where the origins differ.
use lrmdns.Prelude.{
  ◌≡◌, refl, ◌∙◌, Bool, true, false, Option, none, some, arith, Bool-cases, inl, inr, if◌then◌else◌,
}
use lrmdns.HashMap.{◌==ₖ◌, get}
use lrmdns.HashMap.Laws.{get-insert}
use lrmdns.Dns.Name.{DnsApi, name_key}
use lrmdns.Zone.{Zone}
use lrmdns.Zone.Same.{Both, SameZone}
use lrmdns.Zone.Store.{ZoneStore, add_zone}
use lrmdns.Zone.Store.Order.{SameStore}

module _ {Name : Type 0} ⦃api : DnsApi Name⦄ where
  pub SameZone-refl : (z : Zone Name) → SameZone z z
  SameZone-refl z = record { origin = refl; soa = refl; lookups = λ n t. refl; names = λ n. refl }

  SameZone-trans : (x y z : Zone Name) → SameZone x y → SameZone y z → SameZone x z
  SameZone-trans x y z h i = record {
    origin = h.origin ∙ i.origin;
    soa = h.soa ∙ i.soa;
    lookups = λ n t. h.lookups n t ∙ i.lookups n t;
    names = λ n. h.names n ∙ i.names n;
  }

  Both-refl : (o : Option (Zone Name)) → Both SameZone o o
  Both-refl none = tt
  Both-refl (some z) = SameZone-refl z

  Both-trans :
      (o p q : Option (Zone Name)) → Both SameZone o p → Both SameZone p q → Both SameZone o q
  Both-trans none none q h i = i
  Both-trans (some x) (some y) (some z) h i = SameZone-trans x y z h i
  Both-trans none (some y) q h i = absurd h
  Both-trans (some x) none q h i = absurd h
  Both-trans (some x) (some y) none h i = absurd i

  Both-if :
      (b : Bool) (z : Zone Name) (o p : Option (Zone Name))
      → Both SameZone o p
      → Both SameZone (if b then some z else o) (if b then some z else p)
  Both-if true z o p h = SameZone-refl z
  Both-if false z o p h = h

  -- what a store has under a name once a zone is added
  pub get-add_zone :
      (z : Zone Name) (s : ZoneStore Name) (n : Name)
      → get n (add_zone z s).zones ≡ (if z.origin ==ₖ n then some z else get n s.zones)
  unfolding add_zone
  get-add_zone z s n = get-insert z.origin n z s.zones

  pub SameStore-refl : (s : ZoneStore Name) → SameStore s s
  SameStore-refl s n = Both-refl (get n s.zones)

  pub SameStore-trans : (s t u : ZoneStore Name) → SameStore s t → SameStore t u → SameStore s u
  SameStore-trans s t u h i n =
      Both-trans (get n s.zones) (get n t.zones) (get n u.zones) (h n) (i n)

  pub add_zone-Same :
      (z : Zone Name) (s t : ZoneStore Name)
      → SameStore s t
      → SameStore (add_zone z s) (add_zone z t)
  add_zone-Same z s t h n =
      rw (get-add_zone z s n, get-add_zone z t n)
        (Both-if (z.origin ==ₖ n) z (get n s.zones) (get n t.zones) (h n))

  apart : (a b n : Name) → (a ==ₖ b) ≡ false → (a ==ₖ n) ≡ true → (b ==ₖ n) ≡ true → ⊥
  apart a b n d h i = absurd (ground (arith, api.key.eq_trans a n b h (api.key.eq_sym b n i), d))

  pub add_zone-swap :
      (z y : Zone Name) (s : ZoneStore Name)
      → (z.origin ==ₖ y.origin) ≡ false
      → SameStore (add_zone z (add_zone y s)) (add_zone y (add_zone z s))
  add_zone-swap z y s d n = elim (Bool-cases (z.origin ==ₖ n)) [
    | inl h ↦ elim (Bool-cases (y.origin ==ₖ n)) [
      | inl i ↦ absurd (apart z.origin y.origin n d h i)
      | inr i ↦
          rw
            (
              get-add_zone z (add_zone y s) n,
              get-add_zone y (add_zone z s) n,
              get-add_zone z s n,
              h,
              i,
            )
            (SameZone-refl z)
    ]
    | inr h ↦
        rw
          (
            get-add_zone z (add_zone y s) n,
            get-add_zone y (add_zone z s) n,
            get-add_zone y s n,
            get-add_zone z s n,
            h,
          )
          (Both-refl (if y.origin ==ₖ n then some y else get n s.zones))
  ]
