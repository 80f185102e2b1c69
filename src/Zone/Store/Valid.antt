-- ===== src/Zone/Store/Valid.antt =====
-- A store of well-formed zones.
use mathlib.Core.List.{Memᴰ}
use mathlib.Core.Path.{subst}
use lrmdns.Prelude.{◌≡◌, true, sym, some, [], ◌∷◌, inl, inr}
use lrmdns.HashMap.{◌==ₖ◌, Map, values}
use lrmdns.HashMap.Distinct.{
  Distinct, Entries, insert-Distinct, insert-Entries, insert-KeyedEntries, get-Entries,
}
use lrmdns.Dns.Name.{DnsApi, name_key}
use lrmdns.Zone.{Zone}
use lrmdns.Zone.Valid.{IsWellFormed}
use lrmdns.Zone.Store.{ZoneStore, add_zone, find_zone}
use lrmdns.Zone.Store
use lrmdns.Zone.Store.Best.{find_zone-IsLongest}

module _ {Name : Type 0} ⦃api : DnsApi Name⦄ where
  -- Every zone of the store is well formed and has its key for its origin, and no key is there twice.
  pub record HasValidZones (s : ZoneStore Name) : Type 0 where
    pub zones : Entries (λ n. IsWellFormed) s.zones
    pub keyed : Entries (λ n z. (n ==ₖ z.origin) ≡ true) s.zones
    pub distinct : Distinct s.zones

  pub new-HasValidZones : HasValidZones Store.new
  unfolding Store.new
  new-HasValidZones = record { zones = tt; keyed = tt; distinct = tt }

  pub add_zone-HasValidZones :
      (z : Zone Name) (s : ZoneStore Name)
      → IsWellFormed z
      → HasValidZones s
      → HasValidZones (add_zone z s)
  unfolding add_zone
  add_zone-HasValidZones z s w h = record {
    zones = insert-Entries IsWellFormed z.origin z s.zones w h.zones;
    keyed =
        insert-KeyedEntries (λ n y. (n ==ₖ y.origin) ≡ true) z.origin z s.zones
          (api.key.eq_refl z.origin) (λ n e. e) h.keyed;
    distinct = insert-Distinct z.origin z s.zones h.distinct;
  }

  values-IsWellFormed :
      (m : Map Name (Zone Name)) {z : Zone Name}
      → Entries (λ n. IsWellFormed) m
      → Memᴰ z (values m)
      → IsWellFormed z
  values-IsWellFormed [] h i = elim i [ ]
  values-IsWellFormed ((n, y) ∷ m) h (Memᴰ.head e) = subst IsWellFormed (sym e) h.0
  values-IsWellFormed ((n, y) ∷ m) h (Memᴰ.tail i) = values-IsWellFormed m h.1 i

  pub find_zone-IsWellFormed :
      (s : ZoneStore Name) (n : Name) {z : Zone Name}
      → HasValidZones s
      → find_zone s n ≡ some z
      → IsWellFormed z
  find_zone-IsWellFormed s n {z} h e = elim (find_zone-IsLongest s n e) [
    | inl found ↦ get-Entries (λ n. IsWellFormed) (λ a b y same w. w) n s.zones h.zones found
    | inr (_, longest) ↦ values-IsWellFormed s.zones h.zones longest.listed
  ]
