-- ===== src/Zone/Store.antt =====
-- src/zone.rs: ZoneStore, the zones by origin, and the choice of a zone for a name.
pub mod Best
pub mod Valid
pub mod Order
pub mod Publish
use lrmdns.Prelude.{ℕ, Option, none, some, List, [], ◌∷◌, ◌&&◌, if◌then◌else◌, ltb}
use lrmdns.HashMap.{Map, get, insert, values}
use lrmdns.Dns.Name.{DnsApi, name_key}
use lrmdns.Zone.{Zone}

pub record ZoneStore (Name : Type 0) : Type 0 where
  pub zones : Map Name (Zone Name)

-- ZoneStore::new
unfoldable pub new : {Name : Type 0} → ZoneStore Name
new = record { zones = [] }

module _ {Name : Type 0} ⦃api : DnsApi Name⦄ where
  -- ZoneStore::add_zone
  unfoldable pub add_zone : Zone Name → ZoneStore Name → ZoneStore Name
  add_zone z s = record { zones = insert z.origin z s.zones }

  -- one round of the loop: the best match so far, and its number of labels
  unfoldable pub best_step : Name → Zone Name → Option (Zone Name) × ℕ → Option (Zone Name) × ℕ
  best_step n z (best, labels) =
      if api.zone_of z.origin n && ltb labels (api.num_labels z.origin)
      then (some z, api.num_labels z.origin)
      else (best, labels)

  unfoldable pub best_loop :
      Name → List (Zone Name) → Option (Zone Name) × ℕ → Option (Zone Name) × ℕ
  best_loop n [] acc = acc
  best_loop n (z ∷ zs) acc = best_loop n zs (best_step n z acc)

  abbrev pub or_best : Option (Zone Name) → Option (Zone Name) → Option (Zone Name)
  or_best (some z) best = some z
  or_best none best = best

  -- ZoneStore::find_zone
  unfoldable pub find_zone : ZoneStore Name → Name → Option (Zone Name)
  find_zone s n = or_best (get n s.zones) (best_loop n (values s.zones) (none, 0)).0
