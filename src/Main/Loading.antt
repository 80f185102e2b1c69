-- ===== src/Main/Loading.antt =====
-- Each zone that is loaded is served, and well formed.
pub mod Order
use mathlib.Core.List.{Memᴰ}
use mathlib.Core.Path.{subst}
use lrmdns.Prelude.{◌≡◌, ◌∙◌, ap, true, some, List, [], ◌∷◌, arith, Bool-cases, inl, inr}
use lrmdns.Prelude.Result.{ok, bind-eq-ok}
use lrmdns.HashMap.{◌==ₖ◌, get}
use lrmdns.HashMap.Laws.{get-insert}
use lrmdns.Dns.Name.{DnsApi, name_key}
use lrmdns.Zone.{Zone}
use lrmdns.Zone.Store.{ZoneStore, add_zone, find_zone}
use lrmdns.Zone.Store
use lrmdns.Zone.Store.Valid.{HasValidZones, new-HasValidZones, add_zone-HasValidZones}
use lrmdns.Zone.File.Rdata.{Readers}
use lrmdns.Zone.File.Load.{parse_zone_file}
use lrmdns.Zone.File.Built.{parse_zone_file-IsWellFormed}
use lrmdns.Config.{ZoneConfig}
use lrmdns.Main.{Files, load_into, load_zones}

module _ {Name : Type 0} ⦃api : DnsApi Name⦄ where
  -- The name is the origin of a zone that the store finds for it.
  pub record Serves (s : ZoneStore Name) (n : Name) : Type 0 where
    pub zone : Zone Name
    pub found : find_zone s n ≡ some zone
    pub origin : (zone.origin ==ₖ n) ≡ true

  -- a store that has a zone of this very origin
  record Has (s : ZoneStore Name) (n : Name) : Type 0 where
    zone : Zone Name
    entry : get n s.zones ≡ some zone
    origin : (zone.origin ==ₖ n) ≡ true

  add_zone-Has : (z : Zone Name) (s : ZoneStore Name) (n : Name) → Has s n → Has (add_zone z s) n
  unfolding add_zone
  add_zone-Has z s n h = elim (Bool-cases (z.origin ==ₖ n)) [
    | inl y ↦ record {
      zone = z;
      entry = ground (arith, get-insert z.origin n z s.zones);
      origin = y;
    }
    | inr f ↦ record {
      zone = h.zone;
      entry = ground (arith, get-insert z.origin n z s.zones, h.entry);
      origin = h.origin;
    }
  ]

  Has-own : (z : Zone Name) (s : ZoneStore Name) → Has (add_zone z s) z.origin
  unfolding add_zone
  Has-own z s = record {
    zone = z;
    entry = ground (arith, get-insert z.origin z.origin z s.zones, api.key.eq_refl z.origin);
    origin = api.key.eq_refl z.origin;
  }

  Serves-Has : (s : ZoneStore Name) (n : Name) → Has s n → Serves s n
  unfolding find_zone
  Serves-Has s n h = record { zone = h.zone; found = ground (arith, h.entry); origin = h.origin }

  module _ (readers : Readers Name) (files : Files) where
    load_into-Has :
        (cs : List ZoneConfig) (s : ZoneStore Name) {s' : ZoneStore Name} (n : Name)
        → load_into readers files cs s ≡ ok s'
        → Has s n
        → Has s' n
    unfolding load_into
    load_into-Has [] s {s'} n e h = let same : s ≡ s' = ground arith in subst (λ x. Has x n) same h
    load_into-Has (c ∷ cs) s n e h =
        let (z, p, e') = bind-eq-ok (parse_zone_file readers (files c.file) c.name) _ e in
        load_into-Has cs (add_zone z s) n e' (add_zone-Has z s n h)

    load_into-serves :
        (cs : List ZoneConfig) (s : ZoneStore Name) {s' : ZoneStore Name} (c : ZoneConfig)
        → load_into readers files cs s ≡ ok s'
        → Memᴰ c cs
        → (n : Name) × (api.from_str c.name ≡ some n) × Has s' n
    unfolding load_into
    load_into-serves [] s c e m = elim m [ ]
    load_into-serves (d ∷ cs) s c e (Memᴰ.head q) =
        let (z, p, e') = bind-eq-ok (parse_zone_file readers (files d.file) d.name) _ e in
        (
          z.origin,
          ap (λ x. api.from_str x.name) q
              ∙ (parse_zone_file-IsWellFormed readers (files d.file) d.name p).0,
          load_into-Has cs (add_zone z s) z.origin e' (Has-own z s),
        )
    load_into-serves (d ∷ cs) s c e (Memᴰ.tail m) =
        let (z, p, e') = bind-eq-ok (parse_zone_file readers (files d.file) d.name) _ e in
        load_into-serves cs (add_zone z s) c e' m

    -- Where the zones of a configuration load, each of them is served: its name is a domain name, and
    -- the zone that the store finds for it has that name for its origin.
    pub load_zones-Serves :
        (cs : List ZoneConfig) {s : ZoneStore Name} (c : ZoneConfig)
        → load_zones readers files cs ≡ ok s
        → Memᴰ c cs
        → (n : Name) × (api.from_str c.name ≡ some n) × Serves s n
    unfolding load_zones
    load_zones-Serves cs {s} c e m =
        let (n, p, h) = load_into-serves cs Store.new c e m in (n, p, Serves-Has s n h)

module _ {Name : Type 0} ⦃api : DnsApi Name⦄ (readers : Readers Name) where
  load_into-HasValidZones :
      (files : Files) (cs : List ZoneConfig) (s : ZoneStore Name) {s' : ZoneStore Name}
      → load_into readers files cs s ≡ ok s'
      → HasValidZones s
      → HasValidZones s'
  unfolding load_into
  load_into-HasValidZones files [] s {s'} e h =
      let same : s ≡ s' = ground arith in subst HasValidZones same h
  load_into-HasValidZones files (c ∷ cs) s e h =
      let (z, p, e') = bind-eq-ok (parse_zone_file readers (files c.file) c.name) _ e in
      let well_formed = (parse_zone_file-IsWellFormed readers (files c.file) c.name p).1 in
      load_into-HasValidZones files cs (add_zone z s) e' (add_zone-HasValidZones z s well_formed h)

  -- the store of a load of the configuration that succeeded, at some time
  abbrev pub IsLoad : List ZoneConfig → ZoneStore Name → Type 0
  IsLoad cs s = (files : Files) × (load_zones readers files cs ≡ ok s)

  pub IsLoad-HasValidZones :
      (cs : List ZoneConfig) (s : ZoneStore Name) → IsLoad cs s → HasValidZones s
  unfolding load_zones
  IsLoad-HasValidZones cs s (files, e) =
      load_into-HasValidZones files cs Store.new e new-HasValidZones

  -- The store was loaded from the configuration as the files were at one of the times.
  abbrev pub IsReadIn : List ZoneConfig → List Files → ZoneStore Name → Type 0
  IsReadIn cs times s = (files : Files) × Memᴰ files times × (load_zones readers files cs ≡ ok s)

  pub IsReadIn-more :
      (cs : List ZoneConfig) (files : Files) (times : List Files) (s : ZoneStore Name)
      → IsReadIn cs times s
      → IsReadIn cs (files ∷ times) s
  IsReadIn-more cs files times s (f, m, e) = (f, Memᴰ.tail m, e)

  pub IsReadIn-HasValidZones :
      (cs : List ZoneConfig) (times : List Files) (s : ZoneStore Name)
      → IsReadIn cs times s
      → HasValidZones s
  IsReadIn-HasValidZones cs times s (files, m, e) = IsLoad-HasValidZones cs s (files, e)
