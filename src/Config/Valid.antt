-- ===== src/Config/Valid.antt =====
-- What a valid configuration is.
use lrmdns.Prelude.{◌≡◌, ◌≢◌, ◌↔◌, Bool, true, List, [], ◌∷◌, arith, All, is_empty}
use lrmdns.Prelude.Result.{ok}
use lrmdns.Zone.Text.{Text}
use lrmdns.Config.{Config, ZoneConfig, validate_zones, validate}

abbrev pub ZoneIsValid : (Text → Bool) → ZoneConfig → Type 0
ZoneIsValid exists z = (z.name ≢ []) × (exists z.file ≡ true)

is_empty_iff : (t : Text) → (is_empty t ≡ true) ↔ (t ≡ [])
is_empty_iff [] = ground arith
is_empty_iff (c ∷ t) = ground arith

validate_zones_iff :
    (exists : Text → Bool) (zs : List ZoneConfig)
    → (validate_zones exists zs ≡ ok tt) ↔ All (ZoneIsValid exists) zs
unfolding validate_zones
validate_zones_iff exists [] = ground arith
validate_zones_iff exists (z ∷ zs) =
    ground (arith, is_empty_iff z.name, validate_zones_iff exists zs)

-- A configuration is accepted exactly if it has a zone, and every zone has a name that is not empty
-- and a file that exists.
pub validate_iff :
    (exists : Text → Bool) (config : Config)
    → (validate exists config ≡ ok tt)
      ↔ ((config.zones ≢ []) × All (ZoneIsValid exists) config.zones)
unfolding validate
validate_iff exists config = ground (arith, validate_zones_iff exists config.zones)
