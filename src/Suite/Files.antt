-- ===== src/Suite/Files.antt =====
-- The unit tests of src/zone.rs on parse_zone_file. A test writes its lines to a file, loads it, and
-- looks at the zone.
pub mod Records
pub mod Secure
pub mod Soa
use Prim.Native.String.{String}
use lrmdns.Prelude.{
  ℕ, zero, suc, Bool, true, false, Option, none, some, List, [], ◌∷◌, map, length, ◌==◌, ◌&&◌,
}
use lrmdns.Prelude.Int.{ℤ, pos, negsuc}
use lrmdns.Prelude.Result.{ok, err}
use lrmdns.Dns.Rr.{Record, RData}
use lrmdns.Zone.{Zone}
use lrmdns.Zone.Text.{Text}
use lrmdns.Zone.Text.Lines.{unlines}
use lrmdns.Zone.File.Load.{parse_zone_file}
use lrmdns.Suite.Names.{codes, Labels, dns_names}
use lrmdns.Suite.Readers.{readers}

-- `writeln!` of each line
abbrev pub file : List String → Text
file ls = unlines (map codes ls)

-- the assertions on the zone that the file yields; `unwrap` fails the test without one
abbrev pub after_loading : Text → String → (Zone Labels → Bool) → Bool
after_loading content origin_name check =
    elim (parse_zone_file readers (some content) (codes origin_name)) [
      | ok z ↦ check z
      | err e ↦ false
    ]

-- `result.is_err()`
abbrev pub is_refused : Text → String → Bool
is_refused content origin_name = elim (parse_zone_file readers (some content) (codes origin_name)) [
  | ok z ↦ false
  | err e ↦ true
]

-- the records are there, this many
abbrev pub has : ℕ → Option (List (Record Labels)) → Bool
has n none = false
has n (some rs) = length rs == n

abbrev pub is_missing : Option (List (Record Labels)) → Bool
is_missing none = true
is_missing (some rs) = false

abbrev is_dnssec : Option (RData Labels) → Bool
is_dnssec (some (RData.dnskey d)) = true
is_dnssec (some (RData.sig d)) = true
is_dnssec (some (RData.nsec d)) = true
is_dnssec (some (RData.ds d)) = true
is_dnssec none = true
is_dnssec _ = false

-- `matches!(rdata, RData::DNSSEC(_))` on the first record
abbrev pub first_is_dnssec : Option (List (Record Labels)) → Bool
first_is_dnssec (some (r ∷ rs)) = is_dnssec r.rdata
first_is_dnssec _ = false

abbrev pub is_pos : ℤ → ℕ → Bool
is_pos (pos m) n = m == n
is_pos (negsuc m) n = false

abbrev pub repeated : ℕ → ℕ → Text
repeated zero c = []
repeated (suc n) c = c ∷ repeated n c

abbrev pub all_true : List Bool → Bool
all_true [] = true
all_true (b ∷ bs) = b && all_true bs
