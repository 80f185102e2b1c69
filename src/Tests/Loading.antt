-- ===== src/Tests/Loading.antt =====
-- A configuration of two zones, and its zones in the other order.
use mathlib.Core.List.{Memᴰ, Permᴰ}
use mathlib.Core.Option.{some-injective}
use mathlib.Core.Path.{subst₂}
use lrmdns.Prelude.{◌≡◌, refl, sym, ◌∙◌, false, some, [], ◌∷◌, inl, inr}
use lrmdns.Prelude.Int.{pos}
use lrmdns.Prelude.Result.{ok}
use lrmdns.Dns.Rr.{Bytes, RecordType, from_rdata, rtype_eq}
use lrmdns.Dnssec.{bytes_eq}
use lrmdns.Zone.{Zone, SoaRecord, add_record, get_soa_record, extract_soa_data}
use lrmdns.Zone
use lrmdns.Zone.Store.{ZoneStore, add_zone}
use lrmdns.Zone.Store
use lrmdns.Zone.Text.{lines, before, trim, words, parse_unsigned, parse_i32}
use lrmdns.Zone.File.{preprocess_zone_content, add_lines, add_line, clean, strip_comment}
use lrmdns.Zone.File.Rdata.{parse_domain_name, parse_soa}
use lrmdns.Zone.File.Parse.{parse_resource_record, parse_owner}
use lrmdns.Zone.File.Load.{parse_zone_file, parse_lines, parse_line}
use lrmdns.Config.{ZoneConfig}
use lrmdns.Protocol.{process_query}
use lrmdns.Main.{Files, load_into, load_zones}
use lrmdns.Main.Loading.Order.{DifferInName, NamesOnce, load_zones-order}
use lrmdns.Tests.Samples.{names, origin, www, asking}
use lrmdns.Tests.Parsing.{readers, soa_file}
use lrmdns.Tests.Ordering.{store-HasNoTies}

abbrev files : Files
files path = some soa_file

abbrev soa_at : Bytes → SoaRecord Bytes
soa_at o = record {
  mname = b'n' ∷ b'.' ∷ o;
  rname = b'h' ∷ b'.' ∷ o;
  serial = 1;
  refresh = pos 2;
  retry = pos 3;
  expire = pos 4;
  minimum = 5;
}

-- the zone that the file yields under a name
abbrev zone_at : Bytes → Zone Bytes
zone_at o =
    add_record (record (get_soa_record (Zone.new o (soa_at o))) { ttl = 60 })
      (Zone.new o (soa_at o))

abbrev outer : ZoneConfig
outer = record { name = origin; file = [] }

abbrev inner : ZoneConfig
inner = record { name = www; file = [] }

abbrev both : ZoneStore Bytes
both = add_zone (zone_at www) (add_zone (zone_at origin) Store.new)

load_zones-both : load_zones readers files (outer ∷ inner ∷ []) ≡ ok both
unfolding load_zones load_into parse_zone_file preprocess_zone_content add_lines add_line lines
    clean strip_comment before trim parse_lines parse_line parse_resource_record parse_owner words
    parse_unsigned parse_i32 parse_soa parse_domain_name from_rdata extract_soa_data rtype_eq
    get_soa_record Zone.new
load_zones-both = refl

-- names with different texts
apart : (c d : ZoneConfig) → bytes_eq c.name d.name ≡ false → DifferInName names c d
apart c d h n m p q =
    subst₂ (λ x y. bytes_eq x y ≡ false) (some-injective _ _ p) (some-injective _ _ q) h

both-NamesOnce : NamesOnce names (outer ∷ inner ∷ [])
both-NamesOnce c d (Memᴰ.head e) (Memᴰ.head f) = inl (e ∙ sym f)
both-NamesOnce c d (Memᴰ.head e) (Memᴰ.tail (Memᴰ.head f)) = inr (apart c d (rw (e, f) refl))
both-NamesOnce c d (Memᴰ.head e) (Memᴰ.tail (Memᴰ.tail m)) = elim m [ ]
both-NamesOnce c d (Memᴰ.tail (Memᴰ.head e)) (Memᴰ.head f) = inr (apart c d (rw (e, f) refl))
both-NamesOnce c d (Memᴰ.tail (Memᴰ.head e)) (Memᴰ.tail (Memᴰ.head f)) = inl (e ∙ sym f)
both-NamesOnce c d (Memᴰ.tail (Memᴰ.head e)) (Memᴰ.tail (Memᴰ.tail m)) = elim m [ ]
both-NamesOnce c d (Memᴰ.tail (Memᴰ.tail m)) _ = elim m [ ]

load_zones-order_example :
    (u : ZoneStore Bytes) × (load_zones readers files (inner ∷ outer ∷ []) ≡ ok u)
    × (process_query both (asking www RecordType.soa) ≡ process_query u (asking www RecordType.soa))
load_zones-order_example =
    load_zones-order readers files (asking www RecordType.soa) (Permᴰ.swap refl refl) both-NamesOnce
      load_zones-both (store-HasNoTies both)
