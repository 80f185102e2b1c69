-- ===== src/Zone.antt =====
-- src/zone.rs: a zone, its records and their lookup. `Zone.Store` is the `ZoneStore`.
pub mod Records
pub mod Wildcard
pub mod Valid
pub mod Axfr
pub mod Same
pub mod Text
pub mod Address
pub mod File
pub mod Store
use lrmdns.Prelude.{
  ℕ, Bool, Option, none, some, List, [], ◌∷◌, ◌++◌, if◌then◌else◌, tail, concat_map, sort,
  option_or,
}
use lrmdns.Prelude.Int.{ℤ}
use lrmdns.HashMap.{◌==ₖ◌, Map, keys, get, contains_key, modify}
use lrmdns.Dns.Name.{DnsApi, name_key, star}
use lrmdns.Dns.Rr.{Bytes, RecordType, rtype_key, Record, RData, SoaData, from_rdata}

pub record SoaRecord (Name : Type 0) : Type 0 where
  pub mname : Name
  pub rname : Name
  pub serial : ℕ  -- u32
  pub refresh : ℤ  -- i32
  pub retry : ℤ  -- i32
  pub expire : ℤ  -- i32
  pub minimum : ℕ  -- u32

-- One RRset for each record type.
abbrev pub TypeMap : Type 0 → Type 0
TypeMap Name = Map RecordType (List (Record Name))

pub record Zone (Name : Type 0) : Type 0 where
  pub origin : Name
  pub soa : SoaRecord Name
  pub records : Map Name (TypeMap Name)

-- Zone::new
unfoldable pub new : {Name : Type 0} → Name → SoaRecord Name → Zone Name
new origin soa = record { origin = origin; soa = soa; records = [] }

-- Zone::get_soa_record
unfoldable pub get_soa_record : {Name : Type 0} → Zone Name → Record Name
unfolding from_rdata
get_soa_record z = from_rdata z.origin z.soa.minimum (
    RData.soa (record {
      mname = z.soa.mname;
      rname = z.soa.rname;
      serial = z.soa.serial;
      refresh = z.soa.refresh;
      retry = z.soa.retry;
      expire = z.soa.expire;
      minimum = z.soa.minimum;
    }))

-- extract_soa_data
unfoldable pub extract_soa_data : {Name : Type 0} → Record Name → Option (SoaRecord Name)
extract_soa_data r = elim r.rdata [
  | some (RData.soa d) ↦ some (record {
    mname = d.mname;
    rname = d.rname;
    serial = d.serial;
    refresh = d.refresh;
    retry = d.retry;
    expire = d.expire;
    minimum = d.minimum;
  })
  | _ ↦ none
]

module _ {Name : Type 0} ⦃api : DnsApi Name⦄ where
  -- `.entry(rtype).or_default().push(record)` on the types of one name
  unfoldable pub push_record : Record Name → TypeMap Name → TypeMap Name
  push_record r types = modify r.rtype [] (λ rs. rs ++ r ∷ []) types

  -- Zone::add_record
  unfoldable pub add_record : Record Name → Zone Name → Zone Name
  unfolding push_record
  add_record r z = record z { records = modify r.name [] (push_record r) z.records }

  abbrev pub types_lookup : RecordType → Option (TypeMap Name) → Option (List (Record Name))
  types_lookup t none = none
  types_lookup t (some types) = get t types

  -- Zone::lookup
  unfoldable pub lookup : Zone Name → Name → RecordType → Option (List (Record Name))
  lookup z n t = types_lookup t (get n z.records)

  -- Zone::contains_name
  unfoldable pub contains_name : Zone Name → Name → Bool
  unfolding contains_key
  contains_name z n = contains_key n z.records

  abbrev pub lookup_name : Zone Name → Option Name → RecordType → Option (List (Record Name))
  lookup_name z none t = none
  lookup_name z (some n) t = lookup z n t

  -- one round of the loop: the wildcard `*.suffix`, if it is a name
  unfoldable pub wildcard_at : Zone Name → RecordType → List Bytes → Option (List (Record Name))
  wildcard_at z t suffix = lookup_name z (api.from_labels (star ∷ suffix)) t

  -- `for skip in 1..labels.len()`, over the suffixes `labels[skip..]` that are left
  unfoldable pub wildcard_loop : Zone Name → RecordType → List Bytes → Option (List (Record Name))
  wildcard_loop z t [] = none
  wildcard_loop z t (l ∷ ls) =
      let rest = wildcard_loop z t ls in
      elim (wildcard_at z t (l ∷ ls)) [ some rs ↦ some rs | none ↦ rest ]

  -- Zone::lookup_wildcard
  unfoldable pub lookup_wildcard : Zone Name → Name → RecordType → Option (List (Record Name))
  lookup_wildcard z n t = wildcard_loop z t (tail (api.labels n))

  -- the records of one type, the SOA records left out
  unfoldable pub records_at : TypeMap Name → RecordType → List (Record Name)
  records_at types t = if t ==ₖ RecordType.soa then [] else option_or (get t types) []

  abbrev pub sorted_records : Option (TypeMap Name) → List (Record Name)
  sorted_records none = []
  sorted_records (some types) = concat_map (records_at types) (sort api.rtype_lt (keys types))

  -- the middle of Zone::get_all_records
  unfoldable pub inner_records : Zone Name → List (Record Name)
  inner_records z =
      concat_map (λ n. sorted_records (get n z.records)) (sort api.lt (keys z.records))

  -- Zone::get_all_records
  unfoldable pub get_all_records : Zone Name → List (Record Name)
  get_all_records z = get_soa_record z ∷ (inner_records z ++ get_soa_record z ∷ [])
