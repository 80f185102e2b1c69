-- ===== src/Zone/File/Print/RoundTrip.antt =====
-- A printed zone file is loaded as the records that were printed.
use lrmdns.Prelude.{
  ℕ, suc, ◌≡◌, refl, ◌∙◌, ap, Bool, true, ◌&&◌, Option, some, none, List, [], ◌∷◌, ◌++◌, arith, All,
  All-imp, map, retain, option_or, Bool-cases, inl, inr,
}
use mathlib.Core.List.{append_assoc}
use lrmdns.Prelude.Result.{ok}
use lrmdns.HashMap.{◌==ₖ◌, get}
use lrmdns.HashMap.Laws.{get-cong}
use lrmdns.Dns.Name.{DnsApi, name_key}
use lrmdns.Dns.Rr.{
  RecordType, rtype_key, Record, RData, SoaData, from_rdata, eq_of_rtype_eq, rtype_eq,
}
use lrmdns.Zone.{Zone, SoaRecord, add_record, lookup, extract_soa_data}
use lrmdns.Zone
use lrmdns.Zone.Records.{lookup-add_record}
use lrmdns.Zone.Text.{Text}
use lrmdns.Zone.Text.Decimal.{decimal, parse_unsigned-decimal}
use lrmdns.Zone.Text.Lines.{IsToken, trim-join, join-IsLine}
use lrmdns.Zone.File.Words.{IsWord, parse_resource_record-line}
use lrmdns.Zone.File.Rdata.{Readers}
use lrmdns.Zone.File.Parse.{parse_owner, parse_resource_record}
use lrmdns.Zone.File.Load.{FileState, add_parsed, parse_line, parse_lines, parse_zone_file}
use lrmdns.Zone.File.Print.{
  soa_entry, Entry, record_of_entry, print_rdata, print_words, print_entry, print_file, IsName,
  IsEntry, some_rrset, rrset_of,
}
use lrmdns.Zone.File.Print.Rdata.{parse_rdata-print}
use lrmdns.Zone.File.Print.Lines.{
  token-IsWord, full_lem, print_words-IsToken, preprocess_zone_content-print,
}

module _ {Name : Type 0} ⦃api : DnsApi Name⦄ where
  module _ (readers : Readers Name) where
    parse_owner-print :
        (origin : Name) (n : ℕ) (name : Name)
        → IsName name
        → parse_owner readers origin n (api.to_text name) ≡ ok name
    unfolding parse_owner
    parse_owner-print origin n name h =
        let (a, w) = full_lem (api.to_text name) h.full in rw (a, w, h.full, h.reads) refl

    parse_resource_record-print :
        (origin : Name) (n : ℕ) (e : Entry Name) (default_ttl : ℕ)
        → IsEntry e
        → parse_resource_record readers origin n (print_entry e) default_ttl
          ≡ ok (some (record_of_entry e))
    parse_resource_record-print origin n e default_ttl h =
        parse_resource_record-line readers origin n (api.to_text e.name) (decimal e.ttl)
          (print_rdata e.rdata).0 (print_rdata e.rdata).1 default_ttl e.ttl
          (All-imp IsToken IsWord (api.to_text e.name ∷ print_words e) token-IsWord
            (print_words-IsToken e h))
          (parse_owner-print origin n e.name h.name)
          (parse_unsigned-decimal 32 e.ttl (omega (arith, h.ttl)) h.ttl)
        ∙ rw (parse_rdata-print readers origin n e.rdata h.rdata) refl

    module _ (origin : Name) where
      -- the state after the records
      abbrev add_entries : List (Entry Name) → FileState Name → FileState Name
      add_entries [] s = s
      add_entries (e ∷ es) s =
          add_entries es (add_parsed readers origin (some (record_of_entry e)) s)

      parse_line-print :
          (n : ℕ) (e : Entry Name) (s : FileState Name)
          → IsEntry e
          → parse_line readers origin n (print_entry e) s
            ≡ ok (add_parsed readers origin (some (record_of_entry e)) s)
      unfolding parse_line
      parse_line-print n e s h =
          let (a, b, d) =
            join-IsLine (api.to_text e.name) (print_words e) (print_words-IsToken e h) in
          rw (a, b, d, parse_resource_record-print s.current_origin n e s.default_ttl h) refl

      parse_lines-print :
          (n : ℕ) (es : List (Entry Name)) (s : FileState Name)
          → All IsEntry es
          → parse_lines readers origin n (map print_entry es) s ≡ ok (add_entries es s)
      unfolding parse_lines
      parse_lines-print n [] s h = refl
      parse_lines-print n (e ∷ es) s h =
          rw
            (
              trim-join (api.to_text e.name) (print_words e) (print_words-IsToken e h.0),
              parse_line-print n e s h.0,
            )
            (parse_lines-print (suc n) es (add_parsed readers origin (some (record_of_entry e)) s)
              h.1)

      -- once there is a zone, the records are added to it
      abbrev add_records : List (Record Name) → Zone Name → Zone Name
      add_records [] z = z
      add_records (r ∷ rs) z = add_records rs (add_record r z)

      add_entries-zone :
          (es : List (Entry Name)) (s : FileState Name) (z : Zone Name)
          → s.zone ≡ some z
          → (add_entries es s).zone ≡ some (add_records (map record_of_entry es) z)
      add_entries-zone [] s z h = h
      add_entries-zone (e ∷ es) s z h =
          add_entries-zone es (add_parsed readers origin (some (record_of_entry e)) s)
            (add_record (record_of_entry e) z) (rw h refl)

      add_records-kept :
          (rs : List (Record Name)) (z : Zone Name)
          → ((add_records rs z).origin ≡ z.origin) × ((add_records rs z).soa ≡ z.soa)
      unfolding add_record
      add_records-kept [] z = (refl, refl)
      add_records-kept (r ∷ rs) z = add_records-kept rs (add_record r z)

      -- `found` with more records at its end, if there are any
      abbrev extend : Option (List (Record Name)) → List (Record Name) → Option (List (Record Name))
      extend found [] = found
      extend found (r ∷ rs) = some (option_or found [] ++ r ∷ rs)

      extend-one :
          (found : Option (List (Record Name))) (r : Record Name) (rs : List (Record Name))
          → extend (some (option_or found [] ++ r ∷ [])) rs ≡ some (option_or found [] ++ r ∷ rs)
      extend-one found r [] = refl
      extend-one found r (x ∷ rs) = ap some (append_assoc (option_or found []) (r ∷ []) (x ∷ rs))

      abbrev matches : Name → RecordType → Record Name → Bool
      matches n t r = (r.name ==ₖ n) && (r.rtype ==ₖ t)

      lookup-matching :
          (z : Zone Name) (n : Name) (t : RecordType) (r : Record Name)
          → matches n t r ≡ true
          → lookup z r.name r.rtype ≡ lookup z n t
      unfolding lookup
      lookup-matching z n t r h =
          let same : (r.name ==ₖ n) ≡ true = ground arith in
          let kind : r.rtype ≡ t = eq_of_rtype_eq r.rtype t (ground arith) in
          rw (kind, get-cong r.name n z.records same) refl

      lookup-add_records :
          (rs : List (Record Name)) (z : Zone Name) (n : Name) (t : RecordType)
          → lookup (add_records rs z) n t ≡ extend (lookup z n t) (retain (matches n t) rs)
      lookup-add_records [] z n t = refl
      lookup-add_records (r ∷ rs) z n t = elim (Bool-cases (matches n t r)) [
        | inl b ↦
            lookup-add_records rs (add_record r z) n t
            ∙ rw (lookup-add_record r z n t, b, lookup-matching z n t r b)
                (extend-one (lookup z n t) r (retain (matches n t) rs))
        | inr b ↦
            lookup-add_records rs (add_record r z) n t ∙ rw (lookup-add_record r z n t, b) refl
      ]

  -- the data of a zone with this SOA record
  abbrev pub soa_record_of : SoaData Name → SoaRecord Name
  soa_record_of d = record {
    mname = d.mname;
    rname = d.rname;
    serial = d.serial;
    refresh = d.refresh;
    retry = d.retry;
    expire = d.expire;
    minimum = d.minimum;
  }

  -- The zone has the origin, the SOA data and, under each name and type, these records in order.
  pub record Holds (n₀ : Name) (d : SoaData Name) (rs : List (Record Name)) (z : Zone Name)
      : Type 0 where
    pub origin : z.origin ≡ n₀
    pub soa : z.soa ≡ soa_record_of d
    pub lookups : (n : Name) (t : RecordType) → lookup z n t ≡ rrset_of n t rs

  lookup-new :
      (origin : Name) (soa : SoaRecord Name) (n : Name) (t : RecordType)
      → lookup (Zone.new origin soa) n t ≡ none
  unfolding lookup Zone.new get
  lookup-new origin soa n t = refl

  extend-none :
      (readers : Readers Name) (origin : Name) (rs : List (Record Name))
      → extend readers origin none rs ≡ some_rrset rs
  extend-none readers origin [] = refl
  extend-none readers origin (r ∷ rs) = refl

  add_records-Holds :
      (readers : Readers Name) (origin : Name) (d : SoaData Name) (rs : List (Record Name))
      → Holds origin d rs (add_records readers origin rs (Zone.new origin (soa_record_of d)))
  unfolding Zone.new
  add_records-Holds readers origin d rs =
      let z = Zone.new origin (soa_record_of d) in
      let (o, s) = add_records-kept readers origin rs z in
      record {
        origin = o;
        soa = s;
        lookups = λ n t.
            lookup-add_records readers origin rs z n t
            ∙ ap (λ found. extend readers origin found (retain (matches readers origin n t) rs))
                (lookup-new origin (soa_record_of d) n t)
            ∙ extend-none readers origin (retain (matches readers origin n t) rs);
      }

  first_zone :
      (readers : Readers Name) (origin name : Name) (ttl : ℕ) (d : SoaData Name)
      (s : FileState Name)
      → s.zone ≡ none
      → let r = from_rdata name ttl (RData.soa d) in
        (add_parsed readers origin (some r) s).zone
        ≡ some (add_record r (Zone.new origin (soa_record_of d)))
  unfolding from_rdata extract_soa_data rtype_eq
  first_zone readers origin name ttl d s h = rw h refl

  -- A zone file that is printed in the plain style, a SOA record first, is loaded as exactly its
  -- records: the zone has the origin that the configuration names and the data of that SOA record,
  -- and under each name and type it has the printed records, in their order.
  pub parse_zone_file-print :
      (readers : Readers Name) (origin_name : Text) (origin name : Name) (ttl : ℕ)
      (d : SoaData Name) (es : List (Entry Name))
      → api.from_str origin_name ≡ some origin
      → All IsEntry (soa_entry name ttl d ∷ es)
      → (z : Zone Name) × (parse_zone_file readers
            (some (print_file (soa_entry name ttl d ∷ es)))
            origin_name
          ≡ ok z)
        × Holds origin d (map record_of_entry (soa_entry name ttl d ∷ es)) z
  unfolding parse_zone_file
  parse_zone_file-print readers origin_name origin name ttl d es o h =
      let first = soa_entry name ttl d in
      let start : FileState Name = record {
        zone = none;
        default_ttl = 3600;
        current_origin = origin;
      } in
      let parsed =
        ap (λ ls. parse_lines readers origin 0 ls start)
          (preprocess_zone_content-print (first ∷ es) h)
        ∙ parse_lines-print readers origin 0 (first ∷ es) start h in
      let made =
        add_entries-zone readers origin es
          (add_parsed readers origin (some (record_of_entry first)) start) _
          (first_zone readers origin name ttl d start refl) in
      (
        _,
        rw (o, parsed, made) refl,
        add_records-Holds readers origin d (map record_of_entry (first ∷ es)),
      )
