-- ===== src/Zone/File/Built.antt =====
-- The zone that a file yields: what `Zone::new` gives and `add_record` keeps.
use lrmdns.Prelude.{
  if_keeps, ℕ, suc, ◌≡◌, refl, sym, ◌∙◌, ap, Option, none, some, List, [], ◌∷◌, arith, Option-cases,
  inl, inr, is_empty, ◌||◌,
}
use lrmdns.Prelude.Result.{Result, ok, err, ◌>>=◌, bind-eq-ok}
use lrmdns.Dns.Name.{DnsApi}
use lrmdns.Dns.Rr.{RecordType, rtype_key, Record}
use lrmdns.Zone.{Zone, SoaRecord, add_record, extract_soa_data}
use lrmdns.Zone.Valid.{IsWellFormed, new-IsWellFormed, add_record-IsWellFormed}
use lrmdns.Zone
use mathlib.Core.Path.{subst}
use lrmdns.HashMap.{◌==ₖ◌}
use lrmdns.Zone.Text.{Text, trim, parse_unsigned, starts_with, words}
use lrmdns.Zone.File.{preprocess_zone_content}
use lrmdns.Zone.File.Rdata.{Readers, ParseError}
use lrmdns.Zone.File.Parse.{parse_resource_record}
use lrmdns.Zone.File.Load.{
  FileState, set_origin, set_ttl, directive, zone_for, add_to, add_parsed, parse_line, parse_lines,
  parse_zone_file, valid_origin, second, origin_directive_text, ttl_directive_text, zone_or_error,
  zone_of_soa,
}

module _ {Name : Type 0} ⦃api : DnsApi Name⦄ (readers : Readers Name) (origin : Name)
    (P : Zone Name → Type 0) (new-P : (soa : SoaRecord Name) → P (Zone.new origin soa))
    (add-P : (r : Record Name) (z : Zone Name) → P z → P (add_record r z)) where
  -- the zone satisfies the predicate, if there is one
  abbrev Holds : Option (Zone Name) → Type 0
  Holds none = Unit
  Holds (some z) = P z

  zone_of_soa-Holds : (soa : Option (SoaRecord Name)) → Holds (zone_of_soa readers origin soa)
  zone_of_soa-Holds none = tt
  zone_of_soa-Holds (some soa) = new-P soa

  zone_for-Holds :
      (r : Record Name) (z : Option (Zone Name)) → Holds z → Holds (zone_for readers origin r z)
  zone_for-Holds r (some z) h = h
  zone_for-Holds r none h =
      if_keeps Holds (r.rtype ==ₖ RecordType.soa) (zone_of_soa-Holds (extract_soa_data r)) tt

  add_to-Holds :
      (r : Record Name) (z : Option (Zone Name)) → Holds z → Holds (add_to readers origin r z)
  add_to-Holds r none h = h
  add_to-Holds r (some z) h = add-P r z h

  -- if there is a state after, its zone satisfies the predicate
  abbrev OkHas : Result ParseError (FileState Name) → Type 0
  OkHas (ok s) = Holds s.zone
  OkHas (err e) = Unit

  bind-OkHas :
      (m : Result ParseError (FileState Name))
      (f : FileState Name → Result ParseError (FileState Name))
      → OkHas m
      → ((s : FileState Name) → Holds s.zone → OkHas (f s))
      → OkHas (m >>= f)
  bind-OkHas (ok s) f h k = k s h
  bind-OkHas (err e) f h k = tt

  set_origin-OkHas :
      (n : ℕ) (part : Option Text) (s : FileState Name)
      → Holds s.zone
      → OkHas (set_origin readers origin n part s)
  set_origin-OkHas n none s h = h
  set_origin-OkHas n (some part) s h = elim (Option-cases (api.from_str part)) [
    | inl e ↦ rw e tt
    | inr (x, e) ↦ rw e h
  ]

  set_ttl-OkHas :
      (n : ℕ) (part : Option Text) (s : FileState Name)
      → Holds s.zone
      → OkHas (set_ttl readers origin n part s)
  set_ttl-OkHas n none s h = h
  set_ttl-OkHas n (some part) s h = elim (Option-cases (parse_unsigned 32 part)) [
    | inl e ↦ rw e tt
    | inr (x, e) ↦ rw e h
  ]

  directive-OkHas :
      (n : ℕ) (line : Text) (s : FileState Name)
      → Holds s.zone
      → OkHas (directive readers origin n line s)
  unfolding directive
  directive-OkHas n line s h =
      if_keeps OkHas (starts_with origin_directive_text line)
        (set_origin-OkHas n (second (words line)) s h)
        (if_keeps OkHas (starts_with ttl_directive_text line)
          (set_ttl-OkHas n (second (words line)) s h) h)

  add_parsed-OkHas :
      (parsed : Result ParseError (Option (Record Name))) (s : FileState Name)
      → Holds s.zone
      → OkHas (parsed >>= λ r. ok (add_parsed readers origin r s))
  add_parsed-OkHas (ok none) s h = h
  add_parsed-OkHas (ok (some r)) s h =
      add_to-Holds r (zone_for readers origin r s.zone) (zone_for-Holds r s.zone h)
  add_parsed-OkHas (err e) s h = tt

  parse_line-OkHas :
      (n : ℕ) (line : Text) (s : FileState Name)
      → Holds s.zone
      → OkHas (parse_line readers origin n line s)
  unfolding parse_line
  parse_line-OkHas n line s h = if_keeps OkHas (is_empty line || starts_with (b';' ∷ []) line) h (
      if_keeps OkHas (starts_with (b'$' ∷ []) line) (directive-OkHas n line s h) (
        add_parsed-OkHas (parse_resource_record readers s.current_origin n line s.default_ttl) s h))

  parse_lines-OkHas :
      (n : ℕ) (ls : List Text) (s : FileState Name)
      → Holds s.zone
      → OkHas (parse_lines readers origin n ls s)
  unfolding parse_lines
  parse_lines-OkHas n [] s h = h
  parse_lines-OkHas n (line ∷ rest) s h =
      bind-OkHas (parse_line readers origin n (trim line) s)
        (parse_lines readers origin (suc n) rest) (parse_line-OkHas n (trim line) s h)
        (λ s' k. parse_lines-OkHas (suc n) rest s' k)

  zone_of_Holds :
      (found : Option (Zone Name)) {z : Zone Name}
      → Holds found
      → zone_or_error readers origin found ≡ ok z
      → P z
  zone_of_Holds none h e = cc
  zone_of_Holds (some z') {z} h e = let same : z' ≡ z = ground arith in subst P same h

  zone_of_OkHas :
      (r : Result ParseError (FileState Name)) {z : Zone Name}
      → OkHas r
      → (r >>= λ s. zone_or_error readers origin s.zone) ≡ ok z
      → P z
  zone_of_OkHas (ok s) h e = zone_of_Holds s.zone h e
  zone_of_OkHas (err x) h e = cc

abbrev pub Built : {Name : Type 0} ⦃api : DnsApi Name⦄ → Name → Zone Name → Type 0
Built origin z = (z.origin ≡ origin) × IsWellFormed z

add_record-Built :
    {Name : Type 0} ⦃api : DnsApi Name⦄ (origin : Name) (r : Record Name) (z : Zone Name)
    → Built origin z
    → Built origin (add_record r z)
unfolding add_record
add_record-Built origin r z h = (h.0, add_record-IsWellFormed r z h.1)

new-Built :
    {Name : Type 0} ⦃api : DnsApi Name⦄ (origin : Name) (soa : SoaRecord Name)
    → Built origin (Zone.new origin soa)
unfolding Zone.new
new-Built origin soa = (refl, new-IsWellFormed origin soa)

-- A zone file that is accepted yields a zone with the origin that the configuration names, whatever
-- its directives and its SOA record say, and the zone is well formed: no name twice, no type of a
-- name twice, no empty RRset, and each record under its own name and type.
pub parse_zone_file-IsWellFormed :
    {Name : Type 0} ⦃api : DnsApi Name⦄ (readers : Readers Name) (file : Option Text)
    (origin_name : Text) {z : Zone Name}
    → parse_zone_file readers file origin_name ≡ ok z
    → (api.from_str origin_name ≡ some z.origin) × IsWellFormed z
unfolding parse_zone_file
parse_zone_file-IsWellFormed ⦃api⦄ readers none origin_name e = cc
parse_zone_file-IsWellFormed ⦃api⦄ readers (some content) origin_name {z} e =
    let (origin, is_origin, e') = bind-eq-ok (valid_origin (api.from_str origin_name)) _ e in
    let named : api.from_str origin_name ≡ some origin = ground arith in
    let start : FileState _ = record { zone = none; default_ttl = 3600; current_origin = origin } in
    let built : Built origin z =
      zone_of_OkHas readers origin (Built origin) (new-Built origin) (add_record-Built origin)
        (parse_lines readers origin 0 (preprocess_zone_content content) start)
        (parse_lines-OkHas readers origin (Built origin) (new-Built origin)
          (add_record-Built origin) 0 (preprocess_zone_content content) start tt)
        e' in
    (named ∙ ap some (sym built.0), built.1)
