-- ===== src/Zone/File/Print.antt =====
-- Zone files in a plain style: one record in each line, as its owner, its TTL, IN, its type and its
-- RDATA, with single spaces between them, names in full, and numbers in decimal.
pub mod Rdata
pub mod Lines
pub mod RoundTrip
use lrmdns.Prelude.{
  ℕ, ◌/◌, ◌%◌, ◌^◌, ◌<◌, ◌≡◌, ◌&&◌, Bool, true, Option, none, some, List, [], ◌∷◌, is_empty, map,
  retain, if◌then◌else◌,
}
use lrmdns.Prelude.Int.{ℤ}
use lrmdns.HashMap.{◌==ₖ◌}
use lrmdns.Dns.Name.{DnsApi, name_key}
use lrmdns.Dns.Rr.{RecordType, rtype_key, Record, RData, SoaData, from_rdata}
use lrmdns.Zone.Text.{Text, ends_with_dot, join}
use lrmdns.Zone.Text.Decimal.{decimal, signed_decimal, FitsI32}
use lrmdns.Zone.Text.Lines.{IsToken, unlines}
use lrmdns.Zone.Address.Dotted.{dotted}
use lrmdns.Zone.File.Parse.{class_in}

-- the RDATA that is printed
pub data PlainData (Name : Type 0) : Type 0 where
  a : ℕ → PlainData Name
  ns cname ptr : Name → PlainData Name
  mx : ℕ → Name → PlainData Name
  srv : ℕ → ℕ → ℕ → Name → PlainData Name
  soa : SoaData Name → PlainData Name

abbrev pub rdata_of : {Name : Type 0} → PlainData Name → RData Name
rdata_of (PlainData.a n) = RData.a n
rdata_of (PlainData.ns n) = RData.ns n
rdata_of (PlainData.cname n) = RData.cname n
rdata_of (PlainData.ptr n) = RData.ptr n
rdata_of (PlainData.mx p n) = RData.mx p n
rdata_of (PlainData.srv p w o n) = RData.srv p w o n
rdata_of (PlainData.soa d) = RData.soa d

pub record Entry (Name : Type 0) : Type 0 where
  pub name : Name
  pub ttl : ℕ
  pub rdata : PlainData Name

abbrev pub soa_entry : {Name : Type 0} → Name → ℕ → SoaData Name → Entry Name
soa_entry name ttl d = record { name = name; ttl = ttl; rdata = PlainData.soa d }

abbrev pub record_of_entry : {Name : Type 0} → Entry Name → Record Name
record_of_entry e = from_rdata e.name e.ttl (rdata_of e.rdata)

abbrev pub print_address : ℕ → Text
print_address n = dotted (n / 2 ^ 24) (n / 2 ^ 16 % 256) (n / 2 ^ 8 % 256) (n % 256)

module _ {Name : Type 0} ⦃api : DnsApi Name⦄ where
  -- the words of the RDATA, after the type
  abbrev pub print_rdata : PlainData Name → Text × List Text
  print_rdata (PlainData.a n) = (b'A' ∷ [], print_address n ∷ [])
  print_rdata (PlainData.ns n) = (b'N' ∷ b'S' ∷ [], api.to_text n ∷ [])
  print_rdata (PlainData.cname n) = (b'C' ∷ b'N' ∷ b'A' ∷ b'M' ∷ b'E' ∷ [], api.to_text n ∷ [])
  print_rdata (PlainData.ptr n) = (b'P' ∷ b'T' ∷ b'R' ∷ [], api.to_text n ∷ [])
  print_rdata (PlainData.mx p n) = (b'M' ∷ b'X' ∷ [], decimal p ∷ api.to_text n ∷ [])
  print_rdata (PlainData.srv p w o n) =
      (b'S' ∷ b'R' ∷ b'V' ∷ [], decimal p ∷ decimal w ∷ decimal o ∷ api.to_text n ∷ [])
  print_rdata (PlainData.soa d) = (
    b'S' ∷ b'O' ∷ b'A' ∷ [],
    api.to_text d.mname
        ∷ api.to_text d.rname
        ∷ decimal d.serial
        ∷ signed_decimal d.refresh
        ∷ signed_decimal d.retry
        ∷ signed_decimal d.expire
        ∷ decimal d.minimum
        ∷ [],
  )

  -- The crate prints the name in full, as a word that it reads as the name.
  pub record IsName (n : Name) : Type 0 where
    pub token : IsToken (api.to_text n)
    pub full : ends_with_dot (api.to_text n) ≡ true
    pub reads : api.from_str (api.to_text n) ≡ some n

  -- Names are printed in full, and numbers are in the range of their fields.
  abbrev pub IsPrintable : PlainData Name → Type 0
  IsPrintable (PlainData.a n) = n < 2 ^ 32
  IsPrintable (PlainData.ns n) = IsName n
  IsPrintable (PlainData.cname n) = IsName n
  IsPrintable (PlainData.ptr n) = IsName n
  IsPrintable (PlainData.mx p n) = p < 2 ^ 16 × IsName n
  IsPrintable (PlainData.srv p w o n) = p < 2 ^ 16 × w < 2 ^ 16 × o < 2 ^ 16 × IsName n
  IsPrintable (PlainData.soa d) =
      IsName d.mname
      × IsName d.rname
      × d.serial < 2 ^ 32
      × FitsI32 d.refresh
      × FitsI32 d.retry
      × FitsI32 d.expire
      × d.minimum < 2 ^ 32

  pub record IsEntry (e : Entry Name) : Type 0 where
    pub name : IsName e.name
    pub ttl : e.ttl < 2 ^ 32
    pub rdata : IsPrintable e.rdata

  abbrev pub print_words : Entry Name → List Text
  print_words e = decimal e.ttl ∷ class_in ∷ (print_rdata e.rdata).0 ∷ (print_rdata e.rdata).1

  abbrev pub print_entry : Entry Name → Text
  print_entry e = join (32 ∷ []) (api.to_text e.name ∷ print_words e)

  abbrev pub print_file : List (Entry Name) → Text
  print_file es = unlines (map print_entry es)

  -- the records of the name and type, `none` if there is none
  abbrev pub some_rrset : List (Record Name) → Option (List (Record Name))
  some_rrset rs = if is_empty rs then none else some rs

  abbrev pub rrset_of : Name → RecordType → List (Record Name) → Option (List (Record Name))
  rrset_of n t rs = some_rrset (retain (λ r. (r.name ==ₖ n) && (r.rtype ==ₖ t)) rs)
