-- ===== src/Suite/Names.antt =====
-- Domain names for the tests: lists of labels, in lower case, read from dotted text and printed to it.
use Prim.Native.Char.{code}
use Prim.Native.String.{String}
use lrmdns.Prelude.{
  ℕ, ◌+◌, ◌≡◌, refl, sym, ◌∙◌, Bool, true, false, not, ◌&&◌, ◌||◌, Option, none, some, List, [],
  ◌∷◌, ◌++◌, if◌then◌else◌, length, ltb, leb, ◌==◌, arith, is_empty, option_or, ◌↔◌,
}
use lrmdns.HashMap.{Key}
use lrmdns.Dns.Name.{DnsApi}
use lrmdns.Dns.Rr.{Bytes, RecordType}
use lrmdns.Dnssec.{bytes_eq}
use lrmdns.Dnssec.Ds.{bytes_eq_iff, bytes_eq_refl, bytes_eq-sym, bytes_eq_trans}

-- the code points of a literal
abbrev pub codes : String → List ℕ
codes String.[] = []
codes (String.◌∷◌ c s) = code c ∷ codes s

abbrev pub Labels : Type 0
Labels = List Bytes

abbrev pub labels_eq : Labels → Labels → Bool
labels_eq [] [] = true
labels_eq (l ∷ ls) (m ∷ ms) = bytes_eq l m && labels_eq ls ms
labels_eq _ _ = false

abbrev lower : ℕ → ℕ
lower c = if leb 65 c && leb c 90 then c + 32 else c

-- the text up to each dot
abbrev split_dots : Bytes → Bytes × Labels
split_dots [] = ([], [])
split_dots (c ∷ s) =
    let (first, rest) = split_dots s in
    if c == 46 then ([], first ∷ rest) else (lower c ∷ first, rest)

abbrev drop_empty_last : Labels → Labels
drop_empty_last [] = []
drop_empty_last (l ∷ ls) =
    let rest = drop_empty_last ls in if is_empty ls && is_empty l then [] else l ∷ rest

abbrev is_label : Bytes → Bool
is_label l = not (is_empty l) && leb (length l) 63

abbrev all_labels : Labels → Bool
all_labels [] = true
all_labels (l ∷ ls) = is_label l && all_labels ls

-- Name::from_str; a dot alone is the root
abbrev pub read_name : Bytes → Option Labels
read_name s =
    let (first, rest) = split_dots s in
    let labels = drop_empty_last (first ∷ rest) in
    if bytes_eq s (46 ∷ []) then some [] else (if all_labels labels then some labels else none)

abbrev pub show_name : Labels → Bytes
show_name [] = []
show_name (l ∷ ls) = l ++ 46 ∷ show_name ls

abbrev pub bytes_lt : Bytes → Bytes → Bool
bytes_lt [] [] = false
bytes_lt [] (y ∷ ys) = true
bytes_lt (x ∷ xs) [] = false
bytes_lt (x ∷ xs) (y ∷ ys) = ltb x y || ((x == y) && bytes_lt xs ys)

-- labels are compared from the last one on
abbrev reversed_lt : Labels → Labels → Bool
reversed_lt [] [] = false
reversed_lt [] (m ∷ ms) = true
reversed_lt (l ∷ ls) [] = false
reversed_lt (l ∷ ls) (m ∷ ms) = bytes_lt l m || (bytes_eq l m && reversed_lt ls ms)

abbrev flip_labels : Labels → Labels → Labels
flip_labels done [] = done
flip_labels done (l ∷ ls) = flip_labels (l ∷ done) ls

abbrev is_parent : Labels → Labels → Bool
is_parent p [] = is_empty p
is_parent p (l ∷ ls) = let rest = is_parent p ls in labels_eq p (l ∷ ls) || rest

-- the number of a record type
abbrev type_code : RecordType → ℕ
type_code RecordType.a = 1
type_code RecordType.ns = 2
type_code RecordType.cname = 5
type_code RecordType.soa = 6
type_code RecordType.ptr = 12
type_code RecordType.mx = 15
type_code RecordType.txt = 16
type_code RecordType.sig = 24
type_code RecordType.aaaa = 28
type_code RecordType.srv = 33
type_code RecordType.naptr = 35
type_code RecordType.ds = 43
type_code RecordType.sshfp = 44
type_code RecordType.nsec = 47
type_code RecordType.dnskey = 48
type_code RecordType.tlsa = 52
type_code RecordType.axfr = 252
type_code RecordType.caa = 257
type_code (RecordType.other n) = n

-- the length bytes and the labels, and the root
abbrev wire : Labels → Bytes
wire [] = 0 ∷ []
wire (l ∷ ls) = length l ∷ (l ++ wire ls)

labels_eq_iff : (a b : Labels) → (labels_eq a b ≡ true) ↔ (a ≡ b)
labels_eq_iff [] [] = (λ h. refl, λ h. refl)
labels_eq_iff [] (m ∷ ms) = (λ h. cc, λ h. cc)
labels_eq_iff (l ∷ ls) [] = (λ h. cc, λ h. cc)
labels_eq_iff (l ∷ ls) (m ∷ ms) = ground (arith, bytes_eq_iff l m, labels_eq_iff ls ms)

pub labels_eq_refl : (a : Labels) → labels_eq a a ≡ true
labels_eq_refl a = (labels_eq_iff a a).1 refl

pub labels_eq-sym : (a b : Labels) → labels_eq a b ≡ true → labels_eq b a ≡ true
labels_eq-sym a b h = (labels_eq_iff b a).1 (sym ((labels_eq_iff a b).0 h))

pub labels_eq_trans :
    (a b c : Labels) → labels_eq a b ≡ true → labels_eq b c ≡ true → labels_eq a c ≡ true
labels_eq_trans a b c h i =
    (labels_eq_iff a c).1 ((labels_eq_iff a b).0 h ∙ (labels_eq_iff b c).0 i)

abbrev labels_key : Key Labels
labels_key = record {
  eq = labels_eq;
  eq_refl = labels_eq_refl;
  eq_sym = labels_eq-sym;
  eq_trans = labels_eq_trans;
}

-- addresses, as their bytes
instance abbrev pub byte_key : Key Bytes
byte_key = record {
  eq = bytes_eq;
  eq_refl = bytes_eq_refl;
  eq_sym = bytes_eq-sym;
  eq_trans = bytes_eq_trans;
}

instance abbrev pub dns_names : DnsApi Labels
dns_names = record {
  key = labels_key;
  lt = λ a b. reversed_lt (flip_labels [] a) (flip_labels [] b);
  labels = λ n. n;
  from_labels = λ ls. some ls;
  zone_of = is_parent;
  num_labels = length;
  from_str = read_name;
  to_text = show_name;
  to_lowercase = λ n. n;
  to_bytes = λ n. some (wire n);
  rtype_lt = λ s t. ltb (type_code s) (type_code t);
}

-- `Name::from_str(…).unwrap()` of a name that is well written
abbrev pub name : String → Labels
name s = option_or (read_name (codes s)) []
