-- ===== src/Tests/Samples.antt =====
-- Names of one-byte labels, a zone with an alias and a wildcard, queries, and a codec.
use Prim.Native.Nat.{ℕ}
use lrmdns.Prelude.{
  ◌≡◌, suc, zero, ◌+◌, ◌*◌, ◌/◌, ◌%◌, Bool, true, false, ◌&&◌, ◌||◌, Option, none, some, List, [],
  ◌∷◌, ◌++◌, if◌then◌else◌, map, concat_map, length, ltb, ◌==◌, arith,
}
use lrmdns.Prelude.Int.{pos}
use lrmdns.HashMap.{Key}
use lrmdns.Dns.Name.{DnsApi}
use lrmdns.Dns.Rr.{Bytes, RecordType, Record, RData, DnskeyData, DigestType}
use lrmdns.Dns.Op.{Query, Edns, Message, new_message}
use lrmdns.Zone.{SoaRecord, Zone, add_record}
use lrmdns.Zone.Store.{ZoneStore, add_zone}
use lrmdns.Dnssec.{bytes_eq, Crypto}
use lrmdns.Dnssec.Ds.{bytes_eq_refl, bytes_eq-sym, bytes_eq_trans}
use lrmdns.Server.{Codec}

abbrev bytes_key : Key Bytes
bytes_key = record {
  eq = bytes_eq;
  eq_refl = bytes_eq_refl;
  eq_sym = bytes_eq-sym;
  eq_trans = bytes_eq_trans;
}

pub number_eq_refl : (a : ℕ) → (a == a) ≡ true
number_eq_refl a = ground arith

pub number_eq-sym : (a b : ℕ) → (a == b) ≡ true → (b == a) ≡ true
number_eq-sym a b h = ground arith

pub number_eq_trans : (a b c : ℕ) → (a == b) ≡ true → (b == c) ≡ true → (a == c) ≡ true
number_eq_trans a b c h i = ground arith

-- an address
instance abbrev pub address_key : Key ℕ
address_key = record {
  eq = λ a b. a == b;
  eq_refl = number_eq_refl;
  eq_sym = number_eq-sym;
  eq_trans = number_eq_trans;
}

abbrev pub is_suffix : Bytes → Bytes → Bool
is_suffix o [] = bytes_eq o []
is_suffix o (l ∷ n) = bytes_eq o (l ∷ n) || is_suffix o n

abbrev before : Bytes → Bytes → Bool
before [] [] = false
before [] (y ∷ ys) = true
before (x ∷ xs) [] = false
before (x ∷ xs) (y ∷ ys) = ltb x y || ((x == y) && before xs ys)

-- a name is the bytes of its labels, each of one byte
instance abbrev pub names : DnsApi Bytes
names = record {
  key = bytes_key;
  lt = before;
  labels = map (λ b. b ∷ []);
  from_labels = λ ls. some (concat_map (λ l. l) ls);
  zone_of = is_suffix;
  num_labels = length;
  from_str = some;
  to_text = λ n. n;
  to_lowercase = λ n. n;
  to_bytes = some;
  rtype_lt = λ s t. false;
}

-- e.c, w.e.c, a.e.c, *.d.e.c, h.d.e.c, and x.e.c, which the zone does not have
abbrev pub origin : Bytes
origin = 101 ∷ 99 ∷ []

abbrev pub www : Bytes
www = 119 ∷ origin

abbrev pub alias : Bytes
alias = 97 ∷ origin

abbrev pub wild : Bytes
wild = 42 ∷ 100 ∷ origin

abbrev pub below : Bytes
below = 104 ∷ 100 ∷ origin

abbrev pub missing : Bytes
missing = 120 ∷ origin

abbrev pub outside : Bytes
outside = 119 ∷ 110 ∷ []

abbrev pub soa : SoaRecord Bytes
soa = record {
  mname = 110 ∷ origin;
  rname = 104 ∷ origin;
  serial = 7;
  refresh = pos 3600;
  retry = pos 600;
  expire = pos 86400;
  minimum = 60;
}

abbrev pub www_a : Record Bytes
www_a = record { name = www; rtype = RecordType.a; ttl = 300; rdata = some (RData.a 3221225985) }

abbrev pub www_sig : Record Bytes
www_sig = record {
  name = www;
  rtype = RecordType.sig;
  ttl = 300;
  rdata = some (
      RData.sig (record {
        type_covered = RecordType.a;
        algorithm = 13;
        num_labels = 3;
        original_ttl = 300;
        sig_expiration = 2000;
        sig_inception = 1000;
        key_tag = 5;
        signer_name = origin;
        sig = 1 ∷ 2 ∷ [];
      }));
}

abbrev pub alias_cname : Record Bytes
alias_cname = record {
  name = alias;
  rtype = RecordType.cname;
  ttl = 300;
  rdata = some (RData.cname www);
}

abbrev pub wild_a : Record Bytes
wild_a = record { name = wild; rtype = RecordType.a; ttl = 300; rdata = some (RData.a 3221225986) }

abbrev pub origin_ns : Record Bytes
origin_ns = record {
  name = origin;
  rtype = RecordType.ns;
  ttl = 300;
  rdata = some (RData.ns (110 ∷ origin));
}

abbrev pub origin_nsec : Record Bytes
origin_nsec = record {
  name = origin;
  rtype = RecordType.nsec;
  ttl = 60;
  rdata = some (RData.nsec (record { next_domain_name = www; type_bit_maps = RecordType.ns ∷ [] }));
}

abbrev pub zone : Zone Bytes
zone = add_record www_a (
    add_record www_sig (
      add_record alias_cname (
        add_record wild_a (
          add_record origin_ns
            (add_record origin_nsec (record { origin = origin; soa = soa; records = [] }))))))

-- a zone that is a parent of the other
abbrev pub parent_zone : Zone Bytes
parent_zone = record { origin = 99 ∷ []; soa = soa; records = [] }

abbrev pub store : ZoneStore Bytes
store = add_zone zone (add_zone parent_zone (record { zones = [] }))

abbrev pub question : Bytes → RecordType → Query Bytes
question name t = record { name = name; query_type = t; query_class = 1 }

abbrev pub client_edns : Edns
client_edns = record { max_payload = 1232; version = 0; dnssec_ok = true }

abbrev pub asking : Bytes → RecordType → Message Bytes
asking name t = record new_message {
  id = 77;
  recursion_desired = true;
  queries = question name t ∷ [];
  edns = some client_edns;
}

-- without EDNS
abbrev pub plainly : Bytes → RecordType → Message Bytes
plainly name t = record (asking name t) { edns = none }

-- n bytes of a record
abbrev pub zeros : ℕ → Bytes
zeros zero = []
zeros (suc n) = 0 ∷ zeros n

abbrev pub id_bytes : ℕ → Bytes
id_bytes id = id / 256 ∷ id % 256 ∷ []

abbrev pub body_of : List (Record Bytes) → Bytes
body_of [] = []
body_of (r ∷ rs) = zeros 600 ++ body_of rs

abbrev pub sections : Message Bytes → Bytes
sections m = body_of m.answers ++ body_of m.name_servers

-- A query is the two bytes of its id, 1 for A or 252 for AXFR, and the name; a response is its id
-- and 600 bytes for each record.
abbrev pub parse : Bytes → Option (Message Bytes)
parse (hi ∷ lo ∷ t ∷ name) =
    some (record (plainly name (if t == 252 then RecordType.axfr else RecordType.a)) {
      id = hi * 256 + lo;
    })
parse _ = none

abbrev pub codec : Codec Bytes
codec = record { from_bytes = parse; to_bytes = λ m. some (id_bytes m.id ++ sections m) }

abbrev pub crypto : Crypto
crypto = record {
  flags = λ key. if key.secure_entry_point then 257 else 256;
  sha256 = λ b. 1 ∷ b;
  sha384 = λ b. 2 ∷ b;
  sha512 = λ b. 3 ∷ b;
}

abbrev pub key_data : DnskeyData
key_data = record {
  zone_key = true;
  secure_entry_point = true;
  revoke = false;
  algorithm = 13;
  public_key = 1 ∷ 2 ∷ 3 ∷ [];
}

abbrev pub dnskey : Record Bytes
dnskey = record {
  name = origin;
  rtype = RecordType.dnskey;
  ttl = 300;
  rdata = some (RData.dnskey key_data);
}

-- its tag is the sum of the words 257, 3 * 256 + 13, 258 and 768
abbrev pub ds : Record Bytes
ds = record {
  name = origin;
  rtype = RecordType.ds;
  ttl = 300;
  rdata = some (
      RData.ds (record {
        key_tag = 2064;
        algorithm = 13;
        digest_type = DigestType.sha256;
        digest = 1 ∷ 101 ∷ 99 ∷ 1 ∷ 1 ∷ 3 ∷ 13 ∷ 1 ∷ 2 ∷ 3 ∷ [];
      }));
}
