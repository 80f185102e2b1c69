-- ===== src/Dns/Name.antt =====
-- hickory_proto::rr::Name, as a parameter: the operations that the source calls
-- (with the order of record types).
use lrmdns.Prelude.{ℕ, Bool, Option, List, ◌∷◌, []}
use lrmdns.HashMap.{Key}
use lrmdns.Dns.Rr.{Bytes, RecordType}

-- `a == b` (the key of the hash maps), `a < b`, `a.iter()`, `Name::from_labels(l)`, `a.zone_of(b)`
-- (a is b or a parent of b), `a.num_labels()`, `Name::from_str(s)`, `a.to_string()`,
-- `a.to_lowercase()` and `a.to_bytes()`; and `s < t` on record types.
pub record DnsApi (Name : Type 0) : Type 0 where
  pub key : Key Name
  pub lt : Name → Name → Bool
  pub labels : Name → List Bytes
  pub from_labels : List Bytes → Option Name
  pub zone_of : Name → Name → Bool
  pub num_labels : Name → ℕ
  pub from_str : Bytes → Option Name
  pub to_text : Name → Bytes
  pub to_lowercase : Name → Name
  pub to_bytes : Name → Option Bytes
  pub rtype_lt : RecordType → RecordType → Bool

instance abbrev pub name_key : {Name : Type 0} ⦃api : DnsApi Name⦄ → Key Name
name_key ⦃api⦄ = api.key

-- b"*"
abbrev pub star : Bytes
star = b'*' ∷ []
