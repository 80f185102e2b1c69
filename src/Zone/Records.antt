-- ===== src/Zone/Records.antt =====
-- `add_record` against `lookup`, and the shape of a zone that is built by `new` and `add_record`.
use lrmdns.Prelude.{◌≡◌, ◌&&◌, some, [], ◌∷◌, ◌++◌, arith, if◌then◌else◌, option_or}
use lrmdns.HashMap.{◌==ₖ◌, get}
use lrmdns.HashMap.Laws.{get-modify, get-cong}
use lrmdns.Dns.Name.{DnsApi, name_key}
use lrmdns.Dns.Rr.{RecordType, rtype_key, Record}
use lrmdns.Zone.{Zone, push_record, add_record, lookup}

module _ {Name : Type 0} ⦃api : DnsApi Name⦄ where
  -- Adding a record appends it to the RRset of its name and type, and changes no other RRset.
  pub lookup-add_record :
      (r : Record Name) (z : Zone Name) (n : Name) (t : RecordType)
      → lookup (add_record r z) n t ≡ (
          if (r.name ==ₖ n) && (r.rtype ==ₖ t)
          then some (option_or (lookup z r.name r.rtype) [] ++ r ∷ [])
          else lookup z n t)
  unfolding lookup add_record get
  lookup-add_record r z n t = ground (
    arith,
    get-modify r.name n [] (push_record r) z.records,
    get-cong r.name n z.records,
    get-modify r.rtype t [] (λ rs. rs ++ r ∷ []) (option_or (get r.name z.records) []),
  )
