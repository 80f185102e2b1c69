-- ===== src/Tests/Ordering.antt =====
-- Two stores that differ in the order of their zones.
use lrmdns.Prelude.{
  ◌≤◌, ◌≡◌, refl, sym, ◌∙◌, ap, Bool, true, false, ◌||◌, [], ◌∷◌, arith, length, Bool-cases, inl,
  inr, ◌⊎◌,
}
use lrmdns.HashMap.{◌==ₖ◌, get, insert}
use lrmdns.Dns.Name.{name_key}
use lrmdns.Dns.Rr.{Bytes, RecordType}
use lrmdns.Dnssec.{bytes_eq}
use lrmdns.Dnssec.Ds.{bytes_eq_iff}
use lrmdns.Zone.{Zone, add_record}
use lrmdns.Zone.Same.{SameZone}
use lrmdns.Zone.Store.{ZoneStore, add_zone}
use lrmdns.Zone.Store.Valid.{HasValidZones, add_zone-HasValidZones}
use lrmdns.Zone.Store.Order.{SameStore, HasNoTies}
use lrmdns.Protocol.{process_query}
use lrmdns.Protocol.Order.{process_query-order}
use lrmdns.Tests.Samples.{names, is_suffix, zone, parent_zone, store, asking, www, origin}
use lrmdns.Tests.Resolving.{zone-IsWellFormed, store-HasValidZones}

or-cases : (a b : Bool) → (a || b) ≡ true → (a ≡ true) ⊎ (b ≡ true)
or-cases true b h = inl refl
or-cases false b h = inr h

eq_of_bytes_eq : (a b : Bytes) → bytes_eq a b ≡ true → a ≡ b
eq_of_bytes_eq a b h = (bytes_eq_iff a b).0 h

is_suffix-length : (a n : Bytes) → is_suffix a n ≡ true → length a ≤ length n
is_suffix-length a [] h = omega (arith, ap length (eq_of_bytes_eq a [] h))
is_suffix-length a (l ∷ n) h = elim (or-cases (bytes_eq a (l ∷ n)) (is_suffix a n) h) [
  | inl e ↦ omega (arith, ap length (eq_of_bytes_eq a (l ∷ n) e))
  | inr s ↦ omega (arith, is_suffix-length a n s)
]

is_suffix-eq :
    (a b n : Bytes) → is_suffix a n ≡ true → is_suffix b n ≡ true → length a ≡ length b → a ≡ b
is_suffix-eq a b [] h i e = eq_of_bytes_eq a [] h ∙ sym (eq_of_bytes_eq b [] i)
is_suffix-eq a b (l ∷ n) h i e = elim (or-cases (bytes_eq a (l ∷ n)) (is_suffix a n) h) [
  | inl p ↦ elim (or-cases (bytes_eq b (l ∷ n)) (is_suffix b n) i) [
    | inl q ↦ eq_of_bytes_eq a (l ∷ n) p ∙ sym (eq_of_bytes_eq b (l ∷ n) q)
    | inr t ↦
        let whole = ap length (eq_of_bytes_eq a (l ∷ n) p) in
        absurd (omega (arith, whole, e, is_suffix-length b n t))
  ]
  | inr s ↦ elim (or-cases (bytes_eq b (l ∷ n)) (is_suffix b n) i) [
    | inl q ↦
        let whole = ap length (eq_of_bytes_eq b (l ∷ n) q) in
        absurd (omega (arith, whole, e, is_suffix-length a n s))
    | inr t ↦ is_suffix-eq a b n s t e
  ]
]

pub store-HasNoTies : (s : ZoneStore Bytes) → HasNoTies s
store-HasNoTies s n z y i j h k e =
    (bytes_eq_iff z.origin y.origin).1 (is_suffix-eq z.origin y.origin n h k e)

abbrev reversed : ZoneStore Bytes
reversed = add_zone parent_zone (add_zone zone (record { zones = [] }))

reversed-HasValidZones : HasValidZones reversed
reversed-HasValidZones =
    add_zone-HasValidZones parent_zone _ (record { distinct = tt; types = tt })
      (add_zone-HasValidZones zone _ zone-IsWellFormed
        (record { zones = tt; keyed = tt; distinct = tt }))

zone-Same : (z : Zone Bytes) → SameZone z z
zone-Same z = record { origin = refl; soa = refl; lookups = λ n t. refl; names = λ n. refl }

zone_origin : zone.origin ≡ origin
unfolding add_record
zone_origin = refl

apart : (n : Bytes) → origin ≡ n → (99 ∷ []) ≡ n → ⊥
apart n p q = let lengths : 2 ≡ 1 = ap length (p ∙ sym q) in omega (arith, lengths)

store-reversed : SameStore store reversed
unfolding add_zone insert get add_record
store-reversed n = elim (Bool-cases (zone.origin ==ₖ n)) [
  | inl a ↦ elim (Bool-cases (parent_zone.origin ==ₖ n)) [
    | inl b ↦ absurd (
        apart n (sym zone_origin ∙ eq_of_bytes_eq zone.origin n a)
          (eq_of_bytes_eq parent_zone.origin n b))
    | inr b ↦ rw (a, b) (zone-Same zone)
  ]
  | inr a ↦ elim (Bool-cases (parent_zone.origin ==ₖ n)) [
    | inl b ↦ rw (a, b) (zone-Same parent_zone)
    | inr b ↦ rw (a, b) tt
  ]
]

process_query-order_example :
    process_query store (asking www RecordType.a) ≡ process_query reversed (asking www RecordType.a)
process_query-order_example =
    process_query-order store reversed (asking www RecordType.a) (store-HasNoTies store)
      store-HasValidZones reversed-HasValidZones store-reversed
