-- ===== src/Zone/Wildcard.antt =====
-- Which wildcard answers for a name.
use lrmdns.Prelude.{
  ◌≡◌, refl, ◌≢◌, sym, ap, none, some, List, [], ◌∷◌, ◌++◌, arith, tail, Option-cases, inl, inr,
}
use lrmdns.Dns.Name.{DnsApi}
use lrmdns.Dns.Rr.{Bytes, RecordType, Record}
use lrmdns.Zone.{Zone, wildcard_at, wildcard_loop, lookup_wildcard}

empty_of_append : (near far : List Bytes) → [] ≡ near ++ far → far ≡ []
empty_of_append [] far p = sym p
empty_of_append (k ∷ ks) far p = cc

module _ {Name : Type 0} ⦃api : DnsApi Name⦄ where
  -- `suffix` is the longest proper suffix of the labels whose wildcard has records of the type.
  pub record ClosestWildcard (z : Zone Name) (t : RecordType) (labels : List Bytes)
      (rs : List (Record Name)) : Type 0 where
    pub skipped : List Bytes
    pub suffix : List Bytes
    pub splits : labels ≡ skipped ++ suffix
    pub nonempty : suffix ≢ []
    pub has_records : wildcard_at z t suffix ≡ some rs
    pub closest :
        (near far : List Bytes)
        → skipped ≡ near ++ far
        → far ≢ []
        → wildcard_at z t (far ++ suffix) ≡ none

  module _ (z : Zone Name) (t : RecordType) (l : Bytes) (ls : List Bytes)
      {rs : List (Record Name)} where
    ClosestWildcard-head : wildcard_at z t (l ∷ ls) ≡ some rs → ClosestWildcard z t (l ∷ ls) rs
    ClosestWildcard-head e = record {
      skipped = [];
      suffix = l ∷ ls;
      splits = refl;
      nonempty = λ p. cc;
      has_records = e;
      closest = λ near far p n. absurd (n (empty_of_append near far p));
    }

    closest_cons :
        wildcard_at z t (l ∷ ls) ≡ none
        → (c : ClosestWildcard z t ls rs) (near far : List Bytes) → (l ∷ c.skipped) ≡ near ++ far
        → far ≢ []
        → wildcard_at z t (far ++ c.suffix) ≡ none
    closest_cons e c [] far p n = rw (← p) (rw (← c.splits) e)
    closest_cons e c (k ∷ ks) far p n = c.closest ks far (cc) n

    ClosestWildcard-cons :
        wildcard_at z t (l ∷ ls) ≡ none
        → ClosestWildcard z t ls rs
        → ClosestWildcard z t (l ∷ ls) rs
    ClosestWildcard-cons e c = record {
      skipped = l ∷ c.skipped;
      suffix = c.suffix;
      splits = ap (◌∷◌ l) c.splits;
      nonempty = c.nonempty;
      has_records = c.has_records;
      closest = closest_cons e c;
    }

  wildcard_loop-closest :
      (z : Zone Name) (t : RecordType) (ls : List Bytes) {rs : List (Record Name)}
      → wildcard_loop z t ls ≡ some rs
      → ClosestWildcard z t ls rs
  unfolding wildcard_loop
  wildcard_loop-closest z t [] h = cc
  wildcard_loop-closest z t (l ∷ ls) {rs} h = elim (Option-cases (wildcard_at z t (l ∷ ls))) [
    | inl e ↦ ClosestWildcard-cons z t l ls e (wildcard_loop-closest z t ls (ground arith))
    | inr (found, e) ↦ ClosestWildcard-head z t l ls (ground arith)
  ]

  -- A loop that finds nothing has tried every suffix.
  wildcard_loop-none :
      (z : Zone Name) (t : RecordType) (skipped suffix : List Bytes)
      → wildcard_loop z t (skipped ++ suffix) ≡ none
      → suffix ≢ []
      → wildcard_at z t suffix ≡ none
  unfolding wildcard_loop
  wildcard_loop-none z t [] [] h n = absurd (n refl)
  wildcard_loop-none z t [] (l ∷ ls) h n = ground arith
  wildcard_loop-none z t (k ∷ ks) suffix h n = wildcard_loop-none z t ks suffix (ground arith) n

  -- A wildcard answer comes from the closest enclosing wildcard: the longest proper suffix of the
  -- name's labels whose `*.suffix` has records of the type.
  pub lookup_wildcard-closest :
      (z : Zone Name) (n : Name) (t : RecordType) {rs : List (Record Name)}
      → lookup_wildcard z n t ≡ some rs
      → ClosestWildcard z t (tail (api.labels n)) rs
  unfolding lookup_wildcard
  lookup_wildcard-closest z n t h = wildcard_loop-closest z t (tail (api.labels n)) h

  -- No wildcard answers exactly where no proper nonempty suffix of the labels has one.
  pub lookup_wildcard-none :
      (z : Zone Name) (n : Name) (t : RecordType) (skipped suffix : List Bytes)
      → lookup_wildcard z n t ≡ none
      → tail (api.labels n) ≡ skipped ++ suffix
      → suffix ≢ []
      → wildcard_at z t suffix ≡ none
  unfolding lookup_wildcard
  lookup_wildcard-none z n t skipped suffix h p ne =
      wildcard_loop-none z t skipped suffix (rw p at h) ne
