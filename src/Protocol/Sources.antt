-- ===== src/Protocol/Sources.antt =====
-- Where the answers come from: the RRsets of the zone that owns the name.
use mathlib.Core.List.{Memᴰ}
use mathlib.Core.Path.{subst}
use lrmdns.Prelude.{
  if_keeps, ◌≡◌, refl, sym, ◌⊎◌, inl, inr, Bool, true, false, Option, none, some, List, [], ◌∷◌,
  if◌then◌else◌, All, All-mem, All-imp, All-append, All-of_mem, option_or, retain, first, arith,
  Bool-cases, Option-cases,
}
use lrmdns.HashMap.{◌==ₖ◌}
use lrmdns.HashMap.Laws.{get-cong}
use lrmdns.Dns.Name.{DnsApi, name_key, star}
use lrmdns.Dns.Rr.{Bytes, RecordType, rtype_key, Record, RData}
use lrmdns.Dns.Op.{OpCode, Query, Message, is_query}
use lrmdns.Zone.{Zone, lookup, contains_name, lookup_wildcard, wildcard_at}
use lrmdns.Zone.Valid.{IsWellFormed, IsFiled, lookup-IsRrset}
use lrmdns.Zone.Wildcard.{lookup_wildcard-closest}
use lrmdns.Zone.Store.{ZoneStore, find_zone}
use lrmdns.Zone.Store.Valid.{HasValidZones, find_zone-IsWellFormed}
use lrmdns.Protocol.{dnssec_ok, find_records, process_query}
use lrmdns.Protocol.Chase.{chased, targets_of}
use lrmdns.Protocol.Answers.{
  Asks, signs, signatures, process_query-positive, process_query-alias, process_query-negative,
  process_query-wildcard_unsigned,
}

op_code_of_query : (o : OpCode) → is_query o ≡ true → o ≡ OpCode.query
op_code_of_query OpCode.query h = refl
op_code_of_query (OpCode.other n) h = cc

module _ {Name : Type 0} ⦃api : DnsApi Name⦄ where
  -- A lookup of the record's own name and type finds it in the zone, and its type is that of the
  -- question, CNAME, or RRSIG.
  pub record IsFrom (z : Zone Name) (t : RecordType) (r : Record Name) : Type 0 where
    pub rrset : List (Record Name)
    pub found : lookup z r.name r.rtype ≡ some rrset
    pub listed : Memᴰ r rrset
    pub kind : (r.rtype ≡ t) ⊎ ((r.rtype ≡ RecordType.cname) ⊎ (r.rtype ≡ RecordType.sig))

  -- A record that some lookup finds is found by a lookup of its own name and type.
  pub lookup-own :
      (z : Zone Name) (n : Name) (t : RecordType) {rs : List (Record Name)} (r : Record Name)
      → lookup z n t ≡ some rs
      → IsFiled n t r
      → lookup z r.name r.rtype ≡ some rs
  unfolding lookup
  lookup-own z n t r e (same, kind) = rw (kind, get-cong r.name n z.records same) e

  -- What a wildcard lookup finds is filed under a name that starts with `*`.
  wildcard-lookup :
      (z : Zone Name) (n : Name) (t : RecordType) {rs : List (Record Name)}
      → lookup_wildcard z n t ≡ some rs
      → (suffix : List Bytes) × (m : Name) × (api.from_labels (star ∷ suffix) ≡ some m)
        × (lookup z m t ≡ some rs)
  unfolding wildcard_at
  wildcard-lookup z n t {rs} e =
      let c = lookup_wildcard-closest z n t e in
      elim (Option-cases (api.from_labels (star ∷ c.suffix))) [
        | inl f ↦ absurd (ground (arith, c.has_records))
        | inr (m, f) ↦ (c.suffix, m, f, ground (arith, c.has_records))
      ]

  -- what is found for a name, its own or a wildcard's, is what one lookup finds
  found-lookup :
      (z : Zone Name) (n : Name) (u : RecordType) {rs : List (Record Name)}
      → find_records z n u ≡ some rs
      → (m : Name) × (lookup z m u ≡ some rs)
  unfolding find_records
  found-lookup z n u {rs} e = elim (Bool-cases (contains_name z n)) [
    | inl b ↦ (n, ground arith)
    | inr b ↦ let (_, m, _, f) = wildcard-lookup z n u {rs = rs} (ground arith) in (m, f)
  ]

  module _ (z : Zone Name) (t : RecordType) (h : IsWellFormed z) where
    lookup-IsFrom :
        (n : Name) (u : RecordType) {rs : List (Record Name)}
        → lookup z n u ≡ some rs
        → (u ≡ t) ⊎ ((u ≡ RecordType.cname) ⊎ (u ≡ RecordType.sig))
        → All (IsFrom z t) rs
    lookup-IsFrom n u {rs} e k = All-of_mem (IsFrom z t) rs (λ r m.
        let filed = All-mem (IsFiled n u) rs (lookup-IsRrset z n u h e).filed m in
        record {
          rrset = rs;
          found = lookup-own z n u r e filed;
          listed = m;
          kind =
              subst (λ x. (x ≡ t) ⊎ ((x ≡ RecordType.cname) ⊎ (x ≡ RecordType.sig))) (sym filed.1)
                k;
        })

    lookup_or-IsFrom :
        (n : Name) (u : RecordType)
        → (u ≡ t) ⊎ ((u ≡ RecordType.cname) ⊎ (u ≡ RecordType.sig))
        → All (IsFrom z t) (option_or (lookup z n u) [])
    lookup_or-IsFrom n u k = elim (Option-cases (lookup z n u)) [
      | inl e ↦ rw e tt
      | inr (rs, e) ↦ rw e (lookup-IsFrom n u e k)
    ]

    retain-All :
        (P : Record Name → Type 0) (p : Record Name → Bool) (rs : List (Record Name))
        → All P rs
        → All P (retain p rs)
    retain-All P p [] k = tt
    retain-All P p (r ∷ rs) k = elim (Bool-cases (p r)) [
      | inl b ↦ rw b (k.0, retain-All P p rs k.1)
      | inr b ↦ rw b (retain-All P p rs k.1)
    ]

    targets-IsFrom : (rd : Option (RData Name)) → All (IsFrom z t) (targets_of z t rd)
    targets-IsFrom (some (RData.cname target)) = lookup_or-IsFrom target t (inl refl)
    targets-IsFrom _ = tt

    chased-IsFrom :
        (rs : List (Record Name)) → All (IsFrom z t) rs → All (IsFrom z t) (chased z t rs)
    chased-IsFrom [] k = tt
    chased-IsFrom (r ∷ rs) k = (
      k.0,
      All-append (IsFrom z t) (targets_of z t r.rdata) (chased z t rs) (targets-IsFrom r.rdata)
          (chased-IsFrom rs k.1),
    )

    found-IsFrom :
        (n : Name) (u : RecordType) {rs : List (Record Name)}
        → find_records z n u ≡ some rs
        → (u ≡ t) ⊎ ((u ≡ RecordType.cname) ⊎ (u ≡ RecordType.sig))
        → All (IsFrom z t) rs
    found-IsFrom n u e k = let (m, f) = found-lookup z n u e in lookup-IsFrom m u f k

    signed-IsFrom :
        (do_flag : Bool) (n : Name) → All (IsFrom z t) (if do_flag then signatures z n t else [])
    signed-IsFrom do_flag n =
        if_keeps (All (IsFrom z t)) do_flag
          (retain-All (IsFrom z t) (λ r. signs t r.rdata) (option_or (lookup z n RecordType.sig) [])
            (lookup_or-IsFrom n RecordType.sig (inr (inr refl))))
          tt

  -- The zone that owns the name of a question answers it from its own records.
  pub record Comes (s : ZoneStore Name) (question : Query Name) (r : Record Name) : Type 0 where
    pub zone : Zone Name
    pub owned : find_zone s question.name ≡ some zone
    pub from : IsFrom zone question.query_type r

  answers-IsFrom :
      (s : ZoneStore Name) (q : Message Name) (question : Query Name) (z : Zone Name)
      → Asks s q question z
      → IsWellFormed z
      → All (IsFrom z question.query_type) (process_query s q).answers
  answers-IsFrom s q question z ask h =
      let t = question.query_type in
      elim (Option-cases (find_records z question.name t)) [
        | inr (rs, e) ↦ subst (All (IsFrom z t)) (sym (process_query-positive ask e).0) (
            All-append (IsFrom z t) rs _ (found-IsFrom z t h question.name t e (inl refl))
              (signed-IsFrom z t h (dnssec_ok q) question.name))
        | inl e ↦ elim (Option-cases (find_records z question.name RecordType.cname)) [
          | inr (cnames, f) ↦ subst (All (IsFrom z t)) (sym (process_query-alias ask e f).0) (
              chased-IsFrom z t h cnames
                (found-IsFrom z t h question.name RecordType.cname f (inr (inl refl))))
          | inl f ↦ subst (All (IsFrom z t)) (sym (process_query-negative ask e f).0) tt
        ]
      ]

  -- Nothing else is answered.
  answers-unowned :
      (s : ZoneStore Name) (q : Message Name) (question : Query Name)
      → first q.queries ≡ some question
      → (is_query q.op_code ≡ false)
        ⊎ (((question.query_type ==ₖ RecordType.axfr) ≡ true) ⊎ (find_zone s question.name ≡ none))
      → (process_query s q).answers ≡ []
  unfolding process_query
  answers-unowned s q question asked (inl h) = ground arith
  answers-unowned s q question asked (inr (inl h)) = ground arith
  answers-unowned s q question asked (inr (inr h)) = ground arith

  -- Every answer to any query with a question comes from the zone that owns the name: where the zones
  -- of the store are well formed, a lookup of the answer's own name and type in that zone finds it,
  -- and its type is the one asked for, CNAME, or RRSIG.
  pub process_query-sources :
      (s : ZoneStore Name) (q : Message Name) (question : Query Name)
      → HasValidZones s
      → first q.queries ≡ some question
      → All (Comes s question) (process_query s q).answers
  process_query-sources s q question h asked = elim (Bool-cases (is_query q.op_code)) [
    | inr n ↦ rw (answers-unowned s q question asked (inl n)) tt
    | inl standard ↦ elim (Bool-cases (question.query_type ==ₖ RecordType.axfr)) [
      | inl axfr ↦ rw (answers-unowned s q question asked (inr (inl axfr))) tt
      | inr plain ↦ elim (Option-cases (find_zone s question.name)) [
        | inl e ↦ rw (answers-unowned s q question asked (inr (inr e))) tt
        | inr (z, e) ↦
            let ask : Asks s q question z = record {
              standard = op_code_of_query q.op_code standard;
              asked = asked;
              plain = plain;
              owned = e;
            } in
            All-imp (IsFrom z question.query_type) (Comes s question) (process_query s q).answers
              (λ r f. record { zone = z; owned = e; from = f })
              (answers-IsFrom s q question z ask (find_zone-IsWellFormed s question.name h e))
      ]
    ]
  ]

  -- Of a standard query, no zone transfer, whose name a well-formed zone answers for: where the zone
  -- does not have the name and a wildcard has records of the type, those are all the answers, whatever
  -- the DO flag, and each keeps the owner name of the wildcard, which starts with the label `*`.
  pub process_query-wildcard :
      {s : ZoneStore Name} {q : Message Name} {question : Query Name} {z : Zone Name}
      {rs : List (Record Name)}
      → Asks s q question z
      → IsWellFormed z
      → contains_name z question.name ≡ false
      → find_records z question.name question.query_type ≡ some rs
      → ((process_query s q).answers ≡ rs)
        × ((suffix : List Bytes) × (m : Name) × (api.from_labels (star ∷ suffix) ≡ some m)
            × All (λ r. (r.name ==ₖ m) ≡ true) rs)
  unfolding find_records
  process_query-wildcard {s} {q} {question} {z} {rs} ask h lacks e =
      let t = question.query_type in
      let (suffix, m, p, f) = wildcard-lookup z question.name t {rs = rs} (ground arith) in
      (
        process_query-wildcard_unsigned ask lacks e,
        (
          suffix,
          m,
          p,
          All-imp (IsFiled m t) (λ r. (r.name ==ₖ m) ≡ true) rs (λ r i. i.0)
              (lookup-IsRrset z m t h f).filed,
        ),
      )
