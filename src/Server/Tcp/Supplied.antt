-- ===== src/Server/Tcp/Supplied.antt =====
-- Where the answers in the frames of a TCP connection come from.
use mathlib.Core.List.{Memᴰ}
use mathlib.Core.Path.{subst}
use lrmdns.Prelude.{
  ◌≡◌, refl, sym, ◌⊎◌, inl, inr, none, some, List, [], ◌∷◌, ◌%◌, ◌^◌, All, All-imp, All-append,
  All-of_mem, All-mem, first, arith, length, Bool-cases, Option-cases,
}
use lrmdns.Dns.Name.{DnsApi, name_key}
use lrmdns.Dns.Rr.{rtype_key, Record}
use lrmdns.Dns.Op.{Query, Message, is_query}
use lrmdns.Zone.{Zone, lookup, get_soa_record, get_all_records, inner_records}
use lrmdns.Zone.Axfr.{Stored, inner_records_iff}
use lrmdns.Zone.Valid.{IsWellFormed, lookup-IsRrset}
use lrmdns.Zone.Store.{ZoneStore, find_zone}
use lrmdns.Zone.Store.Valid.{HasValidZones}
use lrmdns.Protocol.{process_query}
use lrmdns.Protocol.Header.{answer_in_zone-FromZone}
use lrmdns.Protocol.Sources.{Comes, process_query-sources, lookup-own}
use lrmdns.Server.{Codec}
use lrmdns.Server.Tcp.{Written}

module _ {Name : Type 0} ⦃api : DnsApi Name⦄ where
  -- The record is the zone's SOA record, or a lookup of its own name and type finds it.
  abbrev pub Has : Zone Name → Record Name → Type 0
  Has z r =
      (r ≡ get_soa_record z)
      ⊎ ((rrset : List (Record Name)) × (lookup z r.name r.rtype ≡ some rrset) × Memᴰ r rrset)

  -- The zone that owns the name of the first question has the record.
  pub record Publishes (s : ZoneStore Name) (queries : List (Query Name)) (r : Record Name)
      : Type 0 where
    pub question : Query Name
    pub asked : first queries ≡ some question
    pub zone : Zone Name
    pub owned : find_zone s question.name ≡ some zone
    pub has : Has zone r

  -- The frame has the length of its message, which encodes a reply; the zone that owns the name
  -- of the reply's question has each of its answers.
  pub record IsSuppliedFrame (c : Codec Name) (s : ZoneStore Name) (f : Written) : Type 0 where
    pub prefix : f.prefix ≡ length f.body % 2 ^ 16
    pub reply : Message Name
    pub encoded : c.to_bytes reply ≡ some f.body
    pub supplied : All (Publishes s reply.queries) reply.answers

  Stored-Has : (z : Zone Name) (r : Record Name) → IsWellFormed z → Stored z r → Has z r
  Stored-Has z r h m = inr (
    m.rrset,
    lookup-own z m.name m.rtype r m.found
        (All-mem _ m.rrset (lookup-IsRrset z m.name m.rtype h m.found).filed m.listed),
    m.listed,
  )

  pub get_all_records-Has : (z : Zone Name) → IsWellFormed z → All (Has z) (get_all_records z)
  unfolding get_all_records
  get_all_records-Has z h = (
    inl refl,
    All-append (Has z) (inner_records z) (get_soa_record z ∷ [])
        (All-of_mem (Has z) (inner_records z)
          (λ r m. Stored-Has z r h ((inner_records_iff z r).0 m)))
        (inl refl, tt),
  )

  -- what a response has for questions and answers
  process_query-asked :
      (s : ZoneStore Name) (q : Message Name) (question : Query Name)
      → first q.queries ≡ some question
      → ((process_query s q).answers ≡ []) ⊎ ((process_query s q).queries ≡ question ∷ [])
  unfolding process_query
  process_query-asked s q question h = elim (Bool-cases (is_query q.op_code)) [
    | inl b ↦ inr (grind (arith, answer_in_zone-FromZone))
    | inr b ↦ inl (ground arith)
  ]

  process_query-unasked :
      (s : ZoneStore Name) (q : Message Name)
      → first q.queries ≡ none
      → (process_query s q).answers ≡ []
  unfolding process_query
  process_query-unasked s q h = ground arith

  Comes-Publishes :
      (s : ZoneStore Name) (question : Query Name) (queries : List (Query Name)) (r : Record Name)
      → queries ≡ question ∷ []
      → Comes s question r
      → Publishes s queries r
  Comes-Publishes s question queries r e f = record {
    question = question;
    asked = rw e refl;
    zone = f.zone;
    owned = f.owned;
    has = inr (f.from.rrset, f.from.found, f.from.listed);
  }

  pub process_query-Publishes :
      (s : ZoneStore Name) (q : Message Name)
      → HasValidZones s
      → All (Publishes s (process_query s q).queries) (process_query s q).answers
  process_query-Publishes s q h = elim (Option-cases (first q.queries)) [
    | inl e ↦ subst (All _) (sym (process_query-unasked s q e)) tt
    | inr (question, e) ↦ elim (process_query-asked s q question e) [
      | inl n ↦ subst (All _) (sym n) tt
      | inr a ↦
          All-imp (Comes s question) (Publishes s (process_query s q).queries)
            (process_query s q).answers (λ r f. Comes-Publishes s question _ r a f)
            (process_query-sources s q question h e)
    ]
  ]
