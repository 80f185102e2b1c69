-- ===== src/Api/QueryTypes.antt =====
-- The counts of the query types in the document.
use Prim.Native.String.{String}
use lrmdns.Prelude.{ℕ, ◌≡◌, refl, true, Option, none, some, [], ◌∷◌, arith}
use lrmdns.HashMap.{◌==ₖ◌, Map, get, insert}
use lrmdns.HashMap.Laws.{get-insert, get-cong}
use lrmdns.HashMap.Distinct.{Distinct, Entries}
use lrmdns.Dns.Rr.{RecordType, rtype_key, eq_of_rtype_eq}
use lrmdns.Api.{string_key, collect, named, query_types}

or_else {ℓ} : {A : Type ℓ} → Option A → Option A → Option A
or_else none o = o
or_else (some a) o = some a

module _ (debug : RecordType → String) where
  -- No other type of the map has the name of this one.
  abbrev pub IsOnlyName : RecordType → Map RecordType ℕ → Type 0
  IsOnlyName t = Entries (λ j n. (debug j ==ₖ debug t) ≡ true → (j ==ₖ t) ≡ true)

  same_name : (s t : RecordType) → (s ==ₖ t) ≡ true → (debug s ==ₖ debug t) ≡ true
  same_name s t h = rw (eq_of_rtype_eq s t h) (string_key.eq_refl (debug t))

  get-collect :
      (m : Map RecordType ℕ) (acc : Map String ℕ) (t : RecordType)
      → Distinct m
      → IsOnlyName t m
      → get (debug t) (collect (named debug m) acc) ≡ or_else (get t m) (get (debug t) acc)
  unfolding collect named get or_else
  get-collect [] acc t d f = refl
  get-collect ((j, n) ∷ m) acc t d f = ground (
    arith,
    get-collect m (insert (debug j) n acc) t d.1 f.1,
    get-insert (debug j) (debug t) n acc,
    get-cong j t m,
    f.0,
    same_name j t,
    d.0,
  )

-- The document holds, under the name of each record type, the number of its queries, and nothing under
-- the name of a type that was never asked for, as long as the map holds no type twice and no other
-- type of the map has the same name.
pub query_types-get :
    (debug : RecordType → String) (m : Map RecordType ℕ) (t : RecordType)
    → Distinct m
    → IsOnlyName debug t m
    → get (debug t) (query_types debug m) ≡ get t m
unfolding query_types or_else get
query_types-get debug m t d f = ground (arith, get-collect debug m [] t d f)
