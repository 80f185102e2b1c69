-- ===== src/Tests/Reporting.antt =====
-- The log and the document of the metrics at a concrete state.
use Prim.Native.String.{String}
use lrmdns.Prelude.{List, ◌++◌, ◌≤◌, ◌⊎◌, All, length, ℕ, ◌≡◌, refl, some, [], ◌∷◌}
use lrmdns.HashMap.{Map, get}
use lrmdns.Dns.Rr.{RecordType, rtype_eq, rtype_key}
use lrmdns.Metrics.Log.{top_types}
use lrmdns.Metrics.Log.Top.{top_types-greatest}
use mathlib.Core.List.{Perm}
use lrmdns.Api.{query_types, string_key}
use lrmdns.Api.QueryTypes.{query_types-get}

abbrev counts : Map RecordType ℕ
counts = (RecordType.a, 3) ∷ (RecordType.mx, 9) ∷ (RecordType.ns, 3) ∷ []

abbrev debug : RecordType → String
debug RecordType.a = "A"
debug RecordType.mx = "MX"
debug RecordType.ns = "NS"
debug _ = "Unknown"

-- the greatest count first, and equal counts in their order
top_counts : top_types counts ≡ (RecordType.mx, 9) ∷ (RecordType.a, 3) ∷ (RecordType.ns, 3) ∷ []
unfolding top_types
top_counts = refl

query_types-get_example : get "MX" (query_types debug counts) ≡ some 9
unfolding get rtype_eq
query_types-get_example =
    query_types-get debug counts RecordType.mx (refl, (refl, (refl, tt)))
      ((λ h. cc), ((λ h. refl), ((λ h. cc), tt)))

top_types-greatest_example :
    (others : List (RecordType × ℕ)) × Perm (top_types counts ++ others) counts
    × (length (top_types counts) ≤ 10)
    × ((others ≡ []) ⊎ (length (top_types counts) ≡ 10))
    × All (λ o. All (λ t. o.1 ≤ t.1) (top_types counts)) others
top_types-greatest_example = top_types-greatest counts
