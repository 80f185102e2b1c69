-- ===== src/Metrics/Log/Top.antt =====
-- The query types that the log lists.
use mathlib.Core.List.{Perm}
use mathlib.Core.Path.{subst}
use lrmdns.Prelude.{
  ℕ, ◌≤◌, ◌≡◌, sym, ◌⊎◌, true, false, List, [], ◌++◌, All, All-imp, arith, length, sort, take,
}
use lrmdns.Prelude.Sorting.{
  drop, take-drop, length-take, drop-full, sort-Perm, sort-IsSorted, IsSorted, IsSorted-parts,
}
use lrmdns.HashMap.{Map}
use lrmdns.Dns.Rr.{RecordType}
use lrmdns.Metrics.Log.{counts_more, top_types}

counts_more_asym : (a b : RecordType × ℕ) → counts_more a b ≡ true → counts_more b a ≡ false
counts_more_asym a b h = ground arith

counts_more_trans :
    (a b c : RecordType × ℕ)
    → counts_more b a ≡ false
    → counts_more c b ≡ false
    → counts_more c a ≡ false
counts_more_trans a b c h k = ground arith

le_of_counts : (a b : RecordType × ℕ) → counts_more a b ≡ false → a.1 ≤ b.1
le_of_counts a b h = ground arith

-- The query types that the log lists are the ten with the greatest counts, or all if there are fewer:
-- together with the others they are those of the map, and no other has a greater count than one of
-- them.
pub top_types-greatest :
    (query_types : Map RecordType ℕ)
    → (others : List (RecordType × ℕ)) × Perm (top_types query_types ++ others) query_types
      × (length (top_types query_types) ≤ 10)
      × ((others ≡ []) ⊎ (length (top_types query_types) ≡ 10))
      × All (λ o. All (λ t. o.1 ≤ t.1) (top_types query_types)) others
unfolding top_types
top_types-greatest query_types =
    let sorted = sort counts_more query_types in
    let joined = take-drop 10 sorted in
    (
      drop 10 sorted,
      subst (λ l. Perm l query_types) (sym joined) (sort-Perm counts_more query_types),
      length-take 10 sorted,
      drop-full 10 sorted,
      All-imp (λ o. All (λ t. counts_more o t ≡ false) (take 10 sorted))
          (λ o. All (λ t. o.1 ≤ t.1) (take 10 sorted)) (drop 10 sorted)
          (λ o h.
            All-imp (λ t. counts_more o t ≡ false) (λ t. o.1 ≤ t.1) (take 10 sorted)
              (λ t. le_of_counts o t) h)
          (IsSorted-parts counts_more (take 10 sorted) (drop 10 sorted) (
            subst (IsSorted counts_more) (sym joined)
              (sort-IsSorted counts_more counts_more_asym counts_more_trans query_types))),
    )
