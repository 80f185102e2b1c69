-- ===== src/Zone/Axfr/Once.antt =====
-- A zone transfer holds each record of the zone as often as the zone does.
use mathlib.Core.List.{Memᴰ, Perm, append_assoc, perm_append_comm}
use mathlib.Core.List.Perm
use mathlib.Core.Path.{subst₂}
use lrmdns.Prelude.{
  ◌≡◌, ◌↔◌, refl, false, Bool, Option, none, some, List, [], ◌∷◌, ◌++◌, concat_map, sort,
  sort_insert, if◌then◌else◌, option_or, arith, All-mem, Bool-cases, inl, inr,
}
use lrmdns.HashMap.{Key, ◌==ₖ◌, Map, keys, get}
use lrmdns.HashMap.Distinct.{Distinct}
use lrmdns.Dns.Name.{DnsApi, name_key}
use lrmdns.Dns.Rr.{RecordType, rtype_key, Record}
use lrmdns.Zone.{
  Zone, TypeMap, records_at, sorted_records, inner_records, get_all_records, get_soa_record,
}
use lrmdns.Zone.Axfr.{Stored, inner_records_iff}
use lrmdns.Zone.Valid.{IsWellFormed, IsTypes}

swap-Perm {ℓ} : {A : Type ℓ} (a b c : List A) → Perm (a ++ (b ++ c)) (b ++ (a ++ c))
swap-Perm a b c =
    subst₂ Perm (append_assoc a b c) (append_assoc b a c)
      (Perm.append_right c (perm_append_comm a b))

module _ {ℓ κ} {A : Type ℓ} {B : Type κ} where
  concat_map-cong :
      (f g : B → List A) (bs : List B)
      → ((b : B) → Memᴰ b bs → Perm (f b) (g b))
      → Perm (concat_map f bs) (concat_map g bs)
  concat_map-cong f g [] h = Perm.nil
  concat_map-cong f g (b ∷ bs) h =
      Perm.append (h b (Memᴰ.head refl)) (concat_map-cong f g bs (λ c m. h c (Memᴰ.tail m)))

  concat_map-sort_insert :
      (f : B → List A) (lt : B → B → Bool) (x : B) (ys : List B)
      → Perm (concat_map f (sort_insert lt x ys)) (f x ++ concat_map f ys)
  concat_map-sort_insert f lt x [] = Perm.refl (f x ++ [])
  concat_map-sort_insert f lt x (y ∷ ys) = elim (Bool-cases (lt y x)) [
    | inl l ↦ rw l (
        Perm.trans (Perm.append_left (f y) (concat_map-sort_insert f lt x ys))
          (swap-Perm (f y) (f x) (concat_map f ys)))
    | inr n ↦ rw n (Perm.refl (f x ++ (f y ++ concat_map f ys)))
  ]

  concat_map-sort :
      (f : B → List A) (lt : B → B → Bool) (bs : List B)
      → Perm (concat_map f (sort lt bs)) (concat_map f bs)
  concat_map-sort f lt [] = Perm.nil
  concat_map-sort f lt (b ∷ bs) =
      Perm.trans (concat_map-sort_insert f lt b (sort lt bs))
        (Perm.append_left (f b) (concat_map-sort f lt bs))

module _ {ℓ κ} {K : Type ℓ} {V : Type κ} ⦃k : Key K⦄ where
  -- a key that the map lists is not one that it does not find
  fresh-key : (j : K) (m : Map K V) {i : K} → get j m ≡ none → Memᴰ i (keys m) → (j ==ₖ i) ≡ false
  unfolding get
  fresh-key j [] h i = elim i [ ]
  fresh-key j ((a, v) ∷ m) {i} h (Memᴰ.head e) = ground (arith, k.eq_sym j i)
  fresh-key j ((a, v) ∷ m) h (Memᴰ.tail t) = fresh-key j m (ground arith) t

module _ {ℓ κ μ} {K : Type ℓ} {V : Type κ} {A : Type μ} ⦃k : Key K⦄ where
  -- Going through the keys and getting each is going through the entries.
  concat_map-keys :
      (f : K → Option V → List A) (m : Map K V)
      → Distinct m
      → Perm (concat_map (λ i. f i (get i m)) (keys m)) (concat_map (λ e. f e.0 (some e.1)) m)
  unfolding get
  concat_map-keys f [] d = Perm.nil
  concat_map-keys f ((j, v) ∷ m) d = Perm.append (rw (k.eq_refl j) (Perm.refl (f j (some v)))) (
      Perm.trans
        (concat_map-cong (λ i. f i (get i ((j, v) ∷ m))) (λ i. f i (get i m)) (keys m)
          (λ i t. rw (fresh-key j m d.0 t) (Perm.refl (f i (get i m)))))
        (concat_map-keys f m d.1))

module _ {Name : Type 0} ⦃api : DnsApi Name⦄ where
  -- the records of the zone in the order of its maps, those of SOA RRsets left out
  abbrev pub transferable : TypeMap Name → List (Record Name)
  transferable types = concat_map (λ e. if e.0 ==ₖ RecordType.soa then [] else e.1) types

  abbrev pub stored_records : Zone Name → List (Record Name)
  stored_records z = concat_map (λ e. transferable e.1) z.records

  sorted_records-Perm :
      (types : TypeMap Name)
      → Distinct types
      → Perm (sorted_records (some types)) (transferable types)
  unfolding records_at
  sorted_records-Perm types d =
      Perm.trans (concat_map-sort (records_at types) api.rtype_lt (keys types)) (
        concat_map-keys (λ t found. if t ==ₖ RecordType.soa then [] else option_or found []) types
          d)

  inner_records-Perm : (z : Zone Name) → IsWellFormed z → Perm (inner_records z) (stored_records z)
  unfolding inner_records
  inner_records-Perm z h =
      Perm.trans (concat_map-sort (λ n. sorted_records (get n z.records)) api.lt (keys z.records)) (
        Perm.trans (concat_map-keys (λ n found. sorted_records found) z.records h.distinct) (
          concat_map-cong (λ e. sorted_records (some e.1)) (λ e. transferable e.1) z.records
            (λ e m.
              sorted_records-Perm e.1
                (All-mem (λ e. IsTypes e.0 e.1) z.records h.types m).distinct)))

  -- A transfer of a well-formed zone is its SOA record, the records that it holds, each as often as it
  -- holds it and those of SOA RRsets left out, and its SOA record again; a record stands in the middle
  -- exactly if a lookup finds it for a type other than SOA.
  pub get_all_records-Perm :
      (z : Zone Name)
      → IsWellFormed z
      → (middle : List (Record Name)) × (get_all_records z
          ≡ get_soa_record z ∷ (middle ++ get_soa_record z ∷ []))
        × Perm middle (stored_records z)
        × ((r : Record Name) → Memᴰ r middle ↔ Stored z r)
  unfolding get_all_records
  get_all_records-Perm z h =
      (inner_records z, refl, inner_records-Perm z h, λ r. inner_records_iff z r)
