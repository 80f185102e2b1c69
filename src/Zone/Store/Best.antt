-- ===== src/Zone/Store/Best.antt =====
-- The zone that a store picks for a name.
use mathlib.Core.Path.{subst}
use lrmdns.Prelude.{
  ℕ, ◌≤◌, ◌<◌, ◌≡◌, refl, ◌⊎◌, inl, inr, ◌↔◌, ◌&&◌, true, none, some, List, [], ◌∷◌, arith, All,
  All-mem, ltb, Bool-cases, Option-cases, Option,
}
use mathlib.Core.List.{Memᴰ}
use lrmdns.HashMap.{get, values}
use lrmdns.Dns.Name.{DnsApi, name_key}
use lrmdns.Zone.{Zone}
use lrmdns.Zone.Store.{ZoneStore, best_step, best_loop, find_zone}

module _ {Name : Type 0} ⦃api : DnsApi Name⦄ where
  abbrev pub Covers : Name → Zone Name → Type 0
  Covers n z = api.zone_of z.origin n ≡ true

  -- Every zone of the list that covers the name has at most this many labels in its origin.
  abbrev pub AtMost : Name → ℕ → List (Zone Name) → Type 0
  AtMost n bound = All (λ y. Covers n y → api.num_labels y.origin ≤ bound)

  -- `z` is a zone of the list that covers the name, and no other has a longer origin.
  pub record IsLongest (n : Name) (zs : List (Zone Name)) (z : Zone Name) : Type 0 where
    pub listed : Memᴰ z zs
    pub covers : Covers n z
    pub positive : 0 < api.num_labels z.origin
    pub longest : AtMost n (api.num_labels z.origin) zs

  best_step-grows :
      (n : Name) (z : Zone Name) (best : Option (Zone Name)) (labels : ℕ)
      → (labels ≤ (best_step n z (best, labels)).1)
        × (Covers n z → api.num_labels z.origin ≤ (best_step n z (best, labels)).1)
  unfolding best_step
  best_step-grows n z best labels = ground arith

  best_loop-grows :
      (n : Name) (zs : List (Zone Name)) (acc : Option (Zone Name) × ℕ)
      → acc.1 ≤ (best_loop n zs acc).1
  unfolding best_loop
  best_loop-grows n [] acc = omega arith
  best_loop-grows n (z ∷ zs) (best, labels) =
      omega (
        arith,
        best_loop-grows n zs (best_step n z (best, labels)),
        best_step-grows n z best labels,
      )

  best_loop-AtMost :
      (n : Name) (zs : List (Zone Name)) (acc : Option (Zone Name) × ℕ)
      → AtMost n (best_loop n zs acc).1 zs
  unfolding best_loop
  best_loop-AtMost n [] acc = tt
  best_loop-AtMost n (z ∷ zs) (best, labels) = (
    λ c. omega (
      arith,
      best_loop-grows n zs (best_step n z (best, labels)),
      (best_step-grows n z best labels).1 c,
    ),
    best_loop-AtMost n zs (best_step n z (best, labels)),
  )

  -- What the loop holds is what it began with, or a covering zone of the list with its labels.
  Picked : Name → List (Zone Name) → Option (Zone Name) × ℕ → Type 0
  Picked n zs acc =
      (z : Zone Name) × Memᴰ z zs
      × Covers n z
      × (acc.0 ≡ some z)
      × (acc.1 ≡ api.num_labels z.origin)
      × (0 < acc.1)

  Picked-tail :
      (n : Name) (y : Zone Name) (zs : List (Zone Name)) (acc : Option (Zone Name) × ℕ)
      → Picked n zs acc
      → Picked n (y ∷ zs) acc
  unfolding Picked
  Picked-tail n y zs acc (z, m, p, q, r, t) = (z, Memᴰ.tail m, p, q, r, t)

  best_step-Picked :
      (n : Name) (z : Zone Name) (zs : List (Zone Name)) (best : Option (Zone Name)) (labels : ℕ)
      → (best_step n z (best, labels) ≡ (best, labels))
        ⊎ Picked n (z ∷ zs) (best_step n z (best, labels))
  unfolding best_step Picked
  best_step-Picked n z zs best labels =
      elim (Bool-cases (api.zone_of z.origin n && ltb labels (api.num_labels z.origin))) [
        | inl b ↦ inr (z, Memᴰ.head refl, ground arith, rw b, rw b, ground arith)
        | inr b ↦ inl (rw b)
      ]

  best_loop-Picked :
      (n : Name) (zs : List (Zone Name)) (acc : Option (Zone Name) × ℕ)
      → (best_loop n zs acc ≡ acc) ⊎ Picked n zs (best_loop n zs acc)
  unfolding best_loop
  best_loop-Picked n [] acc = inl refl
  best_loop-Picked n (z ∷ zs) (best, labels) =
      elim (best_loop-Picked n zs (best_step n z (best, labels))) [
        | inr p ↦ inr (Picked-tail n z zs _ p)
        | inl e ↦ rw e (best_step-Picked n z zs best labels)
      ]

  IsLongest-of_Picked :
      (n : Name) (zs : List (Zone Name)) {z : Zone Name}
      → Picked n zs (best_loop n zs (none, 0))
      → (best_loop n zs (none, 0)).0 ≡ some z
      → IsLongest n zs z
  unfolding Picked
  IsLongest-of_Picked n zs {z} (y, m, c, held, count, pos) e =
      let same : y ≡ z = ground arith in
      subst (IsLongest n zs) same (record {
        listed = m;
        covers = c;
        positive = omega arith;
        longest = rw count at (best_loop-AtMost n zs (none, 0));
      })

  best_loop-IsLongest :
      (n : Name) (zs : List (Zone Name)) {z : Zone Name}
      → (best_loop n zs (none, 0)).0 ≡ some z
      → IsLongest n zs z
  best_loop-IsLongest n zs {z} e = elim (best_loop-Picked n zs (none, 0)) [
    | inl same ↦ let impossible : none ≡ some z = rw same at e in cc
    | inr p ↦ IsLongest-of_Picked n zs p e
  ]

  best_loop-none :
      (n : Name) (zs : List (Zone Name)) → (best_loop n zs (none, 0)).0 ≡ none → AtMost n 0 zs
  unfolding Picked
  best_loop-none n zs e = elim (best_loop-Picked n zs (none, 0)) [
    | inl same ↦ rw same at (best_loop-AtMost n zs (none, 0))
    | inr (z, m, c, held, count, pos) ↦ cc
  ]

  best_loop-eq-none :
      (n : Name) (zs : List (Zone Name)) → AtMost n 0 zs → (best_loop n zs (none, 0)).0 ≡ none
  unfolding Picked
  best_loop-eq-none n zs h = elim (best_loop-Picked n zs (none, 0)) [
    | inl same ↦ rw same
    | inr (z, m, c, held, count, pos) ↦ absurd (
        omega
          (arith, All-mem (λ (y : Zone Name). Covers n y → api.num_labels y.origin ≤ 0) zs h m c))
  ]

  -- The zone that answers for a name is the one whose origin is the name, or else a zone of the
  -- store that covers the name, has a label, and has as many labels as any that covers it.
  pub find_zone-IsLongest :
      (s : ZoneStore Name) (n : Name) {z : Zone Name}
      → find_zone s n ≡ some z
      → (get n s.zones ≡ some z) ⊎ ((get n s.zones ≡ none) × IsLongest n (values s.zones) z)
  unfolding find_zone
  find_zone-IsLongest s n {z} h = elim (Option-cases (get n s.zones)) [
    | inl e ↦ inr (e, best_loop-IsLongest n (values s.zones) (ground arith))
    | inr (y, e) ↦ inl (ground arith)
  ]

  -- No zone is found exactly where none has the name for its origin and every zone that covers the
  -- name has an origin without labels: the root zone answers for its own name only.
  pub find_zone-none :
      (s : ZoneStore Name) (n : Name)
      → (find_zone s n ≡ none) ↔ ((get n s.zones ≡ none) × AtMost n 0 (values s.zones))
  unfolding find_zone
  find_zone-none s n = (
    λ h. (ground arith, best_loop-none n (values s.zones) (ground arith)),
    λ h. ground (arith, best_loop-eq-none n (values s.zones) h.1),
  )
