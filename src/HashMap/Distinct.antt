-- ===== src/HashMap/Distinct.antt =====
-- No key twice: what a map built by its operations satisfies, and what iterating over it needs.
use mathlib.Core.Path.{subst}
use mathlib.Core.List.{Memᴰ}
use lrmdns.Prelude.{
  sym, ap, ◌∙◌, Bool-cases, inl, inr, ◌≡◌, refl, true, none, some, [], ◌∷◌, arith, All,
}
use lrmdns.HashMap.{Key, ◌==ₖ◌, Map, values, get, insert, modify}
use lrmdns.HashMap.Laws.{get-cong, get-insert, get-modify}

module _ {ℓ κ} {K : Type ℓ} {V : Type κ} ⦃k : Key K⦄ where
  abbrev pub Distinct : Map K V → Type κ
  Distinct [] = Unit
  Distinct ((j, v) ∷ m) = (get j m ≡ none) × Distinct m

  pub insert-Distinct : (a : K) (v : V) (m : Map K V) → Distinct m → Distinct (insert a v m)
  unfolding insert get
  insert-Distinct a v [] h = (refl, tt)
  insert-Distinct a v ((j, w) ∷ m) h =
      ground (arith, get-insert a j v m, k.eq_sym a j, insert-Distinct a v m h.1)

  pub modify-Distinct :
      (a : K) (d : V) (f : V → V) (m : Map K V) → Distinct m → Distinct (modify a d f m)
  unfolding modify get
  modify-Distinct a d f [] h = (refl, tt)
  modify-Distinct a d f ((j, w) ∷ m) h =
      ground (arith, get-modify a j d f m, k.eq_sym a j, modify-Distinct a d f m h.1)

  -- A predicate of every entry.
  abbrev pub Entries {μ} : (K → V → Type μ) → Map K V → Type μ
  Entries P = All (λ e. P e.0 e.1)

  pub insert-Entries {μ} :
      (P : V → Type μ) (a : K) (v : V) (m : Map K V)
      → P v
      → Entries (λ b. P) m
      → Entries (λ b. P) (insert a v m)
  unfolding insert
  insert-Entries P a v [] new h = (new, tt)
  insert-Entries P a v ((j, w) ∷ m) new h = elim (Bool-cases (j ==ₖ a)) [
    | inl t ↦ rw t (new, h.1)
    | inr e ↦ rw e (h.0, insert-Entries P a v m new h.1)
  ]

  -- the same for a predicate of keys and values
  pub insert-KeyedEntries {μ} :
      (P : K → V → Type μ) (a : K) (v : V) (m : Map K V)
      → P a v
      → ((b : K) → (b ==ₖ a) ≡ true → P b v)
      → Entries P m
      → Entries P (insert a v m)
  unfolding insert
  insert-KeyedEntries P a v [] new own h = (new, tt)
  insert-KeyedEntries P a v ((j, w) ∷ m) new own h = elim (Bool-cases (j ==ₖ a)) [
    | inl t ↦ rw t (own j t, h.1)
    | inr e ↦ rw e (h.0, insert-KeyedEntries P a v m new own h.1)
  ]

  -- In a map without a key twice, each value is found under its key.
  pub values-get {μ} :
      (P : K → V → Type μ) (m : Map K V) {v : V}
      → Distinct m
      → Entries P m
      → Memᴰ v (values m)
      → (a : K) × P a v × (get a m ≡ some v)
  unfolding get
  values-get P [] d h i = elim i [ ]
  values-get P ((j, w) ∷ m) d h (Memᴰ.head e) =
      let found : get j ((j, w) ∷ m) ≡ some w = ground (arith, k.eq_refl j) in
      (j, subst (P j) (sym e) h.0, found ∙ ap some (sym e))
  values-get P ((j, w) ∷ m) d h (Memᴰ.tail i) =
      let (a, p, g) = values-get P m d.1 h.1 i in
      elim (Bool-cases (j ==ₖ a)) [
        | inl t ↦
            let clash : get j m ≡ get a m = get-cong j a m t in
            absurd (ground (arith, d.0, g, clash))
        | inr f ↦ (a, p, ground (arith, f, g))
      ]

  -- what is found under a key is a value
  pub get-values : (a : K) (m : Map K V) {v : V} → get a m ≡ some v → Memᴰ v (values m)
  unfolding get
  get-values a [] e = cc
  get-values a ((j, w) ∷ m) {v} e = elim (Bool-cases (j ==ₖ a)) [
    | inl t ↦ Memᴰ.head (ground arith)
    | inr f ↦ Memᴰ.tail (get-values a m (rw f at e))
  ]

  -- An update keeps a predicate that the value added satisfies, and that the update itself keeps.
  pub modify-Entries {μ} :
      (P : K → V → Type μ) (a : K) (d : V) (f : V → V) (m : Map K V)
      → P a (f d)
      → ((b : K) (v : V) → (b ==ₖ a) ≡ true → P b v → P b (f v))
      → Entries P m
      → Entries P (modify a d f m)
  unfolding modify
  modify-Entries P a d f [] new keep h = (new, tt)
  modify-Entries P a d f ((j, w) ∷ m) new keep h = elim (Bool-cases (j ==ₖ a)) [
    | inl t ↦ rw t (keep j w t h.0, h.1)
    | inr e ↦ rw e (h.0, modify-Entries P a d f m new keep h.1)
  ]

  pub get-Entries {μ} :
      (P : K → V → Type μ)
      → ((a b : K) (v : V) → (a ==ₖ b) ≡ true → P a v → P b v)
      → (a : K) (m : Map K V) {v : V} → Entries P m
      → get a m ≡ some v
      → P a v
  unfolding get
  get-Entries P cong a [] h e = cc
  get-Entries P cong a ((j, w) ∷ m) {v} h e = elim (Bool-cases (j ==ₖ a)) [
    | inl t ↦ let same : w ≡ v = ground arith in subst (P a) same (cong j a w t h.0)
    | inr f ↦ get-Entries P cong a m h.1 (rw f at e)
  ]
