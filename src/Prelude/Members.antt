-- ===== src/Prelude/Members.antt =====
-- Membership in the lists that the program builds by sorting and by nested loops.
use mathlib.Core.Path.{refl, subst}
use mathlib.Core.Logic.{◌⊎◌, inl, inr}
use mathlib.Core.Bool.{Bool}
use mathlib.Core.List.{List, [], ◌∷◌, ◌++◌, Memᴰ}
use lrmdns.Prelude.Tests.{Bool-cases}
use lrmdns.Prelude.Lists.{concat_map, sort_insert, sort}

module _ {ℓ} {A : Type ℓ} where
  pub Mem-append_left : (xs ys : List A) {a : A} → Memᴰ a xs → Memᴰ a (xs ++ ys)
  Mem-append_left [] ys m = elim m [ ]
  Mem-append_left (x ∷ xs) ys (Memᴰ.head e) = Memᴰ.head e
  Mem-append_left (x ∷ xs) ys (Memᴰ.tail m) = Memᴰ.tail (Mem-append_left xs ys m)

  pub Mem-append_right : (xs ys : List A) {a : A} → Memᴰ a ys → Memᴰ a (xs ++ ys)
  Mem-append_right [] ys m = m
  Mem-append_right (x ∷ xs) ys m = Memᴰ.tail (Mem-append_right xs ys m)

  pub Mem-append_cases : (xs ys : List A) {a : A} → Memᴰ a (xs ++ ys) → Memᴰ a xs ⊎ Memᴰ a ys
  Mem-append_cases [] ys m = inr m
  Mem-append_cases (x ∷ xs) ys (Memᴰ.head e) = inl (Memᴰ.head e)
  Mem-append_cases (x ∷ xs) ys (Memᴰ.tail m) = elim (Mem-append_cases xs ys m) [
    | inl h ↦ inl (Memᴰ.tail h)
    | inr h ↦ inr h
  ]

module _ {ℓ κ} {A : Type ℓ} {B : Type κ} (f : B → List A) where
  pub Mem-concat_map :
      (bs : List B) {a : A} {b : B} → Memᴰ b bs → Memᴰ a (f b) → Memᴰ a (concat_map f bs)
  Mem-concat_map [] m h = elim m [ ]
  Mem-concat_map (x ∷ bs) {a} (Memᴰ.head e) h =
      Mem-append_left (f x) (concat_map f bs) (subst (λ y. Memᴰ a (f y)) e h)
  Mem-concat_map (x ∷ bs) (Memᴰ.tail m) h =
      Mem-append_right (f x) (concat_map f bs) (Mem-concat_map bs m h)

  pub concat_map-Mem :
      (bs : List B) {a : A} → Memᴰ a (concat_map f bs) → (b : B) × Memᴰ b bs × Memᴰ a (f b)
  concat_map-Mem [] m = elim m [ ]
  concat_map-Mem (x ∷ bs) m = elim (Mem-append_cases (f x) (concat_map f bs) m) [
    | inl h ↦ (x, Memᴰ.head refl, h)
    | inr h ↦ let (b, i, j) = concat_map-Mem bs h in (b, Memᴰ.tail i, j)
  ]

module _ {ℓ} {A : Type ℓ} where
  Mem-swap : {a x y : A} {ys : List A} → Memᴰ a (x ∷ y ∷ ys) → Memᴰ a (y ∷ x ∷ ys)
  Mem-swap (Memᴰ.head e) = Memᴰ.tail (Memᴰ.head e)
  Mem-swap (Memᴰ.tail (Memᴰ.head e)) = Memᴰ.head e
  Mem-swap (Memᴰ.tail (Memᴰ.tail m)) = Memᴰ.tail (Memᴰ.tail m)

  Mem-cons :
      {a y : A} {xs ys : List A} → (Memᴰ a xs → Memᴰ a ys) → Memᴰ a (y ∷ xs) → Memᴰ a (y ∷ ys)
  Mem-cons f (Memᴰ.head e) = Memᴰ.head e
  Mem-cons f (Memᴰ.tail m) = Memᴰ.tail (f m)

module _ {ℓ} {A : Type ℓ} (lt : A → A → Bool) where
  Mem-sort_insert : (x : A) (ys : List A) {a : A} → Memᴰ a (x ∷ ys) → Memᴰ a (sort_insert lt x ys)
  Mem-sort_insert x [] m = m
  Mem-sort_insert x (y ∷ ys) {a} m = elim (Bool-cases (lt y x)) [
    | inr n ↦ rw n m
    | inl l ↦ rw l (Mem-cons (λ k. Mem-sort_insert x ys k) (Mem-swap m))
  ]

  sort_insert-Mem : (x : A) (ys : List A) {a : A} → Memᴰ a (sort_insert lt x ys) → Memᴰ a (x ∷ ys)
  sort_insert-Mem x [] m = m
  sort_insert-Mem x (y ∷ ys) {a} m = elim (Bool-cases (lt y x)) [
    | inr n ↦ rw n at m
    | inl l ↦
        let m' : Memᴰ a (y ∷ sort_insert lt x ys) = rw l at m in
        Mem-swap (Mem-cons (λ k. sort_insert-Mem x ys k) m')
  ]

  pub Mem-sort : (xs : List A) {a : A} → Memᴰ a xs → Memᴰ a (sort lt xs)
  Mem-sort [] m = m
  Mem-sort (x ∷ xs) (Memᴰ.head e) = Mem-sort_insert x (sort lt xs) (Memᴰ.head e)
  Mem-sort (x ∷ xs) (Memᴰ.tail m) = Mem-sort_insert x (sort lt xs) (Memᴰ.tail (Mem-sort xs m))

  pub sort-Mem : (xs : List A) {a : A} → Memᴰ a (sort lt xs) → Memᴰ a xs
  sort-Mem [] m = m
  sort-Mem (x ∷ xs) m = elim (sort_insert-Mem x (sort lt xs) m) [
    | Memᴰ.head e ↦ Memᴰ.head e
    | Memᴰ.tail i ↦ Memᴰ.tail (sort-Mem xs i)
  ]
