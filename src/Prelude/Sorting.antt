-- ===== src/Prelude/Sorting.antt =====
-- Sorting: the result is a permutation, in order where `lt` orders all elements.
use Prim.Native.Nat.{ℕ, zero, suc, ◌≤◌}
use mathlib.Core.Path.{◌≡◌, refl}
use mathlib.Core.Logic.{◌⊎◌, inl, inr}
use mathlib.Core.Bool.{Bool, true, false}
use mathlib.Core.List.{List, [], ◌∷◌, ◌++◌, Perm}
use mathlib.Core.List.Perm
use native.Mathlib.Omega.{arith}
use lrmdns.Prelude.Tests.{Bool-cases}
use lrmdns.Prelude.Lists.{sort_insert, sort, All, All-imp, take, length}

module _ {ℓ} {A : Type ℓ} where
  abbrev pub drop : ℕ → List A → List A
  drop zero xs = xs
  drop (suc n) [] = []
  drop (suc n) (x ∷ xs) = drop n xs

  pub take-drop : (n : ℕ) (xs : List A) → take n xs ++ drop n xs ≡ xs
  take-drop zero xs = refl
  take-drop (suc n) [] = refl
  take-drop (suc n) (x ∷ xs) = rw (take-drop n xs) refl

  pub length-take : (n : ℕ) (xs : List A) → length (take n xs) ≤ n
  length-take zero xs = omega arith
  length-take (suc n) [] = omega arith
  length-take (suc n) (x ∷ xs) = omega (arith, length-take n xs)

  -- something is left only where `n` elements are taken
  pub drop-full : (n : ℕ) (xs : List A) → (drop n xs ≡ []) ⊎ (length (take n xs) ≡ n)
  drop-full zero xs = inr refl
  drop-full (suc n) [] = inl refl
  drop-full (suc n) (x ∷ xs) = ground (arith, drop-full n xs)

module _ {ℓ} {A : Type ℓ} (lt : A → A → Bool) where
  sort_insert-Perm : (x : A) (ys : List A) → Perm (sort_insert lt x ys) (x ∷ ys)
  sort_insert-Perm x [] = Perm.refl (x ∷ [])
  sort_insert-Perm x (y ∷ ys) = elim (Bool-cases (lt y x)) [
    | inl l ↦ rw l (Perm.trans (Perm.cons y (sort_insert-Perm x ys)) (Perm.swap x y ys))
    | inr n ↦ rw n (Perm.refl (x ∷ y ∷ ys))
  ]

  pub sort-Perm : (xs : List A) → Perm (sort lt xs) xs
  sort-Perm [] = Perm.nil
  sort-Perm (x ∷ xs) = Perm.trans (sort_insert-Perm x (sort lt xs)) (Perm.cons x (sort-Perm xs))

  All-sort_insert {κ} :
      (P : A → Type κ) (x : A) (ys : List A) → P x → All P ys → All P (sort_insert lt x ys)
  All-sort_insert P x [] p h = (p, tt)
  All-sort_insert P x (y ∷ ys) p h = elim (Bool-cases (lt y x)) [
    | inl l ↦ rw l (h.0, All-sort_insert P x ys p h.1)
    | inr n ↦ rw n (p, h)
  ]

  -- no later element comes before an earlier one
  abbrev pub IsSorted : List A → Type ℓ
  IsSorted [] = Unit
  IsSorted (x ∷ xs) = All (λ y. lt y x ≡ false) xs × IsSorted xs

  module _ (asym : (x y : A) → lt x y ≡ true → lt y x ≡ false)
      (trans : (x y z : A) → lt y x ≡ false → lt z y ≡ false → lt z x ≡ false) where
    sort_insert-IsSorted : (x : A) (ys : List A) → IsSorted ys → IsSorted (sort_insert lt x ys)
    sort_insert-IsSorted x [] h = (tt, tt)
    sort_insert-IsSorted x (y ∷ ys) h = elim (Bool-cases (lt y x)) [
      | inl l ↦ rw l (
        All-sort_insert (λ z. lt z y ≡ false) x ys (asym y x l) h.0,
        sort_insert-IsSorted x ys h.1,
      )
      | inr n ↦ rw n (
        (n, All-imp (λ z. lt z y ≡ false) (λ z. lt z x ≡ false) ys (λ z m. trans x y z n m) h.0),
        h,
      )
    ]

    pub sort-IsSorted : (xs : List A) → IsSorted (sort lt xs)
    sort-IsSorted [] = tt
    sort-IsSorted (x ∷ xs) = sort_insert-IsSorted x (sort lt xs) (sort-IsSorted xs)

  All-append_right {κ} : (P : A → Type κ) (xs ys : List A) → All P (xs ++ ys) → All P ys
  All-append_right P [] ys h = h
  All-append_right P (x ∷ xs) ys h = All-append_right P xs ys h.1

  All-true : (ys : List A) → All (λ y. Unit {0}) ys
  All-true [] = tt
  All-true (y ∷ ys) = (tt, All-true ys)

  All-pair {κ μ} :
      (P : A → Type κ) (Q : A → Type μ) (ys : List A)
      → All P ys
      → All Q ys
      → All (λ y. P y × Q y) ys
  All-pair P Q [] h k = tt
  All-pair P Q (y ∷ ys) h k = ((h.0, k.0), All-pair P Q ys h.1 k.1)

  -- In a sorted list, nothing in the second part comes before anything in the first.
  pub IsSorted-parts :
      (xs ys : List A) → IsSorted (xs ++ ys) → All (λ y. All (λ x. lt y x ≡ false) xs) ys
  IsSorted-parts [] ys h = All-true ys
  IsSorted-parts (x ∷ xs) ys h =
      All-pair (λ y. lt y x ≡ false) (λ y. All (λ x. lt y x ≡ false) xs) ys
        (All-append_right (λ y. lt y x ≡ false) xs ys h.0) (IsSorted-parts xs ys h.1)
