-- ===== src/Server/Run/Pick.antt =====
-- Taking one of the tasks that wait.
use mathlib.Core.List.{Perm}
use mathlib.Core.List.Perm
use mathlib.Core.Path.{subst, subst₂}
use lrmdns.Prelude.{ℕ, zero, suc, ◌≡◌, some, List, [], ◌∷◌, All, arith, Option-cases, inl, inr}
use lrmdns.Server.State.{pick}

pub pick-Perm {ℓ} :
    {A : Type ℓ} (n : ℕ) (xs : List A) {x : A} {rest : List A}
    → pick n xs ≡ some (x, rest)
    → Perm xs (x ∷ rest)
pick-Perm n [] h = cc
pick-Perm zero (y ∷ xs) {x} {rest} h =
    let p : y ≡ x = ground arith in
    let q : xs ≡ rest = ground arith in
    subst₂ (λ a l. Perm (y ∷ xs) (a ∷ l)) p q (Perm.refl (y ∷ xs))
pick-Perm (suc n) (y ∷ xs) {x} {rest} h = elim (Option-cases (pick n xs)) [
  | inl e ↦ absurd (ground arith)
  | inr ((z, zs), e) ↦
      let p : z ≡ x = ground arith in
      let q : y ∷ zs ≡ rest = ground arith in
      subst₂ (λ a l. Perm (y ∷ xs) (a ∷ l)) p q
        (Perm.trans (Perm.cons y (pick-Perm n xs e)) (Perm.swap z y zs))
]

pub pick-All {ℓ κ} :
    {A : Type ℓ} (P : A → Type κ) (n : ℕ) (xs : List A) {t : A × List A}
    → pick n xs ≡ some t
    → All P xs
    → P t.0 × All P t.1
pick-All P n [] e h = cc
pick-All P zero (x ∷ xs) {t} e h =
    let same : (x, xs) ≡ t = ground arith in subst (λ u. P u.0 × All P u.1) same h
pick-All P (suc n) (x ∷ xs) {t} e h = elim (Option-cases (pick n xs)) [
  | inl none_left ↦ absurd (ground arith)
  | inr ((y, ys), p) ↦
      let same : (y, x ∷ ys) ≡ t = ground arith in
      let (q, r) = pick-All P n xs p h.1 in subst (λ u. P u.0 × All P u.1) same (q, (h.0, r))
]
