-- ===== src/HashMap.antt =====
-- `std::collections::HashMap`: an association list, in an order that no caller may rely on.
-- Keys are compared by their own `==`, an equivalence that need not be identity: a `Name` ignores
-- the case of its letters.
pub mod Laws
pub mod Distinct
use lrmdns.Prelude.{
  ◌≡◌, Bool, true, false, Option, none, some, List, [], ◌∷◌, map, if◌then◌else◌, is_some, option_or,
}

pub record Key {ℓ} (K : Type ℓ) : Type ℓ where
  pub eq : K → K → Bool
  pub eq_refl : (a : K) → eq a a ≡ true
  pub eq_sym : (a b : K) → eq a b ≡ true → eq b a ≡ true
  pub eq_trans : (a b c : K) → eq a b ≡ true → eq b c ≡ true → eq a c ≡ true

infix 50 ◌==ₖ◌
abbrev pub ◌==ₖ◌ {ℓ} : {K : Type ℓ} ⦃k : Key K⦄ → K → K → Bool
◌==ₖ◌ ⦃k⦄ = k.eq

abbrev pub Map {ℓ κ} : Type ℓ → Type κ → Type (ℓ ⊔ κ)
Map K V = List (K × V)

module _ {ℓ κ} {K : Type ℓ} {V : Type κ} where
  abbrev pub keys : Map K V → List K
  keys = map (λ e. e.0)

  abbrev pub values : Map K V → List V
  values = map (λ e. e.1)

module _ {ℓ κ} {K : Type ℓ} {V : Type κ} ⦃k : Key K⦄ where
  -- m.get(&key)
  unfoldable pub get : K → Map K V → Option V
  get key [] = none
  get key ((j, v) ∷ m) = if j ==ₖ key then some v else get key m

  -- m.contains_key(&key)
  unfoldable pub contains_key : K → Map K V → Bool
  contains_key key m = is_some (get key m)

  -- m.insert(key, v): a key that is there stays, with the new value
  unfoldable pub insert : K → V → Map K V → Map K V
  insert key v [] = (key, v) ∷ []
  insert key v ((j, w) ∷ m) = if j ==ₖ key then (j, v) ∷ m else (j, w) ∷ insert key v m

  -- f(m.entry(key).or_insert(d))
  unfoldable pub modify : K → V → (V → V) → Map K V → Map K V
  modify key d f [] = (key, f d) ∷ []
  modify key d f ((j, w) ∷ m) = if j ==ₖ key then (j, f w) ∷ m else (j, w) ∷ modify key d f m
