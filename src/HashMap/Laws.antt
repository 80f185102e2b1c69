-- ===== src/HashMap/Laws.antt =====
-- What a lookup returns after each write.
use lrmdns.Prelude.{◌≡◌, refl, true, some, [], ◌∷◌, arith, if◌then◌else◌, option_or}
use lrmdns.HashMap.{Key, ◌==ₖ◌, Map, get, insert, modify}

module _ {ℓ} {K : Type ℓ} ⦃k : Key K⦄ where
  -- `i ==ₖ a` and `i ==ₖ b` agree where `a ==ₖ b`.
  pub eq_agree : (i a b : K) → (a ==ₖ b) ≡ true → (i ==ₖ a) ≡ (i ==ₖ b)
  eq_agree i a b h = ground (arith, k.eq_trans i a b, k.eq_trans i b a, k.eq_sym a b)

module _ {ℓ κ} {K : Type ℓ} {V : Type κ} ⦃k : Key K⦄ where
  pub get-cong : (a b : K) (m : Map K V) → (a ==ₖ b) ≡ true → get a m ≡ get b m
  unfolding get
  get-cong a b [] h = refl
  get-cong a b ((i, v) ∷ m) h = ground (arith, get-cong a b m h, eq_agree i a b h)

  pub get-insert :
      (a b : K) (v : V) (m : Map K V) → get b (insert a v m) ≡ (if a ==ₖ b then some v else get b m)
  unfolding get insert
  get-insert a b v [] = refl
  get-insert a b v ((i, w) ∷ m) = ground (
    arith,
    get-insert a b v m,
    k.eq_trans i a b,
    k.eq_trans i b a,
    k.eq_sym a b,
    k.eq_sym i a,
    k.eq_trans a i b,
  )

  pub get-modify :
      (a b : K) (d : V) (f : V → V) (m : Map K V)
      → get b (modify a d f m) ≡ (if a ==ₖ b then some (f (option_or (get a m) d)) else get b m)
  unfolding get modify
  get-modify a b d f [] = refl
  get-modify a b d f ((i, w) ∷ m) = ground (
    arith,
    get-modify a b d f m,
    k.eq_trans i a b,
    k.eq_trans i b a,
    k.eq_sym a b,
    k.eq_sym i a,
    k.eq_trans a i b,
  )
