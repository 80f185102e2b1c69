-- ===== src/RateLimit/Spec.antt =====
-- The contract of the rate limiter: a log of the queries that it admitted, and a sliding window.
use lrmdns.Prelude.{
  ℕ, ◌≤◌, ◌≡◌, refl, Bool, true, List, [], ◌∷◌, ◌++◌, ◌&&◌, arith, if◌then◌else◌, ltb, length,
}
use lrmdns.HashMap.{Key, ◌==ₖ◌}
use lrmdns.HashMap.Laws.{eq_agree}
use lrmdns.RateLimit.{fresh}

module _ {Addr : Type 0} ⦃k : Key Addr⦄ where
  -- The admitted queries of a client that are in the window which ends at `now`.
  abbrev pub in_window : ℕ → ℕ → Addr → List (Addr × ℕ) → List ℕ
  in_window window now a [] = []
  in_window window now a ((b, at) ∷ log) =
      let rest = in_window window now a log in
      if (b ==ₖ a) && fresh window now at then at ∷ rest else rest

  -- A query is admitted if fewer than `max_qps` queries of its client are in the window.
  abbrev pub admits : ℕ → ℕ → List (Addr × ℕ) → Addr → ℕ → Bool
  admits max_qps window log a now = ltb (length (in_window window now a log)) max_qps

  abbrev pub admit : ℕ → ℕ → List (Addr × ℕ) → Addr → ℕ → List (Addr × ℕ)
  admit max_qps window log a now =
      if admits max_qps window log a now then log ++ (a, now) ∷ [] else log

  pub in_window-append :
      (window now : ℕ) (a b : Addr) (at : ℕ) (log : List (Addr × ℕ))
      → in_window window now a (log ++ (b, at) ∷ [])
        ≡ in_window window now a log ++ (if (b ==ₖ a) && fresh window now at then at ∷ [] else [])
  in_window-append window now a b at [] = ground arith
  in_window-append window now a b at ((c, t) ∷ log) =
      ground (arith, in_window-append window now a b at log)

  -- A window that ends later holds fewer of the queries.
  pub in_window_mono :
      (window now later : ℕ) (a : Addr) (log : List (Addr × ℕ))
      → now ≤ later
      → length (in_window window later a log) ≤ length (in_window window now a log)
  in_window_mono window now later a [] h = omega arith
  in_window_mono window now later a ((b, at) ∷ log) h =
      ground (arith, in_window_mono window now later a log h)

  pub in_window-cong :
      (window now : ℕ) (a b : Addr) (log : List (Addr × ℕ))
      → (a ==ₖ b) ≡ true
      → in_window window now a log ≡ in_window window now b log
  in_window-cong window now a b [] h = refl
  in_window-cong window now a b ((c, at) ∷ log) h =
      ground (arith, in_window-cong window now a b log h, eq_agree c a b h)
