-- ===== src/RateLimit/Runs.antt =====
-- Any number of calls, from any clients, on a limiter that starts empty.
use lrmdns.Prelude.{
  ℕ, ◌≤◌, ◌≡◌, refl, Bool, List, [], ◌∷◌, ◌++◌, arith, if◌then◌else◌, length, length-append, ◌∙◌,
  sym, Bool-cases, inl, inr,
}
use mathlib.Core.Path.{subst, subst₂}
use mathlib.Core.List.{append-nil}
use lrmdns.HashMap.{Key}
use lrmdns.RateLimit.{RateLimiter, Readings, check_rate_limit, new, from_secs}
use lrmdns.RateLimit.Spec.{
  in_window, admits, admit, in_window-append, in_window_mono, in_window-cong,
}
use lrmdns.RateLimit.Refinement.{
  InOrder, Refines, new-Refines, check_rate_limit-limits, check_rate_limit-Refines,
}

module _ {Addr : Type 0} ⦃k : Key Addr⦄ where
  abbrev pub record_if : Bool → Addr → ℕ → List (Addr × ℕ) → List (Addr × ℕ)
  record_if admitted a now log = if admitted then log ++ (a, now) ∷ [] else log

  -- The limiter after the calls, and the log of the queries that it let pass.
  unfoldable pub run :
      List (Addr × Readings)
      → RateLimiter Addr × List (Addr × ℕ)
      → RateLimiter Addr × List (Addr × ℕ)
  run [] state = state
  run ((a, t) ∷ calls) (r, log) =
      let (r', admitted) = check_rate_limit a t r in run calls (r', record_if admitted a t.now log)

  -- The readings of the clock do not go back, over all the calls.
  abbrev pub AllInOrder : ℕ → List (Addr × Readings) → Type 0
  AllInOrder before [] = Unit
  AllInOrder before ((a, t) ∷ calls) = InOrder before t × AllInOrder t.now calls

  abbrev pub end_of : ℕ → List (Addr × Readings) → ℕ
  end_of before [] = before
  end_of before ((a, t) ∷ calls) = end_of t.now calls

  -- no window that ends at `now` or later holds more than `max_qps` queries of one client
  abbrev pub IsBounded : ℕ → ℕ → List (Addr × ℕ) → ℕ → Type 0
  IsBounded max_qps window log now =
      (a : Addr) (later : ℕ) → now ≤ later → length (in_window window later a log) ≤ max_qps

  admit-IsBounded :
      (max_qps window : ℕ) (log : List (Addr × ℕ)) (before now : ℕ) (a : Addr)
      → IsBounded max_qps window log before
      → before ≤ now
      → IsBounded max_qps window (admit max_qps window log a now) now
  admit-IsBounded max_qps window log before now a h o b later g =
      elim (Bool-cases (admits max_qps window log a now)) [
        | inl y ↦ rw y (
            rw in_window-append (
              ground (
                arith,
                h b later (omega arith),
                in_window-cong window now a b log,
                in_window_mono window now later b log g,
                length-append {0} (in_window window later b log) (now ∷ []),
                append-nil (in_window window later b log),
              )))
        | inr n ↦ rw n (h b later (omega arith))
      ]

  module _ {max_qps window : ℕ} where
    check-admits :
        (a : Addr) (t : Readings) (r : RateLimiter Addr) (log : List (Addr × ℕ)) (before : ℕ)
        → Refines r log before
        → InOrder before t
        → r.max_qps ≡ max_qps
        → r.window ≡ window
        → ((check_rate_limit a t r).1 ≡ admits max_qps window log a t.now)
          × Refines (check_rate_limit a t r).0 (admit max_qps window log a t.now) t.now
    check-admits a t r log before f o same_max same_window =
        subst₂
          (λ m w.
            ((check_rate_limit a t r).1 ≡ admits m w log a t.now)
            × Refines (check_rate_limit a t r).0 (admit m w log a t.now) t.now)
          same_max same_window (check_rate_limit-Refines a t r log before f o)

    run-keeps :
        (calls : List (Addr × Readings)) (r : RateLimiter Addr) (log : List (Addr × ℕ)) (before : ℕ)
        → Refines r log before
        → IsBounded max_qps window log before
        → AllInOrder before calls
        → r.max_qps ≡ max_qps
        → r.window ≡ window
        → Refines (run calls (r, log)).0 (run calls (r, log)).1 (end_of before calls)
          × IsBounded max_qps window (run calls (r, log)).1 (end_of before calls)
    unfolding run
    run-keeps [] r log before f b o same_max same_window = (f, b)
    run-keeps ((a, t) ∷ calls) r log before f b o same_max same_window =
        let (e, f') = check-admits a t r log before f o.0 same_max same_window in
        let (keeps_max, keeps_window) = check_rate_limit-limits a t r in
        let r' = (check_rate_limit a t r).0 in
        subst
          (λ x.
            Refines (run calls (r', record_if x a t.now log)).0
              (run calls (r', record_if x a t.now log)).1 (end_of t.now calls)
            × IsBounded max_qps window (run calls (r', record_if x a t.now log)).1
                (end_of t.now calls))
          (sym e)
          (run-keeps calls r' (admit max_qps window log a t.now) t.now f'
            (admit-IsBounded max_qps window log before t.now a b (omega (arith, o.0))) o.1
            (keeps_max ∙ same_max) (keeps_window ∙ same_window))

  -- After any calls on a new limiter, under a clock that does not go back, no second that ends at
  -- the last call or later holds more than `max_qps` queries of one client that were let pass.
  pub run-IsBounded :
      (max_qps start : ℕ) (calls : List (Addr × Readings))
      → AllInOrder start calls
      → IsBounded max_qps (from_secs 1) (run calls (new max_qps start, [])).1 (end_of start calls)
  unfolding new
  run-IsBounded max_qps start calls o =
      (run-keeps calls (new max_qps start) [] start (new-Refines max_qps start)
        (λ a later h. omega arith) o refl refl).1
