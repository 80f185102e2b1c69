-- ===== src/Zone/Text/Decimal.antt =====
-- Numbers in decimal, and that the parser of numbers reads them.
use lrmdns.Prelude.{
  ℕ, zero, suc, ◌+◌, ◌-◌, ◌*◌, ◌/◌, ◌%◌, ◌^◌, ◌<◌, ◌≡◌, ◌∙◌, ap, Bool, true, false, ◌&&◌, some, [],
  ◌∷◌, ◌++◌, arith, All, All-append, Bool-cases, inl, inr, ltb, leb, if◌then◌else◌, is_empty,
  is_empty-append,
}
use lrmdns.Prelude.Int.{ℤ, pos, negsuc}
use lrmdns.Zone.Text.{
  Text, digits, number, unsigned, below, positive, negated, parse_unsigned, parse_i32,
}

-- the last `fuel` decimal digits of a number, without zeros in front
abbrev pub digits_of : ℕ → ℕ → Text
digits_of zero n = []
digits_of (suc fuel) n =
    let rest = digits_of fuel (n / 10) in
    if ltb n 10 then (48 + n) ∷ [] else rest ++ (48 + n % 10) ∷ []

-- a number of 32 bits in decimal: ten digits are enough
abbrev pub decimal : ℕ → Text
decimal n = digits_of 10 n

abbrev pub signed_decimal : ℤ → Text
signed_decimal (pos n) = decimal n
signed_decimal (negsuc n) = 45 ∷ decimal (suc n)

abbrev pub is_digit : ℕ → Bool
is_digit c = leb 48 c && leb c 57

abbrev pub AllDigits : Text → Type 0
AllDigits s = All (λ c. is_digit c ≡ true) s

digits-snoc :
    (a d : ℕ) (xs : Text) {m : ℕ}
    → d < 10
    → digits a xs ≡ some m
    → digits a (xs ++ (48 + d) ∷ []) ≡ some (10 * m + d)
digits-snoc a d [] h e = ground arith
digits-snoc a d (x ∷ xs) {m} h e = elim (Bool-cases (is_digit x)) [
  | inl b ↦ rw b (digits-snoc (10 * a + (x - 48)) d xs h (rw b at e))
  | inr b ↦ absurd (ground arith)
]

digits-digits_of : (fuel n : ℕ) → n < 10 ^ fuel → digits 0 (digits_of fuel n) ≡ some n
digits-digits_of zero n h = ground arith
digits-digits_of (suc fuel) n h = elim (Bool-cases (ltb n 10)) [
  | inl b ↦ rw b (ground arith)
  | inr b ↦ rw b (
      digits-snoc 0 (n % 10) (digits_of fuel (n / 10)) (omega arith)
        (digits-digits_of fuel (n / 10) (omega arith))
      ∙ ap some (omega arith))
]

pub digits_of-AllDigits : (fuel n : ℕ) → AllDigits (digits_of fuel n)
digits_of-AllDigits zero n = tt
digits_of-AllDigits (suc fuel) n = elim (Bool-cases (ltb n 10)) [
  | inl b ↦ rw b (ground arith, tt)
  | inr b ↦ rw b (
      All-append (λ c. is_digit c ≡ true) (digits_of fuel (n / 10)) _
        (digits_of-AllDigits fuel (n / 10)) (ground arith, tt))
]

pub digits_of-nonempty : (fuel n : ℕ) → is_empty (digits_of (suc fuel) n) ≡ false
digits_of-nonempty fuel n =
    ground (arith, is_empty-append {0} (digits_of fuel (n / 10)) (48 + n % 10) [])

unsigned-of_digits :
    (s : Text) {n : ℕ}
    → AllDigits s
    → is_empty s ≡ false
    → digits 0 s ≡ some n
    → (unsigned s ≡ some n) × (number s ≡ some n)
unsigned-of_digits [] h e d = cc
unsigned-of_digits (c ∷ s) h e d = ground (arith, h.0)

pub parse_unsigned-decimal :
    (bits n : ℕ) → n < 10 ^ 10 → n < 2 ^ bits → parse_unsigned bits (decimal n) ≡ some n
unfolding parse_unsigned
parse_unsigned-decimal bits n h b =
    rw
      (unsigned-of_digits (decimal n) (digits_of-AllDigits 10 n) (digits_of-nonempty 9 n)
        (digits-digits_of 10 n h)).0
      (ground arith)

-- a sign in front of no digit
digit_no_sign :
    (s : Text)
    → AllDigits s
    → is_empty s ≡ false
    → parse_i32 s ≡ positive (below (2 ^ 31) (unsigned s))
unfolding parse_i32
digit_no_sign [] h e = cc
digit_no_sign (c ∷ s) h e = ground (arith, h.0)

below_lem : (bound n : ℕ) → n < bound → below bound (some n) ≡ some n
below_lem bound n h = ground arith

parse_i32-pos : (n : ℕ) → n < 2 ^ 31 → parse_i32 (decimal n) ≡ some (pos n)
parse_i32-pos n h =
    let all = digits_of-AllDigits 10 n in
    let some_digit = digits_of-nonempty 9 n in
    digit_no_sign (decimal n) all some_digit
    ∙ ap (λ u. positive (below (2 ^ 31) u))
        (unsigned-of_digits (decimal n) all some_digit (digits-digits_of 10 n (omega arith))).0
    ∙ ap positive (below_lem (2 ^ 31) n h)

negated-suc : (n : ℕ) → negated (some (suc n)) ≡ some (negsuc n)
negated-suc n = ground arith

parse_i32-negsuc : (n : ℕ) → n < 2 ^ 31 → parse_i32 (45 ∷ decimal (suc n)) ≡ some (negsuc n)
unfolding parse_i32
parse_i32-negsuc n h =
    ap (λ u. negated (below (2 ^ 31 + 1) u))
      (unsigned-of_digits (decimal (suc n)) (digits_of-AllDigits 10 (suc n))
        (digits_of-nonempty 9 (suc n)) (digits-digits_of 10 (suc n) (omega arith))).1
    ∙ ap negated (below_lem (2 ^ 31 + 1) (suc n) (omega arith))
    ∙ negated-suc n

-- a number that fits in 32 bits, with its sign
abbrev pub FitsI32 : ℤ → Type 0
FitsI32 (pos n) = n < 2 ^ 31
FitsI32 (negsuc n) = n < 2 ^ 31

pub parse_i32-signed_decimal : (z : ℤ) → FitsI32 z → parse_i32 (signed_decimal z) ≡ some z
parse_i32-signed_decimal (pos n) h = parse_i32-pos n h
parse_i32-signed_decimal (negsuc n) h = parse_i32-negsuc n h
