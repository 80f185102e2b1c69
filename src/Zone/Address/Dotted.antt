-- ===== src/Zone/Address/Dotted.antt =====
-- The dotted text of an IPv4 address.
use lrmdns.Prelude.{
  ℕ, suc, ◌+◌, ◌*◌, ◌/◌, ◌%◌, ◌<◌, ◌≤◌, ◌≡◌, refl, ◌∙◌, ap, false, ◌&&◌, Bool-cases, inl, inr, some,
  none, [], ◌∷◌, ◌++◌, arith, if◌then◌else◌, ltb, length, length-append,
}
use lrmdns.Zone.Text.{Text}
use lrmdns.Zone.Address.{
  decimal_value, read_digits, leading_zero, read_octet, then_octet, read_ipv4, parse_ipv4,
}

-- a number below 1000 in decimal
abbrev pub print_octet : ℕ → Text
print_octet d =
    if ltb d 10
    then (48 + d) ∷ []
    else (if ltb d 100
        then (48 + d / 10) ∷ (48 + d % 10) ∷ []
        else (48 + d / 100) ∷ (48 + d / 10 % 10) ∷ (48 + d % 10) ∷ [])

abbrev pub dotted : ℕ → ℕ → ℕ → ℕ → Text
dotted a b c d =
    print_octet a ++ 46 ∷ (print_octet b ++ 46 ∷ (print_octet c ++ 46 ∷ (print_octet d ++ [])))

-- no digit comes next
abbrev Stops : Text → Type 0
Stops [] = Unit
Stops (c ∷ s) = decimal_value c ≡ none

read_digits-stop :
    (value count : ℕ) (rest : Text)
    → Stops rest
    → read_digits 10 decimal_value value count rest
      ≡ record { value = value; count = count; rest = rest }
unfolding read_digits
read_digits-stop value count [] h = refl
read_digits-stop value count (c ∷ s) h = rw (h, read_digits) refl

decimal_value-digit : (d : ℕ) → d < 10 → decimal_value (48 + d) ≡ some d
decimal_value-digit d h = ground arith

read_digits-digit :
    (value count d : ℕ) (s : Text)
    → d < 10
    → read_digits 10 decimal_value value count ((48 + d) ∷ s)
      ≡ read_digits 10 decimal_value (value * 10 + d) (suc count) s
unfolding read_digits
read_digits-digit value count d s h = rw (decimal_value-digit d h, read_digits) refl

-- the digits that `print_octet` writes
read_digits-print :
    (d : ℕ) (rest : Text)
    → d < 256
    → Stops rest
    → read_digits 10 decimal_value 0 0 (print_octet d ++ rest)
      ≡ record { value = d; count = length (print_octet d); rest = rest }
read_digits-print d rest h stops = elim (Bool-cases (ltb d 10)) [
  | inl one ↦ rw one (
      read_digits-digit 0 0 d rest (ground arith)
      ∙ read_digits-stop (0 * 10 + d) 1 rest stops
      ∙ ap (λ v. record { value = v; count = 1; rest = rest }) (omega arith))
  | inr n ↦ elim (Bool-cases (ltb d 100)) [
    | inl two ↦
        rw (n, two)
          (read_digits-digit 0 0 (d / 10) ((48 + d % 10) ∷ rest) (ground arith)
            ∙ read_digits-digit (0 * 10 + d / 10) 1 (d % 10) rest (omega arith)
            ∙ read_digits-stop ((0 * 10 + d / 10) * 10 + d % 10) 2 rest stops
            ∙ ap (λ v. record { value = v; count = 2; rest = rest }) (omega arith))
    | inr m ↦
        rw (n, m)
          (read_digits-digit 0 0 (d / 100) ((48 + d / 10 % 10) ∷ (48 + d % 10) ∷ rest) (omega arith)
            ∙ read_digits-digit (0 * 10 + d / 100) 1 (d / 10 % 10) ((48 + d % 10) ∷ rest)
                (omega arith)
            ∙ read_digits-digit ((0 * 10 + d / 100) * 10 + d / 10 % 10) 2 (d % 10) rest
                (omega arith)
            ∙ read_digits-stop (((0 * 10 + d / 100) * 10 + d / 10 % 10) * 10 + d % 10) 3 rest stops
            ∙ ap (λ v. record { value = v; count = 3; rest = rest }) (omega arith))
  ]
]

leading_zero-print :
    (d : ℕ) (rest : Text)
    → (leading_zero (print_octet d ++ rest) && ltb 1 (length (print_octet d))) ≡ false
leading_zero-print d rest = ground arith

length-print_octet : (d : ℕ) → (1 ≤ length (print_octet d)) × (length (print_octet d) ≤ 3)
length-print_octet d = ground arith

read_octet-print :
    (d : ℕ) (rest : Text)
    → d < 256
    → Stops rest
    → read_octet (print_octet d ++ rest) ≡ some (d, rest)
unfolding read_octet
read_octet-print d rest h stops =
    rw (read_digits-print d rest h stops)
      (ground (arith, leading_zero-print d rest, length-print_octet d))

then_octet-print :
    (n d : ℕ) (rest : Text)
    → d < 256
    → Stops rest
    → then_octet (some (n, 46 ∷ (print_octet d ++ rest))) ≡ some (n * 256 + d, rest)
then_octet-print n d rest h stops = rw (read_octet-print d rest h stops, then_octet) refl

read_ipv4-dotted :
    (a b c d : ℕ)
    → a < 256
    → b < 256
    → c < 256
    → d < 256
    → read_ipv4 (dotted a b c d) ≡ some (((a * 256 + b) * 256 + c) * 256 + d, [])
unfolding read_ipv4
read_ipv4-dotted a b c d ha hb hc hd =
    let third = 46 ∷ (print_octet d ++ []) in
    let second = 46 ∷ (print_octet c ++ third) in
    let first = 46 ∷ (print_octet b ++ second) in
    ap (λ x. then_octet (then_octet (then_octet x))) (read_octet-print a first ha refl)
    ∙ ap (λ x. then_octet (then_octet x)) (then_octet-print a b second hb refl)
    ∙ ap then_octet (then_octet-print (a * 256 + b) c third hc refl)
    ∙ then_octet-print ((a * 256 + b) * 256 + c) d [] hd tt

length-dotted : (a b c d : ℕ) → length (dotted a b c d) ≤ 15
length-dotted a b c d = omega (
  arith,
  length-append (print_octet a)
      (46 ∷ (print_octet b ++ 46 ∷ (print_octet c ++ 46 ∷ (print_octet d ++ [])))),
  length-append (print_octet b) (46 ∷ (print_octet c ++ 46 ∷ (print_octet d ++ []))),
  length-append (print_octet c) (46 ∷ (print_octet d ++ [])),
  length-append (print_octet d) [],
  length-print_octet a,
  length-print_octet b,
  length-print_octet c,
  length-print_octet d,
)

pub parse_ipv4-dotted :
    (a b c d : ℕ)
    → a < 256
    → b < 256
    → c < 256
    → d < 256
    → parse_ipv4 (dotted a b c d) ≡ some (((a * 256 + b) * 256 + c) * 256 + d)
unfolding parse_ipv4
parse_ipv4-dotted a b c d ha hb hc hd =
    ground (arith, length-dotted a b c d, read_ipv4-dotted a b c d ha hb hc hd)
