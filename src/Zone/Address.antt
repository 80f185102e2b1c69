-- ===== src/Zone/Address.antt =====
-- `s.parse::<Ipv4Addr>()` and `s.parse::<Ipv6Addr>()` of the standard library, on code points. An
-- address is its number.
pub mod Dotted
use lrmdns.Prelude.{
  ℕ, zero, suc, ◌+◌, ◌*◌, ◌-◌, ◌/◌, ◌%◌, ◌^◌, Bool, true, false, not, ◌&&◌, ◌||◌, Option, none,
  some, List, [], ◌∷◌, ◌++◌, if◌then◌else◌, ltb, leb, ◌==◌, length,
}
use lrmdns.Zone.Text.{Text}

-- the value of a digit in a radix up to 16
abbrev pub hex_value : ℕ → Option ℕ
hex_value c =
    if leb 48 c && leb c 57
    then some (c - 48)
    else (if leb 97 c && leb c 102
        then some (c - 87)
        else (if leb 65 c && leb c 70 then some (c - 55) else none))

abbrev pub decimal_value : ℕ → Option ℕ
decimal_value c = if leb 48 c && leb c 57 then some (c - 48) else none

-- What the digits at the start amount to, how many there are, and the rest.
pub record Number : Type 0 where
  pub value : ℕ
  pub count : ℕ
  pub rest : Text

-- the loop over the digits, with those that are read
unfoldable pub read_digits : ℕ → (ℕ → Option ℕ) → ℕ → ℕ → Text → Number
read_digits radix digit value count [] = record { value = value; count = count; rest = [] }
read_digits radix digit value count (c ∷ s) = elim (digit c) [
  | some d ↦ read_digits radix digit (value * radix + d) (suc count) s
  | none ↦ record { value = value; count = count; rest = c ∷ s }
]

abbrev pub leading_zero : Text → Bool
leading_zero [] = false
leading_zero (c ∷ s) = c == 48

abbrev pub octet_of : Bool → Number → Option (ℕ × Text)
octet_of zero_first n =
    if (n.count == 0) || ltb 3 n.count || (zero_first && ltb 1 n.count) || ltb 255 n.value
    then none
    else some (n.value, n.rest)

-- a decimal number of one to three digits, without leading zeros, below 256
unfoldable pub read_octet : Text → Option (ℕ × Text)
unfolding read_digits
read_octet s = octet_of (leading_zero s) (read_digits 10 decimal_value 0 0 s)

abbrev pub group_of : Number → Option (ℕ × Text)
group_of n = if (n.count == 0) || ltb 4 n.count then none else some (n.value, n.rest)

-- a hexadecimal number of one to four digits
unfoldable pub read_group : Text → Option (ℕ × Text)
unfolding read_digits
read_group s = group_of (read_digits 16 hex_value 0 0 s)

-- a character, and then what the reader reads
abbrev pub after_char : ℕ → (Text → Option (ℕ × Text)) → Text → Option (ℕ × Text)
after_char c read [] = none
after_char c read (d ∷ s) = if d == c then read s else none

abbrev pub then_octet : Option (ℕ × Text) → Option (ℕ × Text)
then_octet none = none
then_octet (some (n, s)) = elim (after_char 46 read_octet s) [
  | some (d, rest) ↦ some (n * 256 + d, rest)
  | none ↦ none
]

-- four octets with dots between them
unfoldable pub read_ipv4 : Text → Option (ℕ × Text)
read_ipv4 s = then_octet (then_octet (then_octet (read_octet s)))

-- nothing may be left
abbrev pub whole : Option (ℕ × Text) → Option ℕ
whole (some (n, [])) = some n
whole _ = none

unfoldable pub parse_ipv4 : Text → Option ℕ
parse_ipv4 s = if ltb 15 (length s) then none else whole (read_ipv4 s)

-- The separator `:` stands before each group but the first.
abbrev pub separated : Bool → (Text → Option (ℕ × Text)) → Text → Option (ℕ × Text)
separated true read s = read s
separated false read s = after_char 58 read s

abbrev pub embedded : ℕ → Bool → Text → Option (ℕ × Text)
embedded left first s = if leb 1 left then separated first read_ipv4 s else none

-- The groups that are read, whether they end in an IPv4 address, and the rest.
pub record Groups : Type 0 where
  pub groups : List ℕ
  pub has_ipv4 : Bool
  pub rest : Text

-- up to so many groups, the last two possibly as an IPv4 address
unfoldable pub read_groups : ℕ → Bool → Text → Groups
read_groups zero first s = record { groups = []; has_ipv4 = false; rest = s }
read_groups (suc left) first s = elim (embedded left first s) [
  | some (v, rest) ↦ record { groups = v / 2 ^ 16 ∷ v % 2 ^ 16 ∷ []; has_ipv4 = true; rest = rest }
  | none ↦ elim (separated first read_group s) [
    | some (g, rest) ↦
        let more = read_groups left false rest in
        record { groups = g ∷ more.groups; has_ipv4 = more.has_ipv4; rest = more.rest }
    | none ↦ record { groups = []; has_ipv4 = false; rest = s }
  ]
]

abbrev pub zeros : ℕ → List ℕ
zeros zero = []
zeros (suc n) = 0 ∷ zeros n

abbrev pub number_of : ℕ → List ℕ → ℕ
number_of n [] = n
number_of n (g ∷ gs) = number_of (n * 2 ^ 16 + g) gs

-- the groups after `::`, at least one group of zeros before them
abbrev pub with_tail : List ℕ → Groups → Option (ℕ × Text)
with_tail head t =
    some (number_of 0 (head ++ (zeros (8 - length head - length t.groups) ++ t.groups)), t.rest)

abbrev pub compressed : List ℕ → Text → Option (ℕ × Text)
compressed head (c ∷ d ∷ s) =
    if (c == 58) && (d == 58)
    then with_tail head (read_groups (8 - (length head + 1)) true s)
    else none
compressed head _ = none

abbrev pub after_head : Groups → Option (ℕ × Text)
after_head h =
    if length h.groups == 8
    then some (number_of 0 h.groups, h.rest)
    else (if h.has_ipv4 then none else compressed h.groups h.rest)

unfoldable pub parse_ipv6 : Text → Option ℕ
parse_ipv6 s = whole (after_head (read_groups 8 true s))
