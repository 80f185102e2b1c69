-- ===== src/Zone/Text.antt =====
-- The functions of `str` that the parser of zone files calls, on lists of code points.
pub mod Decimal
pub mod Lines
use lrmdns.Prelude.{
  ℕ, suc, ◌+◌, ◌*◌, ◌-◌, ◌%◌, ◌^◌, Bool, true, false, not, ◌&&◌, ◌||◌, Option, none, some, List, [],
  ◌∷◌, ◌++◌, if◌then◌else◌, ltb, leb, ◌==◌, concat_map, ◌/◌, is_empty, any, retain,
}
use lrmdns.Prelude.Int.{ℤ, pos, negsuc}

abbrev pub Text : Type 0
Text = List ℕ

-- char::is_whitespace
abbrev pub is_whitespace : ℕ → Bool
is_whitespace c =
    (leb 9 c && leb c 13)
    || (c == 32)
    || (c == 133)
    || (c == 160)
    || (c == 5760)
    || (leb 8192 c && leb c 8202)
    || (c == 8232)
    || (c == 8233)
    || (c == 8239)
    || (c == 8287)
    || (c == 12288)

abbrev pub push_front : ℕ → List Text → List Text
push_front c [] = (c ∷ []) ∷ []
push_front c (l ∷ ls) = (c ∷ l) ∷ ls

abbrev pub starts_with_newline : Text → Bool
starts_with_newline [] = false
starts_with_newline (c ∷ s) = c == 10

-- str::lines: a line ends at a newline, or a carriage return and a newline
unfoldable pub lines : Text → List Text
lines [] = []
lines (c ∷ s) =
    let rest = lines s in
    if c == 10
    then [] ∷ rest
    else (if (c == 13) && starts_with_newline s then rest else push_front c rest)

-- `&s[..pos]` for `s.find(c)`
unfoldable pub before : ℕ → Text → Option Text
before c [] = none
before c (d ∷ s) =
    let rest = before c s in
    if d == c then some [] else elim rest [ some t ↦ some (d ∷ t) | none ↦ none ]

-- `s.matches(c).count()`
abbrev pub count_of : ℕ → Text → ℕ
count_of c [] = 0
count_of c (d ∷ s) = let rest = count_of c s in if d == c then suc rest else rest

abbrev pub trim_start : Text → Text
trim_start [] = []
trim_start (c ∷ s) = let rest = trim_start s in if is_whitespace c then rest else c ∷ s

abbrev pub trim_end : Text → Text
trim_end [] = []
trim_end (c ∷ s) =
    let rest = trim_end s in if is_empty rest && is_whitespace c then [] else c ∷ rest

-- str::trim
unfoldable pub trim : Text → Text
trim s = trim_end (trim_start s)

-- `s.contains(c)`
abbrev pub contains : ℕ → Text → Bool
contains c s = any (λ d. d == c) s

-- `s.replace(c, "")`
abbrev pub remove : ℕ → Text → Text
remove c s = retain (λ d. not (d == c)) s

abbrev pub starts_word : Text → Bool
starts_word [] = false
starts_word (c ∷ s) = not (is_whitespace c)

-- str::split_whitespace
unfoldable pub words : Text → List Text
words [] = []
words (c ∷ s) =
    let rest = words s in
    if is_whitespace c then rest else (if starts_word s then push_front c rest else (c ∷ []) ∷ rest)

abbrev pub text_eq : Text → Text → Bool
text_eq [] [] = true
text_eq (x ∷ xs) (y ∷ ys) = (x == y) && text_eq xs ys
text_eq _ _ = false

-- str::starts_with
abbrev pub starts_with : Text → Text → Bool
starts_with [] s = true
starts_with (p ∷ ps) [] = false
starts_with (p ∷ ps) (c ∷ s) = (p == c) && starts_with ps s

-- `s.ends_with('.')`
abbrev pub ends_with_dot : Text → Bool
ends_with_dot [] = false
ends_with_dot (c ∷ []) = c == 46
ends_with_dot (c ∷ s) = ends_with_dot s

-- `parts.join(separator)`
abbrev pub join : Text → List Text → Text
join separator [] = []
join separator (s ∷ []) = s
join separator (s ∷ rest) = s ++ separator ++ join separator rest

abbrev pub trim_quotes_start : Text → Text
trim_quotes_start [] = []
trim_quotes_start (c ∷ s) = let rest = trim_quotes_start s in if c == 34 then rest else c ∷ s

abbrev pub trim_quotes_end : Text → Text
trim_quotes_end [] = []
trim_quotes_end (c ∷ s) =
    let rest = trim_quotes_end s in if is_empty rest && (c == 34) then [] else c ∷ rest

-- `s.trim_matches('"')`
unfoldable pub trim_quotes : Text → Text
trim_quotes s = trim_quotes_end (trim_quotes_start s)

-- the value of decimal digits, after those that are read
abbrev pub digits : ℕ → Text → Option ℕ
digits n [] = some n
digits n (c ∷ s) =
    let rest = digits (10 * n + (c - 48)) s in if leb 48 c && leb c 57 then rest else none

abbrev pub number : Text → Option ℕ
number [] = none
number (c ∷ s) = digits 0 (c ∷ s)

abbrev pub unsigned : Text → Option ℕ
unsigned [] = none
unsigned (c ∷ s) = if c == 43 then number s else number (c ∷ s)

abbrev pub below : ℕ → Option ℕ → Option ℕ
below bound none = none
below bound (some n) = if ltb n bound then some n else none

-- `s.parse()` as an unsigned integer of this many bits
unfoldable pub parse_unsigned : ℕ → Text → Option ℕ
parse_unsigned bits s = below (2 ^ bits) (unsigned s)

abbrev pub negated : Option ℕ → Option ℤ
negated none = none
negated (some n) = some (if n == 0 then pos 0 else negsuc (n - 1))

abbrev pub positive : Option ℕ → Option ℤ
positive none = none
positive (some n) = some (pos n)

-- `s.parse()` as an `i32`
unfoldable pub parse_i32 : Text → Option ℤ
parse_i32 [] = none
parse_i32 (c ∷ s) =
    if c == 45
    then negated (below (2 ^ 31 + 1) (number s))
    else positive (below (2 ^ 31) (unsigned (c ∷ s)))

-- the UTF-8 bytes of a code point
abbrev pub encode_utf8 : ℕ → Text
encode_utf8 c =
    if ltb c 128
    then c ∷ []
    else (if ltb c 2048
        then (192 + c / 64) ∷ (128 + c % 64) ∷ []
        else (if ltb c 65536
            then (224 + c / 4096) ∷ (128 + c / 64 % 64) ∷ (128 + c % 64) ∷ []
            else (240 + c / 262144)
              ∷ (128 + c / 4096 % 64)
              ∷ (128 + c / 64 % 64)
              ∷ (128 + c % 64)
              ∷ []))

-- `s.as_bytes()`
abbrev pub as_bytes : Text → List ℕ
as_bytes s = concat_map encode_utf8 s
