-- ===== src/Zone/Text/Lines.antt =====
-- Lines of words, and that they are read as they are.
use lrmdns.Prelude.{
  ℕ, ◌≡◌, refl, sym, ◌∙◌, ap, Bool, true, false, not, ◌&&◌, none, List, [], ◌∷◌, ◌++◌, arith, All,
  All-append, All-imp, Bool-cases, inl, inr, ◌==◌, is_empty, is_empty-append,
}
use mathlib.Core.Path.{subst}
use mathlib.Core.List.{append_assoc}
use lrmdns.Zone.Text.{
  Text, is_whitespace, lines, push_front, before, trim, trim_start, trim_end, contains, join,
  starts_with,
}

-- A character of a word: no white space, none that a zone file reads in its own way.
abbrev pub is_plain : ℕ → Bool
is_plain c =
    not (is_whitespace c) && not (c == 36) && not (c == 40) && not (c == 41) && not (c == 59)

-- a character of a line of words
abbrev pub is_inline : ℕ → Bool
is_inline c = not (c == 10) && not (c == 13) && not (c == 40) && not (c == 41) && not (c == 59)

abbrev pub AllPlain : Text → Type 0
AllPlain s = All (λ c. is_plain c ≡ true) s

abbrev pub AllInline : Text → Type 0
AllInline s = All (λ c. is_inline c ≡ true) s

-- a word of such characters
abbrev pub IsToken : Text → Type 0
IsToken [] = ⊥
IsToken (c ∷ s) = AllPlain (c ∷ s)

-- lines, each with its end
abbrev pub unlines : List Text → Text
unlines [] = []
unlines (l ∷ ls) = l ++ 10 ∷ unlines ls

inline_of_plain : (c : ℕ) → is_plain c ≡ true → is_inline c ≡ true
inline_of_plain c h = ground arith

token-AllPlain : (w : Text) → IsToken w → AllPlain w
token-AllPlain [] h = absurd h
token-AllPlain (c ∷ w) h = h

token-AllInline : (w : Text) → IsToken w → AllInline w
token-AllInline w h = All-imp _ _ w inline_of_plain (token-AllPlain w h)

join-cons :
    (w v : Text) (ws : List Text) → join (32 ∷ []) (w ∷ v ∷ ws) ≡ w ++ 32 ∷ join (32 ∷ []) (v ∷ ws)
join-cons w v ws = append_assoc w (32 ∷ []) (join (32 ∷ []) (v ∷ ws))

pub join-AllInline : (ws : List Text) → All IsToken ws → AllInline (join (32 ∷ []) ws)
join-AllInline [] h = tt
join-AllInline (w ∷ []) h = token-AllInline w h.0
join-AllInline (w ∷ v ∷ ws) h =
    subst AllInline (sym (join-cons w v ws))
      (All-append _ w _ (token-AllInline w h.0) (refl, join-AllInline (v ∷ ws) h.1))

lines-push : (c : ℕ) (s : Text) → is_inline c ≡ true → lines (c ∷ s) ≡ push_front c (lines s)
unfolding lines
lines-push c s h = ground (arith, h)

lines-line : (l s : Text) → AllInline l → lines (l ++ 10 ∷ s) ≡ l ∷ lines s
unfolding lines
lines-line [] s h = refl
lines-line (c ∷ l) s h = lines-push c (l ++ 10 ∷ s) h.0 ∙ ap (push_front c) (lines-line l s h.1)

pub lines-unlines : (ls : List Text) → All AllInline ls → lines (unlines ls) ≡ ls
unfolding lines
lines-unlines [] h = refl
lines-unlines (l ∷ ls) h = lines-line l (unlines ls) h.0 ∙ ap (◌∷◌ l) (lines-unlines ls h.1)

pub before-inline : (s : Text) → AllInline s → before 59 s ≡ none
unfolding before
before-inline [] h = refl
before-inline (c ∷ s) h = ground (arith, h.0, before-inline s h.1)

pub contains-inline : (s : Text) → AllInline s → (contains 40 s ≡ false) × (contains 41 s ≡ false)
contains-inline [] h = (refl, refl)
contains-inline (c ∷ s) h = ground (arith, h.0, contains-inline s h.1)

-- text that ends as it is keeps what stands before it
trim_end-append :
    (xs s : Text) (c : ℕ) → trim_end (c ∷ s) ≡ c ∷ s → trim_end (xs ++ c ∷ s) ≡ xs ++ c ∷ s
trim_end-append [] s c h = h
trim_end-append (x ∷ xs) s c h =
    rw (trim_end-append xs s c h, is_empty-append xs c s, trim_end) refl

pub black_of_plain : (c : ℕ) → is_plain c ≡ true → is_whitespace c ≡ false
black_of_plain c h = elim (Bool-cases (is_whitespace c)) [
  | inl b ↦ absurd (ground (arith, h, b))
  | inr b ↦ b
]

trim_end-black :
    (c : ℕ) (s : Text) → is_whitespace c ≡ false → trim_end s ≡ s → trim_end (c ∷ s) ≡ c ∷ s
trim_end-black c [] b e = rw (b, trim_end) refl
trim_end-black c (d ∷ s) b e = rw (e, trim_end) refl

trim_end-plain : (s : Text) → AllPlain s → trim_end s ≡ s
trim_end-plain [] h = refl
trim_end-plain (c ∷ s) h = trim_end-black c s (black_of_plain c h.0) (trim_end-plain s h.1)

trim_end-token : (xs w : Text) → IsToken w → trim_end (xs ++ w) ≡ xs ++ w
trim_end-token xs [] h = absurd h
trim_end-token xs (c ∷ w) h = trim_end-append xs w c (trim_end-plain (c ∷ w) h)

trim_end-join :
    (xs w : Text) (ws : List Text)
    → All IsToken (w ∷ ws)
    → trim_end (xs ++ join (32 ∷ []) (w ∷ ws)) ≡ xs ++ join (32 ∷ []) (w ∷ ws)
trim_end-join xs w [] h = trim_end-token xs w h.0
trim_end-join xs w (v ∷ ws) h =
    let e =
      ap (◌++◌ xs) (join-cons w v ws)
      ∙ sym (append_assoc {0} xs w (32 ∷ join (32 ∷ []) (v ∷ ws)))
      ∙ sym (append_assoc {0} (xs ++ w) (32 ∷ []) (join (32 ∷ []) (v ∷ ws))) in
    ap trim_end e ∙ trim_end-join ((xs ++ w) ++ 32 ∷ []) v ws h.1 ∙ sym e

trim_start-black : (c : ℕ) (s : Text) → is_whitespace c ≡ false → trim_start (c ∷ s) ≡ c ∷ s
trim_start-black c s b = rw (b, trim_start) refl

-- what a line of words starts with
abbrev Starts : Text → Type 0
Starts [] = ⊥
Starts (c ∷ s) = is_plain c ≡ true

token-Starts : (w s : Text) → IsToken w → Starts (w ++ s)
token-Starts [] s h = absurd h
token-Starts (c ∷ w) s h = h.0

join-Starts : (w : Text) (ws : List Text) → All IsToken (w ∷ ws) → Starts (join (32 ∷ []) (w ∷ ws))
join-Starts [] ws h = absurd h.0
join-Starts (c ∷ w) [] h = h.0.0
join-Starts (c ∷ w) (v ∷ ws) h = h.0.0

trim-Starts : (s : Text) → Starts s → trim_start s ≡ s
trim-Starts [] h = absurd h
trim-Starts (c ∷ s) h = trim_start-black c s (black_of_plain c h)

pub trim-join :
    (w : Text) (ws : List Text)
    → All IsToken (w ∷ ws)
    → trim (join (32 ∷ []) (w ∷ ws)) ≡ join (32 ∷ []) (w ∷ ws)
unfolding trim
trim-join w ws h =
    ap trim_end (trim-Starts (join (32 ∷ []) (w ∷ ws)) (join-Starts w ws h))
    ∙ trim_end-join [] w ws h

no_semicolon : (c : ℕ) → is_plain c ≡ true → (59 == c) ≡ false
no_semicolon c h = elim (Bool-cases (59 == c)) [ inl b ↦ absurd (ground (arith, h, b)) | inr b ↦ b ]

no_dollar : (c : ℕ) → is_plain c ≡ true → (36 == c) ≡ false
no_dollar c h = elim (Bool-cases (36 == c)) [ inl b ↦ absurd (ground (arith, h, b)) | inr b ↦ b ]

-- It is not empty, no comment and no directive.
Starts-IsLine :
    (s : Text)
    → Starts s
    → (is_empty s ≡ false) × (starts_with (59 ∷ []) s ≡ false) × (starts_with (36 ∷ []) s ≡ false)
Starts-IsLine [] h = absurd h
Starts-IsLine (c ∷ s) h =
    (refl, rw (no_semicolon c h, starts_with) refl, rw (no_dollar c h, starts_with) refl)

pub join-IsLine :
    (w : Text) (ws : List Text)
    → All IsToken (w ∷ ws)
    → let s = join (32 ∷ []) (w ∷ ws) in
      (is_empty s ≡ false) × (starts_with (59 ∷ []) s ≡ false) × (starts_with (36 ∷ []) s ≡ false)
join-IsLine w ws h = Starts-IsLine (join (32 ∷ []) (w ∷ ws)) (join-Starts w ws h)
