-- ===== src/Zone/File/Joined.antt =====
-- Which lines of a zone file are joined into one.
use lrmdns.Prelude.{
  is_empty-append, ◌≡◌, refl, true, false, not, List, [], ◌∷◌, ◌++◌, is_empty, retain, map, All,
  arith,
}
use mathlib.Core.List.{append_assoc, append-nil}
use lrmdns.Zone.Text.{Text, lines, trim, contains, remove}
use lrmdns.Zone.File.{
  Lines, clean, open_parens, close_parens, plain_line, add_line, add_lines, start,
  preprocess_zone_content,
}

-- a line without parentheses, its comment left out
abbrev pub IsPlain : Text → Type 0
IsPlain line = (contains 40 (clean line) ≡ false) × (contains 41 (clean line) ≡ false)

-- lines, each followed by a space
abbrev pub spaced : List Text → Text
spaced [] = []
spaced (line ∷ rest) = clean line ++ 32 ∷ spaced rest

add_lines-append :
    (xs ys : List Text) (s : Lines) → add_lines (xs ++ ys) s ≡ add_lines ys (add_lines xs s)
unfolding add_lines
add_lines-append [] ys s = refl
add_lines-append (x ∷ xs) ys s = add_lines-append xs ys (add_line (clean x) s)

-- Outside parentheses, lines without any are kept, those that are empty left out.
add_lines-plain :
    (ls : List Text) (s : Lines)
    → All IsPlain ls
    → s.in_parens ≡ false
    → add_lines ls s
      ≡ record s { result = s.result ++ retain (λ l. not (is_empty l)) (map clean ls) }
unfolding add_lines add_line
add_lines-plain [] s h o = ground (arith, append-nil s.result)
add_lines-plain (l ∷ ls) s h o = ground (
  arith,
  h.0,
  add_lines-plain ls (plain_line (clean l) s) h.1,
  append_assoc {0} s.result (clean l ∷ []) (retain (λ x. not (is_empty x)) (map clean ls)),
)

-- Inside parentheses, they are joined.
add_lines-inside :
    (ls : List Text) (s : Lines)
    → All IsPlain ls
    → s.in_parens ≡ true
    → add_lines ls s ≡ record s { current_line = s.current_line ++ spaced ls }
unfolding add_lines add_line
add_lines-inside [] s h o = ground (arith, append-nil s.current_line)
add_lines-inside (l ∷ ls) s h o = ground (
  arith,
  h.0,
  add_lines-inside ls (plain_line (clean l) s) h.1,
  append_assoc {0} s.current_line (clean l ++ 32 ∷ []) (spaced ls),
  append_assoc {0} (clean l) (32 ∷ []) (spaced ls),
)

-- the lines without their comments, those that are empty left out
abbrev pub kept : List Text → List Text
kept ls = retain (λ l. not (is_empty l)) (map clean ls)

-- the start of a record that opens a parenthesis, and the lines after it
abbrev pub opened : Text → List Text → Text
opened first_line rest = trim (remove 40 (clean first_line)) ++ 32 ∷ spaced rest

-- A file without parentheses yields its lines, trimmed and without their comments, those that are
-- empty left out.
pub preprocess_zone_content-plain :
    (content : Text)
    → All IsPlain (lines content)
    → preprocess_zone_content content ≡ kept (lines content)
unfolding preprocess_zone_content
preprocess_zone_content-plain content h =
    ground (arith, add_lines-plain (lines content) start h refl)

-- from outside parentheses, a line that opens one and the lines up to the next with a parenthesis
add_lines-opened :
    (o : Text) (ls : List Text) (s : Lines)
    → contains 40 (clean o) ≡ true
    → All IsPlain ls
    → s.current_line ≡ []
    → add_lines (o ∷ ls) s ≡ record s { current_line = opened o ls; in_parens = true }
unfolding add_lines add_line
add_lines-opened o ls s p h e = ground (
  arith,
  add_lines-inside ls (open_parens (clean o) s) h refl,
  append_assoc {0} (trim (remove 40 (clean o))) (32 ∷ []) (spaced ls),
)

-- a line that closes one, and lines without any
add_lines-closed :
    (c : Text) (ls : List Text) (s : Lines)
    → contains 40 (clean c) ≡ false
    → contains 41 (clean c) ≡ true
    → All IsPlain ls
    → add_lines (c ∷ ls) s ≡ record {
      result = s.result ++ (trim (s.current_line ++ trim (remove 41 (clean c))) ∷ kept ls);
      current_line = [];
      in_parens = false;
    }
unfolding add_lines add_line
add_lines-closed c ls s p q h = ground (
  arith,
  add_lines-plain ls (close_parens (clean c) s) h refl,
  append_assoc {0} s.result (trim (s.current_line ++ trim (remove 41 (clean c))) ∷ []) (kept ls),
)

-- A record whose parentheses open in one line and close in a later one is one line of the result:
-- the lines are joined, without the parentheses. The lines before and after it are kept.
pub preprocess_zone_content-joins :
    (content : Text) (pre : List Text) (o : Text) (ls : List Text) (c : Text) (post : List Text)
    → lines content ≡ pre ++ (o ∷ (ls ++ c ∷ post))
    → All IsPlain pre
    → contains 40 (clean o) ≡ true
    → All IsPlain ls
    → contains 40 (clean c) ≡ false
    → contains 41 (clean c) ≡ true
    → All IsPlain post
    → preprocess_zone_content content
      ≡ kept pre ++ (trim (opened o ls ++ trim (remove 41 (clean c))) ∷ kept post)
unfolding preprocess_zone_content
preprocess_zone_content-joins content pre o ls c post e hpre ho hls hc hc' hpost =
    let s₁ = record start { result = kept pre } in
    let s₂ = record s₁ { current_line = opened o ls; in_parens = true } in
    let split : add_lines (o ∷ (ls ++ c ∷ post)) s₁ ≡ add_lines (c ∷ post) (add_lines (o ∷ ls) s₁) =
      add_lines-append (o ∷ ls) (c ∷ post) s₁ in
    rw e (
      rw add_lines-append (
        rw (add_lines-plain pre start hpre refl) (
          rw split (
            rw (add_lines-opened o ls s₁ ho hls refl)
              (rw (add_lines-closed c post s₂ hc hc' hpost))))))

-- A line that opens a parenthesis takes all lines that follow without one into the same line of the
-- result, to the end of the file, also where it closes the parenthesis itself.
pub preprocess_zone_content-swallows :
    (content : Text) (pre : List Text) (o : Text) (ls : List Text)
    → lines content ≡ pre ++ (o ∷ ls)
    → All IsPlain pre
    → contains 40 (clean o) ≡ true
    → All IsPlain ls
    → preprocess_zone_content content ≡ kept pre ++ (trim (opened o ls) ∷ [])
unfolding preprocess_zone_content
preprocess_zone_content-swallows content pre o ls e hpre ho hls =
    let s₁ = record start { result = kept pre } in
    rw e (
      rw add_lines-append (
        rw (add_lines-plain pre start hpre refl) (
          rw (add_lines-opened o ls s₁ ho hls refl)
            (rw (is_empty-append (trim (remove 40 (clean o))) 32 (spaced ls))))))
