-- ===== src/Zone/File/Parens.antt =====
-- No opening parenthesis is left in a line of the result.
use lrmdns.Prelude.{
  if_keeps, ℕ, ◌≡◌, refl, Bool, false, not, List, [], ◌∷◌, ◌++◌, is_empty, retain, All, arith,
  Bool-cases, inl, inr, ◌==◌,
}
use lrmdns.Zone.Text.{Text, lines, trim, trim_start, trim_end, is_whitespace, contains, remove}
use lrmdns.Zone.File.{
  Lines, clean, open_parens, close_parens, plain_line, add_line, add_lines, start, finish,
  preprocess_zone_content,
}

module _ (c : ℕ) where
  contains-append :
      (s t : Text) → contains c s ≡ false → contains c t ≡ false → contains c (s ++ t) ≡ false
  contains-append [] t h k = k
  contains-append (d ∷ s) t h k = ground (arith, contains-append s t)

  contains-remove : (s : Text) → contains c (remove c s) ≡ false
  contains-remove [] = refl
  contains-remove (d ∷ s) = ground (arith, contains-remove s)

  contains-retain :
      (p : ℕ → Bool) (s : Text) → contains c s ≡ false → contains c (retain p s) ≡ false
  contains-retain p [] h = refl
  contains-retain p (d ∷ s) h = ground (arith, contains-retain p s)

  contains-trim_start : (s : Text) → contains c s ≡ false → contains c (trim_start s) ≡ false
  contains-trim_start [] h = refl
  contains-trim_start (d ∷ s) h = elim (Bool-cases (is_whitespace d)) [
    | inl w ↦ rw w (contains-trim_start s (ground arith))
    | inr w ↦ rw w h
  ]

  contains-trim_end : (s : Text) → contains c s ≡ false → contains c (trim_end s) ≡ false
  contains-trim_end [] h = refl
  contains-trim_end (d ∷ s) h = ground (arith, contains-trim_end s)

  contains-trim : (s : Text) → contains c s ≡ false → contains c (trim s) ≡ false
  unfolding trim
  contains-trim s h = contains-trim_end (trim_start s) (contains-trim_start s h)

-- no opening parenthesis
abbrev pub IsClear : Text → Type 0
IsClear l = contains 40 l ≡ false

-- nor in what the loop has so far
record ClearLines (s : Lines) : Type 0 where
  result : All IsClear s.result
  current_line : IsClear s.current_line

All-append {ℓ} :
    {A : Type 0} (P : A → Type ℓ) (xs : List A) {x : A} → All P xs → P x → All P (xs ++ x ∷ [])
All-append P [] h p = (p, tt)
All-append P (y ∷ xs) h p = (h.0, All-append P xs h.1 p)

module _ (l : Text) (s : Lines) (h : ClearLines s) where
  open_parens-ClearLines : ClearLines (open_parens l s)
  open_parens-ClearLines = record {
    result = h.result;
    current_line =
        contains-append 40 s.current_line (trim (remove 40 l) ++ 32 ∷ []) h.current_line (
          contains-append 40 (trim (remove 40 l)) (32 ∷ [])
            (contains-trim 40 (remove 40 l) (contains-remove 40 l)) refl);
  }

  plain_line-ClearLines : IsClear l → ClearLines (plain_line l s)
  plain_line-ClearLines k =
      let joined =
        contains-append 40 s.current_line (l ++ 32 ∷ []) h.current_line
          (contains-append 40 l (32 ∷ []) k refl) in
      if_keeps ClearLines s.in_parens (record { result = h.result; current_line = joined })
        (if_keeps ClearLines (is_empty l) h (record {
          result = All-append IsClear s.result h.result k;
          current_line = h.current_line;
        }))

  close_parens-ClearLines : IsClear l → ClearLines (close_parens l s)
  close_parens-ClearLines k =
      let rest = contains-trim 40 (remove 41 l) (contains-retain 40 (λ d. not (d == 41)) l k) in
      let joined = contains-append 40 s.current_line (trim (remove 41 l)) h.current_line rest in
      record {
        result =
            All-append IsClear s.result h.result
              (contains-trim 40 (s.current_line ++ trim (remove 41 l)) joined);
        current_line = refl;
      }

  add_line-ClearLines : ClearLines (add_line l s)
  unfolding add_line
  add_line-ClearLines = elim (Bool-cases (contains 40 l)) [
    | inl o ↦ rw o open_parens-ClearLines
    | inr n ↦ rw n (elim (Bool-cases (contains 41 l)) [
      | inl c ↦ rw c (close_parens-ClearLines n)
      | inr p ↦ rw p (plain_line-ClearLines n)
    ])
  ]

add_lines-ClearLines : (ls : List Text) (s : Lines) → ClearLines s → ClearLines (add_lines ls s)
unfolding add_lines
add_lines-ClearLines [] s h = h
add_lines-ClearLines (l ∷ ls) s h =
    add_lines-ClearLines ls (add_line (clean l) s) (add_line-ClearLines (clean l) s h)

finish-IsClear : (s : Lines) → ClearLines s → All IsClear (finish s)
finish-IsClear s h = elim (Bool-cases (is_empty s.current_line)) [
  | inl e ↦ rw e h.result
  | inr n ↦
      rw n (All-append IsClear s.result h.result (contains-trim 40 s.current_line h.current_line))
]

-- Whatever the file, no line of the result has an opening parenthesis.
pub preprocess_zone_content-IsClear :
    (content : Text) → All IsClear (preprocess_zone_content content)
unfolding preprocess_zone_content
preprocess_zone_content-IsClear content =
    finish-IsClear (add_lines (lines content) start)
      (add_lines-ClearLines (lines content) start (record { result = tt; current_line = refl }))
