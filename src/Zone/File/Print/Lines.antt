-- ===== src/Zone/File/Print/Lines.antt =====
-- The printed lines are kept as they are.
use lrmdns.Prelude.{◌≡◌, refl, ◌∙◌, ap, true, false, none, List, [], ◌∷◌, arith, All, All-imp, map}
use lrmdns.Dns.Name.{DnsApi, name_key}
use lrmdns.Dns.Rr.{rtype_key}
use lrmdns.Zone.Text.{before, Text, trim, text_eq, ends_with_dot}
use lrmdns.Zone.Text.Lines.{
  black_of_plain, IsToken, AllInline, lines-unlines, before-inline, contains-inline, join-AllInline,
  trim-join, join-IsLine,
}
use lrmdns.Zone.File.{clean, strip_comment, preprocess_zone_content}
use lrmdns.Zone.File.Joined.{IsPlain, kept, preprocess_zone_content-plain}
use lrmdns.Zone.File.Words.{IsWord}
use lrmdns.Zone.File.Print.{Entry, print_words, print_entry, print_file, IsEntry}
use lrmdns.Zone.File.Print.Rdata.{decimal-IsToken, print_rdata-IsToken}

pub token-IsWord : (w : Text) → IsToken w → IsWord w
token-IsWord [] h = absurd h
token-IsWord (c ∷ w) h = All-imp _ _ (c ∷ w) black_of_plain h

-- a text that ends with a dot is neither `@` nor `*`
pub full_lem :
    (s : Text)
    → ends_with_dot s ≡ true
    → (text_eq s (b'@' ∷ []) ≡ false) × (text_eq s (b'*' ∷ []) ≡ false)
full_lem [] h = (refl, refl)
full_lem (c ∷ []) h = ground arith
full_lem (c ∷ d ∷ s) h = ground arith

strip_comment-none : (s : Text) → before 59 s ≡ none → strip_comment s ≡ s
unfolding strip_comment
strip_comment-none s h = ground (arith, h)

clean-line : (s : Text) → before 59 s ≡ none → trim s ≡ s → clean s ≡ s
unfolding clean
clean-line s h t = ap trim (strip_comment-none s h) ∙ t

module _ {Name : Type 0} ⦃api : DnsApi Name⦄ where
  pub print_words-IsToken :
      (e : Entry Name) → IsEntry e → All IsToken (api.to_text e.name ∷ print_words e)
  print_words-IsToken e h =
      let (t, ws) = print_rdata-IsToken e.rdata h.rdata in
      (h.name.token, (decimal-IsToken e.ttl, ((refl, (refl, tt)), (t, ws))))

  print_entry-AllInline : (e : Entry Name) → IsEntry e → AllInline (print_entry e)
  print_entry-AllInline e h =
      join-AllInline (api.to_text e.name ∷ print_words e) (print_words-IsToken e h)

  -- a printed line is kept as it is
  clean-print : (e : Entry Name) → IsEntry e → clean (print_entry e) ≡ print_entry e
  clean-print e h =
      clean-line (print_entry e) (before-inline (print_entry e) (print_entry-AllInline e h))
        (trim-join (api.to_text e.name) (print_words e) (print_words-IsToken e h))

  print_entry-IsPlain : (e : Entry Name) → IsEntry e → IsPlain (print_entry e)
  print_entry-IsPlain e h =
      rw (clean-print e h) (contains-inline (print_entry e) (print_entry-AllInline e h))

  lines-print : (es : List (Entry Name)) → All IsEntry es → All AllInline (map print_entry es)
  lines-print [] h = tt
  lines-print (e ∷ es) h = (print_entry-AllInline e h.0, lines-print es h.1)

  print_entry-AllPlain :
      (es : List (Entry Name)) → All IsEntry es → All IsPlain (map print_entry es)
  print_entry-AllPlain [] h = tt
  print_entry-AllPlain (e ∷ es) h = (print_entry-IsPlain e h.0, print_entry-AllPlain es h.1)

  kept-print :
      (es : List (Entry Name)) → All IsEntry es → kept (map print_entry es) ≡ map print_entry es
  kept-print [] h = refl
  kept-print (e ∷ es) h =
      rw
        (
          clean-print e h.0,
          (join-IsLine (api.to_text e.name) (print_words e) (print_words-IsToken e h.0)).0,
        )
        (ap (◌∷◌ (print_entry e)) (kept-print es h.1))

  pub preprocess_zone_content-print :
      (es : List (Entry Name))
      → All IsEntry es
      → preprocess_zone_content (print_file es) ≡ map print_entry es
  preprocess_zone_content-print es h =
      let l = lines-unlines (map print_entry es) (lines-print es h) in
      preprocess_zone_content-plain (print_file es) (rw l (print_entry-AllPlain es h))
      ∙ ap kept l
      ∙ kept-print es h
