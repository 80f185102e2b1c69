-- ===== src/Zone/File/Words.antt =====
-- Lines of words with single spaces, and the record that such a line yields.
use mathlib.Core.List.{append_assoc}
use lrmdns.Prelude.{
  ℕ, ◌≡◌, refl, ◌∙◌, ap, false, some, List, [], ◌∷◌, ◌++◌, arith, All, ltb, length,
}
use lrmdns.Prelude.Result.{ok, ◌>>=◌}
use lrmdns.Dns.Name.{DnsApi}
use lrmdns.Dns.Rr.{rtype_key}
use lrmdns.Zone.Text.{Text, is_whitespace, words, join, push_front, parse_unsigned}
use lrmdns.Zone.File.Rdata.{Readers}
use lrmdns.Zone.File.Parse.{
  kinds, find_kind, parse_rdata, record_of, class_in, parse_owner, parse_resource_record,
  parse_rest, take_ttl,
}

-- not empty, and no white space
abbrev pub IsWord : Text → Type 0
IsWord [] = ⊥
IsWord (c ∷ s) = All (λ d. is_whitespace d ≡ false) (c ∷ s)

words-push :
    (c d : ℕ) (s : Text)
    → is_whitespace c ≡ false
    → is_whitespace d ≡ false
    → words (c ∷ d ∷ s) ≡ push_front c (words (d ∷ s))
unfolding words
words-push c d s h k = rw (h, k) refl

words-end : (c : ℕ) → is_whitespace c ≡ false → words (c ∷ []) ≡ (c ∷ []) ∷ []
unfolding words
words-end c h = rw h refl

words-space : (c : ℕ) (s : Text) → is_whitespace c ≡ false → words (c ∷ 32 ∷ s) ≡ (c ∷ []) ∷ words s
unfolding words
words-space c s h = rw h refl

words-last : (w : Text) → IsWord w → words w ≡ w ∷ []
words-last [] h = absurd h
words-last (c ∷ []) h = words-end c h.0
words-last (c ∷ d ∷ w) h = words-push c d w h.0 h.1.0 ∙ ap (push_front c) (words-last (d ∷ w) h.1)

words-word : (w s : Text) → IsWord w → words (w ++ 32 ∷ s) ≡ w ∷ words s
words-word [] s h = absurd h
words-word (c ∷ []) s h = words-space c s h.0
words-word (c ∷ d ∷ w) s h =
    words-push c d (w ++ 32 ∷ s) h.0 h.1.0 ∙ ap (push_front c) (words-word (d ∷ w) s h.1)

words-nil : words [] ≡ []
unfolding words
words-nil = refl

-- Splitting a line at its white space yields the words it was joined from.
pub words-join : (ws : List Text) → All IsWord ws → words (join (32 ∷ []) ws) ≡ ws
words-join [] h = words-nil
words-join (w ∷ []) h = words-last w h.0
words-join (w ∷ v ∷ ws) h =
    ap words (append_assoc w (32 ∷ []) (join (32 ∷ []) (v ∷ ws)))
    ∙ words-word w (join (32 ∷ []) (v ∷ ws)) h.0
    ∙ ap (◌∷◌ w) (words-join (v ∷ ws) h.1)

module _ {Name : Type 0} ⦃api : DnsApi Name⦄ (readers : Readers Name) (origin : Name)
    (line_num : ℕ) where
  -- A line of an owner, a TTL, the class IN, a type and the words of its RDATA is read as the record
  -- that its RDATA yields.
  pub parse_resource_record-line :
      (owner ttl rtype : Text) (rdata_words : List Text) (default_ttl n : ℕ) {name : Name}
      → All IsWord (owner ∷ ttl ∷ class_in ∷ rtype ∷ rdata_words)
      → parse_owner readers origin line_num owner ≡ ok name
      → parse_unsigned 32 ttl ≡ some n
      → parse_resource_record readers origin line_num
          (join (32 ∷ []) (owner ∷ ttl ∷ class_in ∷ rtype ∷ rdata_words))
          default_ttl
        ≡ (parse_rdata readers origin line_num (find_kind rtype kinds) rdata_words >>= λ rdata.
            ok (record_of readers origin line_num name n rdata))
  unfolding parse_resource_record
  parse_resource_record-line owner ttl rtype rdata_words default_ttl n {name} h p q =
      let long : ltb (length (owner ∷ ttl ∷ class_in ∷ rtype ∷ rdata_words)) 4 ≡ false =
        ground arith in
      rw (words-join (owner ∷ ttl ∷ class_in ∷ rtype ∷ rdata_words) h)
        (rw (long, p, parse_rest, take_ttl, q) refl)
