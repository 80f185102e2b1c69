-- ===== src/Dnssec/KeyTag.antt =====
-- The key tag against RFC 4034, Appendix B, and the absence of overflow.
use lrmdns.Prelude.{
  ℕ, ◌+◌, ◌*◌, ◌/◌, ◌%◌, ◌^◌, ◌≤◌, ◌<◌, suc, ◌≡◌, refl, some, [], ◌∷◌, length, All, arith, ap, ◌∙◌,
}
use lrmdns.Prelude.Result.{ok}
use lrmdns.Dns.Rr.{Bytes, Record, RData, DnskeyData}
use lrmdns.Dnssec.{Crypto, key_rdata, add_byte, key_tag_loop, as_dnskey, compute_key_tag}

abbrev pub AreBytes : Bytes → Type 0
AreBytes = All (λ b. b < 256)

-- The RDATA as big-endian words of 16 bits, the last one padded with zeros, added up.
unfoldable pub words_sum : Bytes → ℕ
words_sum [] = 0
words_sum (hi ∷ []) = hi * 256
words_sum (hi ∷ lo ∷ rest) = hi * 256 + lo + words_sum rest

pub words_sum-le : (bs : Bytes) → AreBytes bs → words_sum bs ≤ 65280 * length bs
unfolding words_sum
words_sum-le [] h = omega arith
words_sum-le (hi ∷ []) h = omega arith
words_sum-le (hi ∷ lo ∷ rest) h = omega (arith, words_sum-le rest h.1.1)

add_byte-even : (i ac b : ℕ) → i % 2 ≡ 0 → ac + b * 256 < 2 ^ 32 → add_byte i ac b ≡ ac + b * 256
unfolding add_byte
add_byte-even i ac b e h = rw e (omega arith)

add_byte-odd : (i ac b : ℕ) → i % 2 ≡ 1 → ac + b < 2 ^ 32 → add_byte i ac b ≡ ac + b
unfolding add_byte
add_byte-odd i ac b e h = rw e (omega arith)

-- From an even index, while the sum fits 32 bits, the loop adds the words.
key_tag_loop-eq-words_sum :
    (i ac : ℕ) (bs : Bytes)
    → i % 2 ≡ 0
    → ac + words_sum bs < 2 ^ 32
    → key_tag_loop i ac bs ≡ ac + words_sum bs
unfolding key_tag_loop words_sum
key_tag_loop-eq-words_sum i ac [] e h = omega arith
key_tag_loop-eq-words_sum i ac (hi ∷ []) e h = add_byte-even i ac hi e h
key_tag_loop-eq-words_sum i ac (hi ∷ lo ∷ rest) e h = rw (add_byte-even i ac hi e (omega arith)) (
    rw (add_byte-odd (suc i) (ac + hi * 256) lo (omega arith) (omega arith)) (
      key_tag_loop-eq-words_sum (suc (suc i)) (ac + hi * 256 + lo) rest (omega arith) (omega arith)
      ∙ omega arith))

module _ (c : Crypto) (key : DnskeyData) (bytes : AreBytes (key_rdata c key))
    (fits : length key.public_key ≤ 65531) where
  key_rdata_sum : words_sum (key_rdata c key) ≤ 4278124800
  unfolding key_rdata
  key_rdata_sum = omega (arith, words_sum-le (key_rdata c key) bytes)

  key_tag_loop-key_rdata : key_tag_loop 0 0 (key_rdata c key) ≡ words_sum (key_rdata c key)
  key_tag_loop-key_rdata =
      key_tag_loop-eq-words_sum 0 0 (key_rdata c key) refl (omega (arith, key_rdata_sum))
      ∙ omega arith

  -- A DNSKEY record with a public key of at most 65531 bytes has the key tag of RFC 4034: with S the
  -- sum of its 16-bit words, S + S / 65536 modulo 65536; and the 32-bit additions do not overflow.
  pub compute_key_tag-words :
      {Name : Type 0} (r : Record Name)
      → r.rdata ≡ some (RData.dnskey key)
      → let s = words_sum (key_rdata c key) in
        (compute_key_tag c r ≡ ok ((s + s / 2 ^ 16) % 2 ^ 16)) × (s + s / 2 ^ 16 < 2 ^ 32)
  unfolding compute_key_tag
  compute_key_tag-words r e = (
    rw (e, as_dnskey) (rw key_tag_loop-key_rdata (ap ok (omega (arith, key_rdata_sum)))),
    omega (arith, key_rdata_sum),
  )
