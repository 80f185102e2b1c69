-- ===== src/Zone/File/Print/Rdata.antt =====
-- The printed words are words, and the RDATA is read from them.
use lrmdns.Prelude.{
  ℕ, suc, ◌+◌, ◌/◌, ◌%◌, ◌^◌, ◌<◌, ◌≡◌, refl, ◌∙◌, ap, true, false, some, [], ◌∷◌, arith, All,
  All-append, All-imp, is_empty, Bool-cases, inl, inr, ltb, is_empty-append,
}
use lrmdns.Prelude.Int.{ℤ, pos, negsuc}
use lrmdns.Prelude.Result.{ok}
use lrmdns.Dns.Name.{DnsApi}
use lrmdns.Zone.Text.{Text}
use lrmdns.Zone.Text.Decimal.{
  decimal, signed_decimal, is_digit, AllDigits, digits_of-AllDigits, digits_of-nonempty,
  parse_unsigned-decimal, parse_i32-signed_decimal,
}
use lrmdns.Zone.Text.Lines.{is_plain, AllPlain, IsToken}
use lrmdns.Zone.Address.Dotted.{print_octet, dotted, parse_ipv4-dotted}
use lrmdns.Zone.Address.{parse_ipv4}
use lrmdns.Zone.File.Rdata.{
  Readers, parse_domain_name, parse_a, parse_ns, parse_cname, parse_ptr, parse_mx, parse_srv,
  parse_soa,
}
use lrmdns.Zone.File.Parse.{kinds, find_kind, parse_rdata}
use lrmdns.Zone.File.Print.{PlainData, rdata_of, print_address, print_rdata, IsName, IsPrintable}

plain_of_digit : (c : ℕ) → is_digit c ≡ true → is_plain c ≡ true
plain_of_digit c h = ground arith

IsToken-of_All : (w : Text) → is_empty w ≡ false → AllPlain w → IsToken w
IsToken-of_All [] e h = cc
IsToken-of_All (c ∷ w) e h = h

AllPlain-digits : (s : Text) → AllDigits s → AllPlain s
AllPlain-digits s h = All-imp _ _ s plain_of_digit h

pub decimal-IsToken : (n : ℕ) → IsToken (decimal n)
decimal-IsToken n =
    IsToken-of_All (decimal n) (digits_of-nonempty 9 n)
      (AllPlain-digits (decimal n) (digits_of-AllDigits 10 n))

signed_decimal-IsToken : (z : ℤ) → IsToken (signed_decimal z)
signed_decimal-IsToken (pos n) = decimal-IsToken n
signed_decimal-IsToken (negsuc n) =
    (refl, AllPlain-digits (decimal (suc n)) (digits_of-AllDigits 10 (suc n)))

digit_IsDigit : (d : ℕ) → d < 10 → is_digit (48 + d) ≡ true
digit_IsDigit d h = ground arith

print_octet-AllDigits : (d : ℕ) → d < 256 → AllDigits (print_octet d)
print_octet-AllDigits d h = elim (Bool-cases (ltb d 10)) [
  | inl one ↦ rw one (digit_IsDigit d (ground arith), tt)
  | inr n ↦ elim (Bool-cases (ltb d 100)) [
    | inl two ↦
        rw (n, two)
          (digit_IsDigit (d / 10) (ground arith), (digit_IsDigit (d % 10) (omega arith), tt))
    | inr m ↦
        rw (n, m)
          (
            digit_IsDigit (d / 100) (omega arith),
            (digit_IsDigit (d / 10 % 10) (omega arith), (digit_IsDigit (d % 10) (omega arith), tt)),
          )
  ]
]

octet-AllPlain : (d : ℕ) → d < 256 → AllPlain (print_octet d)
octet-AllPlain d h = AllPlain-digits (print_octet d) (print_octet-AllDigits d h)

dotted-IsToken : (a b c d : ℕ) → a < 256 → b < 256 → c < 256 → d < 256 → IsToken (dotted a b c d)
dotted-IsToken a b c d ha hb hc hd =
    IsToken-of_All (dotted a b c d) (is_empty-append {0} (print_octet a) 46 _) (
      All-append _ (print_octet a) _ (octet-AllPlain a ha) (
        refl,
        All-append _ (print_octet b) _ (octet-AllPlain b hb) (
          refl,
          All-append _ (print_octet c) _ (octet-AllPlain c hc)
              (refl, All-append _ (print_octet d) [] (octet-AllPlain d hd) tt),
        ),
      ))

parse_ipv4-print : (n : ℕ) → n < 2 ^ 32 → parse_ipv4 (print_address n) ≡ some n
parse_ipv4-print n h =
    parse_ipv4-dotted (n / 2 ^ 24) (n / 2 ^ 16 % 256) (n / 2 ^ 8 % 256) (n % 256) (omega arith)
      (omega arith) (omega arith) (omega arith)
    ∙ ap some (omega arith)

module _ {Name : Type 0} ⦃api : DnsApi Name⦄ where
  pub print_rdata-IsToken :
      (d : PlainData Name)
      → IsPrintable d
      → IsToken (print_rdata d).0 × All IsToken (print_rdata d).1
  print_rdata-IsToken (PlainData.a n) h = (
    (refl, tt),
    (
      dotted-IsToken (n / 2 ^ 24) (n / 2 ^ 16 % 256) (n / 2 ^ 8 % 256) (n % 256) (omega arith)
          (omega arith) (omega arith) (omega arith),
      tt,
    ),
  )
  print_rdata-IsToken (PlainData.ns n) h = ((refl, (refl, tt)), (h.token, tt))
  print_rdata-IsToken (PlainData.cname n) h =
      ((refl, (refl, (refl, (refl, (refl, tt))))), (h.token, tt))
  print_rdata-IsToken (PlainData.ptr n) h = ((refl, (refl, (refl, tt))), (h.token, tt))
  print_rdata-IsToken (PlainData.mx p n) h =
      ((refl, (refl, tt)), (decimal-IsToken p, (h.1.token, tt)))
  print_rdata-IsToken (PlainData.srv p w o n) h = (
    (refl, (refl, (refl, tt))),
    (decimal-IsToken p, (decimal-IsToken w, (decimal-IsToken o, (h.3.token, tt)))),
  )
  print_rdata-IsToken (PlainData.soa d) h = (
    (refl, (refl, (refl, tt))),
    (
      h.0.token,
      (
        h.1.token,
        (
          decimal-IsToken d.serial,
          (
            signed_decimal-IsToken d.refresh,
            (
              signed_decimal-IsToken d.retry,
              (signed_decimal-IsToken d.expire, (decimal-IsToken d.minimum, tt)),
            ),
          ),
        ),
      ),
    ),
  )

  module _ (readers : Readers Name) (origin : Name) (line_num : ℕ) where
    name-print : (n : Name) → IsName n → parse_domain_name (api.to_text n) origin ≡ some n
    unfolding parse_domain_name
    name-print n h = rw h.full h.reads

    -- The RDATA that is printed is read as it is.
    pub parse_rdata-print :
        (d : PlainData Name)
        → IsPrintable d
        → parse_rdata readers origin line_num (find_kind (print_rdata d).0 kinds) (print_rdata d).1
          ≡ ok (some (rdata_of d))
    unfolding parse_a parse_ns parse_cname parse_ptr parse_mx parse_srv parse_soa
    parse_rdata-print (PlainData.a n) h = rw (parse_ipv4-print n h) refl
    parse_rdata-print (PlainData.ns n) h = rw (name-print n h) refl
    parse_rdata-print (PlainData.cname n) h = rw (name-print n h) refl
    parse_rdata-print (PlainData.ptr n) h = rw (name-print n h) refl
    parse_rdata-print (PlainData.mx p n) h =
        rw (parse_unsigned-decimal 16 p (omega arith) h.0, name-print n h.1) refl
    parse_rdata-print (PlainData.srv p w o n) h =
        rw
          (
            parse_unsigned-decimal 16 p (omega arith) h.0,
            parse_unsigned-decimal 16 w (omega arith) h.1,
            parse_unsigned-decimal 16 o (omega arith) h.2,
            name-print n h.3,
          )
          refl
    parse_rdata-print (PlainData.soa d) h =
        rw
          (
            name-print d.mname h.0,
            name-print d.rname h.1,
            parse_unsigned-decimal 32 d.serial (omega arith) h.2,
            parse_i32-signed_decimal d.refresh h.3,
            parse_i32-signed_decimal d.retry h.4,
            parse_i32-signed_decimal d.expire h.5,
            parse_unsigned-decimal 32 d.minimum (omega arith) h.6,
          )
          refl
