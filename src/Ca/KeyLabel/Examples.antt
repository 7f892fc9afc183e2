-- ===== src/Ca/KeyLabel/Examples.antt =====
-- Labels in PKCS#11 URIs (src/ca/issue.rs), and the theorem on them at a concrete input.
use kipuka.Common.{◌≡◌, refl, ascii, same_bytes, is_utf8, is_utf8_from, arith}
use kipuka.Auth.NameMatch.{split_once}
use kipuka.Coap.Router.{strip_prefix}
use kipuka.Ca.KeyLabel.{
  ok, err, invalid_percent, hex_digit, decode_from, pkcs11_percent_decode, split, object_value,
  find_object, parse_pkcs11_object_label,
}
use kipuka.Ca.KeyLabel.RoundTrip.{
  Encodes, done, decimal, plain, digits, uri_of, parse_pkcs11_object_label-Encodes,
}

bad_digit_run : pkcs11_percent_decode (ascii "a%4g") ≡ err (invalid_percent 2)
unfolding pkcs11_percent_decode decode_from hex_digit
bad_digit_run = refl

-- A sign with one digit after it, at the end, stands for itself.
cut_off_run : pkcs11_percent_decode (ascii "a%4") ≡ ok (ascii "a%4")
unfolding pkcs11_percent_decode decode_from hex_digit is_utf8 is_utf8_from
cut_off_run = refl

-- The query of a URI is not taken off.
query_run :
    parse_pkcs11_object_label (ascii "pkcs11:object=k?pin-value=1") ≡ ok (ascii "k?pin-value=1")
unfolding parse_pkcs11_object_label strip_prefix split find_object object_value split_once
    same_bytes pkcs11_percent_decode decode_from is_utf8 is_utf8_from
query_run = refl

-- `a b`, with its space in digits.
spaced : Encodes (ascii "a%20b") (ascii "a b")
spaced =
    plain 97 (λ e. ground arith)
      (digits 50 48 2 0 (decimal 2 (omega arith)) (decimal 0 (omega arith))
        (plain 98 (λ e. ground arith) done))

parse_pkcs11_object_label-Encodes_example :
    parse_pkcs11_object_label (uri_of (ascii "token=t") (ascii "a%20b") (ascii "type=private"))
    ≡ ok (ascii "a b")
unfolding object_value split_once same_bytes is_utf8 is_utf8_from
parse_pkcs11_object_label-Encodes_example =
    parse_pkcs11_object_label-Encodes (ascii "token=t") (ascii "a%20b") (ascii "a b")
      (ascii "type=private")
      (
        λ e. ground arith,
        (
          λ e. ground arith,
          (
            λ e. ground arith,
            (λ e. ground arith, (λ e. ground arith, (λ e. ground arith, (λ e. ground arith, tt)))),
          ),
        ),
      )
      refl
      (
        λ e. ground arith,
        (λ e. ground arith, (λ e. ground arith, (λ e. ground arith, (λ e. ground arith, tt)))),
      )
      spaced refl
