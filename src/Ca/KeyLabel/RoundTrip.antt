-- ===== src/Ca/KeyLabel/RoundTrip.antt =====
-- Labels in PKCS#11 URIs come back (src/ca/issue.rs).
use kipuka.Common.{
  ℕ, ◌+◌, ◌<◌, ◌*◌, true, ◌≡◌, ◌≢◌, refl, ap, ◌∙◌, none, some, List, [], ◌∷◌, ◌++◌, arith, ascii,
  same_bytes, is_utf8,
}
use kipuka.Auth.NameMatch.{split_once}
use kipuka.Coap.Router.{strip_prefix}
use kipuka.Ca.KeyLabel.{
  ok, hex_digit, percent, push, decode_from, from_utf8, pkcs11_percent_decode, split, object_value,
  find_object, semicolon, parse_pkcs11_object_label,
}

-- A byte is a hexadecimal digit, in either case, of a value.
pub data IsDigit : ℕ → ℕ → Type 0 where
  decimal : (n : ℕ) → n < 10 → IsDigit (48 + n) n
  lower : (n : ℕ) → n < 6 → IsDigit (97 + n) (10 + n)
  upper : (n : ℕ) → n < 6 → IsDigit (65 + n) (10 + n)

hex_digit-IsDigit : {b value : ℕ} → IsDigit b value → hex_digit b ≡ some value
unfolding hex_digit
hex_digit-IsDigit (decimal n p) = ground (arith, p)
hex_digit-IsDigit (lower n p) = ground (arith, p)
hex_digit-IsDigit (upper n p) = ground (arith, p)

-- The first text is a percent-encoding of the second: a byte stands for itself or is written in two
-- digits of either case, and the percent sign is always written in digits.
pub data Encodes : List ℕ → List ℕ → Type 0 where
  done : Encodes [] []
  plain :
      (b : ℕ) {encoded text : List ℕ}
      → b ≢ percent
      → Encodes encoded text
      → Encodes (b ∷ encoded) (b ∷ text)
  digits :
      (h l hi lo : ℕ) {encoded text : List ℕ}
      → IsDigit h hi
      → IsDigit l lo
      → Encodes encoded text
      → Encodes (percent ∷ h ∷ l ∷ encoded) ((hi * 16 + lo) ∷ text)

abbrev pub NoSemicolon : List ℕ → Type 0
NoSemicolon [] = Unit {0}
NoSemicolon (b ∷ bs) = (b ≢ semicolon) × NoSemicolon bs

decode_from-plain :
    (i b : ℕ) (bs : List ℕ) → b ≢ percent → decode_from i (b ∷ bs) ≡ push b (decode_from (i + 1) bs)
unfolding decode_from
decode_from-plain i b [] p = refl
decode_from-plain i b (c ∷ []) p = refl
decode_from-plain i b (h ∷ l ∷ bs) p = ground (arith, p)

decode_from-Encodes :
    {encoded text : List ℕ} (i : ℕ) → Encodes encoded text → decode_from i encoded ≡ ok text
unfolding decode_from
decode_from-Encodes i done = refl
decode_from-Encodes i (plain b {encoded = bs} p e) =
    decode_from-plain i b bs p ∙ ap (push b) (decode_from-Encodes (i + 1) e)
decode_from-Encodes i (digits h l hi lo p q e) =
    ground (arith, hex_digit-IsDigit p, hex_digit-IsDigit q, decode_from-Encodes (i + 3) e)

split-NoSemicolon :
    (part rest : List ℕ)
    → NoSemicolon part
    → split semicolon (part ++ (semicolon ∷ rest)) ≡ part ∷ split semicolon rest
unfolding split
split-NoSemicolon [] rest n = ground arith
split-NoSemicolon (b ∷ part) rest n = ground (arith, n.0, split-NoSemicolon part rest n.1)

object_value-object : (value : List ℕ) → object_value (ascii "object=" ++ value) ≡ some value
unfolding object_value split_once same_bytes
object_value-object value = refl

decode-Encodes :
    (encoded text : List ℕ)
    → Encodes encoded text
    → is_utf8 text ≡ true
    → pkcs11_percent_decode encoded ≡ ok text
unfolding pkcs11_percent_decode
decode-Encodes encoded text e u = ap from_utf8 (decode_from-Encodes 0 e) ∙ ground (arith, u)

find_object-skip :
    (part : List ℕ) (parts : List (List ℕ))
    → object_value part ≡ none
    → find_object (part ∷ parts) ≡ find_object parts
unfolding find_object
find_object-skip part parts n = ground (arith, n)

find_object-found :
    (part value : List ℕ) (parts : List (List ℕ))
    → object_value part ≡ some value
    → find_object (part ∷ parts) ≡ pkcs11_percent_decode value
unfolding find_object
find_object-found part value parts f = ground (arith, f)

object_part-NoSemicolon :
    (value : List ℕ) → NoSemicolon value → NoSemicolon (ascii "object=" ++ value)
object_part-NoSemicolon value n = (
  λ e. ground arith,
  (
    λ e. ground arith,
    (
      λ e. ground arith,
      (λ e. ground arith, (λ e. ground arith, (λ e. ground arith, (λ e. ground arith, n)))),
    ),
  ),
)

-- The URI of an object, with an attribute before it and others after it.
abbrev pub uri_of : List ℕ → List ℕ → List ℕ → List ℕ
uri_of front encoded back =
    ascii "pkcs11:" ++ (front ++ (semicolon ∷ ((ascii "object=" ++ encoded) ++ (semicolon ∷ back))))

-- A label comes back from a URI that holds it in any percent-encoding, in digits of either case, after
-- an attribute of another name and whatever follows: the label is UTF-8, and neither the attribute
-- before it nor the encoded label has a semicolon in it.
pub parse_pkcs11_object_label-Encodes :
    (front encoded text back : List ℕ)
    → NoSemicolon front
    → object_value front ≡ none
    → NoSemicolon encoded
    → Encodes encoded text
    → is_utf8 text ≡ true
    → parse_pkcs11_object_label (uri_of front encoded back) ≡ ok text
unfolding parse_pkcs11_object_label strip_prefix
parse_pkcs11_object_label-Encodes front encoded text back n other m e u =
    let part = ascii "object=" ++ encoded in
    ap find_object (split-NoSemicolon front (part ++ (semicolon ∷ back)) n)
    ∙ find_object-skip front (split semicolon (part ++ (semicolon ∷ back))) other
    ∙ ap find_object (split-NoSemicolon part back (object_part-NoSemicolon encoded m))
    ∙ find_object-found part encoded (split semicolon back) (object_value-object encoded)
    ∙ decode-Encodes encoded text e u
