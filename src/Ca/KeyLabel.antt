-- ===== src/Ca/KeyLabel.antt =====
-- The label of a key in a PKCS#11 URI: `parse_pkcs11_object_label` of src/ca/issue.rs, on the bytes
-- of the URI.
pub mod RoundTrip
mod Examples
use kipuka.Common.{
  ℕ, zero, suc, ◌+◌, ◌-◌, ◌*◌, Bool, true, false, not, ◌&&◌, ◌||◌, Option, none, some, List, [],
  ◌∷◌, ltb, leb, ◌==◌, if◌then◌else◌, ascii, same_bytes, is_utf8,
}
use kipuka.Auth.NameMatch.{split_once}
use kipuka.Coap.Router.{strip_prefix}

-- A digit that is none is told by its position, as the code counts it.
pub data LabelError : Type 0 where
  not_pkcs11 not_utf8 no_object : LabelError
  invalid_percent : ℕ → LabelError

pub data LabelResult : Type 0 where
  ok : List ℕ → LabelResult
  err : LabelError → LabelResult

unfoldable pub hex_digit : ℕ → Option ℕ
hex_digit b =
    if leb 48 b && leb b 57
    then some (b - 48)
    else if leb 97 b && leb b 102
    then some (b - 97 + 10)
    else if leb 65 b && leb b 70
    then some (b - 65 + 10)
    else none

abbrev pub percent : ℕ
percent = 37

abbrev pub push : ℕ → LabelResult → LabelResult
push b (ok bs) = ok (b ∷ bs)
push b (err e) = err e

-- The loop, from position `i`.
unfoldable pub decode_from : ℕ → List ℕ → LabelResult
unfolding hex_digit
decode_from i [] = ok []
decode_from i (b ∷ []) = push b (decode_from (i + 1) [])
decode_from i (b ∷ c ∷ []) = push b (decode_from (i + 1) (c ∷ []))
decode_from i (b ∷ h ∷ l ∷ bs) = elim (b == percent) [
  | true ↦ elim (hex_digit h) [
    | none ↦ err (invalid_percent i)
    | some hi ↦ elim (hex_digit l) [
      | none ↦ err (invalid_percent (i + 1))
      | some lo ↦ push (hi * 16 + lo) (decode_from (i + 3) bs)
    ]
  ]
  | false ↦ push b (decode_from (i + 1) (h ∷ l ∷ bs))
]

abbrev pub from_utf8 : LabelResult → LabelResult
from_utf8 (ok bs) = if is_utf8 bs then ok bs else err not_utf8
from_utf8 (err e) = err e

unfoldable pub pkcs11_percent_decode : List ℕ → LabelResult
unfolding decode_from
pkcs11_percent_decode bytes = from_utf8 (decode_from 0 bytes)

abbrev with_first : ℕ → List (List ℕ) → List (List ℕ)
with_first b [] = (b ∷ []) ∷ []
with_first b (part ∷ parts) = (b ∷ part) ∷ parts

unfoldable pub split : ℕ → List ℕ → List (List ℕ)
split c [] = [] ∷ []
split c (b ∷ bs) = let rest = split c bs in if b == c then [] ∷ rest else with_first b rest

abbrev value_of : Option (List ℕ × List ℕ) → Option (List ℕ)
value_of none = none
value_of (some (key, value)) = if same_bytes key (ascii "object") then some value else none

-- The value of an attribute `object`.
unfoldable pub object_value : List ℕ → Option (List ℕ)
object_value part = value_of (split_once 61 part)

unfoldable pub find_object : List (List ℕ) → LabelResult
unfolding object_value pkcs11_percent_decode
find_object [] = err no_object
find_object (part ∷ parts) = elim (object_value part) [
  | none ↦ find_object parts
  | some value ↦ pkcs11_percent_decode value
]

abbrev pub semicolon : ℕ
semicolon = 59

abbrev find_in_path : Option (List ℕ) → LabelResult
find_in_path none = err not_pkcs11
find_in_path (some path) = find_object (split semicolon path)

unfoldable pub parse_pkcs11_object_label : List ℕ → LabelResult
unfolding find_object split
parse_pkcs11_object_label uri = find_in_path (strip_prefix (ascii "pkcs11:") uri)
