-- ===== src/Util/Header.antt =====
-- `parse_authorization` of crates/kipuka-util/src/auth.rs. A header is the list of its code points, and
-- what is decoded from it a list of bytes. Base64 is that of a library, an argument here.
pub mod Basic
use kipuka.Common.{
  ℕ, ◌+◌, Bool, true, false, not, ◌&&◌, ◌||◌, Option, none, some, List, [], ◌∷◌, ltb, leb, ◌==◌,
  if◌then◌else◌, ascii, same_bytes, is_utf8,
}
use kipuka.Auth.NameMatch.{to_ascii_lowercase, split_once}

pub data Malformed : Type 0 where
  no_credentials empty_credentials null_byte not_utf8 no_separator empty_user_id : Malformed

pub data AuthError : Type 0 where
  missing base64 : AuthError
  malformed : Malformed → AuthError
  unsupported_scheme : List ℕ → AuthError

pub data AuthCredential : Type 0 where
  basic : (username password : List ℕ) → AuthCredential
  bearer negotiate client_cert : List ℕ → AuthCredential

pub data AuthResult : Type 0 where
  ok : AuthCredential → AuthResult
  err : AuthError → AuthResult

-- `char::is_whitespace`.
unfoldable pub is_whitespace : ℕ → Bool
is_whitespace c =
    (leb 9 c && leb c 13)
    || ((c == 32)
        || ((c == 0x85)
            || ((c == 0xA0)
                || ((c == 0x1680)
                    || ((leb 0x2000 c && leb c 0x200A)
                        || ((c == 0x2028)
                            || ((c == 0x2029)
                                || ((c == 0x202F) || ((c == 0x205F) || (c == 0x3000))))))))))

abbrev is_empty : List ℕ → Bool
is_empty [] = true
is_empty (c ∷ cs) = false

unfoldable pub trim_left : List ℕ → List ℕ
unfolding is_whitespace
trim_left [] = []
trim_left (c ∷ cs) = let rest = trim_left cs in if is_whitespace c then rest else c ∷ cs

unfoldable pub trim_right : List ℕ → List ℕ
unfolding is_whitespace
trim_right [] = []
trim_right (c ∷ cs) =
    let rest = trim_right cs in if is_whitespace c && is_empty rest then [] else c ∷ rest

abbrev pub trim : List ℕ → List ℕ
trim text = trim_right (trim_left text)

unfoldable pub has_null : List ℕ → Bool
has_null [] = false
has_null (b ∷ bs) = (b == 0) || has_null bs

abbrev pub colon : ℕ
colon = 58

unfoldable pub split_credentials : Option (List ℕ × List ℕ) → AuthResult
split_credentials none = err (malformed no_separator)
split_credentials (some (username, password)) =
    if is_empty username then err (malformed empty_user_id) else ok (basic username password)

unfoldable pub read_basic : Option (List ℕ) → AuthResult
unfolding has_null split_credentials
read_basic none = err base64
read_basic (some decoded) =
    if has_null decoded
    then err (malformed null_byte)
    else if not (is_utf8 decoded)
    then err (malformed not_utf8)
    else split_credentials (split_once colon decoded)

abbrev read_negotiate : Option (List ℕ) → AuthResult
read_negotiate none = err base64
read_negotiate (some decoded) = ok (negotiate decoded)

module _ (decode : List ℕ → Option (List ℕ)) where
  unfoldable pub parse_basic : List ℕ → AuthResult
  unfolding read_basic
  parse_basic payload = read_basic (decode payload)

  unfoldable pub parse_negotiate : List ℕ → AuthResult
  parse_negotiate payload = read_negotiate (decode payload)

  unfoldable pub parse_scheme : List ℕ → List ℕ → AuthResult
  unfolding parse_basic parse_negotiate
  parse_scheme scheme payload =
      if same_bytes scheme (ascii "basic")
      then parse_basic payload
      else if same_bytes scheme (ascii "bearer")
      then ok (bearer payload)
      else if same_bytes scheme (ascii "negotiate")
      then parse_negotiate payload
      else err (unsupported_scheme scheme)

  unfoldable pub parse_parts : Option (List ℕ × List ℕ) → AuthResult
  unfolding parse_scheme trim_left trim_right
  parse_parts none = err (malformed no_credentials)
  parse_parts (some (scheme, rest)) =
      let payload = trim rest in
      if is_empty payload
      then err (malformed empty_credentials)
      else parse_scheme (to_ascii_lowercase scheme) payload

  unfoldable pub parse_text : List ℕ → AuthResult
  unfolding parse_parts
  parse_text text = if is_empty text then err missing else parse_parts (split_once 32 text)

  unfoldable pub parse_authorization : List ℕ → AuthResult
  unfolding parse_text trim_left trim_right
  parse_authorization header_value = parse_text (trim header_value)
