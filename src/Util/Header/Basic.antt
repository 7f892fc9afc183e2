-- ===== src/Util/Header/Basic.antt =====
-- HTTP Basic credentials in a header (crates/kipuka-util/src/auth.rs).
use kipuka.Common.{
  ℕ, true, false, ◌≡◌, ◌≢◌, refl, ap, ◌∙◌, Option, some, List, [], ◌∷◌, ◌++◌, arith, ascii,
  same_bytes, is_utf8,
}
use kipuka.Auth.NameMatch.{to_ascii_lowercase, split_once}
use kipuka.Util.Header.{
  ok, basic, is_whitespace, trim_left, trim_right, trim, has_null, colon, split_credentials,
  read_basic, parse_basic, parse_scheme, parse_parts, parse_text, parse_authorization,
}

-- No white space among the code points.
abbrev pub IsSolid : List ℕ → Type 0
IsSolid [] = Unit {0}
IsSolid (c ∷ cs) = (is_whitespace c ≡ false) × IsSolid cs

-- The colon is not among the bytes.
abbrev pub NoColon : List ℕ → Type 0
NoColon [] = Unit {0}
NoColon (b ∷ bs) = (b ≢ colon) × NoColon bs

trim_right-IsSolid : (cs : List ℕ) → IsSolid cs → trim_right cs ≡ cs
unfolding trim_right
trim_right-IsSolid [] s = refl
trim_right-IsSolid (c ∷ cs) s = ground (arith, s.0, trim_right-IsSolid cs s.1)

split_once-NoColon :
    (front back : List ℕ)
    → NoColon front
    → split_once colon (front ++ (colon ∷ back)) ≡ some (front, back)
unfolding split_once
split_once-NoColon [] back n = ground arith
split_once-NoColon (b ∷ front) back n = ground (arith, n.0, split_once-NoColon front back n.1)

-- The header of a user and a password, with the credentials in Base64.
abbrev pub basic_header : List ℕ → List ℕ
basic_header encoded = ascii "Basic " ++ encoded

trim-basic_header :
    (c : ℕ) (cs : List ℕ) → IsSolid (c ∷ cs) → trim (basic_header (c ∷ cs)) ≡ basic_header (c ∷ cs)
unfolding trim_left trim_right is_whitespace
trim-basic_header c cs s = ground (arith, s.0, trim_right-IsSolid cs s.1)

trim-IsSolid : (c : ℕ) (cs : List ℕ) → IsSolid (c ∷ cs) → trim (c ∷ cs) ≡ c ∷ cs
unfolding trim_left
trim-IsSolid c cs s =
    let left : trim_left (c ∷ cs) ≡ c ∷ cs = ground (arith, s.0) in
    ap trim_right left ∙ trim_right-IsSolid (c ∷ cs) s

read_basic-ok :
    (username password : List ℕ) (u : ℕ) (us : List ℕ)
    → username ≡ u ∷ us
    → NoColon username
    → has_null (username ++ (colon ∷ password)) ≡ false
    → is_utf8 (username ++ (colon ∷ password)) ≡ true
    → read_basic (some (username ++ (colon ∷ password))) ≡ ok (basic username password)
unfolding read_basic split_credentials
read_basic-ok username password u us e n z t =
    ground (arith, e, z, t, split_once-NoColon username password n)

parse_parts-basic :
    (decode : List ℕ → Option (List ℕ)) (c : ℕ) (cs : List ℕ)
    → IsSolid (c ∷ cs)
    → parse_parts decode (some (ascii "Basic", c ∷ cs)) ≡ read_basic (decode (c ∷ cs))
unfolding parse_parts parse_scheme parse_basic to_ascii_lowercase same_bytes
parse_parts-basic decode c cs s = rw (trim-IsSolid c cs s) refl

-- A user and a password come back from the header that carries them in Base64, whatever the password
-- has in it: the text in Base64 is not empty and has no white space, and the user has a name without
-- a colon; there is no null byte, and the whole is UTF-8.
pub parse_authorization-basic :
    (decode : List ℕ → Option (List ℕ)) (c : ℕ) (cs : List ℕ) (u : ℕ) (us password : List ℕ)
    → IsSolid (c ∷ cs)
    → decode (c ∷ cs) ≡ some ((u ∷ us) ++ (colon ∷ password))
    → NoColon (u ∷ us)
    → has_null ((u ∷ us) ++ (colon ∷ password)) ≡ false
    → is_utf8 ((u ∷ us) ++ (colon ∷ password)) ≡ true
    → parse_authorization decode (basic_header (c ∷ cs)) ≡ ok (basic (u ∷ us) password)
unfolding parse_authorization parse_text split_once
parse_authorization-basic decode c cs u us password s d n z t =
    ap (parse_text decode) (trim-basic_header c cs s)
    ∙ parse_parts-basic decode c cs s
    ∙ ap read_basic d
    ∙ read_basic-ok (u ∷ us) password u us refl n z t
