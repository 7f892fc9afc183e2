-- ===== src/Util/Examples.antt =====
-- Headers (crates/kipuka-util/src/auth.rs), and the theorem on them at a concrete input.
use kipuka.Common.{
  ℕ, ◌≡◌, refl, Option, none, some, List, [], ascii, same_bytes, if◌then◌else◌, is_utf8,
  is_utf8_from, arith,
}
use kipuka.Auth.NameMatch.{to_ascii_lowercase, split_once}
use kipuka.Util.Header.{
  ok, basic, bearer, is_whitespace, has_null, trim_left, trim_right, parse_scheme, parse_parts,
  parse_text, parse_authorization,
}
use kipuka.Util.Header.Basic.{basic_header, parse_authorization-basic}

-- The one text in Base64 that the runs need: that of `a:b:c`.
abbrev decode : List ℕ → Option (List ℕ)
decode text = if same_bytes text (ascii "YTpiOmM=") then some (ascii "a:b:c") else none

bearer_run : parse_authorization decode (ascii " BEARER  x y ") ≡ ok (bearer (ascii "x y"))
unfolding parse_authorization parse_text parse_parts parse_scheme trim_left trim_right is_whitespace
    split_once to_ascii_lowercase same_bytes
bearer_run = refl

parse_authorization-basic_example :
    parse_authorization decode (basic_header (ascii "YTpiOmM="))
    ≡ ok (basic (ascii "a") (ascii "b:c"))
unfolding same_bytes is_whitespace has_null is_utf8 is_utf8_from
parse_authorization-basic_example =
    parse_authorization-basic decode 89 (ascii "TpiOmM=") 97 [] (ascii "b:c")
      (refl, (refl, (refl, (refl, (refl, (refl, (refl, (refl, tt)))))))) refl
      (λ e. ground arith, tt) refl refl
