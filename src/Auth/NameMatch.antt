-- ===== src/Auth/NameMatch.antt =====
-- src/auth/name_match.rs: names in certificates (RFC 6125). A string is the list of its bytes.
pub mod Wildcard
use kipuka.Common.{
  same_bytes, ℕ, ◌+◌, ◌-◌, Bool, true, false, not, ◌||◌, ◌&&◌, Option, none, some, List, [], ◌∷◌,
  length, take, drop, ltb, leb, ◌==◌, if◌then◌else◌,
}

abbrev pub dot : ℕ
dot = 46

abbrev pub star : ℕ
star = 42

abbrev pub at_sign : ℕ
at_sign = 64

unfoldable pub is_empty : List ℕ → Bool
is_empty [] = true
is_empty (b ∷ bs) = false

unfoldable pub contains : ℕ → List ℕ → Bool
contains c [] = false
contains c (b ∷ bs) = (b == c) || contains c bs

unfoldable pub to_ascii_lowercase : List ℕ → List ℕ
to_ascii_lowercase [] = []
to_ascii_lowercase (b ∷ bs) = (if leb 65 b && leb b 90 then b + 32 else b) ∷ to_ascii_lowercase bs

unfoldable pub eq_ignore_ascii_case : List ℕ → List ℕ → Bool
eq_ignore_ascii_case a b = same_bytes (to_ascii_lowercase a) (to_ascii_lowercase b)

-- `trim_end_matches('.')`.
unfoldable pub trim_end : List ℕ → List ℕ
trim_end [] = []
trim_end (b ∷ bs) = let rest = trim_end bs in if (b == dot) && is_empty rest then [] else b ∷ rest

-- What follows `*.` at the start.
unfoldable pub wildcard_suffix : List ℕ → Option (List ℕ)
wildcard_suffix (a ∷ b ∷ rest) = if (a == star) && (b == dot) then some rest else none
wildcard_suffix _ = none

unfoldable pub strip_suffix : List ℕ → List ℕ → Option (List ℕ)
strip_suffix s suffix =
    let size = length s - length suffix in
    if leb (length suffix) (length s) && same_bytes (drop size s) suffix
    then some (take size s)
    else none

unfoldable pub split_last : List ℕ → Option (List ℕ × ℕ)
split_last [] = none
split_last (b ∷ bs) = elim (split_last bs) [
  | none ↦ some ([], b)
  | some (front, last) ↦ some (b ∷ front, last)
]

-- One label that is not empty, and the dot after it.
unfoldable pub is_label_dot : List ℕ → Bool
is_label_dot prefix = elim (split_last prefix) [
  | none ↦ false
  | some (label, last) ↦ (last == dot) && (not (is_empty label) && not (contains dot label))
]

unfoldable pub matches_trimmed : List ℕ → List ℕ → Bool
matches_trimmed pattern hostname = elim (wildcard_suffix pattern) [
  | none ↦ if contains star pattern then false else same_bytes pattern hostname
  | some suffix ↦
      if is_empty suffix
      then false
      else if contains star suffix
      then false
      else elim (strip_suffix hostname suffix) [ none ↦ false | some prefix ↦ is_label_dot prefix ]
]

unfoldable pub matches_domain : List ℕ → List ℕ → Bool
matches_domain pattern hostname =
    let p = to_ascii_lowercase pattern in
    let h = to_ascii_lowercase hostname in
    if is_empty p || is_empty h then false else matches_trimmed (trim_end p) (trim_end h)

-- An address is the list of its 4 or 16 octets.
unfoldable pub matches_ip : List ℕ → List ℕ → Bool
matches_ip cert_ip client_ip = same_bytes cert_ip client_ip

unfoldable pub split_once : ℕ → List ℕ → Option (List ℕ × List ℕ)
split_once c [] = none
split_once c (b ∷ bs) =
    let rest : Option (List ℕ × List ℕ) = elim (split_once c bs) [
      | none ↦ none
      | some (front, back) ↦ some (b ∷ front, back)
    ] in
    if b == c then some ([], bs) else rest

unfoldable pub matches_email : List ℕ → List ℕ → Bool
matches_email pattern email =
    if is_empty pattern || is_empty email then false else elim (split_once at_sign email) [
      | none ↦ false
      | some (email_local, email_domain) ↦ elim (split_once at_sign pattern) [
        | none ↦ eq_ignore_ascii_case pattern email_domain
        | some (pat_local, pat_domain) ↦
            same_bytes pat_local email_local && eq_ignore_ascii_case pat_domain email_domain
      ]
    ]
