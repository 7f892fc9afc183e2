-- ===== src/Coap/Router.antt =====
-- Paths of EST-coaps requests (crates/kipuka-coap/src/server.rs): `uri_path` and `CoapEstRouter`.
use kipuka.Common.{
  ℕ, zero, suc, ◌+◌, ◌/◌, ◌%◌, Bool, true, false, not, ◌&&◌, ◌||◌, Option, none, some, List, [],
  ◌∷◌, ◌++◌, length, map, retain, ◌==◌, if◌then◌else◌, ascii, same_bytes, is_utf8,
}
use kipuka.Coap.Error.{CoapResult, ok, err, ◌>>=◌, resource_not_found, unsupported_method}
use kipuka.Coap.Message.{
  CoapCode, CoapMethod, get, post, put, delete, fetch, patch, ipatch, from_code, CoapMessage,
  option_uri_path,
}

pub data EstOperation : Type 0 where
  ca_certs simple_enroll simple_reenroll server_keygen csr_attrs : EstOperation

pub record CoapEstRequest : Type 0 where
  pub operation : EstOperation
  pub label : Option (List ℕ)
  pub method : CoapMethod
  pub message : CoapMessage

abbrev slash : ℕ
slash = 47

-- Each segment after a slash.
unfoldable pub join : List (List ℕ) → List ℕ
join [] = []
join (s ∷ segments) = slash ∷ (s ++ join segments)

unfoldable pub uri_path : CoapMessage → List ℕ
unfolding join
uri_path m =
    let segments = retain (λ o. (o.number == option_uri_path) && is_utf8 o.value) m.options in
    elim segments [ [] ↦ slash ∷ [] | o ∷ os ↦ join (map (λ p. p.value) (o ∷ os)) ]

unfoldable pub trim_start : ℕ → List ℕ → List ℕ
trim_start c [] = []
trim_start c (b ∷ bs) = let rest = trim_start c bs in if b == c then rest else b ∷ bs

unfoldable pub trim_end : ℕ → List ℕ → List ℕ
trim_end c [] = []
trim_end c (b ∷ bs) = elim (trim_end c bs) [
  | [] ↦ if b == c then [] else b ∷ []
  | d ∷ ds ↦ b ∷ d ∷ ds
]

unfoldable pub strip_prefix : List ℕ → List ℕ → Option (List ℕ)
strip_prefix [] s = some s
strip_prefix (p ∷ ps) [] = none
strip_prefix (p ∷ ps) (b ∷ bs) = if p == b then strip_prefix ps bs else none

-- Every copy of a text at the start is removed. A text that is not empty is found at most as often
-- as there are bytes, which are the fuel.
unfoldable pub trim_prefixes : ℕ → List ℕ → List ℕ → List ℕ
trim_prefixes zero pattern_ s = s
trim_prefixes (suc fuel) pattern_ s = elim (strip_prefix pattern_ s) [
  | none ↦ s
  | some rest ↦ trim_prefixes fuel pattern_ rest
]

abbrev onto_first : ℕ → List (List ℕ) → List (List ℕ)
onto_first b [] = (b ∷ []) ∷ []
onto_first b (s ∷ segments) = (b ∷ s) ∷ segments

unfoldable pub split : ℕ → List ℕ → List (List ℕ)
split c [] = [] ∷ []
split c (b ∷ bs) = if b == c then [] ∷ split c bs else onto_first b (split c bs)

abbrev is_empty : List ℕ → Bool
is_empty [] = true
is_empty (b ∷ bs) = false

-- What is left of a path without the well-known prefix, cut at its slashes.
unfoldable pub path_segments : List ℕ → List (List ℕ)
unfolding trim_prefixes
path_segments path =
    let bare = trim_start slash path in
    let long = trim_prefixes (length bare) (ascii ".well-known/est/") bare in
    let short = trim_prefixes (length long) (ascii ".well-known/est") long in
    retain (λ s. not (is_empty s)) (split slash (trim_end slash (trim_start slash short)))

unfoldable pub operation_of : List ℕ → Option EstOperation
operation_of s =
    if same_bytes s (ascii "sen") || same_bytes s (ascii "simpleenroll")
    then some simple_enroll
    else if same_bytes s (ascii "sren") || same_bytes s (ascii "simplereenroll")
    then some simple_reenroll
    else if same_bytes s (ascii "skg") || same_bytes s (ascii "serverkeygen")
    then some server_keygen
    else if same_bytes s (ascii "att") || same_bytes s (ascii "csrattrs")
    then some csr_attrs
    else if same_bytes s (ascii "cacerts") || same_bytes s (ascii "crts")
    then some ca_certs
    else none

abbrev unknown_path : {A : Type 0} → List ℕ → CoapResult A
unknown_path path = err (resource_not_found (ascii "Unknown EST-coaps path: " ++ path))

abbrev with_label :
    List ℕ → Option (List ℕ) → Option EstOperation → CoapResult (Option (List ℕ) × EstOperation)
with_label path label none = unknown_path path
with_label path label (some operation) = ok (label, operation)

unfoldable pub route_with_label : List ℕ → CoapResult (Option (List ℕ) × EstOperation)
unfolding operation_of
route_with_label path = elim (path_segments path) [
  | op ∷ [] ↦ with_label path none (operation_of op)
  | label ∷ op ∷ [] ↦ with_label path (some label) (operation_of op)
  | _ ↦ unknown_path path
]

unfoldable pub reads : EstOperation → Bool
reads ca_certs = true
reads csr_attrs = true
reads _ = false

unfoldable pub is_get_or_fetch : CoapMethod → Bool
is_get_or_fetch get = true
is_get_or_fetch fetch = true
is_get_or_fetch _ = false

unfoldable pub is_post : CoapMethod → Bool
is_post post = true
is_post _ = false

abbrev debug : CoapMethod → List ℕ
debug get = ascii "Get"
debug post = ascii "Post"
debug put = ascii "Put"
debug delete = ascii "Delete"
debug fetch = ascii "Fetch"
debug patch = ascii "Patch"
debug ipatch = ascii "IPatch"

-- The form `class.detail`, with two digits of the detail.
abbrev display : CoapCode → List ℕ
display c = (48 + c.class) ∷ 46 ∷ (48 + c.detail / 10) ∷ (48 + c.detail % 10) ∷ []

abbrev pub method_of : CoapCode → CoapResult CoapMethod
method_of c = elim (from_code c) [
  | none ↦ err (unsupported_method (ascii "Code " ++ display c ++ ascii " is not a request"))
  | some method ↦ ok method
]

unfoldable pub route_message : CoapMessage → CoapResult CoapEstRequest
unfolding reads is_get_or_fetch is_post
route_message m =
    let path = uri_path m in
    do
      (label, operation) ← route_with_label path
      method ← method_of m.code
      if reads operation && not (is_get_or_fetch method)
          then err
              (unsupported_method (path ++ ascii " requires GET or FETCH, got " ++ debug method))
          else if not (reads operation) && not (is_post method)
          then err (unsupported_method (path ++ ascii " requires POST, got " ++ debug method))
          else ok (record { operation = operation; label = label; method = method; message = m })
