-- ===== src/Config.antt =====
-- The checks of src/config/mod.rs on the CAs and the labels that refer to them, in the order of
-- `Config::validate`. A text is the list of its bytes.
pub mod Cas
mod Examples
use kipuka.Common.{
  ℕ, zero, suc, ◌+◌, Bool, true, false, not, ◌&&◌, ◌||◌, Option, none, some, List, [], ◌∷◌, length,
  ltb, leb, ◌==◌, if◌then◌else◌, same_bytes,
}

pub record CaConfig : Type 0 where
  pub id : List ℕ
  pub is_default : Bool

pub record EstLabel : Type 0 where
  pub name : List ℕ
  pub ca_id : Option (List ℕ)
  pub ca_pool : List (List ℕ)

pub data ConfigError : Type 0 where
  no_ca empty_id no_default several_defaults pool_without_ha id_and_pool : ConfigError
  invalid_id duplicate_id unknown_in_pool : List ℕ → ConfigError
  unknown_ca : (name id : List ℕ) → ConfigError

-- No error, or the first one.
pub data Checked : Type 0 where
  ok : Checked
  err : ConfigError → Checked

abbrev pub and_then : Checked → Checked → Checked
and_then ok c = c
and_then (err e) c = err e

abbrev is_empty : List ℕ → Bool
is_empty [] = true
is_empty (b ∷ bs) = false

abbrev is_ascii_lowercase : ℕ → Bool
is_ascii_lowercase b = leb 97 b && leb b 122

abbrev is_ascii_digit : ℕ → Bool
is_ascii_digit b = leb 48 b && leb b 57

unfoldable pub all_id_bytes : List ℕ → Bool
all_id_bytes [] = true
all_id_bytes (b ∷ bs) =
    (is_ascii_lowercase b || (is_ascii_digit b || ((b == 95) || (b == 45)))) && all_id_bytes bs

unfoldable pub is_valid_ca_id : List ℕ → Bool
unfolding all_id_bytes
is_valid_ca_id [] = false
is_valid_ca_id (b ∷ bs) =
    not (ltb 64 (length (b ∷ bs)))
    && ((is_ascii_lowercase b || is_ascii_digit b) && all_id_bytes bs)

unfoldable pub check_ids : List CaConfig → Checked
unfolding is_valid_ca_id
check_ids [] = ok
check_ids (ca ∷ cas) =
    let rest = check_ids cas in
    if is_empty ca.id
    then err empty_id
    else if not (is_valid_ca_id ca.id)
    then err (invalid_id ca.id)
    else rest

unfoldable pub contains_id : List (List ℕ) → List ℕ → Bool
contains_id [] id = false
contains_id (x ∷ xs) id = same_bytes x id || contains_id xs id

-- The loop over the IDs that were seen.
unfoldable pub check_duplicates : List (List ℕ) → List CaConfig → Checked
unfolding contains_id
check_duplicates seen [] = ok
check_duplicates seen (ca ∷ cas) =
    let rest = check_duplicates (ca.id ∷ seen) cas in
    if contains_id seen ca.id then err (duplicate_id ca.id) else rest

unfoldable pub count_defaults : List CaConfig → ℕ
count_defaults [] = 0
count_defaults (ca ∷ cas) =
    let rest = count_defaults cas in if ca.is_default then suc rest else rest

unfoldable pub check_defaults : List CaConfig → Checked
unfolding count_defaults
check_defaults cas =
    if ltb 1 (length cas)
    then (if count_defaults cas == 0
        then err no_default
        else if ltb 1 (count_defaults cas)
        then err several_defaults
        else ok)
    else ok

unfoldable pub check_cas : List CaConfig → Checked
unfolding check_ids check_duplicates check_defaults
check_cas [] = err no_ca
check_cas (ca ∷ cas) =
    and_then (check_ids (ca ∷ cas))
      (and_then (check_duplicates [] (ca ∷ cas)) (check_defaults (ca ∷ cas)))

unfoldable pub is_known : List CaConfig → List ℕ → Bool
is_known [] id = false
is_known (ca ∷ cas) id = same_bytes ca.id id || is_known cas id

unfoldable pub check_pool : List CaConfig → List (List ℕ) → Checked
unfolding is_known
check_pool cas [] = ok
check_pool cas (id ∷ ids) =
    let rest = check_pool cas ids in if is_known cas id then rest else err (unknown_in_pool id)

abbrev is_some : Option (List ℕ) → Bool
is_some none = false
is_some (some id) = true

abbrev is_nil : List (List ℕ) → Bool
is_nil [] = true
is_nil (id ∷ ids) = false

unfoldable pub check_label_pool : List CaConfig → Bool → EstLabel → Checked
unfolding check_pool
check_label_pool cas ha_enabled label =
    if is_nil label.ca_pool
    then ok
    else if not ha_enabled
    then err pool_without_ha
    else if is_some label.ca_id
    then err id_and_pool
    else check_pool cas label.ca_pool

unfoldable pub check_label_pools : List CaConfig → Bool → List EstLabel → Checked
unfolding check_label_pool
check_label_pools cas ha_enabled [] = ok
check_label_pools cas ha_enabled (label ∷ labels) =
    and_then (check_label_pool cas ha_enabled label) (check_label_pools cas ha_enabled labels)

unfoldable pub check_label_id : List CaConfig → EstLabel → Checked
unfolding is_known
check_label_id cas label = elim label.ca_id [
  | none ↦ ok
  | some id ↦ if is_known cas id then ok else err (unknown_ca label.name id)
]

unfoldable pub check_label_ids : List CaConfig → List EstLabel → Checked
unfolding check_label_id
check_label_ids cas [] = ok
check_label_ids cas (label ∷ labels) =
    and_then (check_label_id cas label) (check_label_ids cas labels)

unfoldable pub find_default : List CaConfig → Option CaConfig
find_default [] = none
find_default (ca ∷ cas) = if ca.is_default then some ca else find_default cas

-- `none` where the code panics.
unfoldable pub default_ca : List CaConfig → Option CaConfig
unfolding find_default
default_ca [] = find_default []
default_ca (ca ∷ []) = some ca
default_ca (ca ∷ d ∷ cas) = find_default (ca ∷ d ∷ cas)
