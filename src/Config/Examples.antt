-- ===== src/Config/Examples.antt =====
-- Configurations (src/config/mod.rs), and the theorems on them at concrete inputs.
use kipuka.Common.{
  true, false, ◌≡◌, ◌⊎◌, refl, none, some, List, [], ◌∷◌, ascii, same_bytes, In, here,
}
use kipuka.Config.{
  CaConfig, EstLabel, ok, err, several_defaults, all_id_bytes, is_valid_ca_id, check_ids,
  contains_id, check_duplicates, count_defaults, check_defaults, check_cas, is_known,
  check_label_id, check_label_ids, check_pool, check_label_pool, check_label_pools, default_ca,
}
use kipuka.Config.Cas.{default_ca-check_cas, label_ca}

abbrev device : CaConfig
device = record { id = ascii "device-ca"; is_default = true }

abbrev user : CaConfig
user = record { id = ascii "user-ca"; is_default = false }

abbrev both : List CaConfig
both = user ∷ device ∷ []

abbrev lab : EstLabel
lab = record { name = ascii "lab"; ca_id = some (ascii "user-ca"); ca_pool = [] }

abbrev pooled : EstLabel
pooled = record {
  name = ascii "ha";
  ca_id = none;
  ca_pool = ascii "user-ca" ∷ ascii "device-ca" ∷ [];
}

both_pass : check_cas both ≡ ok
unfolding check_cas check_ids is_valid_ca_id all_id_bytes check_duplicates contains_id
    check_defaults count_defaults same_bytes
both_pass = refl

two_defaults : check_cas (device ∷ record user { is_default = true } ∷ []) ≡ err several_defaults
unfolding check_cas check_ids is_valid_ca_id all_id_bytes check_duplicates contains_id
    check_defaults count_defaults same_bytes
two_defaults = refl

pool_passes : check_label_pools both true (pooled ∷ []) ≡ ok
unfolding check_label_pools check_label_pool check_pool is_known same_bytes
pool_passes = refl

lab_passes : check_label_ids both (lab ∷ []) ≡ ok
unfolding check_label_ids check_label_id is_known same_bytes
lab_passes = refl

default_ca-check_cas_example :
    (ca : CaConfig) × (default_ca both ≡ some ca)
    × In ca both
    × ((both ≡ ca ∷ [])
        ⊎ ((ca.is_default ≡ true) × ((d : CaConfig) → In d both → d.is_default ≡ true → d ≡ ca)))
default_ca-check_cas_example = default_ca-check_cas both both_pass

label_ca_example :
    (ca : CaConfig) × In ca both
    × (ca.id ≡ ascii "user-ca")
    × ((d : CaConfig) → In d both → d.id ≡ ascii "user-ca" → d ≡ ca)
label_ca_example =
    label_ca both (lab ∷ []) lab (ascii "user-ca") both_pass lab_passes (here refl) refl
