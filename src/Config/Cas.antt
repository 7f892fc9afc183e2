-- ===== src/Config/Cas.antt =====
-- What a configuration that passes the checks guarantees (src/config/mod.rs).
use kipuka.Common.{
  ℕ, ◌≤◌, ◌<◌, true, false, ◌≡◌, ◌≢◌, ◌⊎◌, inl, inr, refl, sym, ap, ◌∙◌, some, List, [], ◌∷◌,
  same_bytes, same_bytes_iff, arith, In, here, there, Bool-cases,
}
use kipuka.Config.{
  CaConfig, EstLabel, Checked, ok, err, and_then, contains_id, check_ids, check_duplicates,
  count_defaults, check_defaults, check_cas, is_known, check_label_id, check_label_ids,
  find_default, default_ca,
}

-- Both of two checks have passed.
and_then-ok : (a b : Checked) → and_then a b ≡ ok → (a ≡ ok) × (b ≡ ok)
and_then-ok ok b e = (refl, e)
and_then-ok (err x) b e = absurd (ground (arith, e))

-- One CA at least is a default one: it is found, and is one of the list.
find_default-some :
    (cas : List CaConfig)
    → 0 < count_defaults cas
    → (ca : CaConfig) × (find_default cas ≡ some ca) × In ca cas × (ca.is_default ≡ true)
unfolding count_defaults find_default
find_default-some [] p = absurd (omega (arith, p))
find_default-some (ca ∷ cas) p = elim (Bool-cases ca.is_default) [
  | inl yes_ ↦ (ca, ground (arith, yes_), here refl, yes_)
  | inr no_ ↦
      let (d, found, m, q) = find_default-some cas (ground (arith, no_, p)) in
      (d, ground (arith, no_, found), there m, q)
]

count_defaults-In :
    (cas : List CaConfig) (ca : CaConfig)
    → In ca cas
    → ca.is_default ≡ true
    → 0 < count_defaults cas
unfolding count_defaults
count_defaults-In [] ca m q = elim m [ ]
count_defaults-In (d ∷ cas) ca (here e) q =
    let q' : d.is_default ≡ true = ap (λ c. c.is_default) (sym e) ∙ q in ground (arith, q')
count_defaults-In (d ∷ cas) ca (there m) q = ground (arith, count_defaults-In cas ca m q)

-- At most one is a default one.
defaults_agree :
    (cas : List CaConfig) (ca d : CaConfig)
    → count_defaults cas ≤ 1
    → In ca cas
    → In d cas
    → ca.is_default ≡ true
    → d.is_default ≡ true
    → ca ≡ d
unfolding count_defaults
defaults_agree [] ca d b m n p q = elim m [ ]
defaults_agree (x ∷ cas) ca d b (here e) (here f) p q = e ∙ sym f
defaults_agree (x ∷ cas) ca d b (here e) (there n) p q =
    let p' : x.is_default ≡ true = ap (λ c. c.is_default) (sym e) ∙ p in
    absurd (ground (arith, p', b, count_defaults-In cas d n q))
defaults_agree (x ∷ cas) ca d b (there m) (here f) p q =
    let q' : x.is_default ≡ true = ap (λ c. c.is_default) (sym f) ∙ q in
    absurd (ground (arith, q', b, count_defaults-In cas ca m p))
defaults_agree (x ∷ cas) ca d b (there m) (there n) p q =
    defaults_agree cas ca d (ground (arith, b)) m n p q

check_cas-defaults : (cas : List CaConfig) → check_cas cas ≡ ok → check_defaults cas ≡ ok
unfolding check_cas
check_cas-defaults [] e = absurd (ground (arith, e))
check_cas-defaults (ca ∷ cas) e =
    let (ids, rest) =
      and_then-ok (check_ids (ca ∷ cas))
        (and_then (check_duplicates [] (ca ∷ cas)) (check_defaults (ca ∷ cas))) e in
    (and_then-ok (check_duplicates [] (ca ∷ cas)) (check_defaults (ca ∷ cas)) rest).1

no_cas : check_cas [] ≡ ok → ⊥
unfolding check_cas
no_cas e = ground (arith, e)

-- A configuration that passes the checks has a default CA, so `default_ca` does not panic: it is one
-- of the CAs, and either the only one or the only one that is marked as the default.
pub default_ca-check_cas :
    (cas : List CaConfig)
    → check_cas cas ≡ ok
    → (ca : CaConfig) × (default_ca cas ≡ some ca)
      × In ca cas
      × ((cas ≡ ca ∷ [])
          ⊎ ((ca.is_default ≡ true) × ((d : CaConfig) → In d cas → d.is_default ≡ true → d ≡ ca)))
unfolding default_ca check_defaults
default_ca-check_cas [] e = absurd (no_cas e)
default_ca-check_cas (ca ∷ []) e = (ca, refl, here refl, inl refl)
default_ca-check_cas (ca ∷ c ∷ cas) e =
    let checked = check_cas-defaults (ca ∷ c ∷ cas) e in
    let all = ca ∷ c ∷ cas in
    let least : 0 < count_defaults all = ground (arith, checked) in
    let most : count_defaults all ≤ 1 = ground (arith, checked) in
    let (found, q, m, p) = find_default-some all least in
    (found, q, m, inr (p, λ d n r. defaults_agree all d found most n m r p))

is_known-In :
    (cas : List CaConfig) (id : List ℕ)
    → is_known cas id ≡ true
    → (ca : CaConfig) × In ca cas × (ca.id ≡ id)
unfolding is_known
is_known-In [] id e = absurd (ground (arith, e))
is_known-In (ca ∷ cas) id e = elim (Bool-cases (same_bytes ca.id id)) [
  | inl same ↦ (ca, here refl, (same_bytes_iff ca.id id).0 same)
  | inr other ↦ let (d, m, q) = is_known-In cas id (ground (arith, other, e)) in (d, there m, q)
]

contains_id-seen :
    (cas : List CaConfig) (seen : List (List ℕ)) (ca : CaConfig)
    → check_duplicates seen cas ≡ ok
    → In ca cas
    → contains_id seen ca.id ≡ false
unfolding check_duplicates contains_id
contains_id-seen [] seen ca e m = elim m [ ]
contains_id-seen (x ∷ cas) seen ca e (here q) = rw q (ground (arith, e))
contains_id-seen (x ∷ cas) seen ca e (there m) =
    let ih = contains_id-seen cas (x.id ∷ seen) ca (ground (arith, e)) m in ground (arith, ih)

later_id :
    (x : CaConfig) (cas : List CaConfig) (seen : List (List ℕ)) (ca : CaConfig)
    → check_duplicates seen (x ∷ cas) ≡ ok
    → In ca cas
    → x.id ≢ ca.id
unfolding check_duplicates contains_id
later_id x cas seen ca e m q =
    let new = contains_id-seen cas (x.id ∷ seen) ca (ground (arith, e)) m in
    ground (arith, new, (same_bytes_iff x.id ca.id).1 q)

ids_agree :
    (cas : List CaConfig) (seen : List (List ℕ)) (ca d : CaConfig)
    → check_duplicates seen cas ≡ ok
    → In ca cas
    → In d cas
    → ca.id ≡ d.id
    → ca ≡ d
unfolding check_duplicates
ids_agree [] seen ca d e m n q = elim m [ ]
ids_agree (x ∷ cas) seen ca d e (here m) (here n) q = m ∙ sym n
ids_agree (x ∷ cas) seen ca d e (here m) (there n) q =
    absurd (later_id x cas seen d e n (ap (λ c. c.id) (sym m) ∙ q))
ids_agree (x ∷ cas) seen ca d e (there m) (here n) q =
    absurd (later_id x cas seen ca e m (ap (λ c. c.id) (sym n) ∙ sym q))
ids_agree (x ∷ cas) seen ca d e (there m) (there n) q =
    ids_agree cas (x.id ∷ seen) ca d (ground (arith, e)) m n q

check_cas-duplicates : (cas : List CaConfig) → check_cas cas ≡ ok → check_duplicates [] cas ≡ ok
unfolding check_cas
check_cas-duplicates [] e = absurd (ground (arith, e))
check_cas-duplicates (ca ∷ cas) e =
    let (ids, rest) =
      and_then-ok (check_ids (ca ∷ cas))
        (and_then (check_duplicates [] (ca ∷ cas)) (check_defaults (ca ∷ cas))) e in
    (and_then-ok (check_duplicates [] (ca ∷ cas)) (check_defaults (ca ∷ cas)) rest).0

check_label_id-In :
    (cas : List CaConfig) (label : EstLabel) (id : List ℕ)
    → check_label_id cas label ≡ ok
    → label.ca_id ≡ some id
    → is_known cas id ≡ true
unfolding check_label_id
check_label_id-In cas label id e q = ground (arith, e, q)

check_label_ids-In :
    (cas : List CaConfig) (labels : List EstLabel) (label : EstLabel)
    → check_label_ids cas labels ≡ ok
    → In label labels
    → check_label_id cas label ≡ ok
unfolding check_label_ids
check_label_ids-In cas [] label e m = elim m [ ]
check_label_ids-In cas (l ∷ labels) label e (here q) =
    rw q (and_then-ok (check_label_id cas l) (check_label_ids cas labels) e).0
check_label_ids-In cas (l ∷ labels) label e (there m) =
    check_label_ids-In cas labels label
      (and_then-ok (check_label_id cas l) (check_label_ids cas labels) e).1 m

-- Where the CAs and the labels pass the checks, a label that names a CA names one of those that are
-- configured, and no other has that ID.
pub label_ca :
    (cas : List CaConfig) (labels : List EstLabel) (label : EstLabel) (id : List ℕ)
    → check_cas cas ≡ ok
    → check_label_ids cas labels ≡ ok
    → In label labels
    → label.ca_id ≡ some id
    → (ca : CaConfig) × In ca cas × (ca.id ≡ id) × ((d : CaConfig) → In d cas → d.id ≡ id → d ≡ ca)
label_ca cas labels label id c l m q =
    let known = check_label_id-In cas label id (check_label_ids-In cas labels label l m) q in
    let (ca, n, same) = is_known-In cas id known in
    (ca, n, same, λ d o r. ids_agree cas [] d ca (check_cas-duplicates cas c) o n (r ∙ sym same))
