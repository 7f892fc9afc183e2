-- ===== src/Audit/Canonical.antt =====
-- When the bytes that are hashed tell two rows apart (src/audit/mod.rs, `canonical_bytes`).
use kipuka.Common.{ℕ, ◌≡◌, ◌≢◌, refl, List, [], ◌∷◌, ◌++◌, arith, length}
use kipuka.Audit.Event.{rs, separated, unwrap_or_empty, AuditRow, canonical, canonical_bytes}

-- The separator is not among the bytes.
abbrev pub NoRs : List ℕ → Type 0
NoRs [] = Unit {0}
NoRs (b ∷ bs) = (b ≢ rs) × NoRs bs

abbrev pub AllNoRs : List (List ℕ) → Type 0
AllNoRs [] = Unit {0}
AllNoRs (f ∷ fs) = NoRs f × AllNoRs fs

pub field_end :
    (f g xs ys : List ℕ) → NoRs f → NoRs g → f ++ (rs ∷ xs) ≡ g ++ (rs ∷ ys) → (f ≡ g) × (xs ≡ ys)
field_end [] [] xs ys hf hg e = (refl, cc)
field_end [] (c ∷ g) xs ys hf hg e = absurd (ground (arith, hg.0, e))
field_end (b ∷ f) [] xs ys hf hg e = absurd (ground (arith, hf.0, e))
field_end (b ∷ f) (c ∷ g) xs ys hf hg e =
    let ih = field_end f g xs ys hf.1 hg.1 (cc) in ground (arith, e, ih)

-- The fields of a row that are hashed. An absent field counts as an empty one.
abbrev pub fields : AuditRow → List (List ℕ)
fields r =
    r.timestamp
    ∷ r.event_type
    ∷ unwrap_or_empty r.actor
    ∷ unwrap_or_empty r.target
    ∷ unwrap_or_empty r.detail_json
    ∷ unwrap_or_empty r.source_ip
    ∷ unwrap_or_empty r.session_id
    ∷ []

separated-injective :
    (fs gs : List (List ℕ))
    → length fs ≡ length gs
    → AllNoRs fs
    → AllNoRs gs
    → separated fs ≡ separated gs
    → fs ≡ gs
unfolding separated
separated-injective [] [] n hf hg e = refl
separated-injective [] (g ∷ gs) n hf hg e = absurd (omega arith)
separated-injective (f ∷ fs) [] n hf hg e = absurd (omega arith)
separated-injective (f ∷ fs) (g ∷ gs) n hf hg e =
    let (head, rest) = field_end f g (separated fs) (separated gs) hf.0 hg.0 e in
    let tail = separated-injective fs gs (omega arith) hf.1 hg.1 rest in cc

-- Two rows of which no field has the separator in it are hashed alike only if they agree in every
-- field that is hashed, where an absent field counts as an empty one.
pub canonical-injective :
    (r q : AuditRow)
    → AllNoRs (fields r)
    → AllNoRs (fields q)
    → canonical r ≡ canonical q
    → fields r ≡ fields q
unfolding canonical canonical_bytes
canonical-injective r q hr hq e = separated-injective (fields r) (fields q) (omega arith) hr hq e
