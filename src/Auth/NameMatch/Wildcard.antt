-- ===== src/Auth/NameMatch/Wildcard.antt =====
-- What a wildcard stands for (src/auth/name_match.rs, `matches_domain`).
use kipuka.Common.{
  same_bytes_iff, ℕ, ◌-◌, true, false, ◌≡◌, refl, ap, ◌∙◌, none, some, List, [], ◌∷◌, ◌++◌, length,
  drop, arith, Option-cases, inl, inr, take-append-drop,
}
use kipuka.Auth.NameMatch.{
  dot, star, is_empty, contains, wildcard_suffix, strip_suffix, split_last, is_label_dot,
  matches_trimmed, matches_domain, to_ascii_lowercase, trim_end,
}

split_last-none : (s : List ℕ) → split_last s ≡ none → s ≡ []
unfolding split_last
split_last-none [] e = refl
split_last-none (b ∷ bs) e = elim (Option-cases (split_last bs)) [
  | inl n ↦ absurd (ground (arith, n, e))
  | inr (p, g) ↦ absurd (ground (arith, g, e))
]

split_last-append :
    (s front : List ℕ) (last : ℕ) → split_last s ≡ some (front, last) → s ≡ front ++ last ∷ []
unfolding split_last
split_last-append [] front last e = cc
split_last-append (b ∷ bs) front last e = elim (Option-cases (split_last bs)) [
  | inl n ↦ ground (arith, n, e, split_last-none bs n)
  | inr ((f, l), g) ↦
      let ih : bs ≡ f ++ l ∷ [] = split_last-append bs f l g in
      let found : (b ∷ f ≡ front) × (l ≡ last) = ground (arith, g, e) in
      ap (◌∷◌ b) ih
      ∙ ap (λ (x : List ℕ). x ++ l ∷ []) found.0
      ∙ ap (λ (x : ℕ). front ++ x ∷ []) found.1
]

strip_suffix-append :
    (s suffix prefix : List ℕ) → strip_suffix s suffix ≡ some prefix → s ≡ prefix ++ suffix
unfolding strip_suffix
strip_suffix-append s suffix prefix e =
    let size = length s - length suffix in
    ground (arith, e, (same_bytes_iff (drop size s) suffix).0, take-append-drop size s)

is_label_dot_sound :
    (prefix : List ℕ)
    → is_label_dot prefix ≡ true
    → (label : List ℕ) × (prefix ≡ label ++ dot ∷ [])
      × (is_empty label ≡ false)
      × (contains dot label ≡ false)
unfolding is_label_dot
is_label_dot_sound prefix h = elim (Option-cases (split_last prefix)) [
  | inl n ↦ absurd (ground (arith, n, h))
  | inr ((label, last), g) ↦
      let e : last ≡ dot = ground (arith, g, h) in
      (
        label,
        split_last-append prefix label last g ∙ ap (λ (x : ℕ). label ++ x ∷ []) e,
        ground (arith, g, h),
        ground (arith, g, h),
      )
]

-- A certificate name with a wildcard covers only hosts with exactly one label in its place: where
-- it matches, the host's name, in lower case and without dots at its end, is a label that is not
-- empty and has no dot, then a dot, then what follows `*.` in the pattern, which has no star and
-- is not empty.
pub matches_domain-wildcard :
    (pattern hostname suffix : List ℕ)
    → wildcard_suffix (trim_end (to_ascii_lowercase pattern)) ≡ some suffix
    → matches_domain pattern hostname ≡ true
    → (label : List ℕ) × (trim_end (to_ascii_lowercase hostname) ≡ (label ++ dot ∷ []) ++ suffix)
      × (is_empty label ≡ false)
      × (contains dot label ≡ false)
      × (contains star suffix ≡ false)
      × (is_empty suffix ≡ false)
unfolding matches_domain matches_trimmed
matches_domain-wildcard pattern hostname suffix w h =
    let host = trim_end (to_ascii_lowercase hostname) in
    elim (Option-cases (strip_suffix host suffix)) [
      | inl n ↦ absurd (ground (arith, w, n, h))
      | inr (prefix, g) ↦
          let (label, e, full, whole) = is_label_dot_sound prefix (ground (arith, w, g, h)) in
          (
            label,
            strip_suffix-append host suffix prefix g ∙ ap (λ (x : List ℕ). x ++ suffix) e,
            full,
            whole,
            ground (arith, w, g, h),
            ground (arith, w, g, h),
          )
    ]

-- A certificate name without a wildcard covers only itself, in whatever case and with whatever dots
-- at its end.
pub matches_domain-exact :
    (pattern hostname : List ℕ)
    → wildcard_suffix (trim_end (to_ascii_lowercase pattern)) ≡ none
    → matches_domain pattern hostname ≡ true
    → trim_end (to_ascii_lowercase pattern) ≡ trim_end (to_ascii_lowercase hostname)
unfolding matches_domain matches_trimmed
matches_domain-exact pattern hostname w h =
    let p = trim_end (to_ascii_lowercase pattern) in
    let q = trim_end (to_ascii_lowercase hostname) in (same_bytes_iff p q).0 (ground (arith, w, h))
