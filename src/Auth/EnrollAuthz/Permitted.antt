-- ===== src/Auth/EnrollAuthz/Permitted.antt =====
-- What an authorized request asks for (src/auth/enroll_authz.rs).
use kipuka.Common.{
  same_bytes_iff, ℕ, Bool, true, false, ◌≡◌, ◌⊎◌, refl, Option, some, List, [], ◌∷◌, arith,
  Option-cases, Bool-cases, inl, inr, In, here, there,
}
use kipuka.Auth.NameMatch.{
  is_empty, to_ascii_lowercase, eq_ignore_ascii_case, matches_domain, matches_email,
}
use kipuka.Auth.EnrollAuthz.{
  dns_name, rfc822_name, EnrollAuthzPolicy, no_entries, is_noop, ok, any, check_san, check_sans,
  check_cn, check_names, authorize_csr,
}

any-In {ℓ} :
    {A : Type ℓ} (f : A → Bool) (xs : List A) → any f xs ≡ true → (x : A) × In x xs × (f x ≡ true)
any-In f [] h = cc
any-In f (x ∷ xs) h = elim (Bool-cases (f x)) [
  | inl t ↦ (x, here refl, t)
  | inr t ↦ let (y, m, e) = any-In f xs (ground (arith, t, h)) in (y, there m, e)
]

module _ (parse_ip : List ℕ → Option (List ℕ)) where
  check_sans-In :
      (p : EnrollAuthzPolicy) (sans : List (ℕ × List ℕ)) (san : ℕ × List ℕ)
      → check_sans parse_ip p sans ≡ ok
      → In san sans
      → check_san parse_ip p san ≡ ok
  unfolding check_sans
  check_sans-In p [] san h m = elim m [ ]
  check_sans-In p (q ∷ sans) san h (here e) = ground (arith, e, h)
  check_sans-In p (q ∷ sans) san h (there m) = check_sans-In p sans san (ground (arith, h)) m

  authorize_csr-sans :
      (cn : Option (List ℕ)) (sans : List (ℕ × List ℕ)) (identity : List ℕ) (p : EnrollAuthzPolicy)
      → authorize_csr parse_ip cn sans identity p ≡ ok
      → (is_noop p ≡ true) ⊎ (check_sans parse_ip p sans ≡ ok)
  unfolding authorize_csr check_names
  authorize_csr-sans cn sans identity p h = elim (Bool-cases (is_noop p)) [
    | inl n ↦ inl n
    | inr n ↦ inr (ground (arith, n, h))
  ]

  -- Where the label permits only some domain names, every domain name that an authorized request
  -- asks for is covered by one of them.
  pub authorize_csr-dns :
      (cn : Option (List ℕ)) (sans : List (ℕ × List ℕ)) (identity : List ℕ) (p : EnrollAuthzPolicy)
      (name : List ℕ)
      → authorize_csr parse_ip cn sans identity p ≡ ok
      → no_entries p.permitted_dns_names ≡ false
      → In (dns_name, name) sans
      → (pat : List ℕ) × In pat p.permitted_dns_names × (matches_domain pat name ≡ true)
  unfolding is_noop check_san
  authorize_csr-dns cn sans identity p name h some_names m =
      elim (authorize_csr-sans cn sans identity p h) [
        | inl n ↦ absurd (ground (arith, n, some_names))
        | inr s ↦
            let one = check_sans-In p sans (dns_name, name) s m in
            any-In (λ pat. matches_domain pat name) p.permitted_dns_names
              (ground (arith, one, some_names))
      ]

  -- Likewise the email addresses.
  pub authorize_csr-emails :
      (cn : Option (List ℕ)) (sans : List (ℕ × List ℕ)) (identity : List ℕ) (p : EnrollAuthzPolicy)
      (email : List ℕ)
      → authorize_csr parse_ip cn sans identity p ≡ ok
      → no_entries p.permitted_emails ≡ false
      → In (rfc822_name, email) sans
      → (pat : List ℕ) × In pat p.permitted_emails × (matches_email pat email ≡ true)
  unfolding is_noop check_san
  authorize_csr-emails cn sans identity p email h some_emails m =
      elim (authorize_csr-sans cn sans identity p h) [
        | inl n ↦ absurd (ground (arith, n, some_emails))
        | inr s ↦
            let one = check_sans-In p sans (rfc822_name, email) s m in
            any-In (λ pat. matches_email pat email) p.permitted_emails
              (ground (arith, one, some_emails))
      ]

  -- Where the label requires the Common Name, an authorized request comes from an identity that is
  -- not empty and asks for that identity as its Common Name, in whatever case.
  pub authorize_csr-cn :
      (cn : Option (List ℕ)) (sans : List (ℕ × List ℕ)) (identity : List ℕ) (p : EnrollAuthzPolicy)
      → authorize_csr parse_ip cn sans identity p ≡ ok
      → p.require_cn_match ≡ true
      → (name : List ℕ) × (cn ≡ some name)
        × (to_ascii_lowercase name ≡ to_ascii_lowercase identity)
        × (is_empty identity ≡ false)
  unfolding authorize_csr is_noop check_names check_cn eq_ignore_ascii_case
  authorize_csr-cn cn sans identity p h r = elim (Option-cases cn) [
    | inl n ↦ absurd (ground (arith, n, h, r))
    | inr (name, e) ↦ (
      name,
      e,
      (same_bytes_iff (to_ascii_lowercase name) (to_ascii_lowercase identity)).0
          (ground (arith, e, h, r)),
      ground (arith, e, h, r),
    )
  ]
