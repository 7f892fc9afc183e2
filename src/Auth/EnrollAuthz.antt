-- ===== src/Auth/EnrollAuthz.antt =====
-- src/auth/enroll_authz.rs: whether a requester may have the names that its CSR asks for. A string
-- is the list of its bytes, and a SAN entry its tag and content. The reading of names from a CSR is
-- not modelled. `parse_ip` is `str::parse::<IpAddr>`, with the octets as its result; the theorems
-- hold for any reading of addresses.
pub mod Permitted
mod Examples
use kipuka.Common.{
  ℕ, ◌+◌, ◌-◌, Bool, true, false, not, ◌||◌, ◌&&◌, Option, none, some, List, [], ◌∷◌, length, ltb,
  leb, ◌==◌, if◌then◌else◌, is_utf8,
}
use kipuka.Auth.NameMatch.{
  at_sign, is_empty, contains, eq_ignore_ascii_case, matches_domain, matches_email, matches_ip,
}

-- The tags of general names (`synta_certificate::general_name`, RFC 5280).
abbrev pub rfc822_name : ℕ
rfc822_name = 1

abbrev pub dns_name : ℕ
dns_name = 2

abbrev pub ip_address : ℕ
ip_address = 7

pub record EnrollAuthzPolicy : Type 0 where
  pub require_cn_match : Bool
  pub require_san_match : Bool
  pub permitted_dns_names : List (List ℕ)
  pub permitted_ip_addresses : List (List ℕ)
  pub permitted_emails : List (List ℕ)

unfoldable pub no_entries : List (List ℕ) → Bool
no_entries [] = true
no_entries (x ∷ xs) = false

unfoldable pub is_noop : EnrollAuthzPolicy → Bool
is_noop p =
    not p.require_cn_match
    && (not p.require_san_match
        && (no_entries p.permitted_dns_names
            && (no_entries p.permitted_ip_addresses && no_entries p.permitted_emails)))

-- The reasons of a refusal.
pub data Refusal : Type 0 where
  no_identity cn_mismatch cn_missing identity_not_in_sans : Refusal
  dns_not_utf8 dns_not_permitted email_not_utf8 email_not_permitted : Refusal
  ip_malformed ip_not_permitted : Refusal

pub data Decision : Type 0 where
  ok : Decision
  err : Refusal → Decision

abbrev pub any {ℓ} : {A : Type ℓ} → (A → Bool) → List A → Bool
any f [] = false
any f (x ∷ xs) = f x || any f xs

-- An address of 4 or 16 octets.
unfoldable pub san_ip : List ℕ → Option (List ℕ)
san_ip content = if (length content == 4) || (length content == 16) then some content else none

abbrev pub is_ip : List ℕ → Option (List ℕ) → Bool
is_ip ip none = false
is_ip ip (some p) = matches_ip p ip

module _ (parse_ip : List ℕ → Option (List ℕ)) where
  unfoldable pub identity_in_sans : List (ℕ × List ℕ) → List ℕ → Bool
  identity_in_sans sans identity = elim (parse_ip identity) [
    | some ip ↦ any (λ san. (san.0 == ip_address) && is_ip ip (san_ip san.1)) sans
    | none ↦
        if contains at_sign identity
        then any (λ san. (san.0 == rfc822_name) && (is_utf8 san.1 && matches_email san.1 identity))
            sans
        else any (λ san. (san.0 == dns_name) && (is_utf8 san.1 && matches_domain san.1 identity))
            sans
  ]

  -- The allowlists, on one entry.
  unfoldable pub check_san : EnrollAuthzPolicy → ℕ × List ℕ → Decision
  check_san p (tag, content) =
      if (tag == dns_name) && not (no_entries p.permitted_dns_names)
      then (if not (is_utf8 content)
          then err dns_not_utf8
          else if any (λ pat. matches_domain pat content) p.permitted_dns_names
          then ok
          else err dns_not_permitted)
      else if (tag == rfc822_name) && not (no_entries p.permitted_emails)
      then (if not (is_utf8 content)
          then err email_not_utf8
          else if any (λ pat. matches_email pat content) p.permitted_emails
          then ok
          else err email_not_permitted)
      else if (tag == ip_address) && not (no_entries p.permitted_ip_addresses)
      then (elim (san_ip content) [
        | none ↦ err ip_malformed
        | some ip ↦
            if any (λ entry. is_ip ip (parse_ip entry)) p.permitted_ip_addresses
            then ok
            else err ip_not_permitted
      ])
      else ok

  unfoldable pub check_sans : EnrollAuthzPolicy → List (ℕ × List ℕ) → Decision
  check_sans p [] = ok
  check_sans p (san ∷ sans) =
      let rest = check_sans p sans in elim (check_san p san) [ ok ↦ rest | err e ↦ err e ]

  -- The Common Name, where it must be the identity.
  unfoldable pub check_cn : EnrollAuthzPolicy → Option (List ℕ) → List ℕ → Decision
  check_cn p cn identity =
      if p.require_cn_match
      then (elim cn [
        | none ↦ err cn_missing
        | some name ↦ if eq_ignore_ascii_case name identity then ok else err cn_mismatch
      ])
      else ok

  unfoldable pub check_names :
      Option (List ℕ) → List (ℕ × List ℕ) → List ℕ → EnrollAuthzPolicy → Decision
  check_names cn sans identity p =
      let required = p.require_cn_match || p.require_san_match in
      let allowed = check_sans p sans in
      if required && is_empty identity then err no_identity else elim (check_cn p cn identity) [
        | err e ↦ err e
        | ok ↦
            if p.require_san_match && not (identity_in_sans sans identity)
            then err identity_not_in_sans
            else allowed
      ]

  -- `authorize_csr`, of the names that were read from the CSR.
  unfoldable pub authorize_csr :
      Option (List ℕ) → List (ℕ × List ℕ) → List ℕ → EnrollAuthzPolicy → Decision
  authorize_csr cn sans identity p = if is_noop p then ok else check_names cn sans identity p
