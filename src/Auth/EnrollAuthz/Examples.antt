-- ===== src/Auth/EnrollAuthz/Examples.antt =====
-- Names and requests (src/auth/name_match.rs, src/auth/enroll_authz.rs), and the theorems at
-- concrete inputs. No text is read as an address.
use kipuka.Common.{
  is_utf8, is_utf8_from, same_bytes, ℕ, true, false, ◌≡◌, refl, Option, none, some, List, [], ◌∷◌,
  ◌++◌, In, here,
}
use kipuka.Auth.NameMatch.{
  dot, star, is_empty, contains, wildcard_suffix, strip_suffix, split_last, to_ascii_lowercase,
  trim_end, is_label_dot, matches_trimmed, matches_domain, eq_ignore_ascii_case,
}
use kipuka.Auth.NameMatch.Wildcard.{matches_domain-wildcard}
use kipuka.Auth.EnrollAuthz.{
  dns_name, EnrollAuthzPolicy, no_entries, is_noop, ok, err, dns_not_permitted, check_san,
  check_sans, check_cn, check_names, authorize_csr,
}
use kipuka.Auth.EnrollAuthz.Permitted.{authorize_csr-dns}

-- `*.b.c`, `A.b.c.` and `x.a.b.c`
abbrev pattern : List ℕ
pattern = 42 ∷ 46 ∷ 98 ∷ 46 ∷ 99 ∷ []

abbrev host : List ℕ
host = 65 ∷ 46 ∷ 98 ∷ 46 ∷ 99 ∷ 46 ∷ []

abbrev deep : List ℕ
deep = 120 ∷ 46 ∷ 97 ∷ 46 ∷ 98 ∷ 46 ∷ 99 ∷ []

abbrev no_ip : List ℕ → Option (List ℕ)
no_ip text = none

abbrev policy : EnrollAuthzPolicy
policy = record {
  require_cn_match = true;
  require_san_match = false;
  permitted_dns_names = pattern ∷ [];
  permitted_ip_addresses = [];
  permitted_emails = [];
}

matches_host : matches_domain pattern host ≡ true
unfolding matches_domain matches_trimmed to_ascii_lowercase trim_end is_empty wildcard_suffix
    contains strip_suffix same_bytes is_label_dot split_last
matches_host = refl

matches_deep : matches_domain pattern deep ≡ false
unfolding matches_domain matches_trimmed to_ascii_lowercase trim_end is_empty wildcard_suffix
    contains strip_suffix same_bytes is_label_dot split_last
matches_deep = refl

authorize_deep :
    authorize_csr no_ip (some host) ((dns_name, deep) ∷ []) host policy ≡ err dns_not_permitted
unfolding authorize_csr is_noop check_names check_cn check_sans check_san no_entries is_utf8
    is_utf8_from eq_ignore_ascii_case matches_domain matches_trimmed to_ascii_lowercase trim_end
    is_empty wildcard_suffix contains strip_suffix same_bytes is_label_dot split_last
authorize_deep = refl

authorize_host : authorize_csr no_ip (some host) ((dns_name, host) ∷ []) host policy ≡ ok
unfolding authorize_csr is_noop check_names check_cn check_sans check_san no_entries is_utf8
    is_utf8_from eq_ignore_ascii_case matches_domain matches_trimmed to_ascii_lowercase trim_end
    is_empty wildcard_suffix contains strip_suffix same_bytes is_label_dot split_last
authorize_host = refl

matches_domain-wildcard_example :
    (label : List ℕ) × (trim_end (to_ascii_lowercase host)
      ≡ (label ++ dot ∷ []) ++ 98 ∷ 46 ∷ 99 ∷ [])
    × (is_empty label ≡ false)
    × (contains dot label ≡ false)
    × (contains star (98 ∷ 46 ∷ 99 ∷ []) ≡ false)
    × (is_empty (98 ∷ 46 ∷ 99 ∷ []) ≡ false)
unfolding trim_end to_ascii_lowercase is_empty wildcard_suffix
matches_domain-wildcard_example =
    matches_domain-wildcard pattern host (98 ∷ 46 ∷ 99 ∷ []) refl matches_host

authorize_csr-dns_example :
    (pat : List ℕ) × In pat policy.permitted_dns_names × (matches_domain pat host ≡ true)
unfolding no_entries
authorize_csr-dns_example =
    authorize_csr-dns no_ip (some host) ((dns_name, host) ∷ []) host policy host authorize_host refl
      (here refl)
