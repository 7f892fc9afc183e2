-- ===== src/Audit/Tamper.antt =====
-- What the chain protects (src/audit/mod.rs, `chain_hash` and `verify_chain`): a trail that verifies
-- is fixed by its length and its last hash, unless two texts have the same hash.
use kipuka.Common.{
  ℕ, ◌≡◌, ◌≢◌, refl, sym, ap, ◌∙◌, ◌⊎◌, inl, inr, Option, none, some, List, [], ◌∷◌, ◌++◌, arith,
  length, map, same_bytes, same_bytes_iff, Bool-cases,
}
use kipuka.Audit.Event.{rs, unwrap_or_empty, AuditRow, canonical}
use kipuka.Audit.Trail.{Hashes, chain_hash, first_broken, tail_hash}
use kipuka.Audit.Canonical.{NoRs, field_end}
use kipuka.Audit.Verify.{first_broken-cons}

module _ (hs : Hashes) (key : Option (List ℕ)) where
  -- The hash of a text, in the form that is stored.
  abbrev pub digest : List ℕ → List ℕ
  digest m = elim key [ some k ↦ hs.hex (hs.hmac_sha256 k m) | none ↦ hs.hex (hs.sha256 m) ]

  -- Two texts with the same hash.
  pub record Collision : Type 0 where
    pub one : List ℕ
    pub other : List ℕ
    pub differ : one ≢ other
    pub collide : digest one ≡ digest other

  abbrev preimage : AuditRow → List ℕ
  preimage r = unwrap_or_empty r.prev_hash ++ (rs ∷ canonical r)

  chain_hash-digest :
      (r : AuditRow) → chain_hash hs key r.prev_hash (canonical r) ≡ digest (preimage r)
  unfolding chain_hash
  chain_hash-digest r = elim key [ some k ↦ refl | none ↦ refl ]

  module _ (plain : (bs : List ℕ) → NoRs (hs.hex bs)) where
    digest-NoRs : (m : List ℕ) → NoRs (digest m)
    digest-NoRs m =
        elim key
          as (λ k.
            NoRs (elim k [ some k ↦ hs.hex (hs.hmac_sha256 k m) | none ↦ hs.hex (hs.sha256 m) ])) [
              | some k ↦ plain (hs.hmac_sha256 k m)
              | none ↦ plain (hs.sha256 m)
            ]

    -- Two rows with the same hash.
    same_hash :
        (r q : AuditRow)
        → NoRs (unwrap_or_empty r.prev_hash)
        → NoRs (unwrap_or_empty q.prev_hash)
        → digest (preimage r) ≡ digest (preimage q)
        → Collision
          ⊎ ((unwrap_or_empty r.prev_hash ≡ unwrap_or_empty q.prev_hash)
              × (canonical r ≡ canonical q))
    same_hash r q nr nq e = elim (Bool-cases (same_bytes (preimage r) (preimage q))) [
      | inl same ↦ inr (
          field_end (unwrap_or_empty r.prev_hash) (unwrap_or_empty q.prev_hash) (canonical r)
            (canonical q) nr nq ((same_bytes_iff (preimage r) (preimage q)).0 same))
      | inr differ ↦ inl (record {
        one = preimage r;
        other = preimage q;
        differ = λ same. ground (arith, differ, (same_bytes_iff (preimage r) (preimage q)).1 same);
        collide = e;
      })
    ]

    same_trail :
        (expected expected' : Option (List ℕ)) (ts us : List AuditRow)
        → NoRs (unwrap_or_empty expected)
        → NoRs (unwrap_or_empty expected')
        → length ts ≡ length us
        → first_broken hs key expected ts ≡ none
        → first_broken hs key expected' us ≡ none
        → unwrap_or_empty (tail_hash expected ts) ≡ unwrap_or_empty (tail_hash expected' us)
        → Collision
          ⊎ ((unwrap_or_empty expected ≡ unwrap_or_empty expected')
              × (map canonical ts ≡ map canonical us))
    unfolding tail_hash
    same_trail e e' [] [] n n' l c c' t = inr (t, refl)
    same_trail e e' [] (q ∷ us) n n' l c c' t = absurd (omega arith)
    same_trail e e' (r ∷ ts) [] n n' l c c' t = absurd (omega arith)
    same_trail e e' (r ∷ ts) (q ∷ us) n n' l c c' t =
        let (lr, cr) = (first_broken-cons hs key e r ts).0 c in
        let (lq, cq) = (first_broken-cons hs key e' q us).0 c' in
        let hr : r.record_hash ≡ some (digest (preimage r)) =
          lr.hashed ∙ ap some (chain_hash-digest r) in
        let hq : q.record_hash ≡ some (digest (preimage q)) =
          lq.hashed ∙ ap some (chain_hash-digest q) in
        elim (same_trail r.record_hash q.record_hash ts us (rw hr (digest-NoRs (preimage r)))
          (rw hq (digest-NoRs (preimage q))) (omega arith) cr cq t) [
            | inl x ↦ inl x
            | inr (hash, rest) ↦
                elim (same_hash r q (rw lr.linked n) (rw lq.linked n')
                  (sym (ap unwrap_or_empty hr) ∙ hash ∙ ap unwrap_or_empty hq)) [
                    | inl x ↦ inl x
                    | inr (prev, row) ↦ inr (
                      sym (ap unwrap_or_empty lr.linked) ∙ prev ∙ ap unwrap_or_empty lq.linked,
                      cc,
                    )
                  ]
          ]

-- Two trails of the same length that both verify and end in the same hash have the same hashed bytes
-- in every row, or show two texts with the same hash. A hash is written without a separator.
pub verify_chain-tamper :
    (hs : Hashes) (key : Option (List ℕ)) (ts us : List AuditRow)
    → ((bs : List ℕ) → NoRs (hs.hex bs))
    → length ts ≡ length us
    → first_broken hs key none ts ≡ none
    → first_broken hs key none us ≡ none
    → tail_hash none ts ≡ tail_hash none us
    → Collision hs key ⊎ (map canonical ts ≡ map canonical us)
verify_chain-tamper hs key ts us plain l c c' t =
    elim (same_trail hs key plain none none ts us tt tt l c c' (ap unwrap_or_empty t)) [
      | inl x ↦ inl x
      | inr (start, rows) ↦ inr rows
    ]
