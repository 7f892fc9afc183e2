-- ===== src/Star/Renewal.antt =====
-- Renewals: what is stored is handed out, and what runs out is due (src/star/mod.rs).
use text.Mathlib.Text.{◌==◌ as str_eq}
use text.Mathlib.TextEquality.{eq_iff}
use kipuka.Common.{
  ℕ, ◌+◌, ◌*◌, ◌/◌, ◌≤◌, ◌<◌, true, not, ◌||◌, ◌≡◌, refl, Option, none, some, [], ◌∷◌, String,
  string_eq, arith, leb, Option-cases, Bool-cases, inl, inr, In, here, there,
}
use kipuka.Common.Dict
use kipuka.Common.Dict.{Dict, get-insert}
use kipuka.Star.Order.{Float, pos, StarOrder, StarCertificate, ok, is_active, second, active}
use kipuka.Star.Manager.{
  StarManager, deadline_passed, should_renew, store_renewed_certificate, get_current_certificate,
  needing_renewal, orders_needing_renewal_at, renewed,
}

module _ (fl : Float) where
  -- A certificate that is stored in an order is the one that is handed out until the order's end.
  pub get_current_certificate-store_renewed_certificate :
      (m : StarManager fl) (id : String) (o : StarOrder) (cert : StarCertificate) (at : ℕ)
      → Dict.get m.orders id ≡ some o
      → (store_renewed_certificate fl m id cert).0 ≡ ok tt
      → at < o.lifetime_end
      → get_current_certificate fl (store_renewed_certificate fl m id cert).1 id at ≡ ok cert
  unfolding store_renewed_certificate get_current_certificate renewed
  get_current_certificate-store_renewed_certificate m id o cert at g e h =
      ground (arith, g, e, get-insert m.orders id id (renewed o cert), eq_iff id id)

  -- There is no certificate yet, or it ends within the seconds of the renewal window.
  abbrev pub Ends : Option StarCertificate → ℕ → ℕ → Type 0
  Ends none secs now = Unit {0}
  Ends (some cert) secs now = cert.not_after ≤ now + secs * second

  needing_renewal-head :
      (factor : fl.F) (d : Dict String StarOrder) (j : String) (o : StarOrder) (now : ℕ)
      → o.status ≡ active
      → now < o.lifetime_end
      → should_renew fl factor o now ≡ true
      → needing_renewal fl factor ((j, o) ∷ d) now ≡ o.id ∷ needing_renewal fl factor d now
  unfolding needing_renewal is_active
  needing_renewal-head factor d j o now s h r = ground (arith, s, h, r)

  In-needing_renewal-tail :
      (factor : fl.F) (d : Dict String StarOrder) (j x : String) (q : StarOrder) (now : ℕ)
      → In x (needing_renewal fl factor d now)
      → In x (needing_renewal fl factor ((j, q) ∷ d) now)
  unfolding needing_renewal
  In-needing_renewal-tail factor d j x q now m =
      elim (Bool-cases (not (is_active q.status) || leb q.lifetime_end now)) [
        | inl out ↦ rw (out, needing_renewal) m
        | inr on ↦ elim (Bool-cases (should_renew fl factor q now)) [
          | inl due ↦ rw (on, due, needing_renewal) (there m)
          | inr later ↦ rw (on, later, needing_renewal) m
        ]
      ]

  needing_renewal-In :
      (factor : fl.F) (d : Dict String StarOrder) (id : String) (o : StarOrder) (now : ℕ)
      → Dict.get d id ≡ some o
      → o.status ≡ active
      → now < o.lifetime_end
      → should_renew fl factor o now ≡ true
      → In o.id (needing_renewal fl factor d now)
  unfolding Dict.get
  needing_renewal-In factor [] id o now g s h r = cc
  needing_renewal-In factor ((j, q) ∷ d) id o now g s h r = elim (Bool-cases (str_eq j id)) [
    | inl same ↦
        let found : q ≡ o = ground (arith, same, g) in
        rw (found, needing_renewal-head factor d j o now s h r) (here refl)
    | inr other ↦
        In-needing_renewal-tail factor d j o.id q now
          (needing_renewal-In factor d id o now (ground (arith, other, g)) s h r)
  ]

  Ends-due :
      (factor : fl.F) (secs : ℕ) (o : StarOrder) (now : ℕ)
      → fl.as_i64 (fl.mul (fl.of_u64 (o.renewal_interval / second)) factor) ≡ pos secs
      → Ends o.current_certificate secs now
      → should_renew fl factor o now ≡ true
  unfolding should_renew deadline_passed
  Ends-due factor secs o now w out = elim (Option-cases o.current_certificate) [
    | inl n ↦ ground (arith, n)
    | inr (c, e) ↦
        let ended : c.not_after ≤ now + secs * second = rw e at out in ground (arith, e, w, ended)
  ]

  -- An active order whose end is ahead is among those to renew from the time on at which the renewal
  -- window before the end of its certificate begins, or at once where it has none. The window is
  -- what the renewal interval times the factor is in whole seconds, where that is not negative.
  pub orders_needing_renewal_at-In :
      (m : StarManager fl) (secs : ℕ) (id : String) (o : StarOrder) (now : ℕ)
      → fl.as_i64 (fl.mul (fl.of_u64 (o.renewal_interval / second)) m.config.pre_renewal_factor)
        ≡ pos secs
      → Dict.get m.orders id ≡ some o
      → o.status ≡ active
      → now < o.lifetime_end
      → Ends o.current_certificate secs now
      → In o.id (orders_needing_renewal_at fl m now)
  unfolding orders_needing_renewal_at
  orders_needing_renewal_at-In m secs id o now w g s h out =
      needing_renewal-In m.config.pre_renewal_factor m.orders id o now g s h
        (Ends-due m.config.pre_renewal_factor secs o now w out)
