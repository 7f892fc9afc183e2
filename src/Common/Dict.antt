-- ===== src/Common/Dict.antt =====
-- A hash map as an association list with one entry for each key. `insert` replaces the value of a
-- key that is present. The order of entries is not observed by the program.
use Prim.Native.Nat.{suc, ◌≤◌}
use mathlib.Core.Path.{◌≡◌, refl, ap, ◌∙◌}
use mathlib.Core.Logic.{inl, inr}
use mathlib.Core.Bool.{Bool, true, false}
use mathlib.Core.List.{List, [], ◌∷◌}
use mathlib.Core.Option.{Option, none, some}
use native.Mathlib.Omega.{arith}
use kipuka.Common.Tests.{if◌then◌else◌, Eq, Bool-cases}
use kipuka.Common.Lists.{length}

abbrev pub Dict {ℓ κ} : Type ℓ → Type κ → Type (ℓ ⊔ κ)
Dict K V = List (K × V)

-- What `retain` leaves of a lookup.
abbrev pub kept {ℓ} : {V : Type ℓ} → (V → Bool) → Option V → Option V
kept p none = none
kept p (some v) = if p v then some v else none

abbrev pub is_some {ℓ} : {V : Type ℓ} → Option V → Bool
is_some none = false
is_some (some v) = true

module _ {ℓ κ} {K : Type ℓ} {V : Type κ} ⦃e : Eq K⦄ where
  unfoldable pub get : Dict K V → K → Option V
  get [] k = none
  get ((j, v) ∷ d) k = if e.beq j k then some v else get d k

  unfoldable pub insert : Dict K V → K → V → Dict K V
  insert [] k v = (k, v) ∷ []
  insert ((j, w) ∷ d) k v = if e.beq j k then (j, v) ∷ d else (j, w) ∷ insert d k v

  unfoldable pub remove : Dict K V → K → Dict K V
  remove [] k = []
  remove ((j, w) ∷ d) k = let rest = remove d k in if e.beq j k then rest else (j, w) ∷ rest

  unfoldable pub retain : (V → Bool) → Dict K V → Dict K V
  retain p [] = []
  retain p ((j, w) ∷ d) = let rest = retain p d in if p w then (j, w) ∷ rest else rest

  -- What `retain` leaves where it looks at keys only.
  unfoldable pub retain_keys : (K → Bool) → Dict K V → Dict K V
  retain_keys p [] = []
  retain_keys p ((j, w) ∷ d) = let rest = retain_keys p d in if p j then (j, w) ∷ rest else rest

  abbrev pub contains_key : Dict K V → K → Bool
  contains_key d k = is_some (get d k)

  -- One entry for each key.
  pub IsDistinct : Dict K V → Type κ
  IsDistinct [] = Unit
  IsDistinct ((j, w) ∷ d) = (get d j ≡ none) × IsDistinct d

  pub get-empty : (k : K) → get [] k ≡ none
  unfolding get
  get-empty k = refl

  pub get-insert :
      (d : Dict K V) (k j : K) (v : V)
      → get (insert d k v) j ≡ (if e.beq k j then some v else get d j)
  unfolding get insert
  get-insert [] k j v = refl
  get-insert ((i, w) ∷ d) k j v =
      ground (arith, get-insert d k j v, e.beq_iff i k, e.beq_iff i j, e.beq_iff k j)

  pub get-remove :
      (d : Dict K V) (k j : K) → get (remove d k) j ≡ (if e.beq k j then none else get d j)
  unfolding get remove
  get-remove [] k j = ground arith
  get-remove ((i, w) ∷ d) k j =
      ground (arith, get-remove d k j, e.beq_iff i k, e.beq_iff i j, e.beq_iff k j)

  pub get-retain-none :
      (p : V → Bool) (d : Dict K V) (k : K) → get d k ≡ none → get (retain p d) k ≡ none
  unfolding get retain
  get-retain-none p [] k h = refl
  get-retain-none p ((i, w) ∷ d) k h = ground (arith, get-retain-none p d k)

  pub get-retain :
      (p : V → Bool) (d : Dict K V) (k : K) → IsDistinct d → get (retain p d) k ≡ kept p (get d k)
  unfolding get retain IsDistinct
  get-retain p [] k h = refl
  get-retain p ((i, w) ∷ d) k h =
      ground (arith, get-retain p d k h.1, get-retain-none p d i h.0, e.beq_iff i k)

  pub insert-IsDistinct : (d : Dict K V) (k : K) (v : V) → IsDistinct d → IsDistinct (insert d k v)
  unfolding get insert IsDistinct
  insert-IsDistinct [] k v h = (refl, tt)
  insert-IsDistinct ((i, w) ∷ d) k v h =
      ground (arith, insert-IsDistinct d k v h.1, get-insert d k i v, e.beq_iff i k, e.beq_iff k i)

  pub remove-IsDistinct : (d : Dict K V) (k : K) → IsDistinct d → IsDistinct (remove d k)
  unfolding get remove IsDistinct
  remove-IsDistinct [] k h = tt
  remove-IsDistinct ((i, w) ∷ d) k h = ground (arith, remove-IsDistinct d k h.1, get-remove d k i)

  pub retain-IsDistinct : (p : V → Bool) (d : Dict K V) → IsDistinct d → IsDistinct (retain p d)
  unfolding get retain IsDistinct
  retain-IsDistinct p [] h = tt
  retain-IsDistinct p ((i, w) ∷ d) h =
      ground (arith, retain-IsDistinct p d h.1, get-retain-none p d i h.0)

  pub get-retain_keys :
      (p : K → Bool) (d : Dict K V) (k : K) → p k ≡ true → get (retain_keys p d) k ≡ get d k
  unfolding get retain_keys
  get-retain_keys p [] k h = refl
  get-retain_keys p ((i, w) ∷ d) k h = elim (Bool-cases (e.beq i k)) [
    | inl same ↦ let q : p i ≡ true = ap p ((e.beq_iff i k).0 same) ∙ h in ground (arith, same, q)
    | inr other ↦ ground (arith, other, get-retain_keys p d k h)
  ]

  get-retain_keys-none :
      (p : K → Bool) (d : Dict K V) (k : K) → get d k ≡ none → get (retain_keys p d) k ≡ none
  unfolding get retain_keys
  get-retain_keys-none p [] k h = refl
  get-retain_keys-none p ((i, w) ∷ d) k h = ground (arith, get-retain_keys-none p d k)

  pub retain_keys-IsDistinct :
      (p : K → Bool) (d : Dict K V) → IsDistinct d → IsDistinct (retain_keys p d)
  unfolding get retain_keys IsDistinct
  retain_keys-IsDistinct p [] h = tt
  retain_keys-IsDistinct p ((i, w) ∷ d) h =
      ground (arith, retain_keys-IsDistinct p d h.1, get-retain_keys-none p d i h.0)

  pub size-insert :
      (d : Dict K V) (k : K) (v : V)
      → length (insert d k v) ≡ (if contains_key d k then length d else suc (length d))
  unfolding get insert
  size-insert [] k v = refl
  size-insert ((i, w) ∷ d) k v = ground (arith, size-insert d k v)

  pub size-remove-le : (d : Dict K V) (k : K) → length (remove d k) ≤ length d
  unfolding remove
  size-remove-le [] k = omega arith
  size-remove-le ((i, w) ∷ d) k = ground (arith, size-remove-le d k)

  pub size-retain_keys-le : (p : K → Bool) (d : Dict K V) → length (retain_keys p d) ≤ length d
  unfolding retain_keys
  size-retain_keys-le p [] = omega arith
  size-retain_keys-le p ((i, w) ∷ d) = ground (arith, size-retain_keys-le p d)

  pub size-retain-le : (p : V → Bool) (d : Dict K V) → length (retain p d) ≤ length d
  unfolding retain
  size-retain-le p [] = omega arith
  size-retain-le p ((i, w) ∷ d) = ground (arith, size-retain-le p d)

pub empty-IsDistinct {ℓ κ} : (K : Type ℓ) (V : Type κ) ⦃e : Eq K⦄ → IsDistinct {K = K} {V = V} []
unfolding IsDistinct
empty-IsDistinct K V = tt
