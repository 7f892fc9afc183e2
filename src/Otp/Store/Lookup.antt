-- ===== src/Otp/Store/Lookup.antt =====
-- The lookup by hash and the lookup by id find the same record (crates/kipuka-otp/src/store.rs).
use kipuka.Common.{ℕ, Bool, true, ◌≡◌, refl, none, some, List, [], ◌∷◌, ==_iff, nat_eq, arith}
use kipuka.Common.Dict
use kipuka.Common.Dict.{
  Dict, get-insert, get-retain, get-retain-none, insert-IsDistinct, retain-IsDistinct,
}
use kipuka.Otp.Store.{OtpRecord, find_record}

-- Each record stands under its own id, and no id is there twice.
unfoldable pub Keyed : Dict ℕ OtpRecord → Type 0
Keyed [] = Unit
Keyed ((id, r) ∷ records) = (r.id ≡ id) × (Dict.get records id ≡ none) × Keyed records

pub find_record-get :
    (d : Dict ℕ OtpRecord) (hash : List ℕ) (r : OtpRecord)
    → Keyed d
    → find_record d hash ≡ some r
    → Dict.get d r.id ≡ some r
unfolding Keyed find_record Dict.get
find_record-get [] hash r k e = cc
find_record-get ((id, q) ∷ d) hash r k e =
    ground (arith, find_record-get d hash r k.2, ==_iff id r.id)

pub get-Keyed :
    (d : Dict ℕ OtpRecord) (id : ℕ) (r : OtpRecord) → Keyed d → Dict.get d id ≡ some r → r.id ≡ id
unfolding Keyed Dict.get
get-Keyed [] id r k e = cc
get-Keyed ((j, q) ∷ d) id r k e = ground (arith, get-Keyed d id r k.2)

pub insert-Keyed :
    (d : Dict ℕ OtpRecord) (id : ℕ) (r : OtpRecord)
    → r.id ≡ id
    → Keyed d
    → Keyed (Dict.insert d id r)
unfolding Keyed Dict.insert Dict.get
insert-Keyed [] id r e k = (e, refl, tt)
insert-Keyed ((j, q) ∷ d) id r e k = ground (arith, insert-Keyed d id r e k.2, get-insert d id j r)

pub retain-Keyed : (p : OtpRecord → Bool) (d : Dict ℕ OtpRecord) → Keyed d → Keyed (Dict.retain p d)
unfolding Keyed Dict.retain
retain-Keyed p [] k = tt
retain-Keyed p ((j, q) ∷ d) k = ground (arith, retain-Keyed p d k.2, get-retain-none p d j k.1)

pub find_record-retain :
    (p : OtpRecord → Bool) (d : Dict ℕ OtpRecord) (hash : List ℕ) (r : OtpRecord)
    → find_record d hash ≡ some r
    → p r ≡ true
    → find_record (Dict.retain p d) hash ≡ some r
unfolding Dict.retain find_record
find_record-retain p [] hash r e h = cc
find_record-retain p ((j, q) ∷ d) hash r e h = ground (arith, find_record-retain p d hash r)

pub retain-get :
    (p : OtpRecord → Bool) (d : Dict ℕ OtpRecord) (id : ℕ) (r : OtpRecord)
    → Keyed d
    → Dict.get (Dict.retain p d) id ≡ some r
    → Dict.get d id ≡ some r
unfolding Keyed Dict.get Dict.retain
retain-get p [] id r k e = e
retain-get p ((j, q) ∷ d) id r k e =
    ground (arith, retain-get p d id r k.2, get-retain-none p d id, ==_iff j id)
