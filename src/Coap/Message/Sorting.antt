-- ===== src/Coap/Message/Sorting.antt =====
-- The order of options in `CoapMessage::encode` (crates/kipuka-coap/src/server.rs).
use mathlib.Core.List.{Perm}
use mathlib.Core.List.Perm
use kipuka.Common.{ℕ, ◌≤◌, ◌≡◌, refl, ap, ◌∙◌, arith, List, [], ◌∷◌, Bool-cases, leb, inl, inr}
use kipuka.Coap.Message.{CoapOption, insert_sorted, sort_options}

-- Option numbers rise from a lower bound.
abbrev pub SortedFrom : ℕ → List CoapOption → Type 0
SortedFrom n [] = Unit {0}
SortedFrom n (o ∷ os) = (n ≤ o.number) × SortedFrom o.number os

-- A property of each option.
abbrev pub All : (CoapOption → Type 0) → List CoapOption → Type 0
All P [] = Unit {0}
All P (o ∷ os) = P o × All P os

insert_sorted-SortedFrom :
    (n : ℕ) (o : CoapOption) (os : List CoapOption)
    → n ≤ o.number
    → SortedFrom n os
    → SortedFrom n (insert_sorted o os)
unfolding insert_sorted
insert_sorted-SortedFrom n o [] h s = (h, tt)
insert_sorted-SortedFrom n o (p ∷ ps) h s = ground (arith, insert_sorted-SortedFrom p.number o ps)

pub sort_options-SortedFrom : (os : List CoapOption) → SortedFrom 0 (sort_options os)
unfolding sort_options
sort_options-SortedFrom [] = tt
sort_options-SortedFrom (o ∷ os) =
    insert_sorted-SortedFrom 0 o (sort_options os) (omega arith) (sort_options-SortedFrom os)

insert_sorted_least :
    (o : CoapOption) (os : List CoapOption) → SortedFrom o.number os → insert_sorted o os ≡ o ∷ os
unfolding insert_sorted
insert_sorted_least o [] s = refl
insert_sorted_least o (p ∷ ps) s = ground arith

pub sort_options_sorted : (n : ℕ) (os : List CoapOption) → SortedFrom n os → sort_options os ≡ os
unfolding sort_options
sort_options_sorted n [] s = refl
sort_options_sorted n (o ∷ os) s =
    ap (insert_sorted o) (sort_options_sorted o.number os s.1) ∙ insert_sorted_least o os s.1

insert_sorted-perm : (o : CoapOption) (os : List CoapOption) → Perm (insert_sorted o os) (o ∷ os)
unfolding insert_sorted
insert_sorted-perm o [] = Perm.refl (o ∷ [])
insert_sorted-perm o (p ∷ ps) = elim (Bool-cases (leb o.number p.number)) [
  | inl h ↦ rw h (Perm.refl (o ∷ p ∷ ps))
  | inr h ↦ rw h (Perm.trans (Perm.cons p (insert_sorted-perm o ps)) (Perm.swap o p ps))
]

pub sort_options-perm : (os : List CoapOption) → Perm (sort_options os) os
unfolding sort_options
sort_options-perm [] = Perm.refl []
sort_options-perm (o ∷ os) =
    Perm.trans (insert_sorted-perm o (sort_options os)) (Perm.cons o (sort_options-perm os))

insert_sorted-All :
    (P : CoapOption → Type 0) (o : CoapOption) (os : List CoapOption)
    → P o
    → All P os
    → All P (insert_sorted o os)
unfolding insert_sorted
insert_sorted-All P o [] p h = (p, tt)
insert_sorted-All P o (q ∷ qs) p h = elim (Bool-cases (leb o.number q.number)) [
  | inl e ↦ rw e (p, h)
  | inr e ↦ rw e (h.0, insert_sorted-All P o qs p h.1)
]

pub sort_options-All :
    (P : CoapOption → Type 0) (os : List CoapOption) → All P os → All P (sort_options os)
unfolding sort_options
sort_options-All P [] h = tt
sort_options-All P (o ∷ os) h =
    insert_sorted-All P o (sort_options os) h.0 (sort_options-All P os h.1)
