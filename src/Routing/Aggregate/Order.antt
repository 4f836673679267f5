-- ===== src/Routing/Aggregate/Order.antt =====
-- The order of `sortPrefixes`, and that sorting establishes it.
use riftroute.Base.{true, false, List, [], ◌∷◌, ◌≡◌, refl, inl, inr, arith, Bool-cases, All}
use riftroute.Netip.{Prefix}
use riftroute.Routing.Aggregate.{less, insert_sorted, sort_prefixes}

-- Sorting: no element is `less` than the one before it.
abbrev pub Below : Prefix → List Prefix → Type 0
Below p [] = Unit
Below p (q ∷ _) = less q p ≡ false

abbrev pub IsSorted : List Prefix → Type 0
IsSorted [] = Unit
IsSorted (p ∷ ps) = Below p ps × IsSorted ps

less_asymm : (p q : Prefix) → less p q ≡ true → less q p ≡ false
unfolding less
less_asymm p q h = ground arith

Below-insert_sorted :
    (q p : Prefix) (qs : List Prefix) → less p q ≡ false → Below q qs → Below q (insert_sorted p qs)
unfolding insert_sorted
Below-insert_sorted q p [] h b = h
Below-insert_sorted q p (r ∷ rs) h b = elim (Bool-cases (less r p)) [
  | inl e ↦ rw e b
  | inr e ↦ rw e h
]

insert_sorted-IsSorted :
    (p : Prefix) (qs : List Prefix) → IsSorted qs → IsSorted (insert_sorted p qs)
unfolding insert_sorted
insert_sorted-IsSorted p [] s = (tt, tt)
insert_sorted-IsSorted p (q ∷ qs) s = elim (Bool-cases (less q p)) [
  | inl e ↦
      rw e (Below-insert_sorted q p qs (less_asymm q p e) s.0, insert_sorted-IsSorted p qs s.1)
  | inr e ↦ rw e (e, s)
]

pub sort_prefixes-IsSorted : (ps : List Prefix) → IsSorted (sort_prefixes ps)
unfolding sort_prefixes
sort_prefixes-IsSorted [] = tt
sort_prefixes-IsSorted (p ∷ ps) =
    insert_sorted-IsSorted p (sort_prefixes ps) (sort_prefixes-IsSorted ps)

insert_sorted-Below : (p : Prefix) (qs : List Prefix) → Below p qs → insert_sorted p qs ≡ p ∷ qs
unfolding insert_sorted
insert_sorted-Below p [] b = refl
insert_sorted-Below p (q ∷ qs) b = rw b

pub sort_prefixes_sorted : (ps : List Prefix) → IsSorted ps → sort_prefixes ps ≡ ps
unfolding sort_prefixes
sort_prefixes_sorted [] s = refl
sort_prefixes_sorted (p ∷ ps) s = rw (sort_prefixes_sorted ps s.1) (insert_sorted-Below p ps s.0)

-- `less` is a strict weak order: what is not below something not below r is not below r.
not-less_trans : (p q r : Prefix) → less q p ≡ false → less r q ≡ false → less r p ≡ false
unfolding less
not-less_trans p q r h k = ground arith

-- In a sorted list nothing is `less` than an element before it.
pub IsSorted-Below :
    (p : Prefix) (ps : List Prefix) → Below p ps → IsSorted ps → All (λ r. less r p ≡ false) ps
IsSorted-Below p [] b s = tt
IsSorted-Below p (q ∷ []) b s = (b, tt)
IsSorted-Below p (q ∷ r ∷ rs) b s = (b, IsSorted-Below p (r ∷ rs) (not-less_trans p q r b s.0) s.1)
