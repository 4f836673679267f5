-- ===== src/Routing/Unclaimed/Listed.antt =====
-- What `unclaimedAggregate` covers, and that it adds no claimed prefix.
use mathlib.Core.List.{Memᴰ}
use riftroute.Base.{
  leb, leb→le, ==_iff, bool_eq→eq, Bool, true, false, ◌&&◌, ◌||◌, List, [], ◌∷◌, ◌++◌, any,
  any-append, select, All, All-append, All-select, bool_ext, ◌≡◌, ◌⊎◌, refl, sym, ◌∙◌, inl, inr,
  arith, Bool-cases,
}
use riftroute.Netip.{Addr, Prefix, addr, is_valid, prefix_eq, contains}
use riftroute.Netip.Blocks.{contains_trans, contains→Inside}
use riftroute.Routing.Aggregate.{aggregate}
use riftroute.Routing.Aggregate.Coverage.{covers, covers-aggregate}
use riftroute.Routing.Aggregate.Within.{within-aggregate}
use riftroute.Routing.Nets.{within, inside}
use riftroute.Routing.Unclaimed.{parts_of, add_new, unclaimed_from, unclaimed_aggregate}

prefix_eq-same : (p q : Prefix) (a : Addr) → prefix_eq p q ≡ true → contains q a ≡ contains p a
unfolding prefix_eq contains
prefix_eq-same p q a h =
    let f : p.is4 ≡ q.is4 = bool_eq→eq p.is4 q.is4 (ground arith) in
    let v : p.value ≡ q.value = (==_iff p.value q.value).0 (ground arith) in
    let b : p.bits ≡ q.bits = (==_iff p.bits q.bits).0 (ground arith) in rw (f, v, b) refl

-- A prefix that is there already covers nothing new.
known-covers :
    (p : Prefix) (out : List Prefix) (a : Addr)
    → any (prefix_eq p) out ≡ true
    → contains p a ≡ true
    → covers out a ≡ true
known-covers p [] a h c = cc
known-covers p (q ∷ out) a h c = elim (Bool-cases (prefix_eq p q)) [
  | inl y ↦ ground (arith, prefix_eq-same p q a y, c)
  | inr n ↦ ground (arith, known-covers p out a)
]

covers-add_new :
    (out ps : List Prefix) (a : Addr) → covers (add_new out ps) a ≡ (covers out a || covers ps a)
unfolding add_new
covers-add_new out [] a = ground arith
covers-add_new out (p ∷ ps) a = elim (Bool-cases (any (prefix_eq p) out)) [
  | inl y ↦ rw y (covers-add_new out ps a ∙ ground (arith, known-covers p out a y))
  | inr n ↦ rw n (
      covers-add_new (out ++ p ∷ []) ps a
      ∙ rw (any-append (λ (q : Prefix). contains q a) out (p ∷ [])) (ground arith))
]

covers-unclaimed_from :
    (claimed : Prefix → Bool) (prefixes out aggs : List Prefix) (a : Addr)
    → covers (unclaimed_from claimed prefixes out aggs) a
      ≡ (covers out a || any (λ g. covers (parts_of claimed prefixes g) a) aggs)
unfolding unclaimed_from
covers-unclaimed_from claimed prefixes out [] a = ground arith
covers-unclaimed_from claimed prefixes out (g ∷ aggs) a =
    covers-unclaimed_from claimed prefixes (add_new out (parts_of claimed prefixes g)) aggs a
    ∙ ground (arith, covers-add_new out (parts_of claimed prefixes g) a)

-- Prefixes chosen from a list cover no more than it.
select-covers :
    (test : Prefix → Bool) (ps : List Prefix) (a : Addr)
    → covers (select test ps) a ≡ true
    → covers ps a ≡ true
select-covers test [] a h = cc
select-covers test (p ∷ ps) a h = elim (Bool-cases (test p)) [
  | inl y ↦ ground (arith, select-covers test ps a)
  | inr n ↦ ground (arith, select-covers test ps a)
]

parts_of-covers :
    (claimed : Prefix → Bool) (prefixes : List Prefix) (g : Prefix) (a : Addr)
    → covers (parts_of claimed prefixes g) a ≡ true
    → (covers prefixes a ≡ true) ⊎ (contains g a ≡ true)
unfolding parts_of
parts_of-covers claimed prefixes g a h = elim (Bool-cases (claimed g)) [
  | inl y ↦
      inl (select-covers (λ p. leb g.bits p.bits && contains g (addr p)) prefixes a (ground arith))
  | inr n ↦ inr (ground arith)
]

parts-covers :
    (claimed : Prefix → Bool) (prefixes aggs : List Prefix) (a : Addr)
    → any (λ g. covers (parts_of claimed prefixes g) a) aggs ≡ true
    → (covers prefixes a ≡ true) ⊎ (covers aggs a ≡ true)
parts-covers claimed prefixes [] a h = cc
parts-covers claimed prefixes (g ∷ aggs) a h =
    elim (Bool-cases (covers (parts_of claimed prefixes g) a)) [
      | inl y ↦ elim (parts_of-covers claimed prefixes g a y) [
        | inl c ↦ inl c
        | inr c ↦ inr (ground arith)
      ]
      | inr n ↦ elim (parts-covers claimed prefixes aggs a (ground arith)) [
        | inl c ↦ inl c
        | inr c ↦ inr (ground arith)
      ]
    ]

-- A prefix that passes the test is among the selected ones, address by address.
covers-select-Memᴰ :
    (test : Prefix → Bool) (ps : List Prefix) (p : Prefix) (a : Addr)
    → Memᴰ p ps
    → test p ≡ true
    → contains p a ≡ true
    → covers (select test ps) a ≡ true
covers-select-Memᴰ test [] p a m t c = elim m [ ]
covers-select-Memᴰ test (q ∷ ps) p a (Memᴰ.head e) t c = rw (← e, t, c) refl
covers-select-Memᴰ test (q ∷ ps) p a (Memᴰ.tail m) t c = elim (Bool-cases (test q)) [
  | inl y ↦ ground (arith, covers-select-Memᴰ test ps p a m t c)
  | inr n ↦ ground (arith, covers-select-Memᴰ test ps p a m t c)
]

-- An aggregate that covers a listed prefix hands on all of it.
parts_of-listed :
    (claimed : Prefix → Bool) (prefixes : List Prefix) (g p : Prefix) (a : Addr)
    → Memᴰ p prefixes
    → inside p g ≡ true
    → contains p a ≡ true
    → covers (parts_of claimed prefixes g) a ≡ true
unfolding parts_of
parts_of-listed claimed prefixes g p a m i c = elim (Bool-cases (claimed g)) [
  | inl y ↦
      rw y (covers-select-Memᴰ (λ p. leb g.bits p.bits && contains g (addr p)) prefixes p a m i c)
  | inr n ↦
      let whole = contains_trans p g a (leb→le _ _ (ground arith)) (ground arith) c in
      rw (n, whole) refl
]

parts-listed :
    (claimed : Prefix → Bool) (prefixes aggs : List Prefix) (p : Prefix) (a : Addr)
    → Memᴰ p prefixes
    → any (λ g. inside p g) aggs ≡ true
    → contains p a ≡ true
    → any (λ g. covers (parts_of claimed prefixes g) a) aggs ≡ true
parts-listed claimed prefixes [] p a m h c = cc
parts-listed claimed prefixes (g ∷ aggs) p a m h c = elim (Bool-cases (inside p g)) [
  | inl y ↦ let on = parts_of-listed claimed prefixes g p a m y c in ground arith
  | inr n ↦ let on = parts-listed claimed prefixes aggs p a m (ground arith) c in ground arith
]

covers-Memᴰ :
    (ps : List Prefix) (a : Addr)
    → covers ps a ≡ true
    → (p : Prefix) × (Memᴰ p ps × (contains p a ≡ true))
covers-Memᴰ [] a h = cc
covers-Memᴰ (p ∷ ps) a h = elim (Bool-cases (contains p a)) [
  | inl y ↦ (p, (Memᴰ.head refl, y))
  | inr n ↦ let (q, (m, c)) = covers-Memᴰ ps a (ground arith) in (q, (Memᴰ.tail m, c))
]

-- For any claims and any prefixes: what `unclaimedAggregate` gives contains an address exactly when
-- the prefixes do, whichever aggregates are claimed.
pub covers-unclaimed_aggregate :
    (claimed : Prefix → Bool) (prefixes : List Prefix) (a : Addr)
    → covers (unclaimed_aggregate claimed prefixes) a ≡ covers prefixes a
unfolding unclaimed_aggregate within
covers-unclaimed_aggregate claimed prefixes a =
    covers-unclaimed_from claimed prefixes [] (aggregate prefixes) a
    ∙ bool_ext (any (λ g. covers (parts_of claimed prefixes g) a) (aggregate prefixes))
        (covers prefixes a) to from
  where
    to :
        any (λ g. covers (parts_of claimed prefixes g) a) (aggregate prefixes) ≡ true
        → covers prefixes a ≡ true
    to h = elim (parts-covers claimed prefixes (aggregate prefixes) a h) [
      | inl c ↦ c
      | inr c ↦ sym (covers-aggregate prefixes a) ∙ c
    ]

    from :
        covers prefixes a ≡ true
        → any (λ g. covers (parts_of claimed prefixes g) a) (aggregate prefixes) ≡ true
    from h =
        let (p, (m, c)) = covers-Memᴰ prefixes a h in
        let v : is_valid p ≡ true = ground (arith, (contains→Inside p a c).valid) in
        parts-listed claimed prefixes (aggregate prefixes) p a m (within-aggregate prefixes p m v) c

-- No prefix of the list is claimed.
abbrev pub NoneClaimed : (Prefix → Bool) → List Prefix → Type 0
NoneClaimed claimed = All (λ p. claimed p ≡ false)

add_new-NoneClaimed :
    (claimed : Prefix → Bool) (out ps : List Prefix)
    → NoneClaimed claimed out
    → NoneClaimed claimed ps
    → NoneClaimed claimed (add_new out ps)
unfolding add_new
add_new-NoneClaimed claimed out [] h k = h
add_new-NoneClaimed claimed out (p ∷ ps) h k = elim (Bool-cases (any (prefix_eq p) out)) [
  | inl y ↦ rw y (add_new-NoneClaimed claimed out ps h k.1)
  | inr n ↦ rw n (
      add_new-NoneClaimed claimed (out ++ p ∷ []) ps
        (All-append (λ (q : Prefix). claimed q ≡ false) out (p ∷ []) h (k.0, tt)) k.1)
]

parts_of-NoneClaimed :
    (claimed : Prefix → Bool) (prefixes : List Prefix) (g : Prefix)
    → NoneClaimed claimed prefixes
    → NoneClaimed claimed (parts_of claimed prefixes g)
unfolding parts_of
parts_of-NoneClaimed claimed prefixes g h = elim (Bool-cases (claimed g)) [
  | inl y ↦ rw y (
      All-select (λ p. leb g.bits p.bits && contains g (addr p)) (λ (p : Prefix). claimed p ≡ false)
        prefixes h)
  | inr n ↦ rw n (n, tt)
]

unclaimed_from-NoneClaimed :
    (claimed : Prefix → Bool) (prefixes out aggs : List Prefix)
    → NoneClaimed claimed prefixes
    → NoneClaimed claimed out
    → NoneClaimed claimed (unclaimed_from claimed prefixes out aggs)
unfolding unclaimed_from
unclaimed_from-NoneClaimed claimed prefixes out [] h k = k
unclaimed_from-NoneClaimed claimed prefixes out (g ∷ aggs) h k =
    unclaimed_from-NoneClaimed claimed prefixes (add_new out (parts_of claimed prefixes g)) aggs h (
      add_new-NoneClaimed claimed out (parts_of claimed prefixes g) k
        (parts_of-NoneClaimed claimed prefixes g h))

-- For any claims and any prefixes none of which is claimed: `unclaimedAggregate` gives no claimed
-- prefix.
pub unclaimed_aggregate-NoneClaimed :
    (claimed : Prefix → Bool) (prefixes : List Prefix)
    → NoneClaimed claimed prefixes
    → NoneClaimed claimed (unclaimed_aggregate claimed prefixes)
unfolding unclaimed_aggregate
unclaimed_aggregate-NoneClaimed claimed prefixes h =
    unclaimed_from-NoneClaimed claimed prefixes [] (aggregate prefixes) h tt
