-- ===== src/Routing/Aggregate/Disjoint.antt =====
-- The aggregated prefixes are disjoint: no address lies in two of them.
use riftroute.Base.{
  ℕ, zero, suc, ◌+◌, ◌-◌, ◌≤◌, leb, if◌then◌else◌, true, false, ◌&&◌, List, [], ◌∷◌, ◌++◌, ◌≡◌,
  refl, sym, ◌∙◌, inl, inr, arith, length, All, All-append, Bool-cases, bool_eq_refl, ◌<◌, leb→le,
}
use riftroute.Netip.{Addr, Prefix, addr, prefix_from, masked, contains}
use riftroute.Netip.Blocks.{
  IsMasked, Inside, contains→Inside, Inside→contains, Inside-nested, Inside-value, parent,
}
use riftroute.Netip.Siblings.{halves_apart, contains-parent_halves}
use riftroute.Routing.Aggregate.{
  less, insert_sorted, sort_prefixes, covered_by, drop_covered, siblings, merge_pass, merge_once,
  merge_all, normalized, aggregate,
}
use riftroute.Routing.Aggregate.Order.{IsSorted, IsSorted-Below, sort_prefixes-IsSorted}
use riftroute.Routing.Aggregate.Coverage.{
  AllMasked, unmerged, unmerged-AllMasked, merge_once-AllMasked, sort_prefixes-AllMasked,
  normalized-AllMasked,
}

-- How many prefixes of a set contain the address.
abbrev pub hits : List Prefix → Addr → ℕ
hits [] a = 0
hits (p ∷ ps) a = (if contains p a then 1 else 0) + hits ps a

hits-append : (ps qs : List Prefix) (a : Addr) → hits (ps ++ qs) a ≡ hits ps a + hits qs a
hits-append [] qs a = omega arith
hits-append (p ∷ ps) qs a = omega (arith, hits-append ps qs a)

hits-insert_sorted :
    (p : Prefix) (ps : List Prefix) (a : Addr) → hits (insert_sorted p ps) a ≡ hits (p ∷ ps) a
unfolding insert_sorted
hits-insert_sorted p [] a = refl
hits-insert_sorted p (q ∷ qs) a = ground (arith, hits-insert_sorted p qs a)

hits-sort_prefixes : (ps : List Prefix) (a : Addr) → hits (sort_prefixes ps) a ≡ hits ps a
unfolding sort_prefixes
hits-sort_prefixes [] a = refl
hits-sort_prefixes (p ∷ ps) a =
    omega (arith, hits-insert_sorted p (sort_prefixes ps) a, hits-sort_prefixes ps a)

less_of_le : (p q : Prefix) → p.is4 ≡ q.is4 → p.value ≤ q.value → p.bits < q.bits → less p q ≡ true
unfolding less
less_of_le p q f v b = ground (arith, bool_eq_refl p.is4)

-- A prefix that comes later in the order and that q does not cover shares no address with q.
apart :
    (p q : Prefix) (a : Addr)
    → IsMasked p
    → less p q ≡ false
    → (leb q.bits p.bits && contains q (addr p)) ≡ false
    → Inside p a
    → Inside q a
    → ⊥
apart p q a mp order uncovered hp hq = elim (Bool-cases (leb q.bits p.bits)) [
  | inl le ↦ ground (arith, Inside→contains q (addr p) (Inside-nested (leb→le _ _ le) hq hp))
  | inr gt ↦ ground (
    arith,
    less_of_le p q (hp.family ∙ sym hq.family)
        (Inside-value {a = addr q} mp (Inside-nested {p = q} {q = p} {a = a} (ground arith) hp hq))
        (ground arith),
  )
]

-- No kept prefix meets a later one that none of them covers.
hits-covered_by :
    (kept : List Prefix) (p : Prefix) (a : Addr)
    → IsMasked p
    → All (λ q. less p q ≡ false) kept
    → covered_by kept p ≡ false
    → contains p a ≡ true
    → hits kept a ≡ 0
unfolding covered_by
hits-covered_by [] p a mp order un hp = refl
hits-covered_by (q ∷ qs) p a mp order un hp = elim (Bool-cases (contains q a)) [
  | inl e ↦
      absurd
        (apart p q a mp order.0 (ground arith) (contains→Inside p a hp) (contains→Inside q a e))
  | inr e ↦ rw e (omega (arith, hits-covered_by qs p a mp order.1 (ground arith) hp))
]

-- Every prefix of the second list comes no earlier than every one of the first.
abbrev After : List Prefix → List Prefix → Type 0
After kept [] = Unit {0}
After kept (p ∷ ps) = All (λ q. less p q ≡ false) kept × After kept ps

After-nil : (ps : List Prefix) → After [] ps
After-nil [] = tt
After-nil (p ∷ ps) = (tt, After-nil ps)

After-append :
    (kept ps : List Prefix) (p : Prefix)
    → After kept ps
    → All (λ r. less r p ≡ false) ps
    → After (kept ++ p ∷ []) ps
After-append kept [] p h k = tt
After-append kept (r ∷ rs) p h k = (
  All-append (λ (q : Prefix). less r q ≡ false) kept (p ∷ []) h.0 (k.0, tt),
  After-append kept rs p h.1 k.1,
)

hits-drop_covered :
    (kept ps : List Prefix) (a : Addr)
    → hits kept a ≤ 1
    → After kept ps
    → IsSorted ps
    → AllMasked ps
    → hits (drop_covered kept ps) a ≤ 1
unfolding drop_covered
hits-drop_covered kept [] a h after sorted m = h
hits-drop_covered kept (p ∷ ps) a h after sorted m = elim (Bool-cases (covered_by kept p)) [
  | inl e ↦ rw e (hits-drop_covered kept ps a h after.1 sorted.1 m.1)
  | inr e ↦ rw e (
      hits-drop_covered (kept ++ p ∷ []) ps a
        (ground (arith, hits-append kept (p ∷ []) a, hits-covered_by kept p a m.0 after.0 e))
        (After-append kept ps p after.1 (IsSorted-Below p ps sorted.0 sorted.1)) sorted.1 m.1)
]

-- A merge keeps the count: the parent contains what one of its halves does, and the halves are apart.
hits-siblings :
    (p q : Prefix) (a : Addr)
    → IsMasked p
    → IsMasked q
    → siblings p q ≡ true
    → hits (masked (prefix_from (addr p) (p.bits - 1)) ∷ []) a ≡ hits (p ∷ q ∷ []) a
unfolding siblings parent
hits-siblings p q a mp mq h = ground (
  arith,
  contains-parent_halves p q mp mq (ground arith) (ground arith) (ground arith) (ground arith) a,
  halves_apart p q mp mq (ground arith) (ground arith) (ground arith) (ground arith) a,
)

hits-merge_pass :
    (ps : List Prefix) (a : Addr) → AllMasked ps → hits (merge_pass ps).0 a ≡ hits ps a
unfolding merge_pass
hits-merge_pass [] a m = refl
hits-merge_pass (p ∷ []) a m = refl
hits-merge_pass (p ∷ q ∷ rest) a m = elim (Bool-cases (siblings p q)) [
  | inl e ↦ rw e (omega (arith, hits-siblings p q a m.0 m.1.0 e, hits-merge_pass rest a m.1.1))
  | inr e ↦ rw e (omega (arith, hits-merge_pass (q ∷ rest) a m.1))
]

hits-merge_all :
    (fuel : ℕ) (ps : List Prefix) (a : Addr) → AllMasked ps → hits (merge_all fuel ps) a ≡ hits ps a
unfolding merge_all merge_once
hits-merge_all zero ps a m = refl
hits-merge_all (suc fuel) ps a m = ground (
  arith,
  hits-sort_prefixes ps a,
  hits-merge_pass (sort_prefixes ps) a (sort_prefixes-AllMasked ps m),
  hits-merge_all fuel (merge_once ps).0 a (merge_once-AllMasked ps m),
)

-- For any set of prefixes and any address, at most one of the aggregated prefixes holds the address.
pub hits-aggregate-le : (ps : List Prefix) (a : Addr) → hits (aggregate ps) a ≤ 1
unfolding aggregate
hits-aggregate-le ps a = omega (
  arith,
  hits-merge_all (suc (length (unmerged ps))) (unmerged ps) a (unmerged-AllMasked ps),
  hits-drop_covered [] (sort_prefixes (normalized ps)) a (omega arith) (After-nil _)
      (sort_prefixes-IsSorted (normalized ps))
      (sort_prefixes-AllMasked (normalized ps) (normalized-AllMasked ps)),
)
