-- ===== src/Routing/Aggregate/Coverage.antt =====
-- What an aggregated set covers: the addresses that the given set covers, no more and no fewer.
use riftroute.Base.{
  ℕ, zero, suc, ◌-◌, Bool, true, false, ◌||◌, List, [], ◌∷◌, ◌++◌, ◌≡◌, refl, ap, ◌∙◌, inl, inr,
  arith, length, any, any-append, All, All-append, Bool-cases, leb→le,
}
use riftroute.Netip.{Addr, Prefix, addr, prefix_from, is_valid, masked, contains}
use riftroute.Netip.Blocks.{
  IsMasked, parent, masked-IsMasked, parent-IsMasked, contains-masked, contains_trans,
}
use riftroute.Netip.Siblings.{contains-parent_halves}
use riftroute.Routing.Aggregate.{
  less, insert_sorted, sort_prefixes, covered_by, drop_covered, siblings, merge_pass, merge_once,
  merge_all, normalized, aggregate,
}

-- Whether a prefix of the set contains the address.
abbrev pub covers : List Prefix → Addr → Bool
covers ps a = any (λ p. contains p a) ps

abbrev pub AllMasked : List Prefix → Type 0
AllMasked = All IsMasked

contains_invalid : (p : Prefix) (a : Addr) → is_valid p ≡ false → contains p a ≡ false
unfolding contains
contains_invalid p a h = rw h

covers-normalized : (ps : List Prefix) (a : Addr) → covers (normalized ps) a ≡ covers ps a
unfolding normalized
covers-normalized [] a = refl
covers-normalized (p ∷ ps) a =
    ground (arith, contains_invalid p a, contains-masked p a, covers-normalized ps a)

pub normalized-AllMasked : (ps : List Prefix) → AllMasked (normalized ps)
unfolding normalized
normalized-AllMasked [] = tt
normalized-AllMasked (p ∷ ps) = elim (Bool-cases (is_valid p)) [
  | inl v ↦ rw v (masked-IsMasked p (leb→le _ _ v), normalized-AllMasked ps)
  | inr v ↦ rw v (normalized-AllMasked ps)
]

covers-insert_sorted :
    (p : Prefix) (ps : List Prefix) (a : Addr)
    → covers (insert_sorted p ps) a ≡ (contains p a || covers ps a)
unfolding insert_sorted
covers-insert_sorted p [] a = refl
covers-insert_sorted p (q ∷ qs) a = ground (arith, covers-insert_sorted p qs a)

covers-sort_prefixes : (ps : List Prefix) (a : Addr) → covers (sort_prefixes ps) a ≡ covers ps a
unfolding sort_prefixes
covers-sort_prefixes [] a = refl
covers-sort_prefixes (p ∷ ps) a =
    covers-insert_sorted p (sort_prefixes ps) a
    ∙ ap (λ b. contains p a || b) (covers-sort_prefixes ps a)

insert_sorted-AllMasked :
    (p : Prefix) (ps : List Prefix) → IsMasked p → AllMasked ps → AllMasked (insert_sorted p ps)
unfolding insert_sorted
insert_sorted-AllMasked p [] h hs = (h, tt)
insert_sorted-AllMasked p (q ∷ qs) h hs = elim (Bool-cases (less q p)) [
  | inl e ↦ rw e (hs.0, insert_sorted-AllMasked p qs h hs.1)
  | inr e ↦ rw e (h, hs)
]

pub sort_prefixes-AllMasked : (ps : List Prefix) → AllMasked ps → AllMasked (sort_prefixes ps)
unfolding sort_prefixes
sort_prefixes-AllMasked [] hs = tt
sort_prefixes-AllMasked (p ∷ ps) hs =
    insert_sorted-AllMasked p (sort_prefixes ps) hs.0 (sort_prefixes-AllMasked ps hs.1)

-- A prefix that a kept one covers adds no address.
covered_by-covers :
    (kept : List Prefix) (p : Prefix) (a : Addr)
    → covered_by kept p ≡ true
    → contains p a ≡ true
    → covers kept a ≡ true
unfolding covered_by
covered_by-covers [] p a h c = cc
covered_by-covers (q ∷ qs) p a h c =
    ground (arith, leb→le q.bits p.bits, contains_trans p q a, covered_by-covers qs p a)

covers-drop_covered :
    (kept ps : List Prefix) (a : Addr)
    → covers (drop_covered kept ps) a ≡ (covers kept a || covers ps a)
unfolding drop_covered
covers-drop_covered kept [] a = ground arith
covers-drop_covered kept (p ∷ ps) a = elim (Bool-cases (covered_by kept p)) [
  | inl e ↦ rw e (ground (arith, covers-drop_covered kept ps a, covered_by-covers kept p a e))
  | inr e ↦ rw e (
      ground (
        arith,
        covers-drop_covered (kept ++ p ∷ []) ps a,
        any-append (λ (q : Prefix). contains q a) kept (p ∷ []),
      ))
]

drop_covered-AllMasked :
    (kept ps : List Prefix) → AllMasked kept → AllMasked ps → AllMasked (drop_covered kept ps)
unfolding drop_covered
drop_covered-AllMasked kept [] hk hs = hk
drop_covered-AllMasked kept (p ∷ ps) hk hs = elim (Bool-cases (covered_by kept p)) [
  | inl e ↦ rw e (drop_covered-AllMasked kept ps hk hs.1)
  | inr e ↦ rw e (
      drop_covered-AllMasked (kept ++ p ∷ []) ps (All-append IsMasked kept (p ∷ []) hk (hs.0, tt))
        hs.1)
]

-- What the test for siblings says, as the lemma on halves wants it.
siblings-halves :
    (p q : Prefix) (a : Addr)
    → IsMasked p
    → IsMasked q
    → siblings p q ≡ true
    → contains (masked (prefix_from (addr p) (p.bits - 1))) a ≡ (contains p a || contains q a)
unfolding siblings parent
siblings-halves p q a mp mq h =
    contains-parent_halves p q mp mq (ground arith) (ground arith) (ground arith) (ground arith) a

covers-merge_pass :
    (ps : List Prefix) (a : Addr) → AllMasked ps → covers (merge_pass ps).0 a ≡ covers ps a
unfolding merge_pass
covers-merge_pass [] a m = refl
covers-merge_pass (p ∷ []) a m = refl
covers-merge_pass (p ∷ q ∷ rest) a m = elim (Bool-cases (siblings p q)) [
  | inl e ↦ rw e (ground (arith, siblings-halves p q a m.0 m.1.0 e, covers-merge_pass rest a m.1.1))
  | inr e ↦ rw e (ap (λ b. contains p a || b) (covers-merge_pass (q ∷ rest) a m.1))
]

merge_pass-AllMasked : (ps : List Prefix) → AllMasked ps → AllMasked (merge_pass ps).0
unfolding merge_pass parent
merge_pass-AllMasked [] m = tt
merge_pass-AllMasked (p ∷ []) m = m
merge_pass-AllMasked (p ∷ q ∷ rest) m = elim (Bool-cases (siblings p q)) [
  | inl e ↦ rw e (parent-IsMasked p m.0, merge_pass-AllMasked rest m.1.1)
  | inr e ↦ rw e (m.0, merge_pass-AllMasked (q ∷ rest) m.1)
]

covers-merge_once :
    (ps : List Prefix) (a : Addr) → AllMasked ps → covers (merge_once ps).0 a ≡ covers ps a
unfolding merge_once
covers-merge_once ps a m =
    covers-merge_pass (sort_prefixes ps) a (sort_prefixes-AllMasked ps m)
    ∙ covers-sort_prefixes ps a

pub merge_once-AllMasked : (ps : List Prefix) → AllMasked ps → AllMasked (merge_once ps).0
unfolding merge_once
merge_once-AllMasked ps m = merge_pass-AllMasked (sort_prefixes ps) (sort_prefixes-AllMasked ps m)

covers-merge_all :
    (fuel : ℕ) (ps : List Prefix) (a : Addr)
    → AllMasked ps
    → covers (merge_all fuel ps) a ≡ covers ps a
unfolding merge_all
covers-merge_all zero ps a m = refl
covers-merge_all (suc fuel) ps a m = ground (
  arith,
  covers-merge_once ps a m,
  covers-merge_all fuel (merge_once ps).0 a (merge_once-AllMasked ps m),
)

merge_all-AllMasked : (fuel : ℕ) (ps : List Prefix) → AllMasked ps → AllMasked (merge_all fuel ps)
unfolding merge_all
merge_all-AllMasked zero ps m = m
merge_all-AllMasked (suc fuel) ps m = elim (Bool-cases (merge_once ps).1) [
  | inl e ↦ rw e (merge_all-AllMasked fuel (merge_once ps).0 (merge_once-AllMasked ps m))
  | inr e ↦ rw e (merge_once-AllMasked ps m)
]

-- What `Aggregate` merges: the normalized set, sorted, less what it covers itself.
abbrev pub unmerged : List Prefix → List Prefix
unmerged ps = drop_covered [] (sort_prefixes (normalized ps))

pub unmerged-AllMasked : (ps : List Prefix) → AllMasked (unmerged ps)
unmerged-AllMasked ps =
    drop_covered-AllMasked [] (sort_prefixes (normalized ps)) tt
      (sort_prefixes-AllMasked (normalized ps) (normalized-AllMasked ps))

-- For any set of prefixes, valid or not, and any address, the aggregated set contains the address
-- exactly when the given set does.
pub covers-aggregate : (ps : List Prefix) (a : Addr) → covers (aggregate ps) a ≡ covers ps a
unfolding aggregate
covers-aggregate ps a =
    covers-merge_all (suc (length (unmerged ps))) (unmerged ps) a (unmerged-AllMasked ps)
    ∙ covers-drop_covered [] (sort_prefixes (normalized ps)) a
    ∙ covers-sort_prefixes (normalized ps) a
    ∙ covers-normalized ps a

pub aggregate-AllMasked : (ps : List Prefix) → AllMasked (aggregate ps)
unfolding aggregate
aggregate-AllMasked ps =
    merge_all-AllMasked (suc (length (unmerged ps))) (unmerged ps) (unmerged-AllMasked ps)
