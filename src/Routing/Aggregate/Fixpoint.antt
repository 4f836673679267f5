-- ===== src/Routing/Aggregate/Fixpoint.antt =====
-- The merging loop of `Aggregate` ends by its own test: nothing is left to merge.
use riftroute.Base.{
  ℕ, zero, suc, ◌≤◌, ◌<◌, true, false, List, [], ◌∷◌, ◌≡◌, refl, ap, ◌∙◌, inl, inr, arith, length,
  Bool-cases,
}
use riftroute.Netip.{Prefix}
use riftroute.Routing.Aggregate.{
  insert_sorted, sort_prefixes, merge_pass, merge_once, merge_all, aggregate,
}
use riftroute.Routing.Aggregate.Coverage.{unmerged}
use riftroute.Routing.Aggregate.Order.{sort_prefixes-IsSorted, sort_prefixes_sorted}

length-insert_sorted :
    (p : Prefix) (ps : List Prefix) → length (insert_sorted p ps) ≡ suc (length ps)
unfolding insert_sorted
length-insert_sorted p [] = refl
length-insert_sorted p (q ∷ qs) = ground (arith, length-insert_sorted p qs)

length-sort_prefixes : (ps : List Prefix) → length (sort_prefixes ps) ≡ length ps
unfolding sort_prefixes
length-sort_prefixes [] = refl
length-sort_prefixes (p ∷ ps) =
    length-insert_sorted p (sort_prefixes ps) ∙ ap suc (length-sort_prefixes ps)

-- A pass never grows the list, and shrinks it when it reports a change.
length-merge_pass : (ps : List Prefix) → length (merge_pass ps).0 ≤ length ps
unfolding merge_pass
length-merge_pass [] = omega arith
length-merge_pass (p ∷ []) = omega arith
length-merge_pass (p ∷ q ∷ rest) =
    ground (arith, length-merge_pass rest, length-merge_pass (q ∷ rest))

merge_pass_shrinks :
    (ps : List Prefix) → (merge_pass ps).1 ≡ true → length (merge_pass ps).0 < length ps
unfolding merge_pass
merge_pass_shrinks [] h = cc
merge_pass_shrinks (p ∷ []) h = cc
merge_pass_shrinks (p ∷ q ∷ rest) h =
    ground (arith, length-merge_pass rest, merge_pass_shrinks (q ∷ rest))

merge_once_shrinks :
    (ps : List Prefix) → (merge_once ps).1 ≡ true → length (merge_once ps).0 < length ps
unfolding merge_once
merge_once_shrinks ps h =
    omega (arith, merge_pass_shrinks (sort_prefixes ps) h, length-sort_prefixes ps)

merge_pass_unchanged : (ps : List Prefix) → (merge_pass ps).1 ≡ false → (merge_pass ps).0 ≡ ps
unfolding merge_pass
merge_pass_unchanged [] h = refl
merge_pass_unchanged (p ∷ []) h = refl
merge_pass_unchanged (p ∷ q ∷ rest) h = ground (arith, merge_pass_unchanged (q ∷ rest))

-- A round that changes nothing has sorted the list, and another round changes nothing again.
merge_once_stable :
    (ps : List Prefix)
    → (merge_once ps).1 ≡ false
    → merge_once (merge_once ps).0 ≡ ((merge_once ps).0, false)
unfolding merge_once
merge_once_stable ps h =
    rw
      (
        merge_pass_unchanged (sort_prefixes ps) h,
        sort_prefixes_sorted (sort_prefixes ps) (sort_prefixes-IsSorted ps),
      )
      (ground (arith, merge_pass_unchanged (sort_prefixes ps) h))

merge_all_done :
    (fuel : ℕ) (ps : List Prefix)
    → length ps < fuel
    → merge_once (merge_all fuel ps) ≡ (merge_all fuel ps, false)
unfolding merge_all
merge_all_done zero ps h = absurd (omega arith)
merge_all_done (suc fuel) ps h = elim (Bool-cases (merge_once ps).1) [
  | inl e ↦ rw e (merge_all_done fuel (merge_once ps).0 (omega (arith, merge_once_shrinks ps e)))
  | inr e ↦ rw e (merge_once_stable ps e)
]

-- The loop of `Aggregate` ends because a round of `mergeOnce` changes nothing, and not for want of
-- fuel: another round on its result returns that result, and reports no change.
pub merge_once-aggregate : (ps : List Prefix) → merge_once (aggregate ps) ≡ (aggregate ps, false)
unfolding aggregate
merge_once-aggregate ps = merge_all_done (suc (length (unmerged ps))) (unmerged ps) (omega arith)
