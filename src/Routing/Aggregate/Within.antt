-- ===== src/Routing/Aggregate/Within.antt =====
-- Every prefix of the given set lies within one prefix of the aggregated set.
use riftroute.Base.{
  ℕ, zero, suc, ◌-◌, ◌≤◌, true, ◌||◌, List, [], ◌∷◌, ◌++◌, ◌≡◌, refl, ap, ◌∙◌, inl, inr, arith,
  length, any-append, Bool-cases, leb→le,
}
use mathlib.Core.List.{Memᴰ}
use riftroute.Netip.{Prefix, width, addr, prefix_from, is_valid, masked}
use riftroute.Netip.Blocks.{contains-masked, contains_trans, Inside-self, Inside→contains}
use riftroute.Routing.Nets.{inside, within}
use riftroute.Routing.Aggregate.{
  insert_sorted, sort_prefixes, covered_by, drop_covered, siblings, merge_pass, merge_once,
  merge_all, normalized, aggregate,
}
use riftroute.Routing.Aggregate.Coverage.{unmerged}

inside_trans : (p q r : Prefix) → inside p q ≡ true → inside q r ≡ true → inside p r ≡ true
inside_trans p q r h k =
    ground
      (arith, contains_trans q r (addr p) (leb→le _ _ (ground arith)) (ground arith) (ground arith))

within-insert_sorted :
    (p : Prefix) (qs : List Prefix) (x : Prefix)
    → within x (insert_sorted p qs) ≡ (inside x p || within x qs)
unfolding insert_sorted within
within-insert_sorted p [] x = refl
within-insert_sorted p (q ∷ qs) x = ground (arith, within-insert_sorted p qs x)

within-sort_prefixes : (ps : List Prefix) (x : Prefix) → within x (sort_prefixes ps) ≡ within x ps
unfolding sort_prefixes within
within-sort_prefixes [] x = refl
within-sort_prefixes (p ∷ ps) x =
    within-insert_sorted p (sort_prefixes ps) x
    ∙ ap (λ b. inside x p || b) (within-sort_prefixes ps x)

-- What a kept prefix covers it covers for whatever lies within.
pub within_trans :
    (x p : Prefix) (qs : List Prefix) → inside x p ≡ true → within p qs ≡ true → within x qs ≡ true
unfolding within
within_trans x p [] h k = cc
within_trans x p (q ∷ qs) h k = ground (arith, inside_trans x p q h, within_trans x p qs h)

within-append :
    (x : Prefix) (ps qs : List Prefix) → within x (ps ++ qs) ≡ (within x ps || within x qs)
unfolding within
within-append x ps qs = any-append (λ (q : Prefix). inside x q) ps qs

within-drop_covered :
    (kept ps : List Prefix) (x : Prefix)
    → (within x kept || within x ps) ≡ true
    → within x (drop_covered kept ps) ≡ true
unfolding drop_covered covered_by within
within-drop_covered kept [] x h = ground arith
within-drop_covered kept (p ∷ ps) x h = elim (Bool-cases (covered_by kept p)) [
  | inl e ↦ rw e (within-drop_covered kept ps x (ground (arith, within_trans x p kept)))
  | inr e ↦
      rw e
        (within-drop_covered (kept ++ p ∷ []) ps x (ground (arith, within-append x kept (p ∷ []))))
]

-- A merge puts the parent for its two halves, and each half lies within it.
parent_holds :
    (p q : Prefix)
    → siblings p q ≡ true
    → let up = masked (prefix_from (addr p) (p.bits - 1)) in
      (inside p up ≡ true) × (inside q up ≡ true)
unfolding siblings masked
parent_holds p q h = (ground arith, ground arith)

within-merge_pass :
    (ps : List Prefix) (x : Prefix) → within x ps ≡ true → within x (merge_pass ps).0 ≡ true
unfolding merge_pass within
within-merge_pass [] x h = h
within-merge_pass (p ∷ []) x h = h
within-merge_pass (p ∷ q ∷ rest) x h = elim (Bool-cases (siblings p q)) [
  | inl e ↦
      let up = masked (prefix_from (addr p) (p.bits - 1)) in
      let (hp, hq) = parent_holds p q e in
      rw e (
        ground (
          arith,
          λ (l : inside x p ≡ true). inside_trans x p up l hp,
          λ (l : inside x q ≡ true). inside_trans x q up l hq,
          within-merge_pass rest x,
        ))
  | inr e ↦ rw e (ground (arith, within-merge_pass (q ∷ rest) x))
]

within-merge_all :
    (fuel : ℕ) (ps : List Prefix) (x : Prefix)
    → within x ps ≡ true
    → within x (merge_all fuel ps) ≡ true
unfolding merge_all merge_once
within-merge_all zero ps x h = h
within-merge_all (suc fuel) ps x h = ground (
  arith,
  within-sort_prefixes ps x,
  within-merge_pass (sort_prefixes ps) x,
  within-merge_all fuel (merge_once ps).0 x,
)

inside_self : (p : Prefix) → p.bits ≤ width p.is4 → inside p (masked p) ≡ true
unfolding masked
inside_self p v =
    ground (arith, contains-masked p (addr p), Inside→contains p (addr p) (Inside-self p v))

within-normalized :
    (ps : List Prefix) (p : Prefix)
    → Memᴰ p ps
    → is_valid p ≡ true
    → within p (normalized ps) ≡ true
unfolding normalized within
within-normalized [] p m v = elim m [ ]
within-normalized (q ∷ ps) p (Memᴰ.head e) v =
    rw (← e, v) (ground (arith, inside_self p (leb→le _ _ v)))
within-normalized (q ∷ ps) p (Memᴰ.tail m) v = ground (arith, within-normalized ps p m v)

-- Each valid prefix of the given set lies within a single prefix of the aggregated set, as
-- `within` tests it: merging never breaks a prefix up.
pub within-aggregate :
    (ps : List Prefix) (p : Prefix) → Memᴰ p ps → is_valid p ≡ true → within p (aggregate ps) ≡ true
unfolding aggregate
within-aggregate ps p m v = within-merge_all (suc (length (unmerged ps))) (unmerged ps) p (
    within-drop_covered [] (sort_prefixes (normalized ps)) p
      (ground (arith, within-sort_prefixes (normalized ps) p, within-normalized ps p m v)))
