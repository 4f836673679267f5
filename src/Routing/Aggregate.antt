-- ===== src/Routing/Aggregate.antt =====
-- internal/routing/aggregate.go: reducing a set of prefixes to a smaller one for the kernel table.
pub mod Coverage
pub mod Fixpoint
pub mod Order
pub mod Within
pub mod Disjoint
use riftroute.Base.{
  ℕ, zero, suc, ◌-◌, ltb, leb, ◌==◌, bool_eq, if◌then◌else◌, Bool, true, false, not, ◌&&◌, ◌||◌,
  List, [], ◌∷◌, ◌++◌, map, length, any, select,
}
use riftroute.Netip.{Addr, Prefix, addr, prefix_from, addr_eq, is_valid, masked, contains}

-- The comparison of `sortPrefixes`: IPv4 first, then by address, then the shorter prefix.
pub less : Prefix → Prefix → Bool
less p q =
    if not (bool_eq p.is4 q.is4)
    then p.is4
    else if not (p.value == q.value)
    then ltb p.value q.value
    else ltb p.bits q.bits

-- `sortPrefixes`. Two prefixes that neither is `less` are the same prefix, so every sorting
-- algorithm, sort.Slice's too, gives this list.
insert_sorted : Prefix → List Prefix → List Prefix
insert_sorted p [] = p ∷ []
insert_sorted p (q ∷ qs) = if less q p then q ∷ insert_sorted p qs else p ∷ q ∷ qs

unfoldable pub sort_prefixes : List Prefix → List Prefix
unfolding insert_sorted less
sort_prefixes [] = []
sort_prefixes (p ∷ ps) = insert_sorted p (sort_prefixes ps)

-- Step 1: a prefix that a kept one covers is dropped.
covered_by : List Prefix → Prefix → Bool
covered_by kept p = any (λ q. leb q.bits p.bits && contains q (addr p)) kept

unfoldable pub drop_covered : List Prefix → List Prefix → List Prefix
unfolding covered_by
drop_covered kept [] = kept
drop_covered kept (p ∷ ps) = drop_covered (if covered_by kept p then kept else kept ++ p ∷ []) ps

-- Whether `mergeOnce` replaces p and the next prefix q by p's parent.
unfoldable pub siblings : Prefix → Prefix → Bool
siblings p q =
    ltb 0 p.bits
    && (p.bits == q.bits
        && (let parent = masked (prefix_from (addr p) (p.bits - 1)) in
            contains parent (addr p)
            && (contains parent (addr q) && not (addr_eq (addr p) (addr q)))))

-- The loop of `mergeOnce` over the sorted slice. The index steps over both halves of a merged pair
-- (`used`), so the loop is a walk along the list: after a merge it goes on behind q, else at q.
unfoldable pub merge_pass : List Prefix → List Prefix × Bool
merge_pass [] = ([], false)
merge_pass (p ∷ []) = (p ∷ [], false)
merge_pass (p ∷ q ∷ rest) =
    let merged = merge_pass rest in
    let kept = merge_pass (q ∷ rest) in
    if siblings p q
    then (masked (prefix_from (addr p) (p.bits - 1)) ∷ merged.0, true)
    else (p ∷ kept.0, kept.1)

unfoldable pub merge_once : List Prefix → List Prefix × Bool
unfolding sort_prefixes merge_pass siblings
merge_once ps = merge_pass (sort_prefixes ps)

-- Step 2: `mergeOnce` until nothing changes, on fuel.
unfoldable pub merge_all : ℕ → List Prefix → List Prefix
unfolding merge_once
merge_all zero kept = kept
merge_all (suc fuel) kept =
    let step = merge_once kept in
    let rest = merge_all fuel step.0 in if step.1 then rest else step.0

-- What the first loop of `Aggregate` keeps: the valid prefixes, masked.
unfoldable pub normalized : List Prefix → List Prefix
normalized ps = map masked (select (λ p. is_valid p) ps)

-- Each round that changes something merges two prefixes into one, so one round more than there are
-- prefixes is enough fuel (`Fixpoint`).
unfoldable pub aggregate : List Prefix → List Prefix
unfolding normalized sort_prefixes drop_covered merge_all
aggregate prefixes =
    let kept = drop_covered [] (sort_prefixes (normalized prefixes)) in
    merge_all (suc (length kept)) kept
