-- ===== src/Routing/Unclaimed.antt =====
-- internal/routing/tunnels.go, `unclaimedAggregate`: a tunnel's destinations, aggregated unless
-- something else routes the aggregate. The map `taken` is read as a test on prefixes.
pub mod Listed
use riftroute.Base.{leb, if◌then◌else◌, Bool, true, false, ◌&&◌, List, [], ◌∷◌, ◌++◌, any, select}
use riftroute.Netip.{Prefix, addr, prefix_eq, contains}
use riftroute.Routing.Aggregate.{aggregate}

-- What goes in for one aggregate: itself, or the listed prefixes inside it.
unfoldable pub parts_of : (Prefix → Bool) → List Prefix → Prefix → List Prefix
parts_of claimed prefixes agg =
    if claimed agg
    then select (λ p. leb agg.bits p.bits && contains agg (addr p)) prefixes
    else agg ∷ []

-- The inner loop: the set `seen` holds what is in `out`.
unfoldable pub add_new : List Prefix → List Prefix → List Prefix
unfolding prefix_eq
add_new out [] = out
add_new out (p ∷ ps) =
    let added = add_new (out ++ p ∷ []) ps in
    let skipped = add_new out ps in if any (prefix_eq p) out then skipped else added

unfoldable pub unclaimed_from :
    (Prefix → Bool) → List Prefix → List Prefix → List Prefix → List Prefix
unfolding parts_of add_new
unclaimed_from claimed prefixes out [] = out
unclaimed_from claimed prefixes out (agg ∷ aggs) =
    unclaimed_from claimed prefixes (add_new out (parts_of claimed prefixes agg)) aggs

-- `unclaimedAggregate`.
unfoldable pub unclaimed_aggregate : (Prefix → Bool) → List Prefix → List Prefix
unfolding unclaimed_from
unclaimed_aggregate claimed prefixes = unclaimed_from claimed prefixes [] (aggregate prefixes)
