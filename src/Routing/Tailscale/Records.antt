-- ===== src/Routing/Tailscale/Records.antt =====
-- internal/routing/engine.go, `BesideTailscale`, and internal/store/store.go, `AddOwned`: a route and
-- its copy have one row.
use riftroute.Base.{List, some, ◌≡◌, refl, ◌∙◌}
use riftroute.Domain.{ManagedRoute}
use riftroute.Routing.Tailscale.{bypass_of}
use riftroute.Store.{same_row, upsert_owned}
use riftroute.Store.Rows.{find_row, find_row-upsert_owned, same_row_refl}

same_row-bypass_of : (m : ManagedRoute) → same_row (bypass_of m) m ≡ same_row m m
unfolding same_row bypass_of
same_row-bypass_of m = refl

same_row_copy : (m : ManagedRoute) → same_row m (bypass_of m) ≡ same_row m m
unfolding same_row bypass_of
same_row_copy m = refl

-- For any route and any records: once the route and its copy in the bypass table are both recorded as
-- owned, in that order, the row of the route holds the copy only; recorded the other way round, it
-- holds the route only.
pub upsert_owned-bypass_of :
    (m : ManagedRoute) (os : List ManagedRoute)
    → (find_row m (upsert_owned (bypass_of m) (upsert_owned m os)) ≡ some (bypass_of m))
      × (find_row (bypass_of m) (upsert_owned m (upsert_owned (bypass_of m) os)) ≡ some m)
upsert_owned-bypass_of m os =
    let same = same_row-bypass_of m ∙ same_row_refl m in
    (
      find_row-upsert_owned (bypass_of m) m (upsert_owned m os) ∙ rw same refl,
      find_row-upsert_owned m (bypass_of m) (upsert_owned (bypass_of m) os)
          ∙ rw (same_row_copy m ∙ same_row_refl m) refl,
    )
