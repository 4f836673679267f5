-- ===== src/Routing/Beside.antt =====
-- internal/routing/tunnels.go, `TunnelPlan.Beside` and `place`: a tunnel's routes put beside those
-- that RiftRoute already routes. The sets `seen` and `taken` are lists of their keys.
pub mod Placed
pub mod Distinct
use riftroute.Base.{
  String, str_eq, if◌then◌else◌, Bool, true, false, ◌&&◌, List, [], ◌∷◌, ◌++◌, map, Option, none,
  some,
}
use riftroute.Netip.{Prefix}
use riftroute.Netip.Syntax.{Syntax}
use riftroute.Domain.{ManagedRoute}
use riftroute.Routing.Nets.{outside_tunnels}
use riftroute.Routing.Plan.{key, dst, has_key}

-- What `Beside` reads of a TunnelPlan.
pub record TunnelPlan : Type 0 where
  pub routes : List ManagedRoute
  pub nets : List Prefix

-- The keys seen, and the routes so far.
pub record Desired : Type 0 where
  pub seen : List String
  pub routes : List ManagedRoute

-- `addRoute`: a key is added once.
unfoldable pub add_route_to : Desired → ManagedRoute → Desired
add_route_to d m =
    if has_key (key m) d.seen
    then d
    else record { seen = key m ∷ d.seen; routes = d.routes ++ m ∷ [] }

-- The second loop of `place`, and `place`.
unfoldable pub place_from : List String → Desired → List ManagedRoute → Desired
unfolding add_route_to
place_from taken d [] = d
place_from taken d (r ∷ rs) =
    let skipped = place_from taken d rs in
    let added = place_from (dst r ∷ taken) (add_route_to d r) rs in
    if has_key (dst r) taken then skipped else added

unfoldable pub place : TunnelPlan → Desired → Desired
unfolding place_from
place tp d = place_from (map dst d.routes) d tp.routes

-- A route of the main table whose destination lies inside a live tunnel's networks.
unfoldable pub yields : Syntax → TunnelPlan → ManagedRoute → Bool
yields syntax tp o = elim (syntax.parse_prefix o.route.dst_cidr) [
  | none ↦ false
  | some p ↦
      str_eq o.route.table ""
      && elim (outside_tunnels (p ∷ []) tp.nets) [ [] ↦ true | q ∷ qs ↦ false ]
]

-- The loop of `Beside` over the other routes.
unfoldable pub keep_others : Syntax → TunnelPlan → Desired → List ManagedRoute → Desired
unfolding add_route_to yields
keep_others syntax tp d [] = d
keep_others syntax tp d (o ∷ os) =
    let yielded = keep_others syntax tp d os in
    let kept = keep_others syntax tp (add_route_to d o) os in
    if yields syntax tp o then yielded else kept

-- `Beside`.
unfoldable pub beside : Syntax → TunnelPlan → List ManagedRoute → List ManagedRoute
unfolding keep_others place
beside syntax tp others =
    (place tp (keep_others syntax tp (record { seen = []; routes = [] }) others)).routes
