-- ===== src/Core/Yielded.antt =====
-- internal/core/yielded.go: what gave way to the tunnels, and how it is put back.
pub mod Restored
use riftroute.Base.{
  String, str_eq, if◌then◌else◌, Bool, true, false, not, ◌&&◌, List, [], ◌∷◌, ◌++◌, map, select,
  any,
}
use riftroute.Netip.Syntax.{Syntax}
use riftroute.Domain.{ManagedRoute, ManagedRule}
use riftroute.Routing.Keys.{rule_key}
use riftroute.Routing.Plan.{key, has_key}
use riftroute.Routing.Beside.{TunnelPlan, Desired, add_route_to}
use riftroute.Routing.RulesBeside.{Rules, add_rules, rules_beside}

-- `yieldedRule` and `yielded`.
pub record YieldedRule : Type 0 where
  pub rule : ManagedRule
  pub pieces : List ManagedRule

pub record Yielded : Type 0 where
  pub routes : List ManagedRoute
  pub rules : List YieldedRule

-- `putBackRoutes`: the map `have` and the routes, a yielded route added once.
unfoldable pub put_routes : List String → List ManagedRoute → List ManagedRoute → List ManagedRoute
put_routes have routes [] = routes
put_routes have routes (r ∷ rs) =
    let added = put_routes (key r ∷ have) (routes ++ r ∷ []) rs in
    let skipped = put_routes have routes rs in if has_key (key r) have then skipped else added

unfoldable pub put_back_routes : Yielded → List ManagedRoute → List ManagedRoute
unfolding put_routes
put_back_routes y routes = put_routes (map key routes) routes y.routes

-- The map `piece` of `putBackRules`.
abbrev pub is_piece : List YieldedRule → String → Bool
is_piece ys k = any (λ y. has_key k (map (λ (p : ManagedRule). rule_key p.rule) y.pieces)) ys

-- `putBackRules`: both loops add a rule once; the first leaves the pieces out.
unfoldable pub put_back_rules : Yielded → List ManagedRule → List ManagedRule
unfolding add_rules
put_back_rules y rules = elim y.rules [
  | [] ↦ rules
  | z ∷ zs ↦
      let whole = select (λ r. not (is_piece (z ∷ zs) (rule_key r.rule))) rules in
      let kept = add_rules (record { seen = []; out = [] }) whole in
      (add_rules kept (map (λ (z : YieldedRule). z.rule) (z ∷ zs))).out
]

-- The loops of `yieldedTo`: a profile's routes that were not placed, and the rules that were cut.
abbrev pub gave_way : List ManagedRoute → ManagedRoute → Bool
gave_way placed r = not (has_key (key r) (map key placed)) && not (str_eq r.profile_id "")

abbrev pub is_whole : ManagedRule → List ManagedRule → Bool
is_whole r [] = false
is_whole r (p ∷ []) = str_eq (rule_key p.rule) (rule_key r.rule)
is_whole r (p ∷ q ∷ ps) = false

unfoldable pub cut_rules : Syntax → TunnelPlan → List ManagedRule → List YieldedRule
cut_rules syntax tp [] = []
cut_rules syntax tp (r ∷ rs) =
    let parts = rules_beside syntax tp.nets (r ∷ []) in
    let rest = cut_rules syntax tp rs in
    if is_whole r parts then rest else record { rule = r; pieces = parts } ∷ rest

-- `yieldedTo`.
unfoldable pub yielded_to :
    Syntax → TunnelPlan → List ManagedRoute → List ManagedRule → List ManagedRoute → Yielded
unfolding cut_rules
yielded_to syntax tp routes rules placed = record {
  routes = select (gave_way placed) routes;
  rules = cut_rules syntax tp rules;
}
