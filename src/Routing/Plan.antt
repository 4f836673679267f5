-- ===== src/Routing/Plan.antt =====
-- internal/routing/engine.go, `Reconcile`: the plan that takes the actual routes and rules to the
-- desired ones, and its inverse. The maps by key and by destination are lookups in the lists that
-- they index; the set `replaced` is the list of its keys.
pub mod Shape
pub mod At
pub mod Outcome
pub mod Kernel
pub mod Converge
pub mod Crash
use riftroute.Base.{
  String, str_eq, if◌then◌else◌, Bool, true, false, not, ◌&&◌, List, [], ◌∷◌, ◌++◌, map, Option,
  none, some, any, select,
}
use riftroute.Domain.{
  Route, ManagedRoute, ManagedRule, OpKind, add_route, del_route, add_rule, del_rule, other, PlanOp,
  Plan,
}
use riftroute.Routing.Keys.{dst_key, route_key, rule_key}

abbrev pub key : ManagedRoute → String
key m = route_key m.route

abbrev pub dst : ManagedRoute → String
dst m = dst_key m.route

-- `makeRouteOp` and `makeRuleOp`, without the display fields.
abbrev pub make_route_op : OpKind → ManagedRoute → PlanOp
make_route_op kind m = record { kind = kind; route = some m; rule = none }

abbrev pub make_rule_op : OpKind → ManagedRule → PlanOp
make_rule_op kind m = record { kind = kind; route = none; rule = some m }

-- Membership in `indexRoutes` and `indexRules`.
abbrev pub has_key : String → List String → Bool
has_key k ks = any (λ j. str_eq k j) ks

abbrev pub has_route : List ManagedRoute → ManagedRoute → Bool
has_route rs m = has_key (key m) (map key rs)

abbrev pub has_rule : List ManagedRule → ManagedRule → Bool
has_rule rs m = has_key (rule_key m.rule) (map (λ r. rule_key r.rule) rs)

-- The actual routes that are not desired, and `byDst`: those of them to one destination.
abbrev pub stale : List ManagedRoute → List ManagedRoute → List ManagedRoute
stale desired actual = select (λ a. not (has_route desired a)) actual

abbrev pub by_dst : List ManagedRoute → String → List ManagedRoute
by_dst rs d = select (λ a. str_eq (dst a) d) rs

-- The inner loop: an old route to the destination is deleted once.
unfoldable pub replace_olds : List ManagedRoute → List String → List PlanOp × List String
replace_olds [] replaced = ([], replaced)
replace_olds (old ∷ olds) replaced =
    let skipped = replace_olds olds replaced in
    let marked = replace_olds olds (key old ∷ replaced) in
    if has_key (key old) replaced
    then skipped
    else (make_route_op del_route old ∷ marked.0, marked.1)

-- The loop over the desired routes: each that is missing is added, its predecessors deleted first.
unfoldable pub route_adds :
    List ManagedRoute
    → List ManagedRoute
    → List ManagedRoute
    → List String
    → List PlanOp × List String
unfolding replace_olds
route_adds actual old [] replaced = ([], replaced)
route_adds actual old (d ∷ ds) replaced =
    let (dels, replaced') = replace_olds (by_dst old (dst d)) replaced in
    let skipped = route_adds actual old ds replaced in
    let rest = route_adds actual old ds replaced' in
    if has_route actual d then skipped else (dels ++ make_route_op add_route d ∷ rest.0, rest.1)

unfoldable pub route_dels : List ManagedRoute → List ManagedRoute → List String → List PlanOp
route_dels desired actual replaced =
    map (make_route_op del_route)
      (select (λ a. not (has_route desired a) && not (has_key (key a) replaced)) actual)

unfoldable pub rule_adds : List ManagedRule → List ManagedRule → List PlanOp
rule_adds desired actual =
    map (make_rule_op add_rule) (select (λ d. not (has_rule actual d)) desired)

unfoldable pub rule_dels : List ManagedRule → List ManagedRule → List PlanOp
rule_dels desired actual =
    map (make_rule_op del_rule) (select (λ a. not (has_rule desired a)) actual)

-- `invert`: the operations in reverse, each undone. One of another kind is left out. A plan's
-- operations are those of `make_route_op` and `make_rule_op`, which carry a route or a rule.
unfoldable pub invert_op : PlanOp → List PlanOp
invert_op op = elim op.kind [
  | add_route ↦ record op { kind = del_route } ∷ []
  | del_route ↦ record op { kind = add_route } ∷ []
  | add_rule ↦ record op { kind = del_rule } ∷ []
  | del_rule ↦ record op { kind = add_rule } ∷ []
  | other k ↦ []
]

unfoldable pub invert : List PlanOp → List PlanOp
unfolding invert_op
invert [] = []
invert (op ∷ ops) = invert ops ++ invert_op op

-- `Reconcile`.
unfoldable pub reconcile :
    List ManagedRoute → List ManagedRoute → List ManagedRule → List ManagedRule → Plan
unfolding route_adds route_dels rule_adds rule_dels invert
reconcile desired actual desired_rules actual_rules =
    let (adds, replaced) = route_adds actual (stale desired actual) desired [] in
    let ops =
      adds
      ++ (rule_adds desired_rules actual_rules
          ++ (rule_dels desired_rules actual_rules ++ route_dels desired actual replaced)) in
    record { ops = ops; inverse = invert ops }

-- `ReplaceRoutePlan` and `DeleteRoutePlan`.
abbrev unmanaged : Route → ManagedRoute
unmanaged r = record { route = r; profile_id = ""; created_at = 0 }

unfoldable pub delete_route_plan : Route → Plan
unfolding invert
delete_route_plan r =
    let ops = make_route_op del_route (unmanaged r) ∷ [] in
    record { ops = ops; inverse = invert ops }

unfoldable pub replace_route_plan : Route → Route → Plan
unfolding invert
replace_route_plan old updated =
    let ops =
      make_route_op del_route (unmanaged old) ∷ make_route_op add_route (unmanaged updated) ∷ [] in
    record { ops = ops; inverse = invert ops }
