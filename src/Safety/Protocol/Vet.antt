-- ===== src/Safety/Protocol/Vet.antt =====
-- internal/safety/apply.go, `checkPlanGuardrails`: what refuses a hand-built plan.
use riftroute.Base.{
  ◌==◌, str_eq, if◌then◌else◌, Bool, true, false, List, [], ◌∷◌, ◌++◌, Option, none, some,
}
use riftroute.Netip.{Prefix}
use riftroute.Netip.Syntax.{Syntax}
use riftroute.Domain.{
  Family, family_v4, family_v6, add_route, del_route, add_rule, del_rule, other, PlanOp, Plan,
}
use riftroute.Safety.Guardrails.{Violation}

pub data VetViolation : Type 0 where
  of_desired : Violation → VetViolation
  keep_default_route : Family → VetViolation

-- Whether a removed default of each family is pending, the map `removed`.
pub record Removed : Type 0 where
  pub v4 : Bool
  pub v6 : Bool

abbrev pub mark : Prefix → Bool → Removed → Removed
mark p b r = if p.is4 then record r { v4 = b } else record r { v6 = b }

-- The main-table default that an operation's route is, if it is one.
unfoldable pub default_of : Syntax → PlanOp → Option Prefix
default_of syntax op = elim op.route [
  | none ↦ none
  | some m ↦
      let parsed : Option Prefix = elim (syntax.parse_prefix m.route.dst_cidr) [
        | none ↦ none
        | some p ↦ if p.bits == 0 then some p else none
      ] in
      if str_eq m.route.table "" then parsed else none
]

unfoldable pub removes : Syntax → PlanOp → Removed → Removed
unfolding default_of
removes syntax op r = elim (default_of syntax op) [
  | none ↦ r
  | some p ↦ elim op.kind [
    | del_route ↦ mark p true r
    | add_route ↦ mark p false r
    | add_rule ↦ r
    | del_rule ↦ r
    | other k ↦ r
  ]
]

unfoldable pub removed_by : Syntax → List PlanOp → Removed → Removed
unfolding removes
removed_by syntax [] r = r
removed_by syntax (op ∷ ops) r = removed_by syntax ops (removes syntax op r)

-- The violations; the map's order is not kept.
unfoldable pub check_plan_guardrails : Syntax → Plan → List VetViolation
unfolding removed_by
check_plan_guardrails syntax plan =
    let r = removed_by syntax plan.ops (record { v4 = false; v6 = false }) in
    (if r.v4 then keep_default_route family_v4 ∷ [] else [])
    ++ (if r.v6 then keep_default_route family_v6 ∷ [] else [])
