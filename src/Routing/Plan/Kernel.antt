-- ===== src/Routing/Plan/Kernel.antt =====
-- The kernel's table as `Reconcile`'s comments state it: one route per destination. Adding to a
-- destination that is taken changes nothing ("File exists", which the providers take for success);
-- deleting matches by destination.
use riftroute.Base.{String, if◌then◌else◌, List, [], ◌∷◌, Option, none, some}
use riftroute.Domain.{ManagedRoute, add_route, del_route, add_rule, del_rule, other, PlanOp}
use riftroute.Routing.Plan.Shape.{at, find_dst}

-- The route to each destination, by `dstKey`.
abbrev pub Kernel : Type 0
Kernel = String → Option ManagedRoute

abbrev pub table_of : List ManagedRoute → Kernel
table_of ms d = find_dst d ms

-- One route operation at the destination of its route.
abbrev pub take : PlanOp → ManagedRoute → Option ManagedRoute → Option ManagedRoute
take op m held = elim op.kind [
  | add_route ↦ elim held [ none ↦ some m | some h ↦ some h ]
  | del_route ↦ none
  | add_rule ↦ held
  | del_rule ↦ held
  | other k ↦ held
]

abbrev pub step_at : String → PlanOp → Option ManagedRoute → Option ManagedRoute
step_at d op held = elim op.route [ none ↦ held | some m ↦ if at d m then take op m held else held ]

unfoldable pub kernel_step : PlanOp → Kernel → Kernel
kernel_step op k d = step_at d op (k d)

unfoldable pub kernel_run : List PlanOp → Kernel → Kernel
unfolding kernel_step
kernel_run [] k = k
kernel_run (op ∷ ops) k = kernel_run ops (kernel_step op k)
