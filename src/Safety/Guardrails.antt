-- ===== src/Safety/Guardrails.antt =====
-- internal/safety/guardrails.go, `checkGuardrails`: what refuses an apply.
pub mod Routes
pub mod Hops
pub mod Safe
use riftroute.Base.{
  String, str_eq, ◌<>◌, if◌then◌else◌, Bool, true, false, not, ◌&&◌, ◌||◌, List, [], ◌∷◌, ◌++◌, map,
  Option, none, some, any, select,
}
use riftroute.Netip.{Addr, contains}
use riftroute.Netip.Syntax.{Syntax}
use riftroute.Domain.{
  Route, ManagedRoute, RouteDecision, OpKind, add_route, del_route, add_rule, del_rule, other,
  PlanOp, Plan,
}
use riftroute.Routing.Plan.{key, dst, has_key}

-- The violations, by their `Rule`; `Detail` is printed from what each holds.
pub data Violation : Type 0 where
  gateway_unresolved : Violation
  gateway_capture : String → Addr → Violation
  bad_gateway unreachable_next_hop next_hop_via_vpn : String → Violation
  conflicting_route : String → String → String → Violation
  ssh_peer : Addr → Violation

-- What `checkGuardrails` is given beside the desired routes: the syntax, the provider's LookupRoute
-- (`none` for an error), the plan, the physical gateway and the SSH session's peer, if valid.
pub record Guard : Type 0 where
  pub syntax : Syntax
  pub lookup : Addr → Option RouteDecision
  pub plan : Option Plan
  pub phys_gw : Option Addr
  pub peer : Option Addr

-- The keys that the plan adds, and the routes that it changes.
abbrev pub added : List PlanOp → List String
added [] = []
added (op ∷ ops) =
    let rest = added ops in
    elim op.route [
      | none ↦ rest
      | some m ↦ elim op.kind [
        | add_route ↦ key m ∷ rest
        | del_route ↦ rest
        | add_rule ↦ rest
        | del_rule ↦ rest
        | other k ↦ rest
      ]
    ]

abbrev pub op_routes : List PlanOp → List ManagedRoute
op_routes [] = []
op_routes (op ∷ ops) = let rest = op_routes ops in elim op.route [ none ↦ rest | some m ↦ m ∷ rest ]

unfoldable pub vetted : Guard → ManagedRoute → Bool
vetted g d = elim g.plan [ none ↦ true | some p ↦ has_key (key d) (added p.ops) ]

unfoldable pub changes : Guard → List ManagedRoute → List ManagedRoute
changes g all = elim g.plan [ none ↦ all | some p ↦ op_routes p.ops ]

abbrev pub in_main : ManagedRoute → Bool
in_main d = str_eq d.route.table ""

-- Rule 0: an unreadable gateway refuses every change of the main table.
unfoldable pub unresolved : Guard → List ManagedRoute → List Violation
unfolding changes
unresolved g all = elim g.phys_gw [
  | some gw ↦ []
  | none ↦ if any in_main (changes g all) then gateway_unresolved ∷ [] else []
]

-- Rules 1 and 3: a main-table route whose destination holds the address.
unfoldable pub captures : Syntax → Addr → ManagedRoute → Bool
captures syntax ip d =
    in_main d
    && elim (syntax.parse_prefix d.route.dst_cidr) [ none ↦ false | some p ↦ contains p ip ]

unfoldable pub captured : Guard → List ManagedRoute → List Violation
unfolding captures
captured g desired = elim g.phys_gw [
  | none ↦ []
  | some gw ↦ map (λ d. gateway_capture d.route.dst_cidr gw) (select (captures g.syntax gw) desired)
]

unfoldable pub cut_off : Guard → List ManagedRoute → List Violation
unfolding captures
cut_off g desired = elim g.peer [
  | none ↦ []
  | some ip ↦ map (λ d. ssh_peer ip) (select (captures g.syntax ip) desired)
]

-- Rule 2: the loop over the next hops, each gateway checked once.
unfoldable pub hop_violation : Guard → String → List Violation
hop_violation g gateway = elim (g.syntax.parse_addr gateway) [
  | none ↦ bad_gateway gateway ∷ []
  | some gw ↦ elim (g.lookup gw) [
    | none ↦ []
    | some dec ↦
        if not dec.reachable
        then unreachable_next_hop gateway ∷ []
        else if dec.via_vpn
        then next_hop_via_vpn gateway ∷ []
        else []
  ]
]

unfoldable pub next_hops : Guard → List String → List ManagedRoute → List Violation
unfolding hop_violation
next_hops g checked [] = []
next_hops g checked (d ∷ ds) =
    let gateway = d.route.gateway in
    let skipped = next_hops g checked ds in
    let rest = next_hops g (gateway ∷ checked) ds in
    if not (in_main d)
    then skipped
    else if str_eq gateway "" || has_key gateway checked
    then skipped
    else hop_violation g gateway ++ rest

-- Rule 2b: the local type `hop`, and the map `nextHop`, a function of its key.
pub record Hop : Type 0 where
  pub nh : String
  pub vetted : Bool

abbrev pub hop_of : Route → String
hop_of r = if r.reject then "reject" else r.gateway <> "|" <> r.iface

unfoldable pub conflicts :
    (ManagedRoute → Bool) → (String → Option Hop) → List ManagedRoute → List Violation
conflicts vet hops [] = []
conflicts vet hops (d ∷ ds) =
    let nh = hop_of d.route in
    let put = λ (h : Hop) (k : String). if str_eq k (dst d) then some h else hops k in
    let fresh = conflicts vet (put (record { nh = nh; vetted = vet d })) ds in
    elim (hops (dst d)) [
      | none ↦ fresh
      | some prev ↦
          let same = conflicts vet hops ds in
          let joined = conflicts vet (put (record prev { vetted = prev.vetted || vet d })) ds in
          if not (str_eq prev.nh nh) && (prev.vetted || vet d)
          then conflicting_route d.route.dst_cidr prev.nh nh ∷ same
          else joined
    ]

-- `checkGuardrails`.
unfoldable pub check_guardrails : Guard → List ManagedRoute → List Violation
unfolding vetted unresolved captured next_hops conflicts cut_off
check_guardrails g all =
    let desired = select (vetted g) all in
    unresolved g all
    ++ (captured g desired
        ++ (next_hops g [] desired ++ (conflicts (vetted g) (λ k. none) all ++ cut_off g desired)))
