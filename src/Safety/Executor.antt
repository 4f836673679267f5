-- ===== src/Safety/Executor.antt =====
-- internal/safety/executor.go: plan operations applied through a provider, as one unit.
pub mod Atomic
pub mod Complete
use riftroute.Base.{
  ℕ, String, if◌then◌else◌, Bool, true, false, List, [], ◌∷◌, ◌++◌, Option, none, some, length,
}
use riftroute.Domain.{
  ManagedRoute, ManagedRule, OpKind, add_route, del_route, add_rule, del_rule, other, PlanOp, Plan,
}

-- What changes the kernel in `RouteProvider` (internal/provider/provider.go), over the kernel's state.
-- An operation that fails may still have changed it.
pub record RouteProvider (S : Type 0) : Type 0 where
  pub add_route : ManagedRoute → S → S × Option String
  pub del_route : ManagedRoute → S → S × Option String
  pub add_rule : ManagedRule → S → S × Option String
  pub del_rule : ManagedRule → S → S × Option String

-- The errors of `do`; the texts are left to the display.
pub data OpError : Type 0 where
  missing_route missing_rule : OpKind → OpError
  unknown_kind : String → OpError
  provider_error : String → OpError

-- The error of `Apply`: the operation that failed, how many were rolled back, and why.
pub record ApplyError : Type 0 where
  pub op : PlanOp
  pub rolled_back : ℕ
  pub cause : OpError

abbrev pub inverse_kind : OpKind → OpKind
inverse_kind add_route = del_route
inverse_kind del_route = add_route
inverse_kind add_rule = del_rule
inverse_kind del_rule = add_rule
inverse_kind (other k) = other k

-- `inverseOp`.
abbrev pub inverse_op : PlanOp → PlanOp
inverse_op op = record op { kind = inverse_kind op.kind }

-- The first of two errors.
abbrev pub or_else : Option OpError → Option OpError → Option OpError
or_else none later = later
or_else (some first) later = some first

-- The states of the kernel, and the provider.
module _ {S : Type 0} (prov : RouteProvider S) where
  wrap : S × Option String → S × Option OpError
  wrap (s, none) = (s, none)
  wrap (s, some e) = (s, some (provider_error e))

  on_route :
      OpKind → (ManagedRoute → S → S × Option String) → Option ManagedRoute → S → S × Option OpError
  unfolding wrap
  on_route kind call none s = (s, some (missing_route kind))
  on_route kind call (some m) s = wrap (call m s)

  on_rule :
      OpKind → (ManagedRule → S → S × Option String) → Option ManagedRule → S → S × Option OpError
  unfolding wrap
  on_rule kind call none s = (s, some (missing_rule kind))
  on_rule kind call (some m) s = wrap (call m s)

  -- `do`.
  unfoldable pub do_op : PlanOp → S → S × Option OpError
  unfolding on_route on_rule
  do_op op s = elim op.kind [
    | add_route ↦ on_route add_route prov.add_route op.route s
    | del_route ↦ on_route del_route prov.del_route op.route s
    | add_rule ↦ on_rule add_rule prov.add_rule op.rule s
    | del_rule ↦ on_rule del_rule prov.del_rule op.rule s
    | other k ↦ (s, some (unknown_kind k))
  ]

  -- `rollback`, of the operations with the newest first: every error is passed over.
  unfoldable pub rollback : List PlanOp → S → S
  rollback [] s = s
  rollback (op ∷ applied) s = rollback applied (do_op (inverse_op op) s).0

  -- The loop of `Apply`; `applied` holds the newest operation first.
  unfoldable pub apply_from : List PlanOp → List PlanOp → S → S × Option ApplyError
  unfolding rollback
  apply_from applied [] s = (s, none)
  apply_from applied (op ∷ ops) s =
      let (s', e) = do_op op s in
      let rest = apply_from (op ∷ applied) ops s' in
      elim e [
        | none ↦ rest
        | some cause ↦ (
          rollback applied s',
          some (record { op = op; rolled_back = length applied; cause = cause }),
        )
      ]

  -- `Apply`.
  unfoldable pub apply : Plan → S → S × Option ApplyError
  unfolding apply_from
  apply plan s = apply_from [] plan.ops s

  -- `RunOps`: all operations, and the first error.
  unfoldable pub run_ops : List PlanOp → S → S × Option OpError
  run_ops [] s = (s, none)
  run_ops (op ∷ ops) s =
      let (s', e) = do_op op s in let (last, later) = run_ops ops s' in (last, or_else e later)
