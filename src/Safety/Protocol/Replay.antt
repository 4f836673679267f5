-- ===== src/Safety/Protocol/Replay.antt =====
-- internal/safety/apply.go: replaying a transaction's inverse, and what is written beside it.
use riftroute.Base.{
  String, str_eq, if◌then◌else◌, Bool, false, not, ◌&&◌, List, [], ◌∷◌, ◌++◌, map, Option, none,
  some, select,
}
use riftroute.Domain.{ManagedRoute, add_route, del_route, add_rule, del_rule, other, PlanOp, Plan}
use riftroute.Routing.Verify.{is_tunnel_route}
use riftroute.Safety.Executor.{OpError, do_op, inverse_op}
use riftroute.Safety.Protocol.{PendingTx, Env}
use riftroute.Store.{Db, add_owned, del_owned, append_audit}

-- A re-add of a tunnel's on-link route, and `withoutTunnelLinks`.
unfoldable pub is_link : ManagedRoute → Bool
is_link m = str_eq m.route.gateway "" && (not m.route.reject && is_tunnel_route m)

abbrev pub adds_link : PlanOp → Bool
adds_link op = elim op.kind [
  | add_route ↦ elim op.route [ none ↦ false | some m ↦ is_link m ]
  | del_route ↦ false
  | add_rule ↦ false
  | del_rule ↦ false
  | other k ↦ false
]

unfoldable pub without_tunnel_links : List PlanOp → List PlanOp
without_tunnel_links ops = select (λ op. not (adds_link op)) ops

-- What `rollBack` returns beside the error: the operations that failed, in the order they were tried.
pub record Replay (K P : Type 0) : Type 0 where
  pub kernel : K
  pub db : Db P
  pub left : List PlanOp
  pub error : Option OpError

-- `left`: what failed, as a plan of its own.
abbrev pub rev : List PlanOp → List PlanOp
rev [] = []
rev (op ∷ ops) = rev ops ++ op ∷ []

unfoldable pub left_plan : List PlanOp → Plan
left_plan left = record { ops = map inverse_op (rev left); inverse = left }

module _ {K P : Type 0} (env : Env K) where
  -- `recordOwnership`.
  unfoldable pub record_ownership : PlanOp → Db P → Db P
  record_ownership op db = elim op.route [
    | none ↦ db
    | some m ↦ elim op.kind [
      | add_route ↦ (add_owned env.fail m db).0
      | del_route ↦ (del_owned env.fail m db).0
      | add_rule ↦ db
      | del_rule ↦ db
      | other k ↦ db
    ]
  ]

  unfoldable pub record_all : List PlanOp → Db P → Db P
  unfolding record_ownership
  record_all [] db = db
  record_all (op ∷ ops) db = record_all ops (record_ownership op db)

  -- `applyOwnership`.
  unfoldable pub apply_ownership : Plan → Bool → Db P → Db P
  unfolding record_all
  apply_ownership plan undo db = record_all (if undo then map inverse_op plan.ops else plan.ops) db

  -- The loop of `rollBack`.
  unfoldable pub replay : Bool → List PlanOp → K → Db P → Replay K P
  unfolding record_ownership
  replay ownership [] k db = record { kernel = k; db = db; left = []; error = none }
  replay ownership (op ∷ ops) k db =
      let (k', e) = do_op env.prov op k in
      let gone = replay ownership ops k' (if ownership then record_ownership op db else db) in
      let stuck = replay ownership ops k' db in
      elim e [
        | none ↦ gone
        | some cause ↦ record stuck { left = op ∷ stuck.left; error = some cause }
      ]

  -- `audit`.
  unfoldable pub audit :
      String → String → String → String → Option Plan → Bool → List String → Db P → Db P
  audit actor action result reason plan undone codes db =
      append_audit env.fail
        (record {
          actor = actor;
          action = action;
          result = result;
          reason = reason;
          plan = plan;
          rollback = undone;
          codes = codes;
        })
        db

  unfoldable pub roll_back : {R : Type 0} → PendingTx R → K → Db P → Replay K P
  unfolding replay without_tunnel_links
  roll_back pt k db = replay pt.ownership (without_tunnel_links pt.plan.inverse) k db
