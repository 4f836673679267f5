-- ===== src/Safety/Executor/Complete.antt =====
-- What the executor's loops do, for any provider: every operation, and on an error every inverse.
use mathlib.Core.Path.{subst}
use riftroute.Base.{
  ◌+◌, List, [], ◌∷◌, ◌++◌, Option, none, some, length, ◌≡◌, refl, sym, ap, ◌∙◌, arith, inl, inr,
  Option-cases,
}
use riftroute.Domain.{
  ManagedRoute, ManagedRule, OpKind, add_route, del_route, add_rule, del_rule, other, PlanOp, Plan,
}
use riftroute.Routing.Plan.{invert, invert_op}
use riftroute.Safety.Executor.{
  RouteProvider, OpError, ApplyError, inverse_kind, inverse_op, do_op, rollback, apply_from, apply,
  or_else, run_ops,
}

or_else_assoc : (x y z : Option OpError) → or_else x (or_else y z) ≡ or_else (or_else x y) z
or_else_assoc none y z = refl
or_else_assoc (some x) y z = refl

-- The newest first.
abbrev pub rev_onto : List PlanOp → List PlanOp → List PlanOp
rev_onto [] applied = applied
rev_onto (op ∷ ops) applied = rev_onto ops (op ∷ applied)

module _ {S : Type 0} (prov : RouteProvider S) where
  -- For any provider, two lists of operations and any state: run as one list, the second starts from
  -- the state that the first leaves, whatever failed in it, and the error is the first list's, or the
  -- second's if the first has none.
  pub run_ops-append :
      (xs ys : List PlanOp) (s : S)
      → run_ops prov (xs ++ ys) s ≡ (
        (run_ops prov ys (run_ops prov xs s).0).0,
        or_else (run_ops prov xs s).1 (run_ops prov ys (run_ops prov xs s).0).1,
      )
  unfolding run_ops
  run_ops-append [] ys s = refl
  run_ops-append (x ∷ xs) ys s =
      let ih = run_ops-append xs ys (do_op prov x s).0 in
      λ i. (
        (ih i).0,
        (ap (or_else (do_op prov x s).1) (ap (λ r. r.1) ih)
              ∙ or_else_assoc (do_op prov x s).1 (run_ops prov xs (do_op prov x s).0).1 _)
            i,
      )

  -- An operation that succeeds is of a known kind, and so undone by one operation.
  undone_by_one :
      (kind : OpKind) (route : Option ManagedRoute) (rule : Option ManagedRule) (s : S)
      → (do_op prov (record { kind = kind; route = route; rule = rule }) s).1 ≡ none
      → invert_op (record { kind = kind; route = route; rule = rule })
        ≡ record { kind = inverse_kind kind; route = route; rule = rule } ∷ []
  unfolding do_op invert_op
  undone_by_one add_route r p s e = refl
  undone_by_one del_route r p s e = refl
  undone_by_one add_rule r p s e = refl
  undone_by_one del_rule r p s e = refl
  undone_by_one (other k) r p s e = cc

  pub invert_op-done :
      (op : PlanOp) (s : S) → (do_op prov op s).1 ≡ none → invert_op op ≡ inverse_op op ∷ []
  invert_op-done op s e = undone_by_one op.kind op.route op.rule s e

  run_ops-first :
      (op : PlanOp) (ops : List PlanOp) (s : S)
      → (run_ops prov (op ∷ ops) s).1 ≡ none
      → (do_op prov op s).1 ≡ none
  unfolding run_ops
  run_ops-first op ops s e = elim (Option-cases (do_op prov op s).1) [
    | inl n ↦ n
    | inr (err, n) ↦ ground arith
  ]

  run_ops-rest :
      (op : PlanOp) (ops : List PlanOp) (s : S)
      → (run_ops prov (op ∷ ops) s).1 ≡ none
      → (run_ops prov ops (do_op prov op s).0).1 ≡ none
  unfolding run_ops
  run_ops-rest op ops s e = elim (Option-cases (do_op prov op s).1) [
    | inl n ↦ ground arith
    | inr (err, n) ↦ ground arith
  ]

  run_ops-cons :
      (op : PlanOp) (ops : List PlanOp) (s : S)
      → (do_op prov op s).1 ≡ none
      → run_ops prov (op ∷ ops) s ≡ run_ops prov ops (do_op prov op s).0
  unfolding run_ops
  run_ops-cons op ops s e = rw e refl

  run_ops-invert_op :
      (op : PlanOp) (s t : S)
      → (do_op prov op s).1 ≡ none
      → (run_ops prov (invert_op op) t).0 ≡ (do_op prov (inverse_op op) t).0
  unfolding run_ops
  run_ops-invert_op op s t e = rw (invert_op-done op s e) refl

  -- Rolling back what succeeded is running its inverse, as `invert` computes it.
  pub rollback-rev_onto :
      (done applied : List PlanOp) (s t : S)
      → (run_ops prov done s).1 ≡ none
      → rollback prov (rev_onto done applied) t
        ≡ rollback prov applied (run_ops prov (invert done) t).0
  unfolding rollback invert run_ops
  rollback-rev_onto [] applied s t e = refl
  rollback-rev_onto (op ∷ done) applied s t e =
      let first = run_ops-first op done s e in
      let undone = (run_ops prov (invert done) t).0 in
      rollback-rev_onto done (op ∷ applied) (do_op prov op s).0 t (run_ops-rest op done s e)
      ∙ ap (rollback prov applied) (
          sym (
            ap (λ r. r.0) (run_ops-append (invert done) (invert_op op) t)
            ∙ run_ops-invert_op op s undone first))

  -- What `Apply` did when it returned `err` and left the state `last`.
  record Failure (ops applied : List PlanOp) (s last : S) (err : ApplyError) : Type 0 where
    pub done : List PlanOp
    pub rest : List PlanOp
    pub split : ops ≡ done ++ err.op ∷ rest
    pub succeeded : (run_ops prov done s).1 ≡ none
    pub failed : (do_op prov err.op (run_ops prov done s).0).1 ≡ some err.cause
    pub count : err.rolled_back ≡ length applied + length done
    pub state :
        last ≡ rollback prov (rev_onto done applied) (do_op prov err.op (run_ops prov done s).0).0

  pub record RolledBack (ops : List PlanOp) (s last : S) (err : ApplyError) : Type 0 where
    pub done : List PlanOp
    pub rest : List PlanOp
    pub split : ops ≡ done ++ err.op ∷ rest
    pub succeeded : (run_ops prov done s).1 ≡ none
    pub failed : (do_op prov err.op (run_ops prov done s).0).1 ≡ some err.cause
    pub count : err.rolled_back ≡ length done
    pub state : last ≡ (run_ops prov (invert done) (do_op prov err.op (run_ops prov done s).0).0).0

  Failure-later :
      (op : PlanOp) (ops applied : List PlanOp) (s last : S) (err : ApplyError)
      → (do_op prov op s).1 ≡ none
      → Failure ops (op ∷ applied) (do_op prov op s).0 last err
      → Failure (op ∷ ops) applied s last err
  Failure-later op ops applied s last err e f =
      let same = run_ops-cons op f.done s e in
      record {
        done = op ∷ f.done;
        rest = f.rest;
        split = ap (◌∷◌ op) f.split;
        succeeded = rw same f.succeeded;
        failed = rw same f.failed;
        count = omega (arith, f.count);
        state = rw same f.state;
      }

  pub apply_from-next :
      (applied : List PlanOp) (op : PlanOp) (ops : List PlanOp) (s : S)
      → (do_op prov op s).1 ≡ none
      → apply_from prov applied (op ∷ ops) s
        ≡ apply_from prov (op ∷ applied) ops (do_op prov op s).0
  unfolding apply_from
  apply_from-next applied op ops s e = rw (apply_from, e) refl

  pub apply_from-stop :
      (applied : List PlanOp) (op : PlanOp) (ops : List PlanOp) (s : S) (cause : OpError)
      → (do_op prov op s).1 ≡ some cause
      → apply_from prov applied (op ∷ ops) s ≡ (
        rollback prov applied (do_op prov op s).0,
        some (record { op = op; rolled_back = length applied; cause = cause }),
      )
  unfolding apply_from
  apply_from-stop applied op ops s cause e = rw (apply_from, e) refl

  -- Nothing is said of a run that returns no error.
  abbrev Failed : List PlanOp → List PlanOp → S → S × Option ApplyError → Type 0
  Failed ops applied s r = elim r.1 [ none ↦ Unit | some err ↦ Failure ops applied s r.0 err ]

  Failed-later :
      (op : PlanOp) (ops applied : List PlanOp) (s : S) (r : S × Option ApplyError)
      → (do_op prov op s).1 ≡ none
      → Failed ops (op ∷ applied) (do_op prov op s).0 r
      → Failed (op ∷ ops) applied s r
  Failed-later op ops applied s (last, none) e f = tt
  Failed-later op ops applied s (last, some err) e f = Failure-later op ops applied s last err e f

  apply_from-Failed :
      (applied ops : List PlanOp) (s : S) → Failed ops applied s (apply_from prov applied ops s)
  unfolding run_ops apply_from
  apply_from-Failed applied [] s = tt
  apply_from-Failed applied (op ∷ ops) s = elim (Option-cases (do_op prov op s).1) [
    | inl n ↦ subst (Failed (op ∷ ops) applied s) (sym (apply_from-next applied op ops s n)) (
        Failed-later op ops applied s _ n
          (apply_from-Failed (op ∷ applied) ops (do_op prov op s).0))
    | inr (cause, n) ↦
        subst (Failed (op ∷ ops) applied s) (sym (apply_from-stop applied op ops s cause n))
          (record {
            done = [];
            rest = ops;
            split = refl;
            succeeded = refl;
            failed = n;
            count = omega arith;
            state = refl;
          })
  ]

  from_Failed :
      (ops : List PlanOp) (s : S) (r : S × Option ApplyError) (err : ApplyError)
      → r.1 ≡ some err
      → Failed ops [] s r
      → Failure ops [] s r.0 err
  from_Failed ops s (last, none) err e f = cc
  from_Failed ops s (last, some x) err e f =
      let same : x ≡ err = cc in subst (Failure ops [] s last) same f

  -- For any plan whose `Apply` returns an error, the error names an operation of the plan: those
  -- before it had succeeded, it failed on the state they left, and the state returned is the one that
  -- their inverse, as `invert` computes it, leaves when run after it; the error counts them.
  pub apply_failed :
      (plan : Plan) (s : S) (err : ApplyError)
      → (apply prov plan s).1 ≡ some err
      → RolledBack plan.ops s (apply prov plan s).0 err
  unfolding apply rollback
  apply_failed plan s err e =
      let f = from_Failed plan.ops s _ err e (apply_from-Failed [] plan.ops s) in
      record {
        done = f.done;
        rest = f.rest;
        split = f.split;
        succeeded = f.succeeded;
        failed = f.failed;
        count = omega (arith, f.count);
        state = f.state ∙ rollback-rev_onto f.done [] s _ f.succeeded ∙ rollback_none _;
      }
    where
      rollback_none : (t : S) → rollback prov [] t ≡ t
      rollback_none t = refl
