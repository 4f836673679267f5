-- ===== src/Safety/Executor/Atomic.antt =====
-- `Apply` is atomic, and `RunOps` of the inverse undoes it, for a provider whose operations can be
-- undone where the plan uses them.
use riftroute.Base.{
  List, [], ◌∷◌, none, ◌≡◌, ◌≢◌, refl, sym, ap, ◌∙◌, inl, inr, Option-cases, arith,
}
use riftroute.Domain.{PlanOp, Plan}
use riftroute.Routing.Plan.{invert, invert_op}
use riftroute.Safety.Executor.{
  RouteProvider, inverse_op, do_op, rollback, apply_from, apply, or_else, run_ops,
}
use riftroute.Safety.Executor.Complete.{
  apply_from-next, apply_from-stop, invert_op-done, run_ops-append,
}

module _ {S : Type 0} (prov : RouteProvider S) where
  -- From this state, the operation is undone by its inverse if it succeeds, and changes nothing if it
  -- fails.
  pub record Undoes (op : PlanOp) (s : S) : Type 0 where
    pub undone :
        (do_op prov op s).1 ≡ none → do_op prov (inverse_op op) (do_op prov op s).0 ≡ (s, none)
    pub unharmed : (do_op prov op s).1 ≢ none → (do_op prov op s).0 ≡ s

  -- So it is for every operation, from the state that it is run on.
  abbrev pub AllUndo : List PlanOp → S → Type 0
  AllUndo [] s = Unit
  AllUndo (op ∷ ops) s = Undoes op s × AllUndo ops (do_op prov op s).0

  apply_from-restores :
      (applied ops : List PlanOp) (s start : S)
      → AllUndo ops s
      → rollback prov applied s ≡ start
      → (apply_from prov applied ops s).1 ≢ none
      → (apply_from prov applied ops s).0 ≡ start
  unfolding rollback apply_from
  apply_from-restores applied [] s start u b e = elim (e refl) [ ]
  apply_from-restores applied (op ∷ ops) s start u b e = elim (Option-cases (do_op prov op s).1) [
    | inl n ↦
        let next = apply_from-next prov applied op ops s n in
        let back = ap (λ r. rollback prov applied r.0) (u.0.undone n) ∙ b in
        ap (λ r. r.0) next
        ∙ apply_from-restores (op ∷ applied) ops (do_op prov op s).0 start u.1 back
            (λ q. e (ap (λ r. r.1) next ∙ q))
    | inr (cause, n) ↦
        ap (λ r. r.0) (apply_from-stop prov applied op ops s cause n)
        ∙ ap (rollback prov applied) (u.0.unharmed (λ q. ground arith))
        ∙ b
  ]

  -- `Apply` is atomic: for any plan each of whose operations, from the state it is run on, is undone
  -- by its inverse if it succeeds and changes nothing if it fails, an `Apply` that returns an error
  -- leaves the state it started from.
  pub apply-atomic :
      (plan : Plan) (s : S)
      → AllUndo plan.ops s
      → (apply prov plan s).1 ≢ none
      → (apply prov plan s).0 ≡ s
  unfolding apply rollback
  apply-atomic plan s u e = apply_from-restores [] plan.ops s s u refl e

  run_ops-undone :
      (applied ops : List PlanOp) (s : S)
      → AllUndo ops s
      → (apply_from prov applied ops s).1 ≡ none
      → run_ops prov (invert ops) (apply_from prov applied ops s).0 ≡ (s, none)
  unfolding run_ops invert apply_from
  run_ops-undone applied [] s u e = refl
  run_ops-undone applied (op ∷ ops) s u e = elim (Option-cases (do_op prov op s).1) [
    | inr (cause, n) ↦
        let no = ap (λ r. r.1) (apply_from-stop prov applied op ops s cause n) in ground arith
    | inl n ↦
        let next = apply_from-next prov applied op ops s n in
        let last = (apply_from prov applied (op ∷ ops) s).0 in
        let ih =
          run_ops-undone (op ∷ applied) ops (do_op prov op s).0 u.1
            (sym (ap (λ r. r.1) next) ∙ e) in
        let ran = ap (λ r. run_ops prov (invert ops) r.0) next ∙ ih in
        run_ops-append prov (invert ops) (invert_op op) last
        ∙ ap
            (λ r. (
              (run_ops prov (invert_op op) r.0).0,
              or_else r.1 (run_ops prov (invert_op op) r.0).1,
            ))
            ran
        ∙ ap
            (λ (l : List PlanOp).
              ((run_ops prov l (do_op prov op s).0).0, (run_ops prov l (do_op prov op s).0).1))
            (invert_op-done prov op s n)
        ∙ ap (λ r. (r.0, or_else r.1 none)) (u.0.undone n)
  ]

  -- The precomputed rollback undoes an apply: for any plan each of whose operations, from the state it
  -- is run on, is undone by its inverse if it succeeds and changes nothing if it fails, and whose
  -- `Apply` returns no error, `RunOps` of the operations' inverse returns no error and leaves the
  -- state that the `Apply` started from.
  pub run_ops-apply :
      (plan : Plan) (s : S)
      → AllUndo plan.ops s
      → (apply prov plan s).1 ≡ none
      → run_ops prov (invert plan.ops) (apply prov plan s).0 ≡ (s, none)
  unfolding apply
  run_ops-apply plan s u e = run_ops-undone [] plan.ops s u e
