-- ===== src/Routing/Plan/Crash.antt =====
-- A plan of `Reconcile` that is cut off part way, and its inverse replayed in full, as
-- `RecoverPending` of internal/safety/apply.go does after a crash.
use riftroute.Base.{
  String, str_eq, List, [], ◌∷◌, ◌++◌, Option, none, some, select-append, ◌≡◌, refl, sym, ap, ◌∙◌,
  inl, inr, Bool-cases,
}
use riftroute.Domain.{ManagedRoute, ManagedRule, PlanOp, Plan, add_route, del_route}
use riftroute.Routing.Plan.{key, make_route_op, invert, invert_op, reconcile}
use riftroute.Routing.Plan.Shape.{find_dst, op_at, ops_at, IsDistinct, AllPlain}
use riftroute.Routing.Plan.Outcome.{expected, ops_at-reconcile}
use riftroute.Routing.Plan.Kernel.{Kernel, table_of, kernel_step, kernel_run}
use riftroute.Routing.Plan.Converge.{kernel_run_at, ops_at-invert, Goes, Goes-find_dst, inverse_eq}

-- The operations done at one destination when the run is cut off: none, one, or both.
module _ (d : String) (k : Kernel) where
  undo_one :
      (op : PlanOp) (done rest : List PlanOp) (o : Option ManagedRoute)
      → kernel_run (invert (op ∷ [])) k d ≡ o
      → kernel_run (invert (op ∷ [])) (kernel_step op k) d ≡ o
      → done ++ rest ≡ op ∷ []
      → kernel_run (invert (op ∷ [])) (kernel_run done k) d ≡ o
  unfolding kernel_run
  undo_one op [] rest o a b e = a
  undo_one op (x ∷ []) rest o a b e =
      let same : x ≡ op = cc in
      ap (λ (y : PlanOp). kernel_run (invert (op ∷ [])) (kernel_step y k) d) same ∙ b
  undo_one op (x ∷ y ∷ done) rest o a b e = cc

  undo_two :
      (op op' : PlanOp) (done rest : List PlanOp) (o : Option ManagedRoute)
      → kernel_run (invert (op ∷ op' ∷ [])) k d ≡ o
      → kernel_run (invert (op ∷ op' ∷ [])) (kernel_step op k) d ≡ o
      → kernel_run (invert (op ∷ op' ∷ [])) (kernel_step op' (kernel_step op k)) d ≡ o
      → done ++ rest ≡ op ∷ op' ∷ []
      → kernel_run (invert (op ∷ op' ∷ [])) (kernel_run done k) d ≡ o
  unfolding kernel_run
  undo_two op op' [] rest o a b c e = a
  undo_two op op' (x ∷ []) rest o a b c e =
      let same : x ≡ op = cc in
      ap (λ (y : PlanOp). kernel_run (invert (op ∷ op' ∷ [])) (kernel_step y k) d) same ∙ b
  undo_two op op' (x ∷ y ∷ []) rest o a b c e =
      let same : x ≡ op = cc in
      let same' : y ≡ op' = cc in
      ap (λ (y : PlanOp). kernel_run (invert (op ∷ op' ∷ [])) (kernel_step y (kernel_step x k)) d)
        same'
      ∙ ap
          (λ (x : PlanOp).
            kernel_run (invert (op ∷ op' ∷ [])) (kernel_step op' (kernel_step x k)) d)
          same
      ∙ c
  undo_two op op' (x ∷ y ∷ z ∷ done) rest o a b c e = cc

  -- Whatever part of what has to be done at d was done, the inverse of all of it restores d.
  undo_part :
      (o q : Option ManagedRoute) (done rest : List PlanOp)
      → k d ≡ o
      → Goes d o
      → Goes d q
      → done ++ rest ≡ expected o q
      → kernel_run (invert (expected o q)) (kernel_run done k) d ≡ o
  unfolding kernel_run kernel_step invert invert_op
  undo_part none none [] rest e go gq h = e
  undo_part none none (x ∷ done) rest e go gq h = cc
  undo_part none (some x) done rest e go gq h =
      undo_one (make_route_op add_route x) done rest none (rw (gq)) (rw (gq)) h
  undo_part (some a) none done rest e go gq h =
      undo_one (make_route_op del_route a) done rest (some a) (rw (go, e)) (rw (go)) h
  undo_part (some a) (some x) done rest e go gq h = elim (Bool-cases (str_eq (key a) (key x))) [
    | inl y ↦ rw y (nothing done (h ∙ rw y refl))
    | inr n ↦ rw n (
        undo_two (make_route_op del_route a) (make_route_op add_route x) done rest (some a)
          (rw (go, gq)) (rw (go, gq)) (rw (go, gq)) (h ∙ rw n refl))
  ]
    where
      nothing :
          (done : List PlanOp) → done ++ rest ≡ [] → kernel_run [] (kernel_run done k) d ≡ some a
      nothing [] h = e
      nothing (x ∷ done) h = cc

module _ (desired actual : List ManagedRoute) (desired_rules actual_rules : List ManagedRule)
    (pd : AllPlain desired) (pa : AllPlain actual) (ud : IsDistinct desired)
    (ua : IsDistinct actual) where
  abbrev plan : Plan
  plan = reconcile desired actual desired_rules actual_rules

  -- For desired and actual routes with at most one route to each destination, whose destination
  -- fields hold no separator, and an apply cut off after any number of the plan's operations on a
  -- kernel that held the actual routes: the plan's whole inverse, run on what is there, leaves at
  -- every destination the very route that was there before, and none where there was none.
  pub kernel_run-crash :
      (d : String) (done rest : List PlanOp)
      → plan.ops ≡ done ++ rest
      → kernel_run plan.inverse (kernel_run done (table_of actual)) d ≡ find_dst d actual
  kernel_run-crash d done rest e =
      let o = find_dst d actual in
      let q = find_dst d desired in
      let part = kernel_run (ops_at d done) (table_of actual) in
      let ops_eq = ops_at-reconcile d desired actual pd pa ud ua desired_rules actual_rules in
      ap (λ (ops : List PlanOp). kernel_run ops (kernel_run done (table_of actual)) d)
        (inverse_eq desired actual desired_rules actual_rules pd pa ud ua)
      ∙ kernel_run_at d (invert plan.ops) (kernel_run done (table_of actual)) part
          (kernel_run_at d done (table_of actual) (table_of actual) refl)
      ∙ ap (λ (ops : List PlanOp). kernel_run ops part d)
          (ops_at-invert d plan.ops ∙ ap invert ops_eq)
      ∙ undo_part d (table_of actual) o q (ops_at d done) (ops_at d rest) refl
          (Goes-find_dst d actual) (Goes-find_dst d desired)
          (sym (select-append (op_at d) done rest) ∙ ap (ops_at d) (sym e) ∙ ops_eq)
