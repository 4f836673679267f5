-- ===== src/Routing/Plan/Converge.antt =====
-- What the plan of `Reconcile` does to the kernel's table, and what its inverse undoes.
use mathlib.Core.List.{append-nil}
use mathlib.Core.Option
use riftroute.Base.{
  String, str_eq, str_eq_iff, if◌then◌else◌, true, false, List, [], ◌∷◌, Option, none, some,
  select-append, ◌≡◌, refl, ap, ◌∙◌, inl, inr, arith, Bool-cases,
}
use riftroute.Domain.{ManagedRoute, ManagedRule, PlanOp, Plan}
use riftroute.Routing.Plan.{key, invert, invert_op, reconcile}
use riftroute.Routing.Plan.Shape.{at, find_dst, op_at, ops_at, IsDistinct, AllPlain}
use riftroute.Routing.Plan.Outcome.{expected, ops_at-reconcile}
use riftroute.Routing.Plan.Kernel.{Kernel, table_of, step_at, kernel_step, kernel_run}

step_at_skip :
    (d : String) (op : PlanOp) (held : Option ManagedRoute)
    → op_at d op ≡ false
    → step_at d op held ≡ held
step_at_skip d op held n = ground arith

-- What a run does at d depends on what is there and on the operations at d.
pub kernel_run_at :
    (d : String) (ops : List PlanOp) (k j : Kernel)
    → k d ≡ j d
    → kernel_run ops k d ≡ kernel_run (ops_at d ops) j d
unfolding kernel_run
kernel_run_at d [] k j e = e
kernel_run_at d (op ∷ ops) k j e = elim (Bool-cases (op_at d op)) [
  | inl y ↦ rw y (kernel_run_at d ops (kernel_step op k) (kernel_step op j) (ap (step_at d op) e))
  | inr n ↦ rw n (kernel_run_at d ops (kernel_step op k) j (step_at_skip d op (k d) n ∙ e))
]

ops_at-invert_op :
    (d : String) (op : PlanOp) → ops_at d (invert_op op) ≡ (if op_at d op then invert_op op else [])
unfolding invert_op
ops_at-invert_op d op = ground arith

pub ops_at-invert : (d : String) (ops : List PlanOp) → ops_at d (invert ops) ≡ invert (ops_at d ops)
unfolding invert
ops_at-invert d [] = refl
ops_at-invert d (op ∷ ops) =
    select-append (op_at d) (invert ops) (invert_op op)
    ∙ ground (arith, ops_at-invert d ops, ops_at-invert_op d op, append-nil (invert (ops_at d ops)))

-- The route to d, if there is one, goes to d.
abbrev pub Goes : String → Option ManagedRoute → Type 0
Goes d none = Unit
Goes d (some m) = at d m ≡ true

pub Goes-find_dst : (d : String) (ms : List ManagedRoute) → Goes d (find_dst d ms)
Goes-find_dst d [] = tt
Goes-find_dst d (m ∷ ms) = elim (Bool-cases (at d m)) [
  | inl y ↦ rw y y
  | inr n ↦ rw n (Goes-find_dst d ms)
]

run_expected :
    (d : String) (o q : Option ManagedRoute) (k : Kernel)
    → k d ≡ o
    → Goes d o
    → Goes d q
    → Option.map key (kernel_run (expected o q) k d) ≡ Option.map key q
unfolding kernel_run
run_expected d none none k e go gq = rw e
run_expected d none (some x) k e go gq = rw (gq, e)
run_expected d (some a) none k e go gq = rw go
run_expected d (some a) (some x) k e go gq = elim (Bool-cases (str_eq (key a) (key x))) [
  | inl y ↦ rw (y, e) (ap some ((str_eq_iff (key a) (key x)).0 y))
  | inr n ↦ rw (n, go, gq)
]

undo_expected :
    (d : String) (o q : Option ManagedRoute) (k : Kernel)
    → k d ≡ o
    → Goes d o
    → Goes d q
    → kernel_run (invert (expected o q)) (kernel_run (expected o q) k) d ≡ o
unfolding kernel_run invert invert_op
undo_expected d none none k e go gq = e
undo_expected d none (some x) k e go gq = rw (gq)
undo_expected d (some a) none k e go gq = rw go
undo_expected d (some a) (some x) k e go gq = elim (Bool-cases (str_eq (key a) (key x))) [
  | inl y ↦ rw (y, e)
  | inr n ↦ rw (n, go, gq)
]

module _ (desired actual : List ManagedRoute) (desired_rules actual_rules : List ManagedRule)
    (pd : AllPlain desired) (pa : AllPlain actual) (ud : IsDistinct desired)
    (ua : IsDistinct actual) where
  abbrev plan : Plan
  plan = reconcile desired actual desired_rules actual_rules

  ops_eq : (d : String) → ops_at d plan.ops ≡ expected (find_dst d actual) (find_dst d desired)
  ops_eq d = ops_at-reconcile d desired actual pd pa ud ua desired_rules actual_rules

  after :
      (d : String)
      → kernel_run plan.ops (table_of actual) d
        ≡ kernel_run (expected (find_dst d actual) (find_dst d desired)) (table_of actual) d
  after d =
      kernel_run_at d plan.ops (table_of actual) (table_of actual) refl
      ∙ ap (λ (ops : List PlanOp). kernel_run ops (table_of actual) d) (ops_eq d)

  pub inverse_eq : plan.inverse ≡ invert plan.ops
  unfolding reconcile
  inverse_eq = refl

  -- For desired and actual routes with at most one route to each destination, whose destination
  -- fields hold no separator: run on a kernel that holds the actual routes, the plan leaves at every
  -- destination a route of the desired one's key, and none where none is desired.
  pub kernel_run-reconcile :
      (d : String)
      → Option.map key (kernel_run plan.ops (table_of actual) d)
        ≡ Option.map key (find_dst d desired)
  kernel_run-reconcile d =
      ap (Option.map key) (after d)
      ∙ run_expected d (find_dst d actual) (find_dst d desired) (table_of actual) refl
          (Goes-find_dst d actual) (Goes-find_dst d desired)

  -- For desired and actual routes with at most one route to each destination, whose destination
  -- fields hold no separator: the plan's inverse, run after the plan on a kernel that held the actual
  -- routes, leaves at every destination the very route that was there, and none where there was none.
  pub kernel_run-inverse :
      (d : String)
      → kernel_run plan.inverse (kernel_run plan.ops (table_of actual)) d ≡ find_dst d actual
  kernel_run-inverse d =
      let o = find_dst d actual in
      let q = find_dst d desired in
      let ran = kernel_run (expected o q) (table_of actual) in
      ap (λ (ops : List PlanOp). kernel_run ops (kernel_run plan.ops (table_of actual)) d)
        inverse_eq
      ∙ kernel_run_at d (invert plan.ops) (kernel_run plan.ops (table_of actual)) ran (after d)
      ∙ ap (λ (ops : List PlanOp). kernel_run ops ran d)
          (ops_at-invert d plan.ops ∙ ap invert (ops_eq d))
      ∙ undo_expected d o q (table_of actual) refl (Goes-find_dst d actual)
          (Goes-find_dst d desired)
