-- ===== src/Routing/Plan/Outcome.antt =====
-- The plan of `Reconcile` at one destination, in closed form.
use riftroute.Base.{
  String, str_eq, if◌then◌else◌, true, false, not, List, [], ◌∷◌, ◌++◌, Option, none, some,
  All-select, ◌≡◌, refl, ap, ◌∙◌, inl, inr, arith, Bool-cases,
}
use riftroute.Domain.{ManagedRoute, ManagedRule, add_route, del_route, PlanOp}
use riftroute.Routing.Keys.{IsPlain}
use riftroute.Routing.Plan.{
  key, dst, make_route_op, has_route, stale, by_dst, route_adds, route_dels, reconcile,
}
use riftroute.Routing.Plan.Shape.{
  at, find_dst, ops_at, IsDistinct, AllPlain, find_dst-at, find_dst-none, by_dst-select,
  route_adds-none, route_adds-other, route_adds-find,
}
use riftroute.Routing.Plan.At.{
  str_eq_comm, at-dst, has_route-find, starts_kept, starts_added, starts_replaced,
  ops_at-route_dels, ops_at-ops,
}

-- What has to be done at a destination, given the route that is there and the one that should be: a
-- route of another key is deleted before its successor is added.
abbrev pub expected : Option ManagedRoute → Option ManagedRoute → List PlanOp
expected none none = []
expected none (some x) = make_route_op add_route x ∷ []
expected (some a) none = make_route_op del_route a ∷ []
expected (some a) (some x) =
    if str_eq (key a) (key x)
    then []
    else make_route_op del_route a ∷ make_route_op add_route x ∷ []

find_dst-IsPlain :
    (d : String) (ms : List ManagedRoute) (m : ManagedRoute)
    → AllPlain ms
    → find_dst d ms ≡ some m
    → IsPlain m.route
find_dst-IsPlain d [] m p f = cc
find_dst-IsPlain d (n ∷ ns) m p f = ground (arith, p.0, find_dst-IsPlain d ns m p.1)

module _ (d : String) (desired actual : List ManagedRoute) (pd : AllPlain desired)
    (pa : AllPlain actual) (ud : IsDistinct desired) (ua : IsDistinct actual) where
  abbrev loop : List PlanOp × List String
  loop = route_adds actual (stale desired actual) desired []

  abbrev done : List PlanOp
  done = ops_at d loop.0 ++ ops_at d (route_dels desired actual loop.1)

  plain_stale : AllPlain (stale desired actual)
  plain_stale =
      All-select (λ (a : ManagedRoute). not (has_route desired a))
        (λ (m : ManagedRoute). IsPlain m.route) actual pa

  old_at :
      (m : ManagedRoute)
      → at d m ≡ true
      → by_dst (stale desired actual) (dst m) ≡ elim (find_dst d actual) [
        | none ↦ []
        | some a ↦ if not (has_route desired a) then a ∷ [] else []
      ]
  old_at m y =
      ap (by_dst (stale desired actual)) (at-dst d m y)
      ∙ by_dst-select (λ (a : ManagedRoute). not (has_route desired a)) d actual ua

  at_neither : find_dst d actual ≡ none → find_dst d desired ≡ none → done ≡ []
  at_neither o q = ground (
    arith,
    o,
    ops_at-route_dels d desired actual loop.1 ua,
    route_adds-none d actual (stale desired actual) desired [] (find_dst-none d desired q),
  )

  at_new :
      (x : ManagedRoute)
      → find_dst d actual ≡ none
      → find_dst d desired ≡ some x
      → done ≡ make_route_op add_route x ∷ []
  at_new x o q =
      let y = find_dst-at d desired x q in
      let px = find_dst-IsPlain d desired x pd q in
      let new : has_route actual x ≡ false = has_route-find d x actual px y pa ua ∙ rw o in
      let free : by_dst (stale desired actual) (dst x) ≡ [] = old_at x y ∙ rw o in
      let start = starts_added d x px y actual (stale desired actual) plain_stale x y new free in
      let (ops, _) =
        route_adds-find d x px y actual (stale desired actual) plain_stale x _ _ start desired [] ud
          q refl in
      ground (arith, o, ops, ops_at-route_dels d desired actual loop.1 ua)

  at_gone :
      (a : ManagedRoute)
      → find_dst d actual ≡ some a
      → find_dst d desired ≡ none
      → done ≡ make_route_op del_route a ∷ []
  at_gone a o q =
      let y = find_dst-at d actual a o in
      let p = find_dst-IsPlain d actual a pa o in
      let undesired : has_route desired a ≡ false = has_route-find d a desired p y pd ud ∙ rw q in
      let (ops, mark) =
        route_adds-other d a p y actual (stale desired actual) desired [] plain_stale
          (find_dst-none d desired q) in
      ground (arith, o, ops, mark, undesired, ops_at-route_dels d desired actual loop.1 ua)

  -- Where both lists have a route to d.
  module _ (a x : ManagedRoute) (o : find_dst d actual ≡ some a)
      (q : find_dst d desired ≡ some x) where
    ya : at d a ≡ true
    ya = find_dst-at d actual a o

    yx : at d x ≡ true
    yx = find_dst-at d desired x q

    qa : IsPlain a.route
    qa = find_dst-IsPlain d actual a pa o

    installed : has_route actual x ≡ str_eq (key a) (key x)
    installed =
        has_route-find d x actual (find_dst-IsPlain d desired x pd q) yx pa ua
        ∙ rw o (str_eq_comm (key x) (key a))

    wanted : has_route desired a ≡ str_eq (key a) (key x)
    wanted = has_route-find d a desired qa ya pd ud ∙ rw q

    at_same : str_eq (key a) (key x) ≡ true → done ≡ []
    at_same e =
        let start =
          starts_kept d a qa ya actual (stale desired actual) plain_stale x yx (installed ∙ e) in
        let (ops, mark) =
          route_adds-find d a qa ya actual (stale desired actual) plain_stale x _ _ start desired []
            ud q refl in
        ground (arith, o, ops, mark, wanted, e, ops_at-route_dels d desired actual loop.1 ua)

    at_changed :
        str_eq (key a) (key x) ≡ false
        → done ≡ make_route_op del_route a ∷ make_route_op add_route x ∷ []
    at_changed e =
        let held : by_dst (stale desired actual) (dst x) ≡ a ∷ [] =
          old_at x yx ∙ rw o (ground (arith, wanted, e)) in
        let start =
          starts_replaced d a qa ya actual (stale desired actual) plain_stale x yx (installed ∙ e)
            held in
        let (ops, mark) =
          route_adds-find d a qa ya actual (stale desired actual) plain_stale x _ _ start desired []
            ud q refl in
        ground (arith, o, ops, mark, wanted, e, ops_at-route_dels d desired actual loop.1 ua)

  done_lem :
      (o q : Option ManagedRoute)
      → find_dst d actual ≡ o
      → find_dst d desired ≡ q
      → done ≡ expected o q
  done_lem none none o q = at_neither o q
  done_lem none (some x) o q = at_new x o q
  done_lem (some a) none o q = at_gone a o q
  done_lem (some a) (some x) o q = elim (Bool-cases (str_eq (key a) (key x))) [
    | inl e ↦ rw e (at_same a x o q e)
    | inr e ↦ rw e (at_changed a x o q e)
  ]

  -- For desired and actual routes with at most one route to each destination, whose destination
  -- fields hold no separator, and for any rules: at every destination d the plan's operations are, in
  -- order, exactly what has to be done there. Nothing if the right route is there; else the deletion
  -- of the route that is there, followed by the addition of the route that should be.
  pub ops_at-reconcile :
      (desired_rules actual_rules : List ManagedRule)
      → ops_at d (reconcile desired actual desired_rules actual_rules).ops
        ≡ expected (find_dst d actual) (find_dst d desired)
  ops_at-reconcile desired_rules actual_rules =
      ops_at-ops d desired actual desired_rules actual_rules
      ∙ done_lem (find_dst d actual) (find_dst d desired) refl refl
