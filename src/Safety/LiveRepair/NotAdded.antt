-- ===== src/Safety/LiveRepair/NotAdded.antt =====
-- A plan made from the routes that internal/safety/live.go calls installed does not put back what is
-- held.
use mathlib.Core.List.{Memᴰ}
use riftroute.Base.{
  String, str_eq, str_eq_iff, Bool, true, false, not, ◌&&◌, List, [], ◌∷◌, ◌++◌, map, any,
  any-append, select, none, some, ◌≡◌, refl, sym, ap, ◌∙◌, inl, inr, Bool-cases, arith,
}
use riftroute.Domain.{
  ManagedRoute, ManagedRule, add_route, del_route, add_rule, del_rule, other, PlanOp,
}
use riftroute.Routing.Plan.{
  key, dst, has_key, has_route, has_rule, by_dst, stale, make_route_op, make_rule_op, replace_olds,
  route_adds, route_dels, rule_adds, rule_dels, reconcile,
}
use riftroute.Routing.Verify.{is_tunnel_route}
use riftroute.Safety.LiveRepair.{Recs, held}
use riftroute.Safety.LiveRepair.Installed.{Reading, installed, installed-held}

-- Whether an operation adds a route with the key.
abbrev pub adds_key : String → PlanOp → Bool
adds_key k op = elim op.kind [
  | add_route ↦ elim op.route [ none ↦ false | some m ↦ str_eq k (key m) ]
  | del_route ↦ false
  | add_rule ↦ false
  | del_rule ↦ false
  | other x ↦ false
]

module _ (k : String) where
  none_append :
      (xs ys : List PlanOp)
      → any (adds_key k) xs ≡ false
      → any (adds_key k) ys ≡ false
      → any (adds_key k) (xs ++ ys) ≡ false
  none_append xs ys h i = any-append (adds_key k) xs ys ∙ ground arith

  none_of_route_dels :
      (ms : List ManagedRoute) → any (adds_key k) (map (make_route_op del_route) ms) ≡ false
  none_of_route_dels [] = refl
  none_of_route_dels (m ∷ ms) = none_of_route_dels ms

  none_of_rule_adds :
      (ms : List ManagedRule) → any (adds_key k) (map (make_rule_op add_rule) ms) ≡ false
  none_of_rule_adds [] = refl
  none_of_rule_adds (m ∷ ms) = none_of_rule_adds ms

  none_of_rule_dels :
      (ms : List ManagedRule) → any (adds_key k) (map (make_rule_op del_rule) ms) ≡ false
  none_of_rule_dels [] = refl
  none_of_rule_dels (m ∷ ms) = none_of_rule_dels ms

  none_of_olds :
      (olds : List ManagedRoute) (replaced : List String)
      → any (adds_key k) (replace_olds olds replaced).0 ≡ false
  unfolding replace_olds
  none_of_olds [] replaced = refl
  none_of_olds (o ∷ os) replaced = elim (Bool-cases (has_key (key o) replaced)) [
    | inl y ↦ rw (replace_olds, y) (none_of_olds os replaced)
    | inr n ↦ rw (replace_olds, n) (none_of_olds os (key o ∷ replaced))
  ]

  none_of_others :
      (desired actual : List ManagedRoute) (replaced : List String)
      (desired_rules actual_rules : List ManagedRule)
      → (any (adds_key k) (rule_adds desired_rules actual_rules) ≡ false)
        × (any (adds_key k) (rule_dels desired_rules actual_rules) ≡ false)
        × (any (adds_key k) (route_dels desired actual replaced) ≡ false)
  unfolding rule_adds rule_dels route_dels
  none_of_others desired actual replaced desired_rules actual_rules = (
    none_of_rule_adds (select (λ d. not (has_rule actual_rules d)) desired_rules),
    none_of_rule_dels (select (λ a. not (has_rule desired_rules a)) actual_rules),
    none_of_route_dels
        (select (λ a. not (has_route desired a) && not (has_key (key a) replaced)) actual),
  )

  -- No route with a key that the actual ones have is added.
  none_of_adds :
      (actual old ds : List ManagedRoute) (replaced : List String)
      → has_key k (map key actual) ≡ true
      → any (adds_key k) (route_adds actual old ds replaced).0 ≡ false
  unfolding route_adds
  none_of_adds actual old [] replaced h = refl
  none_of_adds actual old (d ∷ ds) replaced h = elim (Bool-cases (has_route actual d)) [
    | inl y ↦ rw (route_adds, y) (none_of_adds actual old ds replaced h)
    | inr n ↦
        rw (route_adds, n)
          (any-append (adds_key k) (replace_olds (by_dst old (dst d)) replaced).0 _
            ∙ ground (
              arith,
              none_of_olds (by_dst old (dst d)) replaced,
              another d n,
              none_of_adds actual old ds (replace_olds (by_dst old (dst d)) replaced).1 h,
            ))
  ]
    where
      another : (d : ManagedRoute) → has_route actual d ≡ false → str_eq k (key d) ≡ false
      another d n = elim (Bool-cases (str_eq k (key d))) [
        | inr q ↦ q
        | inl q ↦
            ground
              (arith, sym (ap (λ j. has_key j (map key actual)) ((str_eq_iff k (key d)).0 q)) ∙ h)
      ]

Memᴰ-has_route : (o : ManagedRoute) (os : List ManagedRoute) → Memᴰ o os → has_route os o ≡ true
Memᴰ-has_route o [] m = elim m [ ]
Memᴰ-has_route o (x ∷ os) (Memᴰ.head e) = rw ((str_eq_iff (key o) (key x)).1 (ap key e)) refl
Memᴰ-has_route o (x ∷ os) (Memᴰ.tail m) = ground (arith, Memᴰ-has_route o os m)

-- For any reading, any owned routes and records, and any desired routes and rules: where an owned
-- route is held now and is no tunnel's, the plan that Reconcile makes from the installed routes adds no
-- route with its key, whatever the kernel holds.
pub reconcile-installed :
    (g : Reading) (owned : List ManagedRoute) (recs : Recs) (o : ManagedRoute)
    (desired : List ManagedRoute) (desired_rules actual_rules : List ManagedRule)
    → Memᴰ o owned
    → held g.now recs (key o) ≡ true
    → is_tunnel_route o ≡ false
    → any
        (adds_key (key o))
        (reconcile desired (installed g owned recs).0 desired_rules actual_rules).ops
      ≡ false
unfolding reconcile
reconcile-installed g owned recs o desired desired_rules actual_rules m h t =
    let k = key o in
    let actual = (installed g owned recs).0 in
    let adds = route_adds actual (stale desired actual) desired [] in
    let here = Memᴰ-has_route o actual (installed-held g owned recs o m h t) in
    let others = none_of_others k desired actual adds.1 desired_rules actual_rules in
    none_append k adds.0 _ (none_of_adds k actual (stale desired actual) desired [] here) (
      none_append k (rule_adds desired_rules actual_rules) _ others.0
        (none_append k (rule_dels desired_rules actual_rules) _ others.1 others.2))
