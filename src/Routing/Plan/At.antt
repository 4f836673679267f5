-- ===== src/Routing/Plan/At.antt =====
-- The plan of `Reconcile`, destination by destination.
use riftroute.Base.{
  String, str_eq, str_eq_iff, if◌then◌else◌, true, false, not, ◌&&◌, List, [], ◌∷◌, ◌++◌, map,
  Option, none, some, select, select-append, All, ◌≡◌, refl, sym, ap, ◌∙◌, inl, inr, arith,
  Bool-cases, bool_ext,
}
use riftroute.Domain.{
  ManagedRoute, ManagedRule, OpKind, add_route, del_route, add_rule, del_rule, PlanOp,
}
use riftroute.Routing.Keys.{IsPlain}
use riftroute.Routing.Plan.{
  key, dst, make_route_op, make_rule_op, has_key, has_route, has_rule, stale, by_dst, replace_olds,
  route_adds, route_dels, rule_adds, rule_dels, reconcile,
}
use riftroute.Routing.Plan.Shape.{
  at, find_dst, op_at, ops_at, IsDistinct, AllPlain, find_dst-none, by_dst-select, other_key, Loops,
  route_adds-other,
}

pub str_eq_comm : (s t : String) → str_eq s t ≡ str_eq t s
str_eq_comm s t =
    bool_ext (str_eq s t) (str_eq t s) (λ h. (str_eq_iff t s).1 (sym ((str_eq_iff s t).0 h)))
      (λ h. (str_eq_iff s t).1 (sym ((str_eq_iff t s).0 h)))

pub at-dst : (d : String) (m : ManagedRoute) → at d m ≡ true → dst m ≡ d
at-dst d m h = (str_eq_iff (dst m) d).0 h

-- A plain route to d has its key among distinct plain routes only at the one to d.
has_route-none :
    (d : String) (a : ManagedRoute) (ms : List ManagedRoute)
    → IsPlain a.route
    → at d a ≡ true
    → AllPlain ms
    → All (λ m. at d m ≡ false) ms
    → has_route ms a ≡ false
has_route-none d a [] pa h p n = refl
has_route-none d a (m ∷ ms) pa h p n =
    ground (arith, other_key d a pa h m p.0 n.0, has_route-none d a ms pa h p.1 n.1)

pub has_route-find :
    (d : String) (a : ManagedRoute) (ms : List ManagedRoute)
    → IsPlain a.route
    → at d a ≡ true
    → AllPlain ms
    → IsDistinct ms
    → has_route ms a ≡ elim (find_dst d ms) [ none ↦ false | some m ↦ str_eq (key a) (key m) ]
has_route-find d a [] pa h p u = refl
has_route-find d a (m ∷ ms) pa h p u = elim (Bool-cases (at d m)) [
  | inr n ↦ rw n (ground (arith, other_key d a pa h m p.0 n, has_route-find d a ms pa h p.1 u.1))
  | inl y ↦
      let none_else : find_dst d ms ≡ none =
        ap (λ (k : String). find_dst k ms) (sym (at-dst d m y)) ∙ u.0 in
      rw y (ground (arith, has_route-none d a ms pa h p.1 (find_dst-none d ms none_else)))
]

replace_one :
    (a : ManagedRoute) (replaced : List String)
    → has_key (key a) replaced ≡ false
    → replace_olds (a ∷ []) replaced ≡ (make_route_op del_route a ∷ [], key a ∷ replaced)
unfolding replace_olds
replace_one a replaced n = rw n

-- The loop where it meets x, the desired route to d, a being a plain route there.
module _ (d : String) (a : ManagedRoute) (pa : IsPlain a.route) (here : at d a ≡ true)
    (actual old : List ManagedRoute) (p : AllPlain old) (x : ManagedRoute) (y : at d x ≡ true) where
  pub starts_kept :
      has_route actual x ≡ true
      → (ds : List ManagedRoute) (replaced : List String) → All (λ m. at d m ≡ false) ds
      → has_key (key a) replaced ≡ false
      → Loops d a pa here actual old (x ∷ ds) replaced [] false
  unfolding route_adds
  starts_kept kept ds replaced others n =
      ground (arith, route_adds-other d a pa here actual old ds replaced p others)

  pub starts_added :
      has_route actual x ≡ false
      → by_dst old (dst x) ≡ []
      → (ds : List ManagedRoute) (replaced : List String) → All (λ m. at d m ≡ false) ds
      → has_key (key a) replaced ≡ false
      → Loops d a pa here actual old (x ∷ ds) replaced (make_route_op add_route x ∷ []) false
  unfolding route_adds replace_olds
  starts_added new free ds replaced others n =
      rw (new, free) (ground (arith, route_adds-other d a pa here actual old ds replaced p others))

  pub starts_replaced :
      has_route actual x ≡ false
      → by_dst old (dst x) ≡ a ∷ []
      → (ds : List ManagedRoute) (replaced : List String) → All (λ m. at d m ≡ false) ds
      → has_key (key a) replaced ≡ false
      → Loops d a pa here actual old
          (x ∷ ds)
          replaced
          (make_route_op del_route a ∷ make_route_op add_route x ∷ [])
          true
  unfolding route_adds
  starts_replaced new held ds replaced others n =
      rw (new, held, replace_one a replaced n)
        (ground (
          arith,
          (str_eq_iff (key a) (key a)).1 refl,
          route_adds-other d a pa here actual old ds (key a ∷ replaced) p others,
        ))

ops_at-map :
    (d : String) (kind : OpKind) (ms : List ManagedRoute)
    → ops_at d (map (make_route_op kind) ms) ≡ map (make_route_op kind) (by_dst ms d)
ops_at-map d kind [] = refl
ops_at-map d kind (m ∷ ms) = ground (arith, ops_at-map d kind ms)

ops_at-rules :
    (d : String) (kind : OpKind) (ms : List ManagedRule)
    → ops_at d (map (make_rule_op kind) ms) ≡ []
ops_at-rules d kind [] = refl
ops_at-rules d kind (m ∷ ms) = ops_at-rules d kind ms

-- The deletions at d: the actual route there, unless it is desired or already replaced.
pub ops_at-route_dels :
    (d : String) (desired actual : List ManagedRoute) (replaced : List String)
    → IsDistinct actual
    → ops_at d (route_dels desired actual replaced) ≡ elim (find_dst d actual) [
      | none ↦ []
      | some a ↦
          if not (has_route desired a) && not (has_key (key a) replaced)
          then make_route_op del_route a ∷ []
          else []
    ]
unfolding route_dels
ops_at-route_dels d desired actual replaced u =
    ops_at-map d del_route (
      select (λ (a : ManagedRoute). not (has_route desired a) && not (has_key (key a) replaced))
        actual)
    ∙ ap (map (make_route_op del_route)) (
        by_dst-select
          (λ (a : ManagedRoute). not (has_route desired a) && not (has_key (key a) replaced)) d
          actual u)
    ∙ dels (find_dst d actual)
  where
    dels :
        (o : Option ManagedRoute)
        → map (make_route_op del_route) (elim o [
          | none ↦ []
          | some m ↦
              if not (has_route desired m) && not (has_key (key m) replaced) then m ∷ [] else []
        ])
          ≡ elim o [
            | none ↦ []
            | some a ↦
                if not (has_route desired a) && not (has_key (key a) replaced)
                then make_route_op del_route a ∷ []
                else []
          ]
    dels none = refl
    dels (some m) = ground arith

-- The whole plan at d: the loop's operations, then the deletions.
pub ops_at-ops :
    (d : String) (desired actual : List ManagedRoute) (drules arules : List ManagedRule)
    → let loop = route_adds actual (stale desired actual) desired [] in
      ops_at d (reconcile desired actual drules arules).ops
      ≡ ops_at d loop.0 ++ ops_at d (route_dels desired actual loop.1)
unfolding reconcile rule_adds rule_dels
ops_at-ops d desired actual drules arules =
    let loop = route_adds actual (stale desired actual) desired [] in
    let adds = rule_adds drules arules in
    let dels = rule_dels drules arules in
    let last = route_dels desired actual loop.1 in
    select-append (op_at d) loop.0 (adds ++ (dels ++ last))
    ∙ ap (λ (r : List PlanOp). ops_at d loop.0 ++ r)
        (select-append (op_at d) adds (dels ++ last)
          ∙ rw
              (ops_at-rules d add_rule
                (select (λ (r : ManagedRule). not (has_rule arules r)) drules))
              (select-append (op_at d) dels last
                ∙ rw (
                    ops_at-rules d del_rule
                      (select (λ (r : ManagedRule). not (has_rule drules r)) arules))))
