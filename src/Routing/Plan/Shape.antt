-- ===== src/Routing/Plan/Shape.antt =====
-- What a plan does at one destination.
use riftroute.Base.{
  String, str_eq, str_eq_iff, if◌then◌else◌, Bool, true, false, List, [], ◌∷◌, Option, none, some,
  select, select-append, All-select, All, ◌≡◌, refl, sym, ap, ◌∙◌, inl, inr, arith, Bool-cases,
}
use mathlib.Core.Path.{subst}
use riftroute.Domain.{ManagedRoute, add_route, PlanOp}
use riftroute.Routing.Keys.{IsPlain, route_key-dst_key}
use riftroute.Routing.Plan.{
  key, dst, make_route_op, has_key, has_route, by_dst, replace_olds, route_adds,
}

-- Whether a route goes to the destination, and the first one that does.
abbrev pub at : String → ManagedRoute → Bool
at d m = str_eq (dst m) d

abbrev pub find_dst : String → List ManagedRoute → Option ManagedRoute
find_dst d [] = none
find_dst d (m ∷ ms) = if at d m then some m else find_dst d ms

-- Whether an operation changes a route to the destination, and the operations that do.
abbrev pub op_at : String → PlanOp → Bool
op_at d op = elim op.route [ none ↦ false | some m ↦ at d m ]

abbrev pub ops_at : String → List PlanOp → List PlanOp
ops_at d ops = select (op_at d) ops

-- At most one route of the list goes to each destination.
abbrev pub IsDistinct : List ManagedRoute → Type 0
IsDistinct [] = Unit
IsDistinct (m ∷ ms) = (find_dst (dst m) ms ≡ none) × IsDistinct ms

abbrev pub AllPlain : List ManagedRoute → Type 0
AllPlain = All (λ m. IsPlain m.route)

-- Two plain routes with one key have one destination.
pub same_dst :
    (m n : ManagedRoute) (d : String)
    → IsPlain m.route
    → IsPlain n.route
    → str_eq (key m) (key n) ≡ true
    → at d m ≡ at d n
same_dst m n d p q h =
    ap (λ (k : String). str_eq k d)
      (route_key-dst_key m.route n.route p q ((str_eq_iff (key m) (key n)).0 h))

pub find_dst-at :
    (d : String) (ms : List ManagedRoute) (m : ManagedRoute)
    → find_dst d ms ≡ some m
    → at d m ≡ true
find_dst-at d [] m h = cc
find_dst-at d (n ∷ ns) m h = ground (arith, find_dst-at d ns m)

find_dst-head :
    (d : String) (m : ManagedRoute) (ms : List ManagedRoute) (x : ManagedRoute)
    → at d m ≡ true
    → find_dst d (m ∷ ms) ≡ some x
    → m ≡ x
find_dst-head d m ms x h f = ground arith

-- No route of the list goes to the destination, route by route.
pub find_dst-none :
    (d : String) (ms : List ManagedRoute) → find_dst d ms ≡ none → All (λ m. at d m ≡ false) ms
find_dst-none d [] h = tt
find_dst-none d (m ∷ ms) h = ground (arith, find_dst-none d ms)

-- The old routes to a destination, when the actual ones are distinct: the one there, if not desired.
pub by_dst-select :
    (p : ManagedRoute → Bool) (d : String) (ms : List ManagedRoute)
    → IsDistinct ms
    → by_dst (select p ms) d
      ≡ elim (find_dst d ms) [ none ↦ [] | some m ↦ if p m then m ∷ [] else [] ]
by_dst-select p d [] u = refl
by_dst-select p d (m ∷ ms) u = elim (Bool-cases (at d m)) [
  | inr e ↦ rw (e) (ground (arith, by_dst-select p d ms u.1))
  | inl e ↦ rw e (
      ground (
        arith,
        by_dst-select p d ms u.1,
        u.0,
        ap (λ (k : String). find_dst k ms) ((str_eq_iff (dst m) d).0 e),
      ))
]

-- Routes to another destination are no routes to d.
by_dst-other :
    (d : String) (old : List ManagedRoute) (e : ManagedRoute)
    → at d e ≡ false
    → All (λ o. at d o ≡ false) (by_dst old (dst e))
by_dst-other d [] e h = tt
by_dst-other d (o ∷ os) e h = elim (Bool-cases (str_eq (dst o) (dst e))) [
  | inr n ↦ rw n (by_dst-other d os e h)
  | inl y ↦ rw y (
    ap (λ (k : String). str_eq k d) ((str_eq_iff (dst o) (dst e)).0 y) ∙ h,
    by_dst-other d os e h,
  )
]

replace_olds-other :
    (d : String) (olds : List ManagedRoute) (replaced : List String)
    → All (λ o. at d o ≡ false) olds
    → ops_at d (replace_olds olds replaced).0 ≡ []
unfolding replace_olds
replace_olds-other d [] replaced h = refl
replace_olds-other d (o ∷ os) replaced h = ground (
  arith,
  h.0,
  replace_olds-other d os replaced h.1,
  replace_olds-other d os (key o ∷ replaced) h.1,
)

-- The loop over desired routes to other destinations does nothing at d.
pub route_adds-none :
    (d : String) (actual old ds : List ManagedRoute) (replaced : List String)
    → All (λ m. at d m ≡ false) ds
    → ops_at d (route_adds actual old ds replaced).0 ≡ []
unfolding route_adds
route_adds-none d actual old [] replaced h = refl
route_adds-none d actual old (e ∷ ds) replaced h =
    let olds = by_dst old (dst e) in
    let marked = (replace_olds olds replaced).1 in
    ground (
      arith,
      h.0,
      replace_olds-other d olds replaced (by_dst-other d old e h.0),
      select-append (op_at d) (replace_olds olds replaced).0
          (make_route_op add_route e ∷ (route_adds actual old ds marked).0),
      route_adds-none d actual old ds replaced h.1,
      route_adds-none d actual old ds marked h.1,
    )

-- Here a is a plain route to d: its key is none of those of plain routes to other destinations.
module _ (d : String) (a : ManagedRoute) (pa : IsPlain a.route) (here : at d a ≡ true) where
  pub other_key :
      (o : ManagedRoute) → IsPlain o.route → at d o ≡ false → str_eq (key a) (key o) ≡ false
  other_key o po h = elim (Bool-cases (str_eq (key a) (key o))) [
    | inr e ↦ e
    | inl e ↦ ground (arith, same_dst a o d pa po e)
  ]

  replace_olds-key :
      (olds : List ManagedRoute) (replaced : List String)
      → AllPlain olds
      → All (λ o. at d o ≡ false) olds
      → has_key (key a) (replace_olds olds replaced).1 ≡ has_key (key a) replaced
  unfolding replace_olds
  replace_olds-key [] replaced p h = refl
  replace_olds-key (o ∷ os) replaced p h = ground (
    arith,
    other_key o p.0 h.0,
    replace_olds-key os replaced p.1 h.1,
    replace_olds-key os (key o ∷ replaced) p.1 h.1,
  )

  -- The loop over desired routes to other destinations leaves d and a's mark alone.
  pub route_adds-other :
      (actual old ds : List ManagedRoute) (replaced : List String)
      → AllPlain old
      → All (λ m. at d m ≡ false) ds
      → (ops_at d (route_adds actual old ds replaced).0 ≡ [])
        × (has_key (key a) (route_adds actual old ds replaced).1 ≡ has_key (key a) replaced)
  unfolding route_adds
  route_adds-other actual old [] replaced p h = (refl, refl)
  route_adds-other actual old (e ∷ ds) replaced p h =
      let olds = by_dst old (dst e) in
      let others = by_dst-other d old e h.0 in
      let marked = (replace_olds olds replaced).1 in
      let plain =
        All-select (λ (o : ManagedRoute). str_eq (dst o) (dst e))
          (λ (m : ManagedRoute). IsPlain m.route) old p in
      ground (
        arith,
        h.0,
        replace_olds-other d olds replaced others,
        replace_olds-key olds replaced plain others,
        select-append (op_at d) (replace_olds olds replaced).0
            (make_route_op add_route e ∷ (route_adds actual old ds marked).0),
        route_adds-other actual old ds replaced p h.1,
        route_adds-other actual old ds marked p h.1,
      )

  -- One desired route to another destination: it adds no operation at d, and keeps a's mark.
  marks : List ManagedRoute → List ManagedRoute → ManagedRoute → List String → List String
  marks actual old e replaced =
      if has_route actual e then replaced else (replace_olds (by_dst old (dst e)) replaced).1

  route_adds-step :
      (actual old : List ManagedRoute) (e : ManagedRoute) (ds : List ManagedRoute)
      (replaced : List String)
      → AllPlain old
      → at d e ≡ false
      → (ops_at d (route_adds actual old (e ∷ ds) replaced).0
          ≡ ops_at d (route_adds actual old ds (marks actual old e replaced)).0)
        × ((route_adds actual old (e ∷ ds) replaced).1
            ≡ (route_adds actual old ds (marks actual old e replaced)).1)
        × (has_key (key a) (marks actual old e replaced) ≡ has_key (key a) replaced)
  unfolding route_adds marks
  route_adds-step actual old e ds replaced p h =
      let olds = by_dst old (dst e) in
      let others = by_dst-other d old e h in
      let marked = (replace_olds olds replaced).1 in
      let plain =
        All-select (λ (o : ManagedRoute). str_eq (dst o) (dst e))
          (λ (m : ManagedRoute). IsPlain m.route) old p in
      ground (
        arith,
        replace_olds-other d olds replaced others,
        replace_olds-key olds replaced plain others,
        select-append (op_at d) (replace_olds olds replaced).0
            (make_route_op add_route e ∷ (route_adds actual old ds marked).0),
      )

  -- The loop's operations at d, and whether it marked a as replaced.
  abbrev pub Loops :
      List ManagedRoute
      → List ManagedRoute
      → List ManagedRoute
      → List String
      → List PlanOp
      → Bool
      → Type 0
  Loops actual old ds replaced ops mark =
      (ops_at d (route_adds actual old ds replaced).0 ≡ ops)
      × (has_key (key a) (route_adds actual old ds replaced).1 ≡ mark)

  -- Induction down to x, the desired route to d: what the loop does there it does in all.
  module _ (actual old : List ManagedRoute) (p : AllPlain old) (x : ManagedRoute)
      (ops : List PlanOp) (mark : Bool)
      (start : (ds : List ManagedRoute) (replaced : List String)
        → All (λ m. at d m ≡ false) ds
        → has_key (key a) replaced ≡ false
        → Loops actual old (x ∷ ds) replaced ops mark) where
    pub route_adds-find :
        (ds : List ManagedRoute) (replaced : List String)
        → IsDistinct ds
        → find_dst d ds ≡ some x
        → has_key (key a) replaced ≡ false
        → Loops actual old ds replaced ops mark
    route_adds-find [] replaced u f n = cc
    route_adds-find (e ∷ ds) replaced u f n = elim (Bool-cases (at d e)) [
      | inl y ↦
          let same : e ≡ x = find_dst-head d e ds x y f in
          let none_else : find_dst d ds ≡ none =
            ap (λ (k : String). find_dst k ds) (sym ((str_eq_iff (dst e) d).0 y)) ∙ u.0 in
          subst (λ (m : ManagedRoute). Loops actual old (m ∷ ds) replaced ops mark) (sym same)
            (start ds replaced (find_dst-none d ds none_else) n)
      | inr z ↦
          let (o, r, k) = route_adds-step actual old e ds replaced p z in
          let (ih₁, ih₂) =
            route_adds-find ds (marks actual old e replaced) u.1 (rw z at f) (k ∙ n) in
          (o ∙ ih₁, ap (has_key (key a)) r ∙ ih₂)
    ]
