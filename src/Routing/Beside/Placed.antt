-- ===== src/Routing/Beside/Placed.antt =====
-- Which route goes to each destination of the set that `Beside` makes.
use riftroute.Base.{
  String, str_eq, str_eq_iff, Bool, true, false, not, ◌||◌, List, [], ◌∷◌, ◌++◌, map, Option, none,
  some, select, All-append, bool_ext, ◌≡◌, refl, sym, ap, ◌∙◌, inl, inr, arith, Bool-cases,
}
use riftroute.Netip.Syntax.{Syntax}
use riftroute.Domain.{ManagedRoute}
use riftroute.Routing.Keys.{IsPlain}
use riftroute.Routing.Plan.{key, dst, has_key}
use riftroute.Routing.Plan.Shape.{at, find_dst, AllPlain, same_dst}
use riftroute.Routing.Beside.{
  TunnelPlan, Desired, add_route_to, place_from, place, yields, keep_others, beside,
}

pub str_eq_comm : (s t : String) → str_eq s t ≡ str_eq t s
str_eq_comm s t =
    bool_ext (str_eq s t) (str_eq t s) (λ h. (str_eq_iff t s).1 (sym ((str_eq_iff s t).0 h)))
      (λ h. (str_eq_iff s t).1 (sym ((str_eq_iff t s).0 h)))

-- The first of two routes to a destination, if there is one.
abbrev pub first : Option ManagedRoute → Option ManagedRoute → Option ManagedRoute
first none later = later
first (some m) later = some m

abbrev pub is_some : Option ManagedRoute → Bool
is_some none = false
is_some (some m) = true

pub find_dst-append :
    (d : String) (xs ys : List ManagedRoute)
    → find_dst d (xs ++ ys) ≡ first (find_dst d xs) (find_dst d ys)
find_dst-append d [] ys = refl
find_dst-append d (x ∷ xs) ys = ground (arith, find_dst-append d xs ys)

-- The keys seen are those of the routes.
abbrev pub IsSeen : Desired → Type 0
IsSeen d = (k : String) → has_key k d.seen ≡ has_key k (map key d.routes)

has_key-append :
    (k : String) (ms : List ManagedRoute) (m : ManagedRoute)
    → has_key k (map key (ms ++ m ∷ [])) ≡ (str_eq k (key m) || has_key k (map key ms))
has_key-append k [] m = refl
has_key-append k (n ∷ ms) m = ground (arith, has_key-append k ms m)

pub add_route_to-IsSeen : (d : Desired) (m : ManagedRoute) → IsSeen d → IsSeen (add_route_to d m)
unfolding add_route_to
add_route_to-IsSeen d m h k = elim (Bool-cases (has_key (key m) d.seen)) [
  | inl y ↦ rw y (h k)
  | inr n ↦ rw (n, has_key-append k d.routes m) (ground (arith, h k))
]

pub add_route_to-AllPlain :
    (d : Desired) (m : ManagedRoute)
    → IsPlain m.route
    → AllPlain d.routes
    → AllPlain (add_route_to d m).routes
unfolding add_route_to
add_route_to-AllPlain d m p h = elim (Bool-cases (has_key (key m) d.seen)) [
  | inl y ↦ rw y h
  | inr n ↦ rw n (All-append (λ (o : ManagedRoute). IsPlain o.route) d.routes (m ∷ []) h (p, tt))
]

-- A route whose key is there has its destination there.
key-dst :
    (d : String) (m : ManagedRoute) (ms : List ManagedRoute)
    → IsPlain m.route
    → AllPlain ms
    → has_key (key m) (map key ms) ≡ true
    → at d m ≡ true
    → is_some (find_dst d ms) ≡ true
key-dst d m [] p ps h a = cc
key-dst d m (n ∷ ns) p ps h a = elim (Bool-cases (str_eq (key m) (key n))) [
  | inl y ↦ ground (arith, same_dst m n d p ps.0 y)
  | inr y ↦ ground (arith, key-dst d m ns p ps.1)
]

-- Adding a route adds it at its destination, if nothing goes there yet.
pub find_dst-add_route_to :
    (d : String) (s : Desired) (m : ManagedRoute)
    → IsPlain m.route
    → AllPlain s.routes
    → IsSeen s
    → find_dst d (add_route_to s m).routes ≡ first (find_dst d s.routes) (find_dst d (m ∷ []))
unfolding add_route_to
find_dst-add_route_to d s m p ps h = elim (Bool-cases (has_key (key m) s.seen)) [
  | inr n ↦ rw n (find_dst-append d s.routes (m ∷ []))
  | inl y ↦ elim (Bool-cases (at d m)) [
    | inr o ↦ rw (y, o) (ground arith)
    | inl o ↦ rw (y, o) (ground (arith, key-dst d m s.routes p ps (sym (h (key m)) ∙ y) o))
  ]
]

first_assoc : (x y z : Option ManagedRoute) → first (first x y) z ≡ first x (first y z)
first_assoc none y z = refl
first_assoc (some x) y z = refl

find_dst-cons :
    (d : String) (m : ManagedRoute) (ms : List ManagedRoute)
    → first (find_dst d (m ∷ [])) (find_dst d ms) ≡ find_dst d (m ∷ ms)
find_dst-cons d m ms = ground arith

-- The routes of the state after the loop over the others.
module _ (syntax : Syntax) (tp : TunnelPlan) where
  pub record Kept (s : Desired) (os : List ManagedRoute) (r : Desired) : Type 0 where
    pub seen : IsSeen r
    pub plain : AllPlain r.routes
    pub found :
        (d : String)
        → find_dst d r.routes
          ≡ first (find_dst d s.routes) (find_dst d (select (λ o. not (yields syntax tp o)) os))

  pub keep_others-Kept :
      (s : Desired) (os : List ManagedRoute)
      → AllPlain os
      → AllPlain s.routes
      → IsSeen s
      → Kept s os (keep_others syntax tp s os)
  unfolding keep_others
  keep_others-Kept s [] p ps h = record {
    seen = h;
    plain = ps;
    found = λ d. first_none (find_dst d s.routes);
  }
    where
      first_none : (x : Option ManagedRoute) → x ≡ first x none
      first_none none = refl
      first_none (some m) = refl
  keep_others-Kept s (o ∷ os) p ps h = elim (Bool-cases (yields syntax tp o)) [
    | inl y ↦
        let k = keep_others-Kept s os p.1 ps h in
        rw y (record { seen = k.seen; plain = k.plain; found = λ d. rw y (k.found d) })
    | inr n ↦
        let k =
          keep_others-Kept (add_route_to s o) os p.1 (add_route_to-AllPlain s o p.0 ps)
            (add_route_to-IsSeen s o h) in
        rw n (record {
          seen = k.seen;
          plain = k.plain;
          found = λ d. rw n (
              k.found d
              ∙ ap
                  (λ (x : Option ManagedRoute).
                    first x (find_dst d (select (λ o. not (yields syntax tp o)) os)))
                  (find_dst-add_route_to d s o p.0 ps h)
              ∙ first_assoc (find_dst d s.routes) (find_dst d (o ∷ [])) _
              ∙ ap (first (find_dst d s.routes)) (find_dst-cons d o _));
        })
  ]

-- The destinations taken are those of the routes.
abbrev pub IsTaken : List String → List ManagedRoute → Type 0
IsTaken taken ms = (k : String) → has_key k taken ≡ is_some (find_dst k ms)

pub IsTaken-of : (ms : List ManagedRoute) → IsTaken (map dst ms) ms
IsTaken-of [] k = refl
IsTaken-of (m ∷ ms) k = ground (arith, str_eq_comm k (dst m), IsTaken-of ms k)

pub add_route_to-IsTaken :
    (taken : List String) (s : Desired) (m : ManagedRoute)
    → IsPlain m.route
    → AllPlain s.routes
    → IsSeen s
    → IsTaken taken s.routes
    → IsTaken (dst m ∷ taken) (add_route_to s m).routes
add_route_to-IsTaken taken s m p ps h t k =
    rw (find_dst-add_route_to k s m p ps h) (ground (arith, str_eq_comm k (dst m), t k))

taken-first :
    (d : String) (m : ManagedRoute) (ms rs : List ManagedRoute)
    → is_some (find_dst (dst m) ms) ≡ true
    → first (find_dst d ms) (find_dst d rs) ≡ first (find_dst d ms) (find_dst d (m ∷ rs))
taken-first d m ms rs h = elim (Bool-cases (at d m)) [
  | inr n ↦ rw n refl
  | inl y ↦ ground (arith, h, ap (λ (k : String). find_dst k ms) ((str_eq_iff (dst m) d).0 y))
]

pub find_dst-place_from :
    (d : String) (taken : List String) (s : Desired) (rs : List ManagedRoute)
    → AllPlain rs
    → AllPlain s.routes
    → IsSeen s
    → IsTaken taken s.routes
    → find_dst d (place_from taken s rs).routes ≡ first (find_dst d s.routes) (find_dst d rs)
unfolding place_from
find_dst-place_from d taken s [] p ps h t = ground arith
find_dst-place_from d taken s (r ∷ rs) p ps h t = elim (Bool-cases (has_key (dst r) taken)) [
  | inl y ↦ rw y (
      find_dst-place_from d taken s rs p.1 ps h t
      ∙ taken-first d r s.routes rs (sym (t (dst r)) ∙ y))
  | inr n ↦ rw n (
      find_dst-place_from d (dst r ∷ taken) (add_route_to s r) rs p.1
        (add_route_to-AllPlain s r p.0 ps) (add_route_to-IsSeen s r h)
        (add_route_to-IsTaken taken s r p.0 ps h t)
      ∙ ap (λ (x : Option ManagedRoute). first x (find_dst d rs))
          (find_dst-add_route_to d s r p.0 ps h)
      ∙ first_assoc (find_dst d s.routes) (find_dst d (r ∷ [])) (find_dst d rs)
      ∙ ap (first (find_dst d s.routes)) (find_dst-cons d r rs))
]

-- For other routes and tunnel routes whose destinations' fields hold no separator: in the set that
-- `Beside` makes, the first route to any destination is the first of the others to it that does not
-- yield to the tunnels, and the first of the tunnels' to it if there is none.
pub find_dst-beside :
    (syntax : Syntax) (tp : TunnelPlan) (others : List ManagedRoute)
    → AllPlain others
    → AllPlain tp.routes
    → (d : String)
    → find_dst d (beside syntax tp others)
      ≡ first (find_dst d (select (λ o. not (yields syntax tp o)) others)) (find_dst d tp.routes)
unfolding beside place
find_dst-beside syntax tp others p q d =
    let empty : Desired = record { seen = []; routes = [] } in
    let kept = keep_others syntax tp empty others in
    let k = keep_others-Kept syntax tp empty others p tt (λ k. refl) in
    find_dst-place_from d (map dst kept.routes) kept tp.routes q k.plain k.seen
      (IsTaken-of kept.routes)
    ∙ ap (λ (x : Option ManagedRoute). first x (find_dst d tp.routes)) (k.found d)
