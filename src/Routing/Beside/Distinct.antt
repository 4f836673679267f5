-- ===== src/Routing/Beside/Distinct.antt =====
-- `Beside` keeps to one route per destination, which `Reconcile`'s plan relies on.
use riftroute.Base.{
  String, false, List, [], ◌∷◌, ◌++◌, map, Option, none, some, All, ◌≡◌, refl, sym, ◌∙◌, inl, inr,
  arith, Bool-cases,
}
use riftroute.Netip.Syntax.{Syntax}
use riftroute.Domain.{ManagedRoute}
use riftroute.Routing.Keys.{IsPlain}
use riftroute.Routing.Plan.{key, dst, has_key}
use riftroute.Routing.Plan.Shape.{at, find_dst, find_dst-none, IsDistinct, AllPlain}
use riftroute.Routing.Beside.{
  TunnelPlan, Desired, add_route_to, place_from, place, yields, keep_others, beside,
}
use riftroute.Routing.Beside.Placed.{
  str_eq_comm, is_some, find_dst-append, find_dst-add_route_to, IsSeen, IsTaken,
  add_route_to-IsSeen, add_route_to-AllPlain, add_route_to-IsTaken, IsTaken-of, keep_others-Kept,
}

IsDistinct-append :
    (ms : List ManagedRoute) (m : ManagedRoute)
    → IsDistinct ms
    → find_dst (dst m) ms ≡ none
    → IsDistinct (ms ++ m ∷ [])
IsDistinct-append [] m u h = (refl, tt)
IsDistinct-append (n ∷ ns) m u h = (
  find_dst-append (dst n) ns (m ∷ []) ∙ ground (arith, u.0, str_eq_comm (dst m) (dst n), h),
  IsDistinct-append ns m u.1 (ground arith),
)

add_route_to-IsDistinct :
    (s : Desired) (m : ManagedRoute)
    → IsDistinct s.routes
    → find_dst (dst m) s.routes ≡ none
    → IsDistinct (add_route_to s m).routes
unfolding add_route_to
add_route_to-IsDistinct s m u h = elim (Bool-cases (has_key (key m) s.seen)) [
  | inl y ↦ rw y u
  | inr n ↦ rw n (IsDistinct-append s.routes m u h)
]

not_taken : (x : Option ManagedRoute) → is_some x ≡ false → x ≡ none
not_taken none h = refl
not_taken (some m) h = cc

place_from-IsDistinct :
    (taken : List String) (s : Desired) (rs : List ManagedRoute)
    → AllPlain rs
    → AllPlain s.routes
    → IsSeen s
    → IsTaken taken s.routes
    → IsDistinct s.routes
    → IsDistinct (place_from taken s rs).routes
unfolding place_from
place_from-IsDistinct taken s [] p ps h t u = u
place_from-IsDistinct taken s (r ∷ rs) p ps h t u = elim (Bool-cases (has_key (dst r) taken)) [
  | inl y ↦ rw y (place_from-IsDistinct taken s rs p.1 ps h t u)
  | inr n ↦ rw n (
      place_from-IsDistinct (dst r ∷ taken) (add_route_to s r) rs p.1
        (add_route_to-AllPlain s r p.0 ps) (add_route_to-IsSeen s r h)
        (add_route_to-IsTaken taken s r p.0 ps h t)
        (add_route_to-IsDistinct s r u
          (not_taken (find_dst (dst r) s.routes) (sym (t (dst r)) ∙ n))))
]

-- None of the routes still to come has its destination taken.
Free : Desired → List ManagedRoute → Type 0
Free s os = All (λ o. find_dst (dst o) s.routes ≡ none) os

Free-add :
    (s : Desired) (o : ManagedRoute) (os : List ManagedRoute)
    → IsPlain o.route
    → AllPlain s.routes
    → IsSeen s
    → Free s os
    → All (λ m. at (dst o) m ≡ false) os
    → Free (add_route_to s o) os
unfolding Free
Free-add s o [] p ps h f n = tt
Free-add s o (m ∷ os) p ps h f n = (
  find_dst-add_route_to (dst m) s o p ps h ∙ ground (arith, f.0, n.0, str_eq_comm (dst o) (dst m)),
  Free-add s o os p ps h f.1 n.1,
)

keep_others-IsDistinct :
    (syntax : Syntax) (tp : TunnelPlan) (s : Desired) (os : List ManagedRoute)
    → AllPlain os
    → AllPlain s.routes
    → IsSeen s
    → IsDistinct os
    → Free s os
    → IsDistinct s.routes
    → IsDistinct (keep_others syntax tp s os).routes
unfolding keep_others Free
keep_others-IsDistinct syntax tp s [] p ps h uo f u = u
keep_others-IsDistinct syntax tp s (o ∷ os) p ps h uo f u = elim (Bool-cases (yields syntax tp o)) [
  | inl y ↦ rw y (keep_others-IsDistinct syntax tp s os p.1 ps h uo.1 f.1 u)
  | inr n ↦ rw n (
      keep_others-IsDistinct syntax tp (add_route_to s o) os p.1 (add_route_to-AllPlain s o p.0 ps)
        (add_route_to-IsSeen s o h) uo.1
        (Free-add s o os p.0 ps h f.1 (find_dst-none (dst o) os uo.0))
        (add_route_to-IsDistinct s o u f.0))
]

-- For others with at most one route to each destination, and destinations whose fields hold no
-- separator: the set that `Beside` makes has at most one route to each destination too, whatever
-- routes the tunnel plan brings.
pub beside-IsDistinct :
    (syntax : Syntax) (tp : TunnelPlan) (others : List ManagedRoute)
    → AllPlain others
    → AllPlain tp.routes
    → IsDistinct others
    → IsDistinct (beside syntax tp others)
unfolding beside place Free
beside-IsDistinct syntax tp others p q u =
    let empty : Desired = record { seen = []; routes = [] } in
    let kept = keep_others syntax tp empty others in
    let k = keep_others-Kept syntax tp empty others p tt (λ k. refl) in
    place_from-IsDistinct (map dst kept.routes) kept tp.routes q k.plain k.seen
      (IsTaken-of kept.routes)
      (keep_others-IsDistinct syntax tp empty others p tt (λ k. refl) u (free others) tt)
  where
    free : (os : List ManagedRoute) → Free (record { seen = []; routes = [] }) os
    free [] = tt
    free (o ∷ os) = (refl, free os)
