-- ===== src/Core/Yielded/Restored.antt =====
-- What is there after what yielded is put back.
use riftroute.Base.{
  String, str_eq, str_eq_iff, Bool, true, not, ◌&&◌, ◌||◌, List, [], ◌∷◌, ◌++◌, map, select, any,
  ◌≡◌, refl, sym, ap, ◌∙◌, inl, inr, arith, Bool-cases,
}
use riftroute.Netip.Syntax.{Syntax}
use riftroute.Domain.{ManagedRoute, ManagedRule}
use riftroute.Routing.Keys.{rule_key}
use riftroute.Routing.Plan.{key, has_key}
use riftroute.Routing.Beside.{TunnelPlan}
use riftroute.Routing.RulesBeside.{Rules, add_rules}
use riftroute.Routing.RulesBeside.Keys.{has_rule_key, add_rules-Added}
use riftroute.Core.Yielded.{
  YieldedRule, Yielded, put_routes, put_back_routes, is_piece, put_back_rules, gave_way, yielded_to,
}

-- Whether a route of the key is among routes.
abbrev pub has_route_key : String → List ManagedRoute → Bool
has_route_key k rs = has_key k (map key rs)

has_route_key-append :
    (k : String) (rs : List ManagedRoute) (r : ManagedRoute)
    → has_route_key k (rs ++ r ∷ []) ≡ (str_eq k (key r) || has_route_key k rs)
has_route_key-append k [] r = refl
has_route_key-append k (x ∷ rs) r = ground (arith, has_route_key-append k rs r)

put_routes-keys :
    (have : List String) (routes rs : List ManagedRoute) (k : String)
    → ((j : String) → has_key j have ≡ has_route_key j routes)
    → has_route_key k (put_routes have routes rs) ≡ (has_route_key k routes || has_route_key k rs)
unfolding put_routes
put_routes-keys have routes [] k h = ground arith
put_routes-keys have routes (r ∷ rs) k h = elim (Bool-cases (has_key (key r) have)) [
  | inr n ↦ rw n (
      put_routes-keys (key r ∷ have) (routes ++ r ∷ []) rs k
        (λ j. ap (λ b. str_eq j (key r) || b) (h j) ∙ sym (has_route_key-append j routes r))
      ∙ rw (has_route_key-append k routes r) (ground arith))
  | inl y ↦ rw y (put_routes-keys have routes rs k h ∙ known (sym (h (key r)) ∙ y))
]
  where
    known :
        has_route_key (key r) routes ≡ true
        → (has_route_key k routes || has_route_key k rs)
          ≡ (has_route_key k routes || has_route_key k (r ∷ rs))
    known there = elim (Bool-cases (str_eq k (key r))) [
      | inr n ↦ rw n refl
      | inl y ↦
          ground
            (arith, there, ap (λ (j : String). has_route_key j routes) ((str_eq_iff k (key r)).0 y))
    ]

-- A route of a profile, by its key.
abbrev pub of_profile : String → ManagedRoute → Bool
of_profile k r = str_eq k (key r) && not (str_eq r.profile_id "")

gave_way-keys :
    (placed routes : List ManagedRoute) (k : String)
    → (has_route_key k placed || has_route_key k (select (gave_way placed) routes))
      ≡ (has_route_key k placed || any (of_profile k) routes)
gave_way-keys placed [] k = refl
gave_way-keys placed (r ∷ rs) k = elim (Bool-cases (str_eq k (key r))) [
  | inr n ↦ ground (arith, gave_way-keys placed rs k)
  | inl y ↦ ground (
    arith,
    gave_way-keys placed rs k,
    ap (λ (j : String). has_route_key j placed) ((str_eq_iff k (key r)).0 y),
  )
]

-- For any plan, any routes and rules, and any placed routes: once what yielded is put back beside the
-- placed routes, a key is there exactly if it was placed, or is the key of one of the routes that
-- belongs to a profile. So no profile's route is lost to a tunnel, and nothing else comes back.
pub put_back_routes-yielded_to :
    (syntax : Syntax) (tp : TunnelPlan) (routes : List ManagedRoute) (rules : List ManagedRule)
    (placed : List ManagedRoute) (k : String)
    → has_route_key k (put_back_routes (yielded_to syntax tp routes rules placed) placed)
      ≡ (has_route_key k placed || any (of_profile k) routes)
unfolding put_back_routes yielded_to
put_back_routes-yielded_to syntax tp routes rules placed k =
    put_routes-keys (map key placed) placed (select (gave_way placed) routes) k (λ j. refl)
    ∙ gave_way-keys placed routes k

select-keys :
    (p : String → Bool) (rules : List ManagedRule) (k : String)
    → has_rule_key k (select (λ r. not (p (rule_key r.rule))) rules)
      ≡ (has_rule_key k rules && not (p k))
select-keys p [] k = refl
select-keys p (r ∷ rs) k = elim (Bool-cases (str_eq k (rule_key r.rule))) [
  | inr n ↦ ground (arith, select-keys p rs k)
  | inl y ↦ ground (arith, select-keys p rs k, ap p ((str_eq_iff k (rule_key r.rule)).0 y))
]

-- For any rules and anything that yielded: once it is put back, a rule's key is there exactly if it was
-- there and is no yielded rule's piece, or is a yielded rule's own.
pub put_back_rules-keys :
    (y : Yielded) (rules : List ManagedRule) (k : String)
    → has_rule_key k (put_back_rules y rules) ≡ (
        has_rule_key k rules && not (is_piece y.rules k)
        || has_rule_key k (map (λ (z : YieldedRule). z.rule) y.rules))
unfolding put_back_rules
put_back_rules-keys y rules k = by_rules y.routes y.rules
  where
    by_rules :
        (routes : List ManagedRoute) (zs : List YieldedRule)
        → has_rule_key k (put_back_rules (record { routes = routes; rules = zs }) rules) ≡ (
            has_rule_key k rules && not (is_piece zs k)
            || has_rule_key k (map (λ (z : YieldedRule). z.rule) zs))
    by_rules routes [] = ground arith
    by_rules routes (z ∷ zs) =
        let empty : Rules = record { seen = []; out = [] } in
        let whole = select (λ r. not (is_piece (z ∷ zs) (rule_key r.rule))) rules in
        let first = add_rules-Added empty whole (λ j. refl) tt in
        let second =
          add_rules-Added (add_rules empty whole) (map (λ (z : YieldedRule). z.rule) (z ∷ zs))
            first.seen first.distinct in
        second.keys k
        ∙ ap (λ b. b || has_rule_key k (map (λ (z : YieldedRule). z.rule) (z ∷ zs)))
            (first.keys k ∙ select-keys (is_piece (z ∷ zs)) rules k)
