-- ===== src/Routing/Destinations/Held.antt =====
-- What `HoldsRoute` and `HoldsRule` answer, by the networks that the enabled profiles list.
use mathlib.Core.List.{Memᴰ}
use riftroute.Base.{Bool, true, false, ◌||◌, ◌≡◌, ap, ◌∙◌, sym, inl, inr, some, arith, leb→le}
use riftroute.Netip.{Addr, Prefix, addr, contains, is_valid, masked}
use riftroute.Netip.Blocks.{contains-masked, Inside-self, Inside→contains}
use riftroute.Netip.Syntax.{Syntax}
use riftroute.Domain.{Family, ManagedRoute, ManagedRule}
use riftroute.Domain.Profiles.{Profile}
use riftroute.Routing.Aggregate.{aggregate}
use riftroute.Routing.Aggregate.Coverage.{covers-aggregate}
use riftroute.Routing.Aggregate.Within.{within_trans, within-aggregate}
use riftroute.Routing.Nets.{inside, within}
use riftroute.Routing.Nets.Coverage.{within-covers}
use riftroute.Routing.Destinations.{
  Destinations, DestinationInput, in_family, no_destinations, profile_prefixes, add_profiles,
  profile_destinations, unsure_of, holds_route, holds_rule, rule_net,
}
use riftroute.Routing.Destinations.Listed.{
  of_mode, has_mode, in_family-aggregated, of_mode_listed, ListedBy, of_mode_covered,
}

masked-inside : (x : Prefix) → is_valid x ≡ true → inside (masked x) x ≡ true
unfolding masked
masked-inside x v = ground (
  arith,
  contains-masked x (addr (masked x)),
  Inside→contains (masked x) (addr (masked x)) (Inside-self (masked x) (leb→le _ _ v)),
)

module _ (syntax : Syntax) (d : DestinationInput) where
  of_mode-profile_destinations :
      (include : Bool) (fam : Family)
      → in_family (of_mode include (profile_destinations syntax d)) fam
        ≡ aggregate
            (in_family (of_mode include (add_profiles syntax d no_destinations d.profiles)) fam)
  unfolding profile_destinations
  of_mode-profile_destinations true fam = in_family-aggregated _ fam
  of_mode-profile_destinations false fam = in_family-aggregated _ fam

  within_listed :
      (include : Bool) (p : Profile) (fam : Family) (x : Prefix)
      → Memᴰ p d.profiles
      → has_mode include p ≡ true
      → Memᴰ x (in_family (profile_prefixes syntax d p) fam)
      → is_valid x ≡ true
      → within (masked x) (in_family (of_mode include (profile_destinations syntax d)) fam) ≡ true
  within_listed include p fam x i h m v = rw (of_mode-profile_destinations include fam) (
      within_trans (masked x) x _ (masked-inside x v) (
        within-aggregate _ x
          (of_mode_listed syntax d include no_destinations d.profiles p fam x i h m) v))

  -- For any syntax and input: a route whose destination an enabled exclude profile lists (by a rule, a
  -- domain's address or a list), parsed as that prefix and of its family, is held.
  pub holds_route_listed :
      (p : Profile) (x : Prefix) (r : ManagedRoute)
      → Memᴰ p d.profiles
      → has_mode false p ≡ true
      → Memᴰ x (in_family (profile_prefixes syntax d p) r.route.family)
      → is_valid x ≡ true
      → syntax.parse_prefix r.route.dst_cidr ≡ some x
      → holds_route syntax (profile_destinations syntax d) r ≡ true
  unfolding holds_route
  holds_route_listed p x r i h m v e =
      rw e (ground (arith, within_listed false p r.route.family x i h m v))

  -- The same of an include profile and a rule for the destination.
  pub holds_rule_listed :
      (p : Profile) (x : Prefix) (r : ManagedRule)
      → Memᴰ p d.profiles
      → has_mode true p ≡ true
      → Memᴰ x (in_family (profile_prefixes syntax d p) r.rule.family)
      → is_valid x ≡ true
      → rule_net syntax r.rule ≡ some (masked x)
      → holds_rule syntax (profile_destinations syntax d) r ≡ true
  unfolding holds_rule
  holds_rule_listed p x r i h m v e =
      rw (holds_rule, e) (ground (arith, within_listed true p r.rule.family x i h m v))

  within_covered :
      (include : Bool) (fam : Family) (x : Prefix) (a : Addr)
      → within x (in_family (of_mode include (profile_destinations syntax d)) fam) ≡ true
      → contains x a ≡ true
      → ListedBy syntax d include d.profiles fam a
  within_covered include fam x a w c =
      elim (of_mode_covered syntax d include no_destinations d.profiles fam a (
        sym (covers-aggregate _ a)
        ∙ within-covers x _ a (ap (within x) (sym (of_mode-profile_destinations include fam)) ∙ w)
            c)) [ inr l ↦ l | inl h ↦ ground arith ]

  -- How a route that can be judged is.
  holds_route-judged :
      (ds : Destinations) (r : ManagedRoute) (x : Prefix)
      → r.route.table ≡ ""
      → syntax.parse_prefix r.route.dst_cidr ≡ some x
      → holds_route syntax ds r ≡ (
          within (masked x) (in_family ds.exclude r.route.family)
          || unsure_of ds r.profile_id false r.route.family)
  unfolding holds_route
  holds_route-judged ds r x t e = rw (t, e)

  route_within :
      (r : ManagedRoute) (x : Prefix)
      → r.route.table ≡ ""
      → syntax.parse_prefix r.route.dst_cidr ≡ some x
      → unsure_of (profile_destinations syntax d) r.profile_id false r.route.family ≡ false
      → holds_route syntax (profile_destinations syntax d) r ≡ true
      → within (masked x) (in_family (profile_destinations syntax d).exclude r.route.family) ≡ true
  unfolding holds_route
  route_within r x t e u h =
      let held = sym (holds_route-judged (profile_destinations syntax d) r x t e) ∙ h in
      ground arith

  -- For any syntax and input: where a main-table route with a destination that parses is held, and its own profile is not unsure of its family, some enabled exclude profile lists each of its addresses.
  pub holds_route_covered :
      (r : ManagedRoute) (x : Prefix) (a : Addr)
      → r.route.table ≡ ""
      → syntax.parse_prefix r.route.dst_cidr ≡ some x
      → unsure_of (profile_destinations syntax d) r.profile_id false r.route.family ≡ false
      → holds_route syntax (profile_destinations syntax d) r ≡ true
      → contains x a ≡ true
      → ListedBy syntax d false d.profiles r.route.family a
  holds_route_covered r x a t e u h c =
      within_covered false r.route.family (masked x) a (route_within r x t e u h)
        (contains-masked x a ∙ c)

  rule_within :
      (r : ManagedRule) (x : Prefix)
      → rule_net syntax r.rule ≡ some x
      → unsure_of (profile_destinations syntax d) r.profile_id true r.rule.family ≡ false
      → holds_rule syntax (profile_destinations syntax d) r ≡ true
      → within x (in_family (profile_destinations syntax d).include r.rule.family) ≡ true
  unfolding holds_rule
  rule_within r x e u h = ground arith

  -- The same of a destination rule and the include profiles.
  pub holds_rule_covered :
      (r : ManagedRule) (x : Prefix) (a : Addr)
      → rule_net syntax r.rule ≡ some x
      → unsure_of (profile_destinations syntax d) r.profile_id true r.rule.family ≡ false
      → holds_rule syntax (profile_destinations syntax d) r ≡ true
      → contains x a ≡ true
      → ListedBy syntax d true d.profiles r.rule.family a
  holds_rule_covered r x a e u h c = within_covered true r.rule.family x a (rule_within r x e u h) c
