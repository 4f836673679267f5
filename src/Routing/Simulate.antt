-- ===== src/Routing/Simulate.antt =====
-- internal/routing/simulate.go: the longest-prefix-match decision over a set of routes, and whether
-- the kernel's decision diverges from it.
pub mod Longest
pub mod Drift
use riftroute.Base.{
  ℕ, String, str_eq, ltb, bool_eq, if◌then◌else◌, Bool, true, false, not, ◌&&◌, ◌||◌, List, [], ◌∷◌,
  Option, none, some,
}
use riftroute.Netip.{Addr, Prefix, contains}
use riftroute.Netip.Syntax.{Syntax}
use riftroute.Domain.{Route, RouteDecision, family_v4, family_v6, owner_vpn}

-- The length of a route's prefix if the route matches the target, as the loop tests it.
unfoldable pub match_bits : Syntax → Addr → Route → Option ℕ
match_bits syntax target r = elim (syntax.parse_prefix r.dst_cidr) [
  | none ↦ none
  | some p ↦ if bool_eq p.is4 target.is4 && contains p target then some p.bits else none
]

-- `bits > bestBits`, bestBits being -1 until a route has matched.
abbrev pub better : ℕ → Option (Route × ℕ) → Bool
better bits none = true
better bits (some (r, best)) = ltb best bits

-- The loop: the best route so far, and its prefix's length.
unfoldable pub best_route : Syntax → Addr → Option (Route × ℕ) → List Route → Option (Route × ℕ)
best_route syntax target best [] = best
best_route syntax target best (r ∷ rs) =
    best_route syntax target
      (elim (match_bits syntax target r) [
        | none ↦ best
        | some bits ↦ if better bits best then some (r, bits) else best
      ])
      rs

-- The decision on the best route; `vpn_by_iface` is the map that may be nil.
abbrev pub undecided : Syntax → Addr → RouteDecision
undecided syntax target = record {
  target = syntax.print_addr target;
  source = "simulated";
  matched_cidr = "";
  gateway = "";
  iface = "";
  family = if target.is4 then family_v4 else family_v6;
  owner = "";
  profile = "";
  via_vpn = false;
  reachable = false;
  rejected = false;
}

abbrev pub via_vpn : Option (String → Bool) → Route → Bool
via_vpn none r = str_eq r.owner owner_vpn
via_vpn (some by_iface) r = by_iface r.iface

unfoldable pub decide_on : RouteDecision → Option (String → Bool) → Route → RouteDecision
decide_on dec vpn_by_iface r =
    if r.reject
    then record dec {
      matched_cidr = r.dst_cidr;
      reachable = false;
      rejected = true;
      owner = r.owner;
      profile = r.profile;
    }
    else record dec {
      matched_cidr = r.dst_cidr;
      reachable = true;
      gateway = r.gateway;
      iface = r.iface;
      owner = r.owner;
      profile = r.profile;
      via_vpn = via_vpn vpn_by_iface r;
    }

unfoldable pub simulate : Syntax → List Route → Addr → Option (String → Bool) → RouteDecision
simulate syntax routes target vpn_by_iface = elim (best_route syntax target none routes) [
  | none ↦ undecided syntax target
  | some (r, bits) ↦ decide_on (undecided syntax target) vpn_by_iface r
]

-- `Drift`.
unfoldable pub drift : RouteDecision → RouteDecision → Bool
drift kernel simulated =
    if not (bool_eq kernel.reachable simulated.reachable)
      || not (bool_eq kernel.rejected simulated.rejected)
    then true
    else if not kernel.reachable
    then false
    else not (str_eq kernel.iface simulated.iface) || not (bool_eq kernel.via_vpn simulated.via_vpn)
