-- ===== src/Examples/Rules.antt =====
-- An include rule cut around a tunnel's network, and what yielded put back.
use riftroute.Base.{
  ℕ, str_eq, ◌==◌, if◌then◌else◌, true, not, ◌&&◌, ◌||◌, [], ◌∷◌, any, none, some, ◌≡◌, refl, arith,
}
use riftroute.Netip.{Addr, Prefix, contains, masked}
use riftroute.Netip.Syntax.{Syntax}
use riftroute.Netip.Halves.{halves}
use riftroute.Domain.{ManagedRule, family_v4}
use riftroute.Routing.Plan.{key}
use riftroute.Routing.Nets.{around_tunnels}
use riftroute.Routing.Aggregate.Coverage.{covers}
use riftroute.Routing.Beside.{TunnelPlan}
use riftroute.Routing.RulesBeside.{rule_destination, pieces}
use riftroute.Routing.RulesBeside.Pieces.{selects, pieces-selects}
use riftroute.Core.Yielded.{Yielded, put_back_routes, yielded_to}
use riftroute.Core.Yielded.Restored.{has_route_key, of_profile, put_back_routes-yielded_to}
use riftroute.Examples.Data.{net8, direct, tunneled, narrow}

abbrev half : ℕ → Prefix
half value = record { is4 = true; value = value; bits = 9 }

-- A syntax that knows 10/8 and its halves.
abbrev syntax9 : Syntax
syntax9 = record {
  parse_prefix = λ s.
      if str_eq s "10.0.0.0/8"
      then some net8
      else if str_eq s "10.0.0.0/9"
      then some (half 0x0a000000)
      else none;
  parse_addr = λ s. none;
  print_prefix = λ p. if p.bits == 8 then "10.0.0.0/8" else "10.0.0.0/9";
  print_addr = λ a. "";
}

abbrev include : ManagedRule
include = record {
  rule = record {
    priority = 100;
    selector = "to 10.0.0.0/8";
    table = "51820";
    family = family_v4;
    proto = "riftroute";
    route_to_iface = "";
    route_to_gw = "";
  };
  profile_id = "work";
  created_at = 0;
}

abbrev host : Addr
host = record { is4 = true; value = 0x0a010203; zone = "" }

-- A tunnel to the upper half leaves the lower one.
around_test : around_tunnels (net8 ∷ []) (half 0x0a800000 ∷ []) ≡ half 0x0a000000 ∷ []
unfolding around_tunnels contains masked halves
around_test = refl

pieces-selects_example :
    any (selects syntax9 host) (pieces syntax9 (half 0x0a800000 ∷ []) include)
    ≡ (selects syntax9 host include && not (covers (half 0x0a800000 ∷ []) host))
unfolding around_tunnels contains masked halves rule_destination
pieces-selects_example =
    pieces-selects syntax9 (half 0x0a800000 ∷ []) include net8 host (omega arith, tt) refl
      (refl, tt)

abbrev tunnel_plan : TunnelPlan
tunnel_plan = record { routes = tunneled ∷ []; nets = half 0x0a800000 ∷ [] }

put_back_routes-yielded_to_example :
    has_route_key (key narrow) (
      put_back_routes
        (yielded_to syntax9 tunnel_plan (direct ∷ narrow ∷ []) [] (tunneled ∷ []))
        (tunneled ∷ []))
    ≡ (has_route_key (key narrow) (tunneled ∷ [])
        || any (of_profile (key narrow)) (direct ∷ narrow ∷ []))
put_back_routes-yielded_to_example =
    put_back_routes-yielded_to syntax9 tunnel_plan (direct ∷ narrow ∷ []) [] (tunneled ∷ [])
      (key narrow)

abbrev cut : Yielded
cut = record { routes = []; rules = record { rule = include; pieces = [] } ∷ [] }
