-- ===== src/Examples/Destinations.antt =====
-- Two profiles: one that routes 10/8 and a domain's address past the VPN, and one that routes
-- 10.1/16 into it.
use mathlib.Core.List.{Memᴰ}
use riftroute.Base.{str_eq, if◌then◌else◌, true, false, none, some, [], ◌∷◌, ◌||◌, map, ◌≡◌, refl}
use riftroute.Netip.Syntax.{Syntax}
use riftroute.Netip.{addr, masked, contains}
use riftroute.Domain.{family_v4, PolicyRule}
use riftroute.Domain.Profiles.{Profile, rule_cidr, rule_domain, mode_include, mode_tunnel}
use riftroute.Routing.Nets.{within}
use riftroute.Routing.Aggregate.{aggregate}
use riftroute.Routing.Destinations.{
  DestinationInput, Destinations, profile_destinations, holds_route, include_owner,
  profile_prefixes, unsure_of,
}
use riftroute.Routing.Destinations.Held.{holds_route_listed, holds_route_covered}
use riftroute.Routing.Destinations.Listed.{ListedBy}
use riftroute.Routing.Destinations.Owner.{Owned, all_nets, include_owner-Owned}
use riftroute.Routing.Aggregate.Coverage.{covers}
use riftroute.Routing.TunnelRoutes.{
  TunnelInput, tunnel_profile_routes, with_routes, by_tunnel, with_extra,
}
use riftroute.Routing.TunnelRoutes.Covered.{texts_cover, fed, texts_cover-with_routes}
use riftroute.Examples.Data.{syntax, net8, net16, direct, narrow}

abbrev home : Profile
home = record {
  id = "home";
  enabled = true;
  mode = "exclude";
  gateway = "auto";
  priority = 0;
  rules =
      record { kind = rule_cidr; value = "10.0.0.0/8" }
      ∷ record { kind = rule_domain; value = "example.com" }
      ∷ [];
  lists = [];
  tunnel = "";
}

abbrev office : Profile
office = record {
  id = "office";
  enabled = true;
  mode = mode_include;
  gateway = "auto";
  priority = 0;
  rules = [];
  lists = "office" ∷ [];
  tunnel = "";
}

abbrev given : DestinationInput
given = record {
  profiles = home ∷ office ∷ [];
  lists = λ name. if str_eq name "office" then "10.1.0.0/16" ∷ [] else [];
  domains = λ name. if str_eq name "example.com" then "192.168.1.1" ∷ [] else [];
}

abbrev known : Destinations
known = profile_destinations syntax given

abbrev to_office : PolicyRule
to_office = record {
  priority = 5252;
  selector = "to 10.1.0.0/16";
  table = "5252";
  family = family_v4;
  proto = "riftroute";
  route_to_iface = "";
  route_to_gw = "";
}

-- The domain has no IPv6 address, so the profile is unsure of that family.
unsure_test : known.unsure ≡ ("home", "v6") ∷ []
unfolding profile_destinations
unsure_test = refl

owner_test : include_owner syntax known to_office ≡ "office"
unfolding include_owner profile_destinations aggregate masked contains
owner_test = refl

holds_route_listed_example : holds_route syntax known direct ≡ true
unfolding profile_prefixes
holds_route_listed_example =
    holds_route_listed syntax given home net8 direct (Memᴰ.head refl) refl (Memᴰ.head refl) refl
      refl

holds_route_covered_example : ListedBy syntax given false given.profiles family_v4 (addr net16)
unfolding profile_destinations unsure_of holds_route within aggregate masked contains
holds_route_covered_example =
    holds_route_covered syntax given narrow net16 (addr net16) refl refl refl refl refl

include_owner-Owned_example :
    Owned net16 (all_nets family_v4 known.includes) (include_owner syntax known to_office)
unfolding include_owner masked
include_owner-Owned_example = include_owner-Owned syntax known to_office net16 refl

-- A syntax that also prints and reads the first address of 10/8.
abbrev reads : Syntax
reads = record syntax {
  parse_addr = λ s. if str_eq s "10.0.0.0" then some (addr net8) else none;
  print_addr = λ a. "10.0.0.0";
}

-- A tunnel to 10.1/16, and a profile that puts 10/8 into it.
abbrev work : TunnelInput
work = record {
  name = "work";
  iface = "utun4";
  v6 = false;
  block = false;
  routes = "10.1.0.0/16" ∷ [];
  bypass = [];
  servers = [];
}

abbrev wide : Profile
wide = record {
  id = "wide";
  enabled = true;
  mode = mode_tunnel;
  gateway = "auto";
  priority = 0;
  rules = record { kind = rule_cidr; value = "10.0.0.0/8" } ∷ [];
  lists = [];
  tunnel = "work";
}

abbrev into_work : DestinationInput
into_work = record { profiles = wide ∷ []; lists = λ name. []; domains = λ name. [] }

with_routes_test :
    (with_extra work (tunnel_profile_routes reads into_work "work")).routes
    ≡ "10.1.0.0/16" ∷ "10.0.0.0/8" ∷ []
unfolding with_extra tunnel_profile_routes aggregate masked
with_routes_test = refl

texts_cover-with_routes_example :
    map
      (λ (t : TunnelInput). texts_cover reads t.routes (addr net8))
      (with_routes (work ∷ []) (tunnel_profile_routes reads into_work))
    ≡ map
        (λ (t : TunnelInput).
          texts_cover reads t.routes (addr net8) || covers (fed reads into_work t.name) (addr net8))
        (work ∷ [])
unfolding by_tunnel aggregate masked
texts_cover-with_routes_example =
    texts_cover-with_routes reads into_work (work ∷ []) (addr net8)
      ((record { prefix = refl; not_prefix = refl; address = refl }, tt), tt)
