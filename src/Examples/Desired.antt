-- ===== src/Examples/Desired.antt =====
-- What a profile that routes 10/8 past the VPN, and one that routes 10.1/16 into it, imply.
use riftroute.Base.{true, false, List, [], ◌∷◌, none, some, map, ◌≡◌, refl, inl, All}
use riftroute.Netip.{addr}
use riftroute.Domain.{ManagedRoute, ManagedRule}
use riftroute.Domain.Profiles.{Profile, rule_cidr, mode_include}
use riftroute.Routing.Keys.{route_key}
use riftroute.Routing.Nets.{outside_tunnels, around_tunnels}
use riftroute.Routing.Aggregate.{aggregate}
use riftroute.Routing.Beside.{TunnelPlan}
use riftroute.Routing.Desired.{BuildInput, no_tunnel}
use riftroute.Routing.Desired.Build.{build_desired}
use riftroute.Routing.Desired.Origin.{Gives}
use riftroute.Routing.Desired.Built.{HasOriginOrCopy, build_desired-HasOrigin}
use riftroute.Examples.Data.{syntax, net16, router}

abbrev past : Profile
past = record {
  id = "home";
  enabled = true;
  mode = "exclude";
  gateway = "auto";
  priority = 1;
  rules = record { kind = rule_cidr; value = "10.0.0.0/8" } ∷ [];
  lists = [];
  tunnel = "";
}

abbrev into : Profile
into = record past {
  id = "office";
  mode = mode_include;
  priority = 2;
  rules = record { kind = rule_cidr; value = "10.1.0.0/16" } ∷ [];
}

abbrev no_tunnels : TunnelPlan
no_tunnels = record { routes = []; nets = [] }

abbrev network : BuildInput
network = record {
  given = record { profiles = past ∷ into ∷ []; lists = λ name. []; domains = λ name. [] };
  gateway_v4 = some router;
  gateway_v6 = none;
  phys_iface_v4 = "en0";
  phys_iface_v6 = "";
  vpn_gateway_v4 = none;
  vpn_gateway_v6 = none;
  vpn_iface_v4 = "tun0";
  vpn_iface_v6 = "";
  beside = record { tailscale = []; table = ""; exit_node = false; platform = "linux"; now = 0 };
  policy_routing = true;
  v6_first = λ id. false;
}

-- The dedicated table's default, the route past the VPN, and the rule into that table.
build_desired_test :
    Gives
      (λ (made : List ManagedRoute × List ManagedRule).
        (map (λ (m : ManagedRoute). m.route.dst_cidr) made.0 ≡ "0.0.0.0/0" ∷ "10.0.0.0/8" ∷ [])
        × (map (λ (r : ManagedRule). r.rule.selector) made.1 ≡ "to 10.1.0.0/16" ∷ []))
      (build_desired syntax network no_tunnels)
unfolding build_desired outside_tunnels aggregate around_tunnels route_key
build_desired_test = (refl, refl)

-- Without a tunnel there is nowhere to route into.
build_desired_no_tunnel_test :
    build_desired syntax (record network { vpn_iface_v4 = "" }) no_tunnels ≡ inl (no_tunnel "v4")
unfolding build_desired outside_tunnels aggregate around_tunnels
build_desired_no_tunnel_test = refl

build_desired-HasOrigin_example :
    Gives
      (λ (made : List ManagedRoute × List ManagedRule).
        All (HasOriginOrCopy syntax network no_tunnels (addr net16)) made.0)
      (build_desired syntax network no_tunnels)
build_desired-HasOrigin_example = build_desired-HasOrigin syntax network no_tunnels (addr net16)
