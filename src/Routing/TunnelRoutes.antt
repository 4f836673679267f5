-- ===== src/Routing/TunnelRoutes.antt =====
-- internal/routing/engine.go, `TunnelProfileRoutes` and `WithRoutes`: the destinations of the
-- tunnel-mode profiles, added to the tunnels' own.
pub mod Covered
use riftroute.Base.{
  ◌==◌, String, str_eq, if◌then◌else◌, Bool, not, ◌&&◌, List, [], ◌∷◌, ◌++◌, map, any,
}
use riftroute.Netip.{Addr, Prefix, width, addr}
use riftroute.Netip.Syntax.{Syntax}
use riftroute.Domain.Profiles.{Profile, mode_tunnel}
use riftroute.Routing.Aggregate.{aggregate}
use riftroute.Routing.Destinations.{DestinationInput, profile_prefixes}

-- `TunnelInput`.
pub record TunnelInput : Type 0 where
  pub name : String
  pub iface : String
  pub v6 : Bool
  pub block : Bool
  pub routes : List String
  pub bypass : List Addr
  pub servers : List Addr

-- Whether a profile's destinations go into a tunnel.
abbrev pub feeds : String → Profile → Bool
feeds name p =
    p.enabled && (str_eq p.mode mode_tunnel && (not (str_eq p.tunnel "") && str_eq p.tunnel name))

-- The entry of the map `byTunnel` for a name. The source takes a profile's families in any order.
unfoldable pub by_tunnel : Syntax → DestinationInput → String → List Profile → List Prefix
unfolding profile_prefixes
by_tunnel syntax d name [] = []
by_tunnel syntax d name (p ∷ ps) =
    let own = profile_prefixes syntax d p in
    (if feeds name p then own.v4 ++ own.v6 else []) ++ by_tunnel syntax d name ps

-- A host as its bare address.
unfoldable pub route_text : Syntax → Prefix → String
route_text syntax p =
    if p.bits == width p.is4 then syntax.print_addr (addr p) else syntax.print_prefix p

-- `TunnelProfileRoutes`, as a function of the name; a tunnel without entries is not in the map.
unfoldable pub tunnel_profile_routes : Syntax → DestinationInput → String → List String
unfolding by_tunnel route_text
tunnel_profile_routes syntax d name =
    map (route_text syntax) (aggregate (by_tunnel syntax d name d.profiles))

-- The inner loop of `WithRoutes`: each text once.
unfoldable pub once : List String → List String → List String
once seen [] = []
once seen (r ∷ rs) =
    let skipped = once seen rs in
    let add_profile_of_mode = r ∷ once (r ∷ seen) rs in
    if any (str_eq r) seen then skipped else add_profile_of_mode

unfoldable pub with_extra : TunnelInput → List String → TunnelInput
unfolding once
with_extra t [] = t
with_extra t (e ∷ es) = record t { routes = once [] (t.routes ++ e ∷ es) }

-- `WithRoutes`. Where `extra` is empty it returns the tunnels, as the loop would.
unfoldable pub with_routes : List TunnelInput → (String → List String) → List TunnelInput
unfolding with_extra
with_routes tunnels extra = map (λ (t : TunnelInput). with_extra t (extra t.name)) tunnels
