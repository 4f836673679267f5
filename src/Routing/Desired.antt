-- ===== src/Routing/Desired.antt =====
-- internal/routing/engine.go, `BuildDesired`: the routes and rules that the enabled profiles imply,
-- the part of the profiles that go past the VPN. What `PlanTunnels` gives is an argument.
pub mod Include
pub mod Build
pub mod Origin
pub mod Built
use Prim.Native.Nat.{Ordering}
use Prim.Native.String.{compare}
use riftroute.Base.{
  ℕ, suc, ◌+◌, ltb, ◌==◌, String, str_eq, bool_eq, if◌then◌else◌, Bool, true, false, not, ◌&&◌,
  ◌||◌, List, [], ◌∷◌, Option, none, some, ◌⊎◌, inl, inr,
}
use riftroute.Netip.{Addr, Prefix}
use riftroute.Netip.Syntax.{Syntax}
use riftroute.Domain.{
  Family, family_v4, family_v6, Route, ManagedRoute, ManagedRule, PolicyRule, owner_riftroute,
}
use riftroute.Domain.Profiles.{Profile}
use riftroute.Routing.Aggregate.{aggregate}
use riftroute.Routing.Nets.{outside_tunnels}
use riftroute.Routing.Beside.{Desired, add_route_to}
use riftroute.Routing.Destinations.{DestinationInput, in_family, profile_prefixes}
use riftroute.Routing.Tailscale.{TailscaleInput, fam_of, proto_for}

-- `DesiredInput`, without the tunnels and what only `PlanTunnels` reads. An address is `none` where
-- the source's is invalid. Go iterates over a map in any order: `v6_first` says in which the two
-- families of a profile come.
pub record BuildInput : Type 0 where
  pub given : DestinationInput
  pub gateway_v4 : Option Addr
  pub gateway_v6 : Option Addr
  pub phys_iface_v4 : String
  pub phys_iface_v6 : String
  pub vpn_gateway_v4 : Option Addr
  pub vpn_gateway_v6 : Option Addr
  pub vpn_iface_v4 : String
  pub vpn_iface_v6 : String
  pub beside : TailscaleInput
  pub policy_routing : Bool
  pub v6_first : String → Bool

abbrev pub is_v6 : Family → Bool
is_v6 fam = str_eq fam family_v6

-- The errors, each without its text.
pub data BuildError : Type 0 where
  no_policy_routing : BuildError
  no_gateway : Family → BuildError
  bad_gateway : String → BuildError
  other_family : String → BuildError
  no_tunnel : Family → BuildError
  not_uid_like : String → BuildError
  app_no_tunnel : String → BuildError

-- `resolveGateway`.
unfoldable pub resolve_gateway :
    Syntax → BuildInput → String → Family → BuildError ⊎ (Addr × String)
resolve_gateway syntax d gateway fam =
    let iface = (if is_v6 fam then d.phys_iface_v6 else d.phys_iface_v4) in
    let auto = (if is_v6 fam then d.gateway_v6 else d.gateway_v4) in
    if str_eq gateway "" || str_eq gateway "auto"
    then elim auto [ none ↦ inl (no_gateway fam) | some a ↦ inr (a, iface) ]
    else elim (syntax.parse_addr gateway) [
      | none ↦ inl (bad_gateway gateway)
      | some a ↦ if str_eq (fam_of a.is4) fam then inr (a, iface) else inl (other_family gateway)
    ]

-- Whether a family that can't be routed is skipped rather than an error.
unfoldable pub skippable : Syntax → String → Bool
skippable syntax gateway =
    elim (syntax.parse_addr gateway) [ none ↦ false | some a ↦ true ]
    || (str_eq gateway "" || str_eq gateway "auto")

-- A route of an exclude profile.
abbrev pub exclude_route :
    Syntax → BuildInput → String → Family → Addr × String → Prefix → ManagedRoute
exclude_route syntax d id fam hop p = record {
  route = record {
    dst_cidr = syntax.print_prefix p;
    gateway = syntax.print_addr hop.0;
    iface = hop.1;
    metric = 0;
    family = fam;
    owner = owner_riftroute;
    proto = proto_for d.beside.platform;
    table = "";
    profile = id;
    cloned = false;
    scoped = false;
    reject = false;
  };
  profile_id = id;
  created_at = d.beside.now;
}

unfoldable pub add_routes :
    Syntax → BuildInput → String → Family → Addr × String → Desired → List Prefix → Desired
unfolding add_route_to
add_routes syntax d id fam hop ds [] = ds
add_routes syntax d id fam hop ds (p ∷ ps) =
    add_routes syntax d id fam hop (add_route_to ds (exclude_route syntax d id fam hop p)) ps

-- The counters of the loop over a profile's families, and the last error that was skipped.
pub record Excluded : Type 0 where
  pub desired : Desired
  pub skipped : ℕ
  pub families : ℕ
  pub skip_error : Option BuildError

-- What is left of a profile's destinations beside the tunnels and Tailscale.
abbrev pub exclude_prefixes : Syntax → BuildInput → List Prefix → Profile → Family → List Prefix
exclude_prefixes syntax d nets p fam =
    outside_tunnels (outside_tunnels (in_family (profile_prefixes syntax d.given p) fam) nets)
      d.beside.tailscale

-- The body of that loop.
unfoldable pub exclude_left :
    Syntax → BuildInput → Profile → Family → Excluded → List Prefix → BuildError ⊎ Excluded
unfolding resolve_gateway skippable add_routes
exclude_left syntax d p fam e [] = inr e
exclude_left syntax d p fam e (x ∷ xs) = elim (resolve_gateway syntax d p.gateway fam) [
  | inl cause ↦
      if skippable syntax p.gateway
      then inr
          (record e { skipped = suc e.skipped; families = suc e.families; skip_error = some cause })
      else inl cause
  | inr hop ↦ inr (record e {
    desired = add_routes syntax d p.id fam hop e.desired (aggregate (x ∷ xs));
    families = suc e.families;
  })
]

unfoldable pub exclude_family :
    Syntax → BuildInput → List Prefix → Profile → Family → Excluded → BuildError ⊎ Excluded
unfolding exclude_left
exclude_family syntax d nets p fam e =
    exclude_left syntax d p fam e (exclude_prefixes syntax d nets p fam)

-- Both families, and the error where every family was skipped.
abbrev pub families_of : BuildInput → Profile → Family × Family
families_of d p = if d.v6_first p.id then (family_v6, family_v4) else (family_v4, family_v6)

unfoldable pub excluded_result : Excluded → BuildError ⊎ Desired
excluded_result e = elim e.skip_error [
  | none ↦ inr e.desired
  | some cause ↦ if ltb 0 e.families && e.skipped == e.families then inl cause else inr e.desired
]

unfoldable pub exclude_profile :
    Syntax → BuildInput → List Prefix → Profile → Desired → BuildError ⊎ Desired
unfolding exclude_family excluded_result
exclude_profile syntax d nets p ds =
    let start : Excluded = record { desired = ds; skipped = 0; families = 0; skip_error = none } in
    elim (exclude_family syntax d nets p (families_of d p).0 start) [
      | inl cause ↦ inl cause
      | inr e ↦ elim (exclude_family syntax d nets p (families_of d p).1 e) [
        | inl cause ↦ inl cause
        | inr done ↦ excluded_result done
      ]
    ]
