-- ===== src/Domain.antt =====
-- internal/domain: routes, policy rules, plans and decisions, as the engine reads them. Go strings
-- are texts; times and metrics are numbers.
pub mod Profiles
use riftroute.Base.{ℕ, String, Bool, Option, List}

-- Family and Owner are named strings in the source.
abbrev pub Family : Type 0
Family = String

abbrev pub family_v4 : Family
family_v4 = "v4"

abbrev pub family_v6 : Family
family_v6 = "v6"

abbrev pub Owner : Type 0
Owner = String

abbrev pub owner_riftroute : Owner
owner_riftroute = "riftroute"

abbrev pub owner_vpn : Owner
owner_vpn = "vpn"

pub record Route : Type 0 where
  pub dst_cidr : String
  pub gateway : String
  pub iface : String
  pub metric : ℕ
  pub family : Family
  pub owner : Owner
  pub proto : String
  pub table : String
  pub profile : String
  pub cloned : Bool
  pub scoped : Bool
  pub reject : Bool

pub record PolicyRule : Type 0 where
  pub priority : ℕ
  pub selector : String
  pub table : String
  pub family : Family
  pub proto : String
  pub route_to_iface : String
  pub route_to_gw : String

pub record ManagedRoute : Type 0 where
  pub route : Route
  pub profile_id : String
  pub created_at : ℕ

pub record ManagedRule : Type 0 where
  pub rule : PolicyRule
  pub profile_id : String
  pub created_at : ℕ

-- `other` stands for a kind that no constant names.
pub data OpKind : Type 0 where
  add_route del_route add_rule del_rule : OpKind
  other : String → OpKind

-- Command and Human, which only display an operation, are left out.
pub record PlanOp : Type 0 where
  pub kind : OpKind
  pub route : Option ManagedRoute
  pub rule : Option ManagedRule

pub record Plan : Type 0 where
  pub ops : List PlanOp
  pub inverse : List PlanOp

-- Where traffic to a target goes. Tunnel and TunnelType, which other code fills in, are left out.
pub record RouteDecision : Type 0 where
  pub target : String
  pub source : String
  pub matched_cidr : String
  pub gateway : String
  pub iface : String
  pub family : Family
  pub owner : Owner
  pub profile : String
  pub via_vpn : Bool
  pub reachable : Bool
  pub rejected : Bool
