-- ===== src/Routing/Conflict.antt =====
-- internal/routing/conflict.go: managed routes that overlap and go to different next hops.
pub mod Shared
use riftroute.Base.{
  String, str_eq, ◌<>◌, ◌==◌, bool_eq, if◌then◌else◌, Bool, true, false, not, ◌&&◌, List, [], ◌∷◌,
  ◌++◌, Option, none, some,
}
use riftroute.Netip.{Prefix, addr, masked, overlaps}
use riftroute.Netip.Syntax.{Syntax}
use riftroute.Domain.{Route, ManagedRoute}

-- domain.Conflict.
pub record Conflict : Type 0 where
  pub kind : String
  pub a : String
  pub b : String
  pub detail : String

-- `label`.
abbrev pub label : ManagedRoute → String
label m =
    let prof = if str_eq m.profile_id "" then m.route.profile else m.profile_id in
    if m.route.reject
    then m.route.dst_cidr <> " reject (" <> prof <> ")"
    else m.route.dst_cidr <> " via " <> m.route.gateway <> " dev " <> m.route.iface <> " (" <> prof
      <> ")"

-- The local type `entry`, and the loop that parses the routes into it.
pub record Entry : Type 0 where
  pub pfx : Prefix
  pub r : ManagedRoute

unfoldable pub entries : Syntax → List ManagedRoute → List Entry
entries syntax [] = []
entries syntax (r ∷ rs) =
    let rest = entries syntax rs in
    elim (syntax.parse_prefix r.route.dst_cidr) [
      | none ↦ rest
      | some p ↦ record { pfx = masked p; r = r } ∷ rest
    ]

unfoldable pub same_hop : Route → Route → Bool
same_hop a b = str_eq a.gateway b.gateway && (str_eq a.iface b.iface && bool_eq a.reject b.reject)

-- The inner loop's body: the conflict of two entries, if they have one.
unfoldable pub conflict_of : Entry → Entry → Option Conflict
conflict_of a b =
    if not (bool_eq a.pfx.is4 b.pfx.is4)
    then none
    else if not (overlaps a.pfx b.pfx)
    then none
    else if same_hop a.r.route b.r.route
    then none
    else some (
        if a.pfx.bits == b.pfx.bits
        then record {
          kind = "duplicate";
          a = label a.r;
          b = label b.r;
          detail = "same destination routed two different ways";
        }
        else record {
          kind = "shadowed";
          a = label a.r;
          b = label b.r;
          detail =
              "the more-specific route wins (longest-prefix match); the broader one is partly shadowed";
        })

abbrev pub append_some : Option Conflict → List Conflict → List Conflict
append_some none cs = cs
append_some (some c) cs = c ∷ cs

-- The inner loop, and the outer one.
unfoldable pub conflicts_with : Entry → List Entry → List Conflict
conflicts_with a [] = []
conflicts_with a (b ∷ bs) = append_some (conflict_of a b) (conflicts_with a bs)

unfoldable pub conflicts_among : List Entry → List Conflict
unfolding conflicts_with
conflicts_among [] = []
conflicts_among (a ∷ others) = conflicts_with a others ++ conflicts_among others

-- `DetectConflicts`.
unfoldable pub detect_conflicts : Syntax → List ManagedRoute → List Conflict
unfolding entries conflicts_among
detect_conflicts syntax routes = conflicts_among (entries syntax routes)
