-- ===== src/Routing/Verify.antt =====
-- internal/routing/tunnels.go, `VerifyRoutes`: the owned routes held against the kernel's table.
pub mod Partition
use text.Mathlib.Text.{starts_with}
use riftroute.Base.{
  ℕ, ◌-◌, ◌*◌, ◌/◌, ◌%◌, ◌^◌, String, str_eq, ◌<>◌, ltb, leb, ◌==◌, if◌then◌else◌, Bool, true,
  false, not, ◌&&◌, ◌||◌, List, [], ◌∷◌, ◌++◌, map, Option, none, some, any,
}
use riftroute.Netip.{Addr, Prefix, masked}
use riftroute.Netip.Syntax.{Syntax}
use riftroute.Domain.{Route, ManagedRoute, Family, family_v6}
use riftroute.Routing.Keys.{dst_key, route_key}
use riftroute.Routing.Plan.{key, has_key, has_route}

-- `maskedDstKey`.
unfoldable pub masked_dst_key : Syntax → Route → String
masked_dst_key syntax r = elim (syntax.parse_prefix r.dst_cidr) [
  | none ↦ dst_key r
  | some p ↦ dst_key (record r { dst_cidr = syntax.print_prefix (masked p) })
]

-- Addr.Unmap, then without a zone: an IPv4 address mapped into IPv6 becomes IPv4.
unfoldable pub unmap : Addr → Addr
unmap a =
    if not a.is4 && a.value / 2 ^ 32 == 0xffff
    then record { is4 = true; value = a.value % 2 ^ 32; zone = "" }
    else record a { zone = "" }

-- fe80::/10, and the scope that KAME embeds in bytes 2 and 3.
is_link_local6 : Addr → Bool
is_link_local6 a = not a.is4 && a.value / 2 ^ 118 == 0x3fa

without_scope : Addr → Addr
without_scope a = record a { value = a.value - a.value / 2 ^ 96 % 2 ^ 16 * 2 ^ 96 }

-- `gatewayKey` and `SameGateway`.
unfoldable pub gateway_key : Syntax → String → String
unfolding unmap is_link_local6 without_scope
gateway_key syntax s = elim (syntax.parse_addr s) [
  | none ↦ s
  | some a ↦ let b = unmap a in syntax.print_addr (if is_link_local6 b then without_scope b else b)
]

unfoldable pub same_gateway : Syntax → String → String → Bool
same_gateway syntax a b = str_eq (gateway_key syntax a) (gateway_key syntax b)

-- `KernelKey`.
unfoldable pub kernel_key : Syntax → Route → String
unfolding masked_dst_key gateway_key
kernel_key syntax r =
    let k = masked_dst_key syntax r <> "|" <> gateway_key syntax r.gateway <> "|" <> r.iface in
    if r.reject then k <> "|reject" else k

-- `Installed`: the set `routes` and the map `lowest`.
pub record Installed : Type 0 where
  pub routes : List String
  pub lowest : List (String × ℕ)

abbrev pub lowest_of : String → List (String × ℕ) → Option ℕ
lowest_of k [] = none
lowest_of k ((j, m) ∷ ms) = if str_eq k j then some m else lowest_of k ms

-- One entry of the kernel's table in `IndexInstalled`.
note_lowest : Syntax → Route → List (String × ℕ) → List (String × ℕ)
note_lowest syntax k lowest =
    let dst = masked_dst_key syntax k in
    if k.scoped then lowest else elim (lowest_of dst lowest) [
      | none ↦ (dst, k.metric) ∷ lowest
      | some m ↦ if ltb k.metric m then (dst, k.metric) ∷ lowest else lowest
    ]

note_routes : Syntax → Route → List String → List String
note_routes syntax k routes =
    let dst = masked_dst_key syntax k in
    if k.reject
    then (dst <> "|reject") ∷ routes
    else let on_iface = (dst <> "|dev " <> k.iface) ∷ routes in
      if str_eq k.gateway ""
      then on_iface
      else (dst <> "|via " <> gateway_key syntax k.gateway) ∷ on_iface

unfoldable pub index_from : Syntax → Installed → List Route → Installed
unfolding note_lowest note_routes
index_from syntax inst [] = inst
index_from syntax inst (k ∷ ks) =
    index_from syntax
      (if k.cloned then inst else record {
        routes = note_routes syntax k inst.routes;
        lowest = note_lowest syntax k inst.lowest;
      })
      ks

-- `IndexInstalled`.
unfoldable pub index_installed : Syntax → List Route → Installed
unfolding index_from
index_installed syntax kernel = index_from syntax (record { routes = []; lowest = [] }) kernel

-- `Has`.
unfoldable pub has : Syntax → Installed → Route → Bool
has syntax inst r =
    let dst = masked_dst_key syntax r in
    if r.reject
    then has_key (dst <> "|reject") inst.routes
    else if not (str_eq r.gateway "")
    then has_key (dst <> "|via " <> gateway_key syntax r.gateway) inst.routes
    else has_key (dst <> "|dev " <> r.iface) inst.routes

-- `effectiveMetric` and `Outranked`.
unfoldable pub effective_metric : Route → ℕ
effective_metric r =
    if ltb 0 r.metric then r.metric else if str_eq r.family family_v6 then 1024 else 0

unfoldable pub outranked : Syntax → Installed → Route → Bool
unfolding effective_metric
outranked syntax inst r = elim (lowest_of (masked_dst_key syntax r) inst.lowest) [
  | none ↦ false
  | some lowest ↦ leb lowest (effective_metric r)
]

-- `IsTunnelRoute`.
unfoldable pub is_tunnel_route : ManagedRoute → Bool
is_tunnel_route m = starts_with m.profile_id "tunnel:"

pub record Verified : Type 0 where
  pub kept : List ManagedRoute
  pub missing : List ManagedRoute
  pub taken : List ManagedRoute

-- What the switch decides of one owned route, given the family's index (`none`: its records are
-- trusted).
pub data Fate : Type 0 where
  keep take_over lose : Fate

unfoldable pub fate : Syntax → (String → Bool) → Option Installed → ManagedRoute → Fate
fate syntax held none o = keep
fate syntax held (some inst) o =
    if has syntax inst o.route
    then keep
    else if outranked syntax inst o.route
    then take_over
    else if held (key o) && not (is_tunnel_route o)
    then keep
    else lose

abbrev pub settle : Fate → ManagedRoute → Verified → Verified
settle keep o v = record v { kept = o ∷ v.kept }
settle take_over o v = record v { kept = o ∷ v.kept; taken = o ∷ v.taken }
settle lose o v = record v { missing = o ∷ v.missing }

-- The map `kernel` of the families read so far: `some none` stands for nil, after a failed read.
abbrev pub Cache : Type 0
Cache = List (Family × Option Installed)

abbrev pub cached : Family → Cache → Option (Option Installed)
cached f [] = none
cached f ((g, inst) ∷ cs) = if str_eq f g then some inst else cached f cs

-- What `VerifyRoutes` is given beside the owned routes.
pub record Check : Type 0 where
  pub syntax : Syntax
  pub desired : List ManagedRoute
  pub read : Family → Option (List Route)
  pub held : String → Bool
  pub only : Option (ManagedRoute → Bool)

abbrev accepts : Option (ManagedRoute → Bool) → ManagedRoute → Bool
accepts none o = true
accepts (some only) o = only o

-- Whether the loop looks a route up in the kernel.
unfoldable pub looked_up : Check → ManagedRoute → Bool
looked_up c o = has_route c.desired o && accepts c.only o

unfoldable pub read_index : Check → Family → Option Installed
read_index c f = elim (c.read f) [ none ↦ none | some rs ↦ some (index_installed c.syntax rs) ]

-- The index of one owned route's family, from the cache or read now, and the cache after it.
unfoldable pub fetch : Check → Cache → ManagedRoute → Option Installed × Cache
fetch c cache o =
    if looked_up c o
    then elim (cached o.route.family cache) [
      | some inst ↦ (inst, cache)
      | none ↦ let inst = read_index c o.route.family in (inst, (o.route.family, inst) ∷ cache)
    ]
    else (none, cache)

unfoldable pub verify_from : Check → Cache → List ManagedRoute → Verified × Cache
verify_from c cache [] = (record { kept = []; missing = []; taken = [] }, cache)
verify_from c cache (o ∷ os) =
    let (inst, cache') = fetch c cache o in
    let (v, last) = verify_from c cache' os in (settle (fate c.syntax c.held inst o) o v, last)

-- `VerifyRoutes`.
unfoldable pub verify_routes : Check → List ManagedRoute → Verified
unfolding verify_from
verify_routes c owned = (verify_from c [] owned).0
