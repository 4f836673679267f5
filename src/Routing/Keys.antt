-- ===== src/Routing/Keys.antt =====
-- internal/routing/engine.go: the keys by which the engine compares routes and rules.
use text.Mathlib.TextLemmas.{append_assoc}
use riftroute.Base.{
  String, str_eq, decimal, ◌<>◌, no_bar, bar-injective, if◌then◌else◌, true, ◌≡◌, sym, ◌∙◌, inl,
  inr, Bool-cases,
}
use riftroute.Domain.{Route, PolicyRule}

-- `dstKey`: what the kernel keeps one route per.
unfoldable pub dst_key : Route → String
dst_key r = r.family <> "|" <> r.table <> "|" <> r.dst_cidr

-- `RouteKey`.
unfoldable pub route_key : Route → String
route_key r =
    let k = r.family <> "|" <> r.table <> "|" <> r.dst_cidr <> "|" <> r.gateway <> "|" <> r.iface in
    if r.reject then k <> "|reject" else k

-- The fields of a destination hold no separator: a family, a table name, a CIDR.
pub record IsPlain (r : Route) : Type 0 where
  pub family : no_bar r.family ≡ true
  pub table : no_bar r.table ≡ true
  pub dst : no_bar r.dst_cidr ≡ true

-- What stands in a route's key behind its destination.
rest_of : Route → String
rest_of r =
    if r.reject then (r.gateway <> "|" <> r.iface) <> "|reject" else r.gateway <> "|" <> r.iface

route_key-split :
    (r : Route) → route_key r ≡ r.family <> "|" <> r.table <> "|" <> r.dst_cidr <> "|" <> rest_of r
unfolding route_key rest_of
route_key-split r = elim (Bool-cases r.reject) [ inl e ↦ rw e (simp append_assoc) | inr e ↦ rw e ]

-- Routes with one key have one destination, if their destinations' fields hold no separator.
pub route_key-dst_key :
    (r s : Route) → IsPlain r → IsPlain s → route_key r ≡ route_key s → dst_key r ≡ dst_key s
unfolding dst_key
route_key-dst_key r s p q e =
    let (families, e₁) =
      bar-injective r.family s.family _ _ p.family q.family
        (sym (route_key-split r) ∙ e ∙ route_key-split s) in
    let (tables, e₂) = bar-injective r.table s.table _ _ p.table q.table e₁ in
    let (dsts, _) = bar-injective r.dst_cidr s.dst_cidr _ _ p.dst q.dst e₂ in
    rw (families, tables, dsts)

-- `RuleKey`: with the macOS route-to target where there is one.
unfoldable pub rule_key : PolicyRule → String
rule_key r =
    let k = decimal r.priority <> "|" <> r.selector <> "|" <> r.table <> "|" <> r.family in
    if str_eq r.route_to_iface "" then k else k <> "|" <> r.route_to_iface <> "|" <> r.route_to_gw
