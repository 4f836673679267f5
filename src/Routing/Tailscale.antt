-- ===== src/Routing/Tailscale.antt =====
-- internal/routing/engine.go, `BesideTailscale`: what a desired set gets for a Tailscale beside it.
pub mod Again
pub mod Records
use riftroute.Base.{
  ℕ, ◌==◌, String, str_eq, if◌then◌else◌, Bool, true, false, not, ◌&&◌, ◌||◌, List, [], ◌∷◌, ◌++◌,
  map, any, select, bool_eq,
}
use riftroute.Netip.{Prefix}
use riftroute.Domain.{Family, family_v4, family_v6, PolicyRule, ManagedRoute, ManagedRule}

abbrev pub model_b_rule_prio : ℕ
model_b_rule_prio = 5252

abbrev pub tailscale_rule_prio : ℕ
tailscale_rule_prio = 5251

abbrev pub tailscale_tag : String
tailscale_tag = "tailscale"

abbrev pub bypass_table : String
bypass_table = "5253"

abbrev pub bypass_rule_prio : ℕ
bypass_rule_prio = 5260

-- The part of `DesiredInput` that it reads.
pub record TailscaleInput : Type 0 where
  pub tailscale : List Prefix
  pub table : String
  pub exit_node : Bool
  pub platform : String
  pub now : ℕ

-- `famOf` and `protoFor`.
abbrev pub fam_of : Bool → Family
fam_of is4 = if is4 then family_v4 else family_v6

abbrev pub proto_for : String → String
proto_for platform = if str_eq platform "linux" then "riftroute" else ""

-- What an earlier apply's set held of these.
unfoldable pub is_copy : ManagedRoute → Bool
is_copy r = str_eq r.route.table bypass_table

unfoldable pub is_pass : ManagedRule → Bool
is_pass r =
    str_eq r.rule.table bypass_table
    || (r.rule.priority == tailscale_rule_prio && not (str_eq r.rule.table ""))

abbrev pub without_copies : List ManagedRoute → List ManagedRoute
without_copies routes = select (λ r. not (is_copy r)) routes

abbrev pub without_passes : List ManagedRule → List ManagedRule
without_passes rules = select (λ r. not (is_pass r)) rules

-- One rule for a family, when the flag says so.
abbrev rule_for : TailscaleInput → ℕ → String → String → Family → ManagedRule
rule_for t prio selector table fam = record {
  rule = record {
    priority = prio;
    selector = selector;
    table = table;
    family = fam;
    proto = proto_for t.platform;
    route_to_iface = "";
    route_to_gw = "";
  };
  profile_id = tailscale_tag;
  created_at = t.now;
}

abbrev one_if : Bool → ManagedRule → List ManagedRule
one_if b r = if b then r ∷ [] else []

-- The rules that look Tailscale's own table up first, for the families that it routes.
unfoldable pub pass_rules : TailscaleInput → List ManagedRule
pass_rules t =
    let rule = rule_for t tailscale_rule_prio "from all suppress_prefixlength 0" t.table in
    one_if (any (λ (n : Prefix). n.is4) t.tailscale) (rule family_v4)
    ++ one_if (any (λ (n : Prefix). not n.is4) t.tailscale) (rule family_v6)

-- The copy of a main-table route.
unfoldable pub bypass_of : ManagedRoute → ManagedRoute
bypass_of m = record m { route = record m.route { table = bypass_table } }

abbrev pub in_main_table : ManagedRoute → Bool
in_main_table m = str_eq m.route.table ""

unfoldable pub copies : List ManagedRoute → List ManagedRoute
unfolding bypass_of
copies routes = map bypass_of (select in_main_table routes)

unfoldable pub bypass_rules : TailscaleInput → List ManagedRoute → List ManagedRule
bypass_rules t routes =
    let rule = rule_for t bypass_rule_prio "from all" bypass_table in
    let has = λ (fam : Family).
      any (λ (r : ManagedRoute). in_main_table r && str_eq r.route.family fam) routes in
    one_if (has family_v4) (rule family_v4) ++ one_if (has family_v6) (rule family_v6)

-- `BesideTailscale`.
unfoldable pub beside_tailscale :
    TailscaleInput → List ManagedRoute → List ManagedRule → List ManagedRoute × List ManagedRule
unfolding is_copy is_pass pass_rules copies bypass_rules
beside_tailscale t routes rules =
    let rs = without_copies routes in
    let ls = without_passes rules in
    if str_eq t.table "" || str_eq t.platform "darwin"
    then (rs, ls)
    else if t.exit_node
    then (rs ++ copies rs, ls ++ (pass_rules t ++ bypass_rules t rs))
    else (rs, ls ++ pass_rules t)
