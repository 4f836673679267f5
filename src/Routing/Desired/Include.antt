-- ===== src/Routing/Desired/Include.antt =====
-- The part of `BuildDesired` for the profiles that go into the VPN: a table of its own on Linux, and
-- `buildDarwinInclude`, PF rules that carry the target.
use Prim.Native.Char.{code}
use Prim.Native.String as Str
use riftroute.Base.{
  ℕ, ◌==◌, leb, ◌<>◌, String, str_eq, if◌then◌else◌, Bool, true, false, not, ◌&&◌, ◌||◌, List, [],
  ◌∷◌, ◌++◌, any, Option, none, some, ◌⊎◌, inl, inr,
}
use riftroute.Netip.{Addr, Prefix, masked}
use riftroute.Netip.Syntax.{Syntax}
use riftroute.Domain.{Family, family_v4, family_v6, ManagedRule, PolicyRule}
use riftroute.Domain.Profiles.{Profile, Rule, rule_app}
use riftroute.Routing.Keys.{rule_key}
use riftroute.Routing.Plan.{has_key}
use riftroute.Routing.Aggregate.{aggregate}
use riftroute.Routing.Nets.{around_tunnels}
use riftroute.Routing.Destinations.{in_family, profile_prefixes}
use riftroute.Routing.Tailscale.{model_b_rule_prio, tailscale_rule_prio, proto_for, fam_of}
use riftroute.Routing.Desired.{
  BuildInput, BuildError, no_policy_routing, no_tunnel, not_uid_like, app_no_tunnel, is_v6,
  families_of,
}

abbrev pub model_b_table : String
model_b_table = "5252"

abbrev pub model_b_mark : String
model_b_mark = "0x5252"

-- `vpnFor`, and an address as text, "" for none.
abbrev pub vpn_for : BuildInput → Family → Option Addr × String
vpn_for d fam =
    if is_v6 fam then (d.vpn_gateway_v6, d.vpn_iface_v6) else (d.vpn_gateway_v4, d.vpn_iface_v4)

abbrev pub gateway_text : Syntax → Option Addr → String
gateway_text syntax none = ""
gateway_text syntax (some a) = syntax.print_addr a

-- The rules so far with their keys, and the families that need the dedicated table.
pub record RuleDraft : Type 0 where
  pub seen : List String
  pub rules : List ManagedRule
  pub v4 : Bool
  pub v6 : Bool

-- A rule is added once; `marks` says whether its family then needs the table.
unfoldable pub add_rule : BuildInput → String → Bool → PolicyRule → RuleDraft → RuleDraft
add_rule d id marks r ds =
    let managed : ManagedRule = record { rule = r; profile_id = id; created_at = d.beside.now } in
    if has_key (rule_key r) ds.seen then ds else record {
      seen = rule_key r ∷ ds.seen;
      rules = ds.rules ++ managed ∷ [];
      v4 = ds.v4 || (marks && not (is_v6 r.family));
      v6 = ds.v6 || (marks && is_v6 r.family);
    }

-- A rule into the dedicated table.
abbrev pub table_rule : BuildInput → String → Family → PolicyRule
table_rule d selector fam = record {
  priority = model_b_rule_prio;
  selector = selector;
  table = model_b_table;
  family = fam;
  proto = proto_for d.beside.platform;
  route_to_iface = "";
  route_to_gw = "";
}

unfoldable pub table_rules :
    Syntax → BuildInput → String → Family → List Prefix → RuleDraft → RuleDraft
unfolding add_rule
table_rules syntax d id fam [] ds = ds
table_rules syntax d id fam (p ∷ ps) ds =
    table_rules syntax d id fam ps
      (add_rule d id true (table_rule d ("to " <> syntax.print_prefix p) fam) ds)

-- What is left of an include profile's destinations, aggregated.
unfoldable pub include_prefixes : Syntax → BuildInput → List Prefix → Profile → Family → List Prefix
unfolding profile_prefixes
include_prefixes syntax d nets p fam =
    let outside = around_tunnels (in_family (profile_prefixes syntax d.given p) fam) nets in
    aggregate (
      if str_eq d.beside.platform "darwin"
      then around_tunnels outside d.beside.tailscale
      else outside)

-- Linux: the destinations of both families, and one rule on the mark if the profile has an app.
unfoldable pub include_linux : Syntax → BuildInput → List Prefix → Profile → RuleDraft → RuleDraft
unfolding table_rules include_prefixes add_rule
include_linux syntax d nets p ds =
    let first = (families_of d p).0 in
    let second = (families_of d p).1 in
    let one = table_rules syntax d p.id first (include_prefixes syntax d nets p first) ds in
    let both = table_rules syntax d p.id second (include_prefixes syntax d nets p second) one in
    if any (λ (r : Rule). str_eq r.kind rule_app) p.rules
    then add_rule d p.id true (table_rule d ("fwmark " <> model_b_mark) family_v4) both
    else both

-- `IsUIDLike`.
abbrev pub uid_code : ℕ → Bool
uid_code c =
    (leb b'a' c && leb c b'z')
    || (leb b'A' c && leb c b'Z')
    || (leb b'0' c && leb c b'9')
    || c == b'_'
    || c == b'-'
    || c == b'.'

abbrev pub all_uid_codes : String → Bool
all_uid_codes Str.[] = true
all_uid_codes (Str.◌∷◌ c s) = uid_code (code c) && all_uid_codes s

unfoldable pub is_uid_like : String → Bool
is_uid_like s = not (str_eq s "") && all_uid_codes s

-- macOS: a rule that carries the target, if the family has a tunnel.
unfoldable pub route_to_rule : Syntax → BuildInput → String → Family → Option PolicyRule
route_to_rule syntax d selector fam =
    let rule : PolicyRule = record {
      priority = model_b_rule_prio;
      selector = selector;
      table = "";
      family = fam;
      proto = "riftroute";
      route_to_iface = (vpn_for d fam).1;
      route_to_gw = gateway_text syntax (vpn_for d fam).0;
    } in
    if str_eq (vpn_for d fam).1 "" then none else some rule

unfoldable pub route_to_rules :
    Syntax → BuildInput → String → Family → List Prefix → RuleDraft → BuildError ⊎ RuleDraft
unfolding route_to_rule add_rule
route_to_rules syntax d id fam [] ds = inr ds
route_to_rules syntax d id fam (p ∷ ps) ds =
    elim (route_to_rule syntax d ("to " <> syntax.print_prefix p) fam) [
      | none ↦ inl (no_tunnel fam)
      | some r ↦ route_to_rules syntax d id fam ps (add_rule d id false r ds)
    ]

-- A user's traffic to Tailscale's networks passes first.
unfoldable pub pass_user :
    Syntax → BuildInput → String → String → Family → List Prefix → RuleDraft → RuleDraft
unfolding add_rule
pass_user syntax d id user fam [] ds = ds
pass_user syntax d id user fam (n ∷ ns) ds =
    let selector = "to " <> syntax.print_prefix (masked n) <> " user " <> user in
    let rule : PolicyRule = record {
      priority = tailscale_rule_prio;
      selector = selector;
      table = "";
      family = fam;
      proto = "riftroute";
      route_to_iface = "";
      route_to_gw = "";
    } in
    pass_user syntax d id user fam ns
      (if str_eq (fam_of n.is4) fam then add_rule d id false rule ds else ds)

-- One user's rules of a family, and whether there are any.
unfoldable pub user_rules :
    Syntax → BuildInput → String → String → Family → RuleDraft → RuleDraft × Bool
unfolding route_to_rule add_rule pass_user
user_rules syntax d id user fam ds = elim (route_to_rule syntax d ("user " <> user) fam) [
  | none ↦ (ds, false)
  | some r ↦ (pass_user syntax d id user fam d.beside.tailscale (add_rule d id false r ds), true)
]

unfoldable pub app_rules :
    Syntax → BuildInput → String → List Rule → RuleDraft → BuildError ⊎ RuleDraft
unfolding is_uid_like user_rules
app_rules syntax d id [] ds = inr ds
app_rules syntax d id (r ∷ rs) ds =
    let one = user_rules syntax d id r.value family_v4 ds in
    let both = user_rules syntax d id r.value family_v6 one.0 in
    let skipped = app_rules syntax d id rs ds in
    let emitted = app_rules syntax d id rs both.0 in
    if not (str_eq r.kind rule_app)
    then skipped
    else if not (is_uid_like r.value)
    then inl (not_uid_like r.value)
    else if one.1 || both.1
    then emitted
    else inl (app_no_tunnel r.value)

-- `buildDarwinInclude`.
unfoldable pub include_darwin :
    Syntax → BuildInput → List Prefix → Profile → RuleDraft → BuildError ⊎ RuleDraft
unfolding route_to_rules include_prefixes app_rules
include_darwin syntax d nets p ds =
    let first = (families_of d p).0 in
    let second = (families_of d p).1 in
    elim (route_to_rules syntax d p.id first (include_prefixes syntax d nets p first) ds) [
      | inl cause ↦ inl cause
      | inr one ↦
          elim (route_to_rules syntax d p.id second (include_prefixes syntax d nets p second) one) [
            | inl cause ↦ inl cause
            | inr both ↦ app_rules syntax d p.id p.rules both
          ]
    ]

-- The case of include mode.
unfoldable pub include_profile :
    Syntax → BuildInput → List Prefix → Profile → RuleDraft → BuildError ⊎ RuleDraft
unfolding include_linux include_darwin
include_profile syntax d nets p ds =
    if not d.policy_routing
    then inl no_policy_routing
    else if str_eq d.beside.platform "darwin"
    then include_darwin syntax d nets p ds
    else inr (include_linux syntax d nets p ds)
