-- ===== src/Routing/Destinations.antt =====
-- internal/routing/engine.go, `profilePrefixes` and `ProfileDestinations`: the networks that the
-- enabled profiles route, and whether they still hold a route or a rule.
pub mod Listed
pub mod Held
pub mod Owner
use riftroute.Base.{
  String, str_eq, ltb, if◌then◌else◌, Bool, true, false, not, ◌&&◌, ◌||◌, List, [], ◌∷◌, ◌++◌, any,
  select, bool_eq, Option, none, some, ℕ,
}
use riftroute.Netip.{Addr, Prefix, width, prefix_from, masked}
use riftroute.Netip.Syntax.{Syntax}
use riftroute.Domain.{Family, family_v4, family_v6, ManagedRoute, ManagedRule, PolicyRule}
use riftroute.Domain.Profiles.{
  Profile, Rule, Mode, mode_include, mode_tunnel, rule_cidr, rule_ip, rule_domain,
}
use riftroute.Routing.Aggregate.{aggregate}
use riftroute.Routing.Nets.{inside, within}
use riftroute.Routing.RulesBeside.{cut_prefix, entry_to_prefix}
use riftroute.Routing.Tailscale.{fam_of}

-- The part of `DesiredInput` that it reads. Lists and Domains are maps; a missing key has no entries.
pub record DestinationInput : Type 0 where
  pub profiles : List Profile
  pub lists : String → List String
  pub domains : String → List String

-- A host's own prefix.
abbrev pub host_prefix : Addr → Prefix
host_prefix a = prefix_from a (width a.is4)

-- `ruleToPrefix`; the family that it returns is `famOf` of the prefix.
unfoldable pub rule_to_prefix : Syntax → Rule → Option Prefix
rule_to_prefix syntax r =
    if str_eq r.kind rule_cidr
    then syntax.parse_prefix r.value
    else if str_eq r.kind rule_ip
    then elim (syntax.parse_addr r.value) [ none ↦ none | some a ↦ some (host_prefix a) ]
    else none

-- The entries that parse, in order.
unfoldable pub entry_prefixes : Syntax → List String → List Prefix
unfolding entry_to_prefix
entry_prefixes syntax [] = []
entry_prefixes syntax (s ∷ ss) = elim (entry_to_prefix syntax s) [
  | none ↦ entry_prefixes syntax ss
  | some p ↦ p ∷ entry_prefixes syntax ss
]

-- What one rule, all rules, and the lists that a profile names give.
unfoldable pub rule_prefixes : Syntax → DestinationInput → Rule → List Prefix
unfolding rule_to_prefix entry_prefixes
rule_prefixes syntax d r = elim (rule_to_prefix syntax r) [
  | some p ↦ p ∷ []
  | none ↦ if str_eq r.kind rule_domain then entry_prefixes syntax (d.domains r.value) else []
]

unfoldable pub from_rules : Syntax → DestinationInput → List Rule → List Prefix
unfolding rule_prefixes
from_rules syntax d [] = []
from_rules syntax d (r ∷ rs) = rule_prefixes syntax d r ++ from_rules syntax d rs

unfoldable pub from_lists : Syntax → DestinationInput → List String → List Prefix
unfolding entry_prefixes
from_lists syntax d [] = []
from_lists syntax d (l ∷ ls) = entry_prefixes syntax (d.lists l) ++ from_lists syntax d ls

-- A map from the two families to prefixes; reading any other family finds none.
pub record ByFamily : Type 0 where
  pub v4 : List Prefix
  pub v6 : List Prefix

abbrev pub in_family : ByFamily → Family → List Prefix
in_family m fam = if str_eq fam family_v4 then m.v4 else if str_eq fam family_v6 then m.v6 else []

abbrev pub split_families : List Prefix → ByFamily
split_families ps = record {
  v4 = select (λ (p : Prefix). p.is4) ps;
  v6 = select (λ (p : Prefix). not p.is4) ps;
}

abbrev pub join : ByFamily → ByFamily → ByFamily
join m n = record { v4 = m.v4 ++ n.v4; v6 = m.v6 ++ n.v6 }

abbrev pub aggregated : ByFamily → ByFamily
aggregated m = record { v4 = aggregate m.v4; v6 = aggregate m.v6 }

-- `profilePrefixes`.
unfoldable pub profile_prefixes : Syntax → DestinationInput → Profile → ByFamily
unfolding from_rules from_lists
profile_prefixes syntax d p =
    split_families (from_rules syntax d p.rules ++ from_lists syntax d p.lists)

pub record ProfileNets : Type 0 where
  pub id : String
  pub nets : ByFamily

-- `mode` has the newest entry of a key first; `unsure` is the set of the pairs that are mapped to
-- true.
pub record Destinations : Type 0 where
  pub exclude : ByFamily
  pub include : ByFamily
  pub unsure : List (String × Family)
  pub mode : List (String × Mode)
  pub includes : List ProfileNets

abbrev pub no_destinations : Destinations
no_destinations = record {
  exclude = record { v4 = []; v6 = [] };
  include = record { v4 = []; v6 = [] };
  unsure = [];
  mode = [];
  includes = [];
}

abbrev pub is_include : Profile → Bool
is_include p = str_eq p.mode mode_include

-- Whether a profile routes past or into the main VPN.
abbrev pub routes_main : Profile → Bool
routes_main p = p.enabled && not (str_eq p.mode mode_tunnel)

-- The families of which a domain rule has no address.
unfoldable pub unsure_for : String → List Prefix → List (String × Family)
unsure_for id has =
    (if any (λ (p : Prefix). p.is4) has then [] else (id, family_v4) ∷ [])
    ++ (if any (λ (p : Prefix). not p.is4) has then [] else (id, family_v6) ∷ [])

unfoldable pub unsure_rules :
    Syntax → DestinationInput → String → List Rule → List (String × Family)
unfolding unsure_for entry_prefixes
unsure_rules syntax d id [] = []
unsure_rules syntax d id (r ∷ rs) =
    (if str_eq r.kind rule_domain
      then unsure_for id (entry_prefixes syntax (d.domains r.value))
      else [])
    ++ unsure_rules syntax d id rs

-- The body of the loop of `ProfileDestinations` over the profiles.
unfoldable pub add_profile : Syntax → DestinationInput → Destinations → Profile → Destinations
unfolding profile_prefixes unsure_rules
add_profile syntax d ds p =
    let own = profile_prefixes syntax d p in
    let unsure = ds.unsure ++ unsure_rules syntax d p.id p.rules in
    let mode = (p.id, p.mode) ∷ ds.mode in
    if not (routes_main p)
    then ds
    else if is_include p
    then record ds {
      include = join ds.include own;
      includes = ds.includes ++ (record { id = p.id; nets = aggregated own }) ∷ [];
      unsure = unsure;
      mode = mode;
    }
    else record ds { exclude = join ds.exclude own; unsure = unsure; mode = mode }

unfoldable pub add_profiles : Syntax → DestinationInput → Destinations → List Profile → Destinations
unfolding add_profile
add_profiles syntax d ds [] = ds
add_profiles syntax d ds (p ∷ ps) = add_profiles syntax d (add_profile syntax d ds p) ps

-- `ProfileDestinations`.
unfoldable pub profile_destinations : Syntax → DestinationInput → Destinations
unfolding add_profiles
profile_destinations syntax d =
    let ds = add_profiles syntax d no_destinations d.profiles in
    record ds { exclude = aggregated ds.exclude; include = aggregated ds.include }

-- A profile's mode, and `unsureOf`.
unfoldable pub mode_of : String → List (String × Mode) → Option Mode
mode_of id [] = none
mode_of id ((i, m) ∷ ms) = if str_eq id i then some m else mode_of id ms

unfoldable pub unsure_of : Destinations → String → Bool → Family → Bool
unfolding mode_of
unsure_of ds profile include fam = elim (mode_of profile ds.mode) [
  | none ↦ false
  | some m ↦
      bool_eq (str_eq m mode_include) include
      && any (λ (u : String × Family). str_eq u.0 profile && str_eq u.1 fam) ds.unsure
]

-- `HoldsRoute`.
unfoldable pub holds_route : Syntax → Destinations → ManagedRoute → Bool
unfolding unsure_of
holds_route syntax ds r =
    if not (str_eq r.route.table "") then true else elim (syntax.parse_prefix r.route.dst_cidr) [
      | none ↦ true
      | some p ↦
          within (masked p) (in_family ds.exclude r.route.family)
          || unsure_of ds r.profile_id false r.route.family
    ]

-- `ruleNet` and `HoldsRule`.
unfoldable pub rule_net : Syntax → PolicyRule → Option Prefix
rule_net syntax r = elim (cut_prefix "to " r.selector) [
  | none ↦ none
  | some dst ↦ elim (syntax.parse_prefix dst) [ none ↦ none | some p ↦ some (masked p) ]
]

unfoldable pub holds_rule : Syntax → Destinations → ManagedRule → Bool
unfolding rule_net unsure_of
holds_rule syntax ds r = elim (rule_net syntax r.rule) [
  | none ↦ true
  | some p ↦
      within p (in_family ds.include r.rule.family) || unsure_of ds r.profile_id true r.rule.family
]

-- The loops of `IncludeOwner`: the owner so far, with its prefix's length, where the source's
-- `tightest` starts at -1.
abbrev pub tighter : ℕ → Option (String × ℕ) → Bool
tighter bits none = true
tighter bits (some (owner, tightest)) = ltb tightest bits

unfoldable pub tightest_of :
    Prefix → String → Option (String × ℕ) → List Prefix → Option (String × ℕ)
tightest_of p id best [] = best
tightest_of p id best (a ∷ more) =
    tightest_of p id (if inside p a && tighter a.bits best then some (id, a.bits) else best) more

unfoldable pub owner_among :
    Prefix → Family → Option (String × ℕ) → List ProfileNets → Option (String × ℕ)
unfolding tightest_of
owner_among p fam best [] = best
owner_among p fam best (n ∷ ns) =
    owner_among p fam (tightest_of p n.id best (in_family n.nets fam)) ns

unfoldable pub include_owner : Syntax → Destinations → PolicyRule → String
unfolding rule_net owner_among
include_owner syntax ds r = elim (rule_net syntax r) [
  | none ↦ ""
  | some p ↦ elim (owner_among p r.family none ds.includes) [ none ↦ "" | some (id, bits) ↦ id ]
]
