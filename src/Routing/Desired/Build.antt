-- ===== src/Routing/Desired/Build.antt =====
-- `BuildDesired` itself: the loop over the profiles by priority, the tunnels' routes, the defaults of
-- the dedicated table, what a Tailscale needs, and the order of the result.
use Prim.Native.Nat.{Ordering}
use Prim.Native.String.{compare}
use riftroute.Base.{
  ltb, String, str_eq, if◌then◌else◌, Bool, true, false, not, List, [], ◌∷◌, ◌⊎◌, inl, inr,
}
use riftroute.Netip.{Prefix}
use riftroute.Netip.Syntax.{Syntax}
use riftroute.Domain.{Family, family_v4, family_v6, ManagedRoute, ManagedRule, owner_riftroute}
use riftroute.Domain.Profiles.{Profile}
use riftroute.Routing.Keys.{route_key, rule_key}
use riftroute.Routing.Beside.{TunnelPlan, Desired, add_route_to, place}
use riftroute.Routing.Destinations.{is_include, routes_main}
use riftroute.Routing.Tailscale.{proto_for, beside_tailscale}
use riftroute.Routing.Desired.{BuildInput, BuildError, no_tunnel, is_v6, exclude_profile}
use riftroute.Routing.Desired.Include.{
  RuleDraft, include_profile, vpn_for, gateway_text, model_b_table,
}

-- sort.SliceStable by a test that one element comes before another.
module _ {ℓ} {A : Type ℓ} (less : A → A → Bool) where
  unfoldable pub insert_stable : A → List A → List A
  insert_stable x [] = x ∷ []
  insert_stable x (y ∷ ys) =
      let behind = y ∷ insert_stable x ys in if less y x then behind else x ∷ y ∷ ys

  unfoldable pub sort_stable : List A → List A
  unfolding insert_stable
  sort_stable [] = []
  sort_stable (x ∷ xs) = insert_stable x (sort_stable xs)

-- Go's `<` on strings: the bytes of UTF-8 are ordered as the characters are.
abbrev pub text_less : String → String → Bool
text_less s t = elim (compare s t) [
  | Ordering.lt ↦ true
  | Ordering.eq ↦ false
  | Ordering.gt ↦ false
]

abbrev pub higher_priority : Profile → Profile → Bool
higher_priority p q = ltb q.priority p.priority

abbrev pub route_less : ManagedRoute → ManagedRoute → Bool
route_less a b = text_less (route_key a.route) (route_key b.route)

abbrev pub rule_less : ManagedRule → ManagedRule → Bool
rule_less a b = text_less (rule_key a.rule) (rule_key b.rule)

abbrev pub Draft : Type 0
Draft = Desired × RuleDraft

-- The body of the loop over the profiles, and the loop.
unfoldable pub build_profile :
    Syntax → BuildInput → List Prefix → Profile → Draft → BuildError ⊎ Draft
unfolding exclude_profile include_profile
build_profile syntax d nets p (routes, rules) =
    if not (routes_main p)
    then inr (routes, rules)
    else if is_include p
    then elim (include_profile syntax d nets p rules) [
      | inl cause ↦ inl cause
      | inr made ↦ inr (routes, made)
    ]
    else elim (exclude_profile syntax d nets p routes) [
      | inl cause ↦ inl cause
      | inr made ↦ inr (made, rules)
    ]

unfoldable pub build_profiles :
    Syntax → BuildInput → List Prefix → List Profile → Draft → BuildError ⊎ Draft
unfolding build_profile
build_profiles syntax d nets [] made = inr made
build_profiles syntax d nets (p ∷ ps) made = elim (build_profile syntax d nets p made) [
  | inl cause ↦ inl cause
  | inr next ↦ build_profiles syntax d nets ps next
]

abbrev pub model_b_tag : String
model_b_tag = "model-b"

-- The default of the dedicated table, for a family that needs one.
abbrev pub default_route : Syntax → BuildInput → Family → ManagedRoute
default_route syntax d fam = record {
  route = record {
    dst_cidr = if is_v6 fam then "::/0" else "0.0.0.0/0";
    gateway = gateway_text syntax (vpn_for d fam).0;
    iface = (vpn_for d fam).1;
    metric = 0;
    family = fam;
    owner = owner_riftroute;
    proto = proto_for d.beside.platform;
    table = model_b_table;
    profile = model_b_tag;
    cloned = false;
    scoped = false;
    reject = false;
  };
  profile_id = model_b_tag;
  created_at = d.beside.now;
}

unfoldable pub add_default :
    Syntax → BuildInput → RuleDraft → Family → Desired → BuildError ⊎ Desired
unfolding add_route_to
add_default syntax d rules fam ds =
    if not (if is_v6 fam then rules.v6 else rules.v4)
    then inr ds
    else if str_eq (vpn_for d fam).1 ""
    then inl (no_tunnel fam)
    else inr (add_route_to ds (default_route syntax d fam))

-- The families of the map `includeFamilies`, in the order of `v6_first`.
unfoldable pub add_defaults : Syntax → BuildInput → RuleDraft → Desired → BuildError ⊎ Desired
unfolding add_default
add_defaults syntax d rules ds =
    let v6_first = d.v6_first model_b_tag in
    let first = (if v6_first then family_v6 else family_v4) in
    let second = (if v6_first then family_v4 else family_v6) in
    elim (add_default syntax d rules first ds) [
      | inl cause ↦ inl cause
      | inr one ↦ add_default syntax d rules second one
    ]

-- What is built before Tailscale's part.
unfoldable pub build_routes : Syntax → BuildInput → TunnelPlan → BuildError ⊎ Draft
unfolding build_profiles add_defaults sort_stable place
build_routes syntax d tp =
    let start : Draft = (
      record { seen = []; routes = [] },
      record { seen = []; rules = []; v4 = false; v6 = false },
    ) in
    elim (build_profiles syntax d tp.nets (sort_stable higher_priority d.given.profiles) start) [
      | inl cause ↦ inl cause
      | inr (routes, rules) ↦ elim (add_defaults syntax d rules (place tp routes)) [
        | inl cause ↦ inl cause
        | inr done ↦ inr (done, rules)
      ]
    ]

-- `BuildDesired`, with the plan of the tunnels as an argument.
unfoldable pub build_desired :
    Syntax → BuildInput → TunnelPlan → BuildError ⊎ (List ManagedRoute × List ManagedRule)
unfolding build_routes beside_tailscale sort_stable
build_desired syntax d tp = elim (build_routes syntax d tp) [
  | inl cause ↦ inl cause
  | inr (routes, rules) ↦
      let made = beside_tailscale d.beside routes.routes rules.rules in
      inr (sort_stable route_less made.0, sort_stable rule_less made.1)
]
