-- ===== src/Routing/Desired/Built.antt =====
-- Each route that `BuildDesired` desires has an origin.
use mathlib.Core.List.{Memᴰ}
use riftroute.Base.{
  str_eq, if◌then◌else◌, true, false, ◌||◌, List, [], ◌∷◌, map, ◌≡◌, refl, inl, inr, ◌⊎◌, arith,
  All, All-append, All-select, Bool-cases,
}
use riftroute.Netip.{Addr}
use riftroute.Netip.Syntax.{Syntax}
use riftroute.Domain.{Family, family_v4, family_v6, ManagedRoute, ManagedRule}
use riftroute.Domain.Profiles.{Profile}
use riftroute.Routing.Beside.{TunnelPlan, Desired, place}
use riftroute.Routing.Destinations.{is_include, routes_main}
use riftroute.Routing.Tailscale.{
  TailscaleInput, beside_tailscale, bypass_of, without_copies, copies,
}
use riftroute.Routing.Desired.{BuildInput, BuildError, is_v6, exclude_profile}
use riftroute.Routing.Desired.Include.{RuleDraft, include_profile, vpn_for}
use riftroute.Routing.Desired.Build.{
  sort_stable, Draft, build_profile, build_profiles, default_route, add_default, model_b_tag,
  add_defaults, build_routes, build_desired, higher_priority, route_less,
}
use riftroute.Routing.Desired.Origin.{
  Gives, sort_stable-All, All-of, add_route_to-All, place_from-All, HasOrigin,
  exclude_profile-HasOrigin,
}

module _ (P Q : ManagedRoute → Type 0) where
  All-turn : ((r : ManagedRoute) → P r → Q r) → (rs : List ManagedRoute) → All P rs → All Q rs
  All-turn f [] h = tt
  All-turn f (r ∷ rs) h = (f r h.0, All-turn f rs h.1)

  All-map_bypass :
      ((r : ManagedRoute) → P r → Q (bypass_of r))
      → (rs : List ManagedRoute) → All P rs
      → All Q (map bypass_of rs)
  All-map_bypass f [] h = tt
  All-map_bypass f (r ∷ rs) h = (f r h.0, All-map_bypass f rs h.1)

  -- What holds of the routes, or of their copies, holds of the set with Tailscale's part.
  beside_tailscale-All :
      (t : TailscaleInput)
      → ((r : ManagedRoute) → P r → Q r)
      → ((r : ManagedRoute) → P r → Q (bypass_of r))
      → (rs : List ManagedRoute) (ls : List ManagedRule) → All P rs
      → All Q (beside_tailscale t rs ls).0
  unfolding beside_tailscale copies
  beside_tailscale-All t f g rs ls hs =
      elim (Bool-cases (str_eq t.table "" || str_eq t.platform "darwin")) [
        | inl e ↦ rw (beside_tailscale, e) own
        | inr e ↦ elim (Bool-cases t.exit_node) [
          | inr n ↦ rw (beside_tailscale, e, n) own
          | inl n ↦
              rw (beside_tailscale, e, n)
                (All-append Q (without_copies rs) (copies (without_copies rs)) own
                  (All-map_bypass g _ (All-select _ P (without_copies rs) left)))
        ]
      ]
    where
      left : All P (without_copies rs)
      left = All-select _ P rs hs

      own : All Q (without_copies rs)
      own = All-turn f _ (All-select _ P rs hs)

module _ (syntax : Syntax) (d : BuildInput) (tp : TunnelPlan) (a : Addr) where
  build_profile-HasOrigin :
      (p : Profile) (made : Draft)
      → Memᴰ p d.given.profiles
      → All (HasOrigin syntax d tp a) made.0.routes
      → Gives
          (λ (r : Draft). All (HasOrigin syntax d tp a) r.0.routes)
          (build_profile syntax d tp.nets p made)
  unfolding build_profile
  build_profile-HasOrigin p (ds, rules) i hs = elim (Bool-cases (routes_main p)) [
    | inr m ↦ rw (build_profile, m) hs
    | inl m ↦ elim (Bool-cases (is_include p)) [
      | inl n ↦ included m n (include_profile syntax d tp.nets p rules) refl
      | inr n ↦
          excluded m n (exclude_profile syntax d tp.nets p ds) refl
            (exclude_profile-HasOrigin syntax d tp a p ds i (ground arith) hs)
    ]
  ]
    where
      included :
          routes_main p ≡ true
          → is_include p ≡ true
          → (r : BuildError ⊎ RuleDraft) → include_profile syntax d tp.nets p rules ≡ r
          → Gives
              (λ (r : Draft). All (HasOrigin syntax d tp a) r.0.routes)
              (build_profile syntax d tp.nets p (ds, rules))
      included m n (inl cause) g = rw (build_profile, m, n, g) tt
      included m n (inr made) g = rw (build_profile, m, n, g) hs

      excluded :
          routes_main p ≡ true
          → is_include p ≡ false
          → (r : BuildError ⊎ Desired) → exclude_profile syntax d tp.nets p ds ≡ r
          → Gives (λ (r : Desired). All (HasOrigin syntax d tp a) r.routes) r
          → Gives
              (λ (r : Draft). All (HasOrigin syntax d tp a) r.0.routes)
              (build_profile syntax d tp.nets p (ds, rules))
      excluded m n (inl cause) g gs = rw (build_profile, m, n, g) tt
      excluded m n (inr made) g gs = rw (build_profile, m, n, g) gs

  build_profiles-HasOrigin :
      (ps : List Profile) (made : Draft)
      → All (λ p. Memᴰ p d.given.profiles) ps
      → All (HasOrigin syntax d tp a) made.0.routes
      → Gives
          (λ (r : Draft). All (HasOrigin syntax d tp a) r.0.routes)
          (build_profiles syntax d tp.nets ps made)
  unfolding build_profiles
  build_profiles-HasOrigin [] made i hs = hs
  build_profiles-HasOrigin (p ∷ ps) made i hs =
      go (build_profile syntax d tp.nets p made) refl (build_profile-HasOrigin p made i.0 hs)
        (λ next. build_profiles-HasOrigin ps next i.1)
    where
      go :
          (r : BuildError ⊎ Draft)
          → build_profile syntax d tp.nets p made ≡ r
          → Gives (λ (r : Draft). All (HasOrigin syntax d tp a) r.0.routes) r
          → ((next : Draft)
              → All (HasOrigin syntax d tp a) next.0.routes
              → Gives
                  (λ (r : Draft). All (HasOrigin syntax d tp a) r.0.routes)
                  (build_profiles syntax d tp.nets ps next))
          → Gives
              (λ (r : Draft). All (HasOrigin syntax d tp a) r.0.routes)
              (build_profiles syntax d tp.nets (p ∷ ps) made)
      go (inl cause) g gs more = rw (build_profiles, g) tt
      go (inr next) g gs more = rw (build_profiles, g) (more next gs)

  add_default-HasOrigin :
      (rules : RuleDraft) (fam : Family) (ds : Desired)
      → All (HasOrigin syntax d tp a) ds.routes
      → Gives
          (λ (r : Desired). All (HasOrigin syntax d tp a) r.routes)
          (add_default syntax d rules fam ds)
  unfolding add_default
  add_default-HasOrigin rules fam ds hs =
      elim (Bool-cases (if is_v6 fam then rules.v6 else rules.v4)) [
        | inr n ↦ rw (add_default, n) hs
        | inl n ↦ elim (Bool-cases (str_eq (vpn_for d fam).1 "")) [
          | inl e ↦ rw (add_default, n, e) tt
          | inr e ↦
              rw (add_default, n, e)
                (add_route_to-All (HasOrigin syntax d tp a) ds (default_route syntax d fam) hs
                  (inr (inr (fam, refl))))
        ]
      ]

  add_defaults-HasOrigin :
      (rules : RuleDraft) (ds : Desired)
      → All (HasOrigin syntax d tp a) ds.routes
      → Gives
          (λ (r : Desired). All (HasOrigin syntax d tp a) r.routes)
          (add_defaults syntax d rules ds)
  unfolding add_defaults
  add_defaults-HasOrigin rules ds hs =
      go (add_default syntax d rules (if d.v6_first model_b_tag then family_v6 else family_v4) ds)
        refl (add_default-HasOrigin rules _ ds hs)
    where
      go :
          (r : BuildError ⊎ Desired)
          → add_default syntax d rules (if d.v6_first model_b_tag then family_v6 else family_v4) ds
            ≡ r
          → Gives (λ (r : Desired). All (HasOrigin syntax d tp a) r.routes) r
          → Gives
              (λ (r : Desired). All (HasOrigin syntax d tp a) r.routes)
              (add_defaults syntax d rules ds)
      go (inl cause) g gs = rw (add_defaults, g) tt
      go (inr one) g gs = rw (add_defaults, g) (add_default-HasOrigin rules _ one gs)

  build_routes-HasOrigin :
      Gives (λ (r : Draft). All (HasOrigin syntax d tp a) r.0.routes) (build_routes syntax d tp)
  unfolding build_routes
  build_routes-HasOrigin =
      go (build_profiles syntax d tp.nets (sort_stable higher_priority d.given.profiles) start) refl
        (build_profiles-HasOrigin _ start
          (sort_stable-All higher_priority (λ p. Memᴰ p d.given.profiles) d.given.profiles
            (All-of (λ p. Memᴰ p d.given.profiles) d.given.profiles (λ p m. m)))
          tt)
    where
      start : Draft
      start = (
        record { seen = []; routes = [] },
        record { seen = []; rules = []; v4 = false; v6 = false },
      )

      placed :
          (ds : Desired)
          → All (HasOrigin syntax d tp a) ds.routes
          → All (HasOrigin syntax d tp a) (place tp ds).routes
      placed ds hs =
          place_from-All (HasOrigin syntax d tp a) _ ds tp.routes hs
            (All-of (HasOrigin syntax d tp a) tp.routes (λ m i. inr (inl i)))

      last :
          (routes : Desired) (rules : RuleDraft) (r : BuildError ⊎ Desired)
          → build_profiles syntax d tp.nets (sort_stable higher_priority d.given.profiles) start
            ≡ inr (routes, rules)
          → add_defaults syntax d rules (place tp routes) ≡ r
          → Gives (λ (r : Desired). All (HasOrigin syntax d tp a) r.routes) r
          → Gives
              (λ (r : Draft). All (HasOrigin syntax d tp a) r.0.routes)
              (build_routes syntax d tp)
      last routes rules (inl cause) g₁ g₂ gs = rw (build_routes, g₁, g₂) tt
      last routes rules (inr done) g₁ g₂ gs = rw (build_routes, g₁, g₂) gs

      go :
          (r : BuildError ⊎ Draft)
          → build_profiles syntax d tp.nets (sort_stable higher_priority d.given.profiles) start ≡ r
          → Gives (λ (r : Draft). All (HasOrigin syntax d tp a) r.0.routes) r
          → Gives
              (λ (r : Draft). All (HasOrigin syntax d tp a) r.0.routes)
              (build_routes syntax d tp)
      go (inl cause) g gs = rw (build_routes, g) tt
      go (inr (routes, rules)) g gs =
          last routes rules (add_defaults syntax d rules (place tp routes)) g refl
            (add_defaults-HasOrigin rules (place tp routes) (placed routes gs))

  -- That origin, or the copy of a route that has it.
  abbrev pub HasOriginOrCopy : ManagedRoute → Type 0
  HasOriginOrCopy m =
      HasOrigin syntax d tp a m
      ⊎ ((r : ManagedRoute) × HasOrigin syntax d tp a r × (m ≡ bypass_of r))

  -- For any input, any plan of the tunnels and any address, where BuildDesired gives a set: each of its
  -- routes is an enabled exclude profile's, by the gateway and interface that the profile's gateway
  -- resolves to for the family, and its destination holds the address only if the profile lists a
  -- prefix with it that lies whole in no one network of the tunnels or of Tailscale (one that only
  -- holds such a network is routed, and the network's own route is the more specific); or it is a
  -- route of the tunnels' plan, the default of the dedicated table, or the copy of such a route.
  pub build_desired-HasOrigin :
      Gives
        (λ (made : List ManagedRoute × List ManagedRule). All HasOriginOrCopy made.0)
        (build_desired syntax d tp)
  unfolding build_desired
  build_desired-HasOrigin = go (build_routes syntax d tp) refl build_routes-HasOrigin
    where
      go :
          (r : BuildError ⊎ Draft)
          → build_routes syntax d tp ≡ r
          → Gives (λ (r : Draft). All (HasOrigin syntax d tp a) r.0.routes) r
          → Gives
              (λ (made : List ManagedRoute × List ManagedRule). All HasOriginOrCopy made.0)
              (build_desired syntax d tp)
      go (inl cause) g gs = rw (build_desired, g) tt
      go (inr (made, drafts)) g gs =
          rw (build_desired, g)
            (sort_stable-All route_less HasOriginOrCopy
              (beside_tailscale d.beside made.routes drafts.rules).0
              (beside_tailscale-All (HasOrigin syntax d tp a) HasOriginOrCopy d.beside
                (λ r h. inl h) (λ r h. inr (r, h, refl)) made.routes drafts.rules gs))
