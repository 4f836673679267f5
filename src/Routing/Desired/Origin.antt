-- ===== src/Routing/Desired/Origin.antt =====
-- Where each route that `BuildDesired` desires comes from.
use mathlib.Core.List.{Memᴰ}
use riftroute.Base.{
  sym, ap, ◌∙◌, any, ltb, ◌==◌, String, Bool, true, false, not, ◌&&◌, ◌||◌, List, [], ◌∷◌, none,
  ◌≡◌, refl, inl, inr, ◌⊎◌, arith, All, All-append, Bool-cases, Option-cases,
}
use riftroute.Netip.{Addr, Prefix, contains}
use riftroute.Netip.Syntax.{Syntax}
use riftroute.Domain.{Family, ManagedRoute}
use riftroute.Domain.Profiles.{Profile}
use riftroute.Routing.Aggregate.{aggregate}
use riftroute.Routing.Aggregate.Coverage.{covers, covers-aggregate}
use riftroute.Routing.Plan.{has_key, key, dst}
use riftroute.Routing.Beside.{TunnelPlan, Desired, add_route_to, place_from}
use riftroute.Routing.Nets.{within, outside_tunnels}
use riftroute.Routing.Destinations.{in_family, profile_prefixes}
use riftroute.Routing.Destinations.Listed.{has_mode}
use riftroute.Routing.Desired.{
  BuildInput, BuildError, exclude_route, exclude_prefixes, add_routes, Excluded, exclude_left,
  exclude_family, excluded_result, exclude_profile, families_of, resolve_gateway, skippable,
}
use riftroute.Routing.Desired.Build.{insert_stable, sort_stable, default_route}

-- What a call that may fail gives, where it does not.
abbrev pub Gives {ℓ κ} : {E : Type 0} {A : Type ℓ} → (A → Type κ) → E ⊎ A → Type κ
Gives P (inl e) = Unit
Gives P (inr x) = P x

insert_stable-All {ℓ κ} :
    {A : Type ℓ} (less : A → A → Bool) (P : A → Type κ) (x : A) (ys : List A)
    → P x
    → All P ys
    → All P (insert_stable less x ys)
unfolding insert_stable
insert_stable-All less P x [] h hs = (h, tt)
insert_stable-All less P x (y ∷ ys) h hs = elim (Bool-cases (less y x)) [
  | inl e ↦ rw e (hs.0, insert_stable-All less P x ys h hs.1)
  | inr e ↦ rw e (h, hs)
]

pub sort_stable-All {ℓ κ} :
    {A : Type ℓ} (less : A → A → Bool) (P : A → Type κ) (xs : List A)
    → All P xs
    → All P (sort_stable less xs)
unfolding sort_stable
sort_stable-All less P [] h = tt
sort_stable-All less P (x ∷ xs) h =
    insert_stable-All less P x (sort_stable less xs) h.0 (sort_stable-All less P xs h.1)

pub All-of {ℓ κ} :
    {A : Type ℓ} (P : A → Type κ) (xs : List A) → ((x : A) → Memᴰ x xs → P x) → All P xs
All-of P [] h = tt
All-of P (x ∷ xs) h = (h x (Memᴰ.head refl), All-of P xs (λ y m. h y (Memᴰ.tail m)))

-- Each prefix of a set holds only what the set covers.
self_covered :
    (a : Addr) (ps : List Prefix)
    → All (λ (x : Prefix). (not (contains x a) || covers ps a) ≡ true) ps
self_covered a ps = All-of _ ps (go ps)
  where
    go : (qs : List Prefix) (x : Prefix) → Memᴰ x qs → (not (contains x a) || covers qs a) ≡ true
    go [] x m = elim m [ ]
    go (q ∷ qs) x (Memᴰ.head e) = rw e (ground arith)
    go (q ∷ qs) x (Memᴰ.tail m) = ground (arith, go qs x m)

aggregate_covered :
    (a : Addr) (ps : List Prefix)
    → All (λ (x : Prefix). (not (contains x a) || covers ps a) ≡ true) (aggregate ps)
aggregate_covered a ps = rw (← covers-aggregate ps a) (self_covered a (aggregate ps))

-- What is outside two lists of networks covers what its prefixes in neither do.
covers-outside_twice :
    (a : Addr) (nets ts ps : List Prefix)
    → covers (outside_tunnels (outside_tunnels ps nets) ts) a
      ≡ any (λ (q : Prefix). contains q a && (not (within q nets) && not (within q ts))) ps
unfolding outside_tunnels within
covers-outside_twice a nets ts [] = refl
covers-outside_twice a nets ts (p ∷ ps) = ground (arith, covers-outside_twice a nets ts ps)

module _ (P : ManagedRoute → Type 0) where
  pub add_route_to-All :
      (ds : Desired) (m : ManagedRoute) → All P ds.routes → P m → All P (add_route_to ds m).routes
  unfolding add_route_to
  add_route_to-All ds m hs h = elim (Bool-cases (has_key (key m) ds.seen)) [
    | inl e ↦ rw e hs
    | inr e ↦ rw e (All-append P ds.routes (m ∷ []) hs (h, tt))
  ]

  pub place_from-All :
      (taken : List String) (ds : Desired) (rs : List ManagedRoute)
      → All P ds.routes
      → All P rs
      → All P (place_from taken ds rs).routes
  unfolding place_from
  place_from-All taken ds [] hs h = hs
  place_from-All taken ds (r ∷ rs) hs h = elim (Bool-cases (has_key (dst r) taken)) [
    | inl e ↦ rw e (place_from-All taken ds rs hs h.1)
    | inr e ↦
        rw e
          (place_from-All (dst r ∷ taken) (add_route_to ds r) rs (add_route_to-All ds r hs h.0) h.1)
  ]

module _ (syntax : Syntax) (d : BuildInput) (tp : TunnelPlan) (a : Addr) where
  -- Whether a profile lists, for a family, a prefix that holds the address and lies in no network of
  -- the tunnels or of Tailscale.
  abbrev pub lists_outside : Profile → Family → Bool
  lists_outside p fam =
      any
        (λ (q : Prefix).
          contains q a && (not (within q tp.nets) && not (within q d.beside.tailscale)))
        (in_family (profile_prefixes syntax d.given p) fam)

  covers-exclude_prefixes :
      (p : Profile) (fam : Family)
      → covers (exclude_prefixes syntax d tp.nets p fam) a ≡ lists_outside p fam
  covers-exclude_prefixes p fam =
      covers-outside_twice a tp.nets d.beside.tailscale
        (in_family (profile_prefixes syntax d.given p) fam)

  -- A route of an enabled exclude profile, by the gateway and the interface that the profile's gateway
  -- resolves to, whose prefix holds the address only if the profile lists a prefix with it that lies
  -- in none of those networks.
  pub record OfProfile (m : ManagedRoute) : Type 0 where
    pub profile : Profile
    pub member : Memᴰ profile d.given.profiles
    pub mode : has_mode false profile ≡ true
    pub family : Family
    pub hop : Addr × String
    pub resolved : resolve_gateway syntax d profile.gateway family ≡ inr hop
    pub prefix : Prefix
    pub made : m ≡ exclude_route syntax d profile.id family hop prefix
    pub listed : (not (contains prefix a) || lists_outside profile family) ≡ true

  -- Of a profile, of the tunnels' plan, or the dedicated table's default.
  abbrev pub HasOrigin : ManagedRoute → Type 0
  HasOrigin m =
      OfProfile m ⊎ (Memᴰ m tp.routes ⊎ ((fam : Family) × (m ≡ default_route syntax d fam)))

  add_routes-HasOrigin :
      (p : Profile) (fam : Family) (hop : Addr × String) (ds : Desired) (xs : List Prefix)
      → Memᴰ p d.given.profiles
      → has_mode false p ≡ true
      → resolve_gateway syntax d p.gateway fam ≡ inr hop
      → All
          (λ (x : Prefix).
            (not (contains x a) || covers (exclude_prefixes syntax d tp.nets p fam) a) ≡ true)
          xs
      → All HasOrigin ds.routes
      → All HasOrigin (add_routes syntax d p.id fam hop ds xs).routes
  unfolding add_routes
  add_routes-HasOrigin p fam hop ds [] i h g w hs = hs
  add_routes-HasOrigin p fam hop ds (x ∷ xs) i h g w hs =
      let route = exclude_route syntax d p.id fam hop x in
      add_routes-HasOrigin p fam hop (add_route_to ds route) xs i h g w.1 (
        add_route_to-All HasOrigin ds route hs (
          inl (record {
            profile = p;
            member = i;
            mode = h;
            family = fam;
            hop = hop;
            resolved = g;
            prefix = x;
            made = refl;
            listed = ap (λ b. not (contains x a) || b) (sym (covers-exclude_prefixes p fam)) ∙ w.0;
          })))

  exclude_left-HasOrigin :
      (p : Profile) (fam : Family) (e : Excluded) (xs : List Prefix)
      → Memᴰ p d.given.profiles
      → has_mode false p ≡ true
      → exclude_prefixes syntax d tp.nets p fam ≡ xs
      → All HasOrigin e.desired.routes
      → Gives (λ (r : Excluded). All HasOrigin r.desired.routes) (exclude_left syntax d p fam e xs)
  unfolding exclude_left
  exclude_left-HasOrigin p fam e [] i h q hs = hs
  exclude_left-HasOrigin p fam e (x ∷ xs) i h q hs =
      go (resolve_gateway syntax d p.gateway fam) refl
    where
      go :
          (hop : BuildError ⊎ (Addr × String))
          → resolve_gateway syntax d p.gateway fam ≡ hop
          → Gives
              (λ (r : Excluded). All HasOrigin r.desired.routes)
              (exclude_left syntax d p fam e (x ∷ xs))
      go (inl cause) g = elim (Bool-cases (skippable syntax p.gateway)) [
        | inl s ↦ rw (exclude_left, g, s) hs
        | inr s ↦ rw (exclude_left, g, s) tt
      ]
      go (inr hop) g =
          rw (exclude_left, g)
            (add_routes-HasOrigin p fam hop e.desired (aggregate (x ∷ xs)) i h g
              (rw q (aggregate_covered a (x ∷ xs))) hs)

  excluded_result-HasOrigin :
      (e : Excluded)
      → All HasOrigin e.desired.routes
      → Gives (λ (r : Desired). All HasOrigin r.routes) (excluded_result e)
  unfolding excluded_result
  excluded_result-HasOrigin e hs = elim (Option-cases e.skip_error) [
    | inl s ↦ rw (excluded_result, s) hs
    | inr (cause, s) ↦ elim (Bool-cases (ltb 0 e.families && e.skipped == e.families)) [
      | inl b ↦ rw (excluded_result, s, b) tt
      | inr b ↦ rw (excluded_result, s, b) hs
    ]
  ]

  pub exclude_profile-HasOrigin :
      (p : Profile) (ds : Desired)
      → Memᴰ p d.given.profiles
      → has_mode false p ≡ true
      → All HasOrigin ds.routes
      → Gives (λ (r : Desired). All HasOrigin r.routes) (exclude_profile syntax d tp.nets p ds)
  unfolding exclude_profile exclude_family
  exclude_profile-HasOrigin p ds i h hs =
      first (exclude_family syntax d tp.nets p (families_of d p).0 start) refl
        (exclude_left-HasOrigin p (families_of d p).0 start _ i h refl hs)
    where
      start : Excluded
      start = record { desired = ds; skipped = 0; families = 0; skip_error = none }

      second :
          (e : Excluded) (r : BuildError ⊎ Excluded)
          → exclude_family syntax d tp.nets p (families_of d p).0 start ≡ inr e
          → exclude_family syntax d tp.nets p (families_of d p).1 e ≡ r
          → Gives (λ (r : Excluded). All HasOrigin r.desired.routes) r
          → Gives (λ (r : Desired). All HasOrigin r.routes) (exclude_profile syntax d tp.nets p ds)
      second e (inl cause) g₁ g₂ gs = rw (exclude_profile, g₁, g₂) tt
      second e (inr done) g₁ g₂ gs =
          rw (exclude_profile, g₁, g₂) (excluded_result-HasOrigin done gs)

      first :
          (r : BuildError ⊎ Excluded)
          → exclude_family syntax d tp.nets p (families_of d p).0 start ≡ r
          → Gives (λ (r : Excluded). All HasOrigin r.desired.routes) r
          → Gives (λ (r : Desired). All HasOrigin r.routes) (exclude_profile syntax d tp.nets p ds)
      first (inl cause) g gs = rw (exclude_profile, g) tt
      first (inr e) g gs =
          second e (exclude_family syntax d tp.nets p (families_of d p).1 e) g refl
            (exclude_left-HasOrigin p (families_of d p).1 e _ i h refl gs)
