-- ===== src/Routing/Simulate/Longest.antt =====
-- The simulated decision is the longest-prefix match.
use riftroute.Base.{
  ℕ, ◌≤◌, ◌<◌, String, ltb, if◌then◌else◌, Bool, true, false, List, [], ◌∷◌, ◌++◌, Option, none,
  some, ◌≡◌, refl, sym, ap, ◌∙◌, inl, inr, ◌⊎◌, arith, not, All, Bool-cases, Option-cases, ltb→lt,
}
use riftroute.Netip.{Addr}
use riftroute.Netip.Syntax.{Syntax}
use riftroute.Domain.{Route, RouteDecision}
use riftroute.Routing.Simulate.{match_bits, better, best_route, decide_on, simulate}

module _ (syntax : Syntax) (target : Addr) where
  -- A route that matches with at most the given length, or not at all.
  abbrev pub AtMost : ℕ → Route → Type 0
  AtMost bits r = elim (match_bits syntax target r) [ none ↦ Unit {0} | some b ↦ b ≤ bits ]

  -- Likewise with less than the given length.
  abbrev pub Shorter : ℕ → Route → Type 0
  Shorter bits r = elim (match_bits syntax target r) [ none ↦ Unit {0} | some b ↦ b < bits ]

  abbrev pub NoMatch : Route → Type 0
  NoMatch r = match_bits syntax target r ≡ none

  -- The first longest match: shorter ones stand before it, and none longer behind it.
  pub record IsFirstLongest (routes : List Route) (r : Route) (bits : ℕ) : Type 0 where
    pub before : List Route
    pub behind : List Route
    pub split : routes ≡ before ++ (r ∷ behind)
    pub matching : match_bits syntax target r ≡ some bits
    pub shorter : All (Shorter bits) before
    pub no_longer : All (AtMost bits) behind

  AtMost-none : (bits : ℕ) (r : Route) → match_bits syntax target r ≡ none → AtMost bits r
  AtMost-none bits r m = rw (AtMost, m) tt

  AtMost-some :
      (bits b : ℕ) (r : Route) → match_bits syntax target r ≡ some b → b ≤ bits → AtMost bits r
  AtMost-some bits b r m h = rw (AtMost, m) h

  Shorter-none : (bits : ℕ) (r : Route) → match_bits syntax target r ≡ none → Shorter bits r
  Shorter-none bits r m = rw (Shorter, m) tt

  Shorter-some :
      (bits b : ℕ) (r : Route) → match_bits syntax target r ≡ some b → b < bits → Shorter bits r
  Shorter-some bits b r m h = rw (Shorter, m) h

  -- What the loop has found, from the best so far and the routes ahead.
  abbrev Below : Option (Route × ℕ) → ℕ → Type 0
  Below none b = Unit {0}
  Below (some (r, best)) b = best < b

  abbrev Found : Option (Route × ℕ) → List Route → Option (Route × ℕ) → Type 0
  Found best rs none = (best ≡ none) × All NoMatch rs
  Found best rs (some (r, b)) =
      ((best ≡ some (r, b)) × All (AtMost b) rs) ⊎ (IsFirstLongest rs r b × Below best b)

  extend :
      {rs : List Route} {r : Route} {b : ℕ} (q : Route)
      → IsFirstLongest rs r b
      → Shorter b q
      → IsFirstLongest (q ∷ rs) r b
  extend q f s = record {
    before = q ∷ f.before;
    behind = f.behind;
    split = ap (◌∷◌ q) f.split;
    matching = f.matching;
    shorter = (s, f.shorter);
    no_longer = f.no_longer;
  }

  Found-unmatched :
      (best : Option (Route × ℕ)) (q : Route) (rs : List Route) (res : Option (Route × ℕ))
      → match_bits syntax target q ≡ none
      → Found best rs res
      → Found best (q ∷ rs) res
  Found-unmatched best q rs none m f = (f.0, (m, f.1))
  Found-unmatched best q rs (some (r, b)) m (inl f) = inl (f.0, (AtMost-none b q m, f.1))
  Found-unmatched best q rs (some (r, b)) m (inr f) = inr (extend q f.0 (Shorter-none b q m), f.1)

  Found-worse :
      (r₀ : Route) (b₀ bits : ℕ) (q : Route) (rs : List Route) (res : Option (Route × ℕ))
      → match_bits syntax target q ≡ some bits
      → bits ≤ b₀
      → Found (some (r₀, b₀)) rs res
      → Found (some (r₀, b₀)) (q ∷ rs) res
  Found-worse r₀ b₀ bits q rs none m le f = (f.0, (cc, f.1))
  Found-worse r₀ b₀ bits q rs (some (r, b)) m le (inl f) =
      let same : b₀ ≡ b = ground arith in inl (f.0, (AtMost-some b bits q m (omega arith), f.1))
  Found-worse r₀ b₀ bits q rs (some (r, b)) m le (inr f) =
      inr (extend q f.0 (Shorter-some b bits q m (omega (arith, f.1))), f.1)

  Below-trans : (best : Option (Route × ℕ)) (a b : ℕ) → Below best a → a ≤ b → Below best b
  Below-trans none a b h k = tt
  Below-trans (some (r, best)) a b h k = omega arith

  Found-better :
      (best : Option (Route × ℕ)) (bits : ℕ) (q : Route) (rs : List Route)
      (res : Option (Route × ℕ))
      → match_bits syntax target q ≡ some bits
      → Below best bits
      → Found (some (q, bits)) rs res
      → Found best (q ∷ rs) res
  Found-better best bits q rs none m lt f = cc
  Found-better best bits q rs (some (r, b)) m lt (inl f) =
      let same : q ≡ r = ground arith in
      let length : bits ≡ b = ground arith in
      inr (
        record {
          before = [];
          behind = rs;
          split = ap (λ (x : Route). x ∷ rs) same;
          matching = sym (ap (match_bits syntax target) same) ∙ m ∙ ap some length;
          shorter = tt;
          no_longer = f.1;
        },
        Below-trans best bits b lt (omega arith),
      )
  Found-better best bits q rs (some (r, b)) m lt (inr f) =
      inr (
        extend q f.0 (Shorter-some b bits q m f.1),
        Below-trans best bits b lt (omega (arith, f.1)),
      )

  better-Below : (bits : ℕ) (best : Option (Route × ℕ)) → better bits best ≡ true → Below best bits
  better-Below bits none h = tt
  better-Below bits (some (r, b)) h = ltb→lt b bits h

  best_route-Found :
      (best : Option (Route × ℕ)) (rs : List Route)
      → Found best rs (best_route syntax target best rs)
  unfolding best_route
  best_route-Found none [] = (refl, tt)
  best_route-Found (some (r, b)) [] = inl (refl, tt)
  best_route-Found none (q ∷ rs) = elim (Option-cases (match_bits syntax target q)) [
    | inl m ↦ rw m (Found-unmatched none q rs _ m (best_route-Found none rs))
    | inr (bits, m) ↦
        rw m (Found-better none bits q rs _ m tt (best_route-Found (some (q, bits)) rs))
  ]
  best_route-Found (some (r, b)) (q ∷ rs) = elim (Option-cases (match_bits syntax target q)) [
    | inl m ↦ rw m (Found-unmatched (some (r, b)) q rs _ m (best_route-Found (some (r, b)) rs))
    | inr (bits, m) ↦ elim (Bool-cases (ltb b bits)) [
      | inl e ↦
          rw (m, e)
            (Found-better (some (r, b)) bits q rs _ m (ltb→lt b bits e)
              (best_route-Found (some (q, bits)) rs))
      | inr e ↦
          rw (m, e)
            (Found-worse r b bits q rs _ m (ground arith) (best_route-Found (some (r, b)) rs))
    ]
  ]

  -- What a decision says of the route that it rests on.
  pub record RestsOn (dec : RouteDecision) (r : Route) : Type 0 where
    pub cidr : dec.matched_cidr ≡ r.dst_cidr
    pub refused : dec.rejected ≡ r.reject
    pub reached : dec.reachable ≡ not r.reject
    pub owner : dec.owner ≡ r.owner
    pub iface : dec.iface ≡ (if r.reject then "" else r.iface)
    pub gateway : dec.gateway ≡ (if r.reject then "" else r.gateway)

  decide_on-RestsOn :
      (dec : RouteDecision) (vpn_by_iface : Option (String → Bool)) (r : Route)
      → dec.iface ≡ ""
      → dec.gateway ≡ ""
      → dec.rejected ≡ false
      → RestsOn (decide_on dec vpn_by_iface r) r
  unfolding decide_on
  decide_on-RestsOn dec vpn_by_iface r i g j = ground arith

  -- No route matches, and the decision is neither reachable nor rejected.
  abbrev pub Unrouted : List Route → RouteDecision → Type 0
  Unrouted routes dec = All NoMatch routes × (dec.reachable ≡ false) × (dec.rejected ≡ false)

  -- The decision rests on the first longest match.
  abbrev pub Longest : List Route → RouteDecision → Type 0
  Longest routes dec = (r : Route) × (bits : ℕ) × IsFirstLongest routes r bits × RestsOn dec r

  -- For any routes, any target, any syntax of prefixes and any map of VPN interfaces: either no
  -- route matches the target, and the decision is neither reachable nor rejected; or the decision
  -- rests on the first of the routes that match with the longest prefix: it names that route's
  -- destination and owner, is rejected if that is a reject route, and else reachable by its gateway and interface.
  pub simulate-Longest :
      (routes : List Route) (vpn_by_iface : Option (String → Bool))
      → Unrouted routes (simulate syntax routes target vpn_by_iface)
        ⊎ Longest routes (simulate syntax routes target vpn_by_iface)
  unfolding simulate
  simulate-Longest routes vpn_by_iface =
      go (best_route syntax target none routes) refl (best_route-Found none routes)
    where
      go :
          (res : Option (Route × ℕ))
          → best_route syntax target none routes ≡ res
          → Found none routes res
          → Unrouted routes (simulate syntax routes target vpn_by_iface)
            ⊎ Longest routes (simulate syntax routes target vpn_by_iface)
      go none e f = inl (f.1, rw (e, simulate), rw (e, simulate))
      go (some (r, b)) e (inl f) = cc
      go (some (r, b)) e (inr f) =
          inr (r, b, f.0, rw (e, simulate) (decide_on-RestsOn _ vpn_by_iface r refl refl refl))
