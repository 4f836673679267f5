-- ===== src/Routing/Destinations/Owner.antt =====
-- `IncludeOwner` finds the first of the tightest networks that hold a rule's.
use riftroute.Base.{
  ℕ, String, ltb, leb, if◌then◌else◌, true, false, ◌&&◌, List, [], ◌∷◌, ◌++◌, map, Option, none,
  some, ◌≡◌, refl, sym, ap, ◌∙◌, inl, inr, ◌⊎◌, arith, All, Bool-cases,
}
use riftroute.Netip.{Prefix}
use riftroute.Netip.Syntax.{Syntax}
use riftroute.Domain.{Family, PolicyRule}
use riftroute.Routing.Nets.{inside}
use riftroute.Routing.Destinations.{
  in_family, ProfileNets, Destinations, tighter, tightest_of, owner_among, include_owner, rule_net,
}

-- The networks of the include profiles, in profile order, each with its profile.
abbrev pub all_nets : Family → List ProfileNets → List (String × Prefix)
all_nets fam [] = []
all_nets fam (n ∷ ns) = map (λ a. (n.id, a)) (in_family n.nets fam) ++ all_nets fam ns

module _ (p : Prefix) where
  -- A network that does not hold p, or is shorter than the given length; or no longer.
  abbrev pub Looser : ℕ → String × Prefix → Type 0
  Looser bits n = (inside p n.1 && leb bits n.1.bits) ≡ false

  abbrev pub NoTighter : ℕ → String × Prefix → Type 0
  NoTighter bits n = (inside p n.1 && ltb bits n.1.bits) ≡ false

  abbrev pub Apart : String × Prefix → Type 0
  Apart n = inside p n.1 ≡ false

  -- The first of the tightest: looser ones stand before it, and none tighter behind it.
  pub record IsTightest (nets : List (String × Prefix)) (id : String) (bits : ℕ) : Type 0 where
    pub before : List (String × Prefix)
    pub net : Prefix
    pub behind : List (String × Prefix)
    pub split : nets ≡ before ++ ((id, net) ∷ behind)
    pub holds : inside p net ≡ true
    pub length : net.bits ≡ bits
    pub looser : All (Looser bits) before
    pub no_tighter : All (NoTighter bits) behind

  -- The loops as one, over all networks.
  abbrev pick : Option (String × ℕ) → String × Prefix → Option (String × ℕ)
  pick best n = if inside p n.1 && tighter n.1.bits best then some (n.0, n.1.bits) else best

  search : Option (String × ℕ) → List (String × Prefix) → Option (String × ℕ)
  search best [] = best
  search best (n ∷ ns) = search (pick best n) ns

  search-append :
      (best : Option (String × ℕ)) (l m : List (String × Prefix))
      → search best (l ++ m) ≡ search (search best l) m
  unfolding search
  search-append best [] m = refl
  search-append best (n ∷ l) m = search-append (pick best n) l m

  search-tightest_of :
      (best : Option (String × ℕ)) (id : String) (nets : List Prefix)
      → tightest_of p id best nets ≡ search best (map (λ a. (id, a)) nets)
  unfolding search tightest_of
  search-tightest_of best id [] = refl
  search-tightest_of best id (a ∷ nets) = search-tightest_of (pick best (id, a)) id nets

  search-owner_among :
      (fam : Family) (best : Option (String × ℕ)) (ns : List ProfileNets)
      → owner_among p fam best ns ≡ search best (all_nets fam ns)
  unfolding search owner_among
  search-owner_among fam best [] = refl
  search-owner_among fam best (n ∷ ns) =
      search-owner_among fam (tightest_of p n.id best (in_family n.nets fam)) ns
      ∙ ap (λ b. search b (all_nets fam ns)) (search-tightest_of best n.id (in_family n.nets fam))
      ∙ sym (search-append best (map (λ a. (n.id, a)) (in_family n.nets fam)) (all_nets fam ns))

  -- What the loop has found, from the best so far and the networks ahead.
  abbrev Below : Option (String × ℕ) → ℕ → Type 0
  Below best bits = tighter bits best ≡ true

  abbrev Found : Option (String × ℕ) → List (String × Prefix) → Option (String × ℕ) → Type 0
  Found best ns none = (best ≡ none) × All Apart ns
  Found best ns (some (id, bits)) =
      ((best ≡ some (id, bits)) × All (NoTighter bits) ns)
      ⊎ (IsTightest ns id bits × Below best bits)

  extend :
      {ns : List (String × Prefix)} {id : String} {bits : ℕ} (n : String × Prefix)
      → IsTightest ns id bits
      → Looser bits n
      → IsTightest (n ∷ ns) id bits
  extend n f s = record {
    before = n ∷ f.before;
    net = f.net;
    behind = f.behind;
    split = ap (◌∷◌ n) f.split;
    holds = f.holds;
    length = f.length;
    looser = (s, f.looser);
    no_tighter = f.no_tighter;
  }

  -- A network that does not hold it, or is no tighter than the best so far.
  Found-skipped :
      (best : Option (String × ℕ)) (n : String × Prefix) (ns : List (String × Prefix))
      (res : Option (String × ℕ))
      → (inside p n.1 && tighter n.1.bits best) ≡ false
      → Found best ns res
      → Found best (n ∷ ns) res
  Found-skipped none n ns none s f = (f.0, (ground arith, f.1))
  Found-skipped (some (j, b)) n ns none s f = (f.0, cc)
  Found-skipped none n ns (some (id, bits)) s (inl f) = cc
  Found-skipped none n ns (some (id, bits)) s (inr f) = inr (extend n f.0 (ground arith), f.1)
  Found-skipped (some (j, b)) n ns (some (id, bits)) s (inl f) =
      let same : b ≡ bits = ground arith in inl (f.0, (rw (← same) s, f.1))
  Found-skipped (some (j, b)) n ns (some (id, bits)) s (inr f) =
      inr (extend n f.0 (ground arith), f.1)

  Found-picked :
      (best : Option (String × ℕ)) (n : String × Prefix) (ns : List (String × Prefix))
      (res : Option (String × ℕ))
      → inside p n.1 ≡ true
      → tighter n.1.bits best ≡ true
      → Found (some (n.0, n.1.bits)) ns res
      → Found best (n ∷ ns) res
  Found-picked best n ns none h t f = cc
  Found-picked best n ns (some (id, bits)) h t (inl f) =
      let name : n.0 ≡ id = ground arith in
      let length : n.1.bits ≡ bits = ground arith in
      inr (
        record {
          before = [];
          net = n.1;
          behind = ns;
          split = ap (λ (i : String). (i, n.1) ∷ ns) name;
          holds = h;
          length = length;
          looser = tt;
          no_tighter = f.1;
        },
        rw (← length) t,
      )
  Found-picked none n ns (some (id, bits)) h t (inr f) = inr (extend n f.0 (ground arith), refl)
  Found-picked (some (j, b)) n ns (some (id, bits)) h t (inr f) =
      inr (extend n f.0 (ground arith), ground arith)

  search-Found :
      (best : Option (String × ℕ)) (ns : List (String × Prefix)) → Found best ns (search best ns)
  unfolding search
  search-Found none [] = (refl, tt)
  search-Found (some (id, bits)) [] = inl (refl, tt)
  search-Found best (n ∷ ns) = elim (Bool-cases (inside p n.1 && tighter n.1.bits best)) [
    | inl e ↦ rw e (
        Found-picked best n ns _ (ground arith) (ground arith)
          (search-Found (some (n.0, n.1.bits)) ns))
    | inr e ↦ rw e (Found-skipped best n ns _ e (search-Found best ns))
  ]

-- Nobody's, or the profile's with the first of the tightest networks.
abbrev pub Owned : Prefix → List (String × Prefix) → String → Type 0
Owned p nets owner =
    ((owner ≡ "") × All (Apart p) nets) ⊎ ((bits : ℕ) × IsTightest p nets owner bits)

-- For any destinations and any rule with a network: either no network of an include profile of the
-- rule's family holds it, and it has no owner; or its owner is the profile with the first of the
-- tightest networks that hold it, in profile order: those before it that hold it are shorter, and
-- those behind it are no longer.
pub include_owner-Owned :
    (syntax : Syntax) (ds : Destinations) (r : PolicyRule) (p : Prefix)
    → rule_net syntax r ≡ some p
    → Owned p (all_nets r.family ds.includes) (include_owner syntax ds r)
unfolding include_owner
include_owner-Owned syntax ds r p e =
    rw (include_owner, e, search-owner_among p r.family none ds.includes)
      (go (search p none (all_nets r.family ds.includes))
        (search-Found p none (all_nets r.family ds.includes)))
  where
    go :
        (res : Option (String × ℕ))
        → Found p none (all_nets r.family ds.includes) res
        → Owned p (all_nets r.family ds.includes) (elim res [ none ↦ "" | some (id, bits) ↦ id ])
    go none f = inl (refl, f.1)
    go (some (id, bits)) (inl f) = cc
    go (some (id, bits)) (inr f) = inr (bits, f.0)
