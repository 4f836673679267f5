-- ===== src/Routing/Destinations/Listed.antt =====
-- What the loop of `ProfileDestinations` collects: the prefixes of the enabled profiles of a mode.
use mathlib.Core.List.{Memᴰ}
use mathlib.Core.List.Memᴰ
use riftroute.Base.{
  if◌then◌else◌, Bool, true, false, ◌&&◌, ◌||◌, bool_eq, List, [], ◌∷◌, ◌++◌, ◌≡◌, refl, ap, ◌∙◌,
  inl, inr, ◌⊎◌, arith, Bool-cases, any-append, sym,
}
use riftroute.Netip.{Addr, Prefix, contains}
use riftroute.Netip.Syntax.{Syntax}
use riftroute.Domain.{Family}
use riftroute.Domain.Profiles.{Profile}
use riftroute.Routing.Aggregate.{aggregate}
use riftroute.Routing.Aggregate.Coverage.{covers}
use riftroute.Routing.Destinations.{
  DestinationInput, ByFamily, in_family, join, aggregated, Destinations, is_include, routes_main,
  profile_prefixes, add_profile, add_profiles,
}

-- The prefixes collected for a mode: include, or any other.
abbrev pub of_mode : Bool → Destinations → ByFamily
of_mode true ds = ds.include
of_mode false ds = ds.exclude

-- A profile that routes past (false) or into (true) the main VPN.
abbrev pub has_mode : Bool → Profile → Bool
has_mode include p = routes_main p && bool_eq (is_include p) include

in_family-join :
    (m n : ByFamily) (fam : Family) → in_family (join m n) fam ≡ in_family m fam ++ in_family n fam
in_family-join m n fam = ground arith

pub in_family-aggregated :
    (m : ByFamily) (fam : Family) → in_family (aggregated m) fam ≡ aggregate (in_family m fam)
unfolding aggregate
in_family-aggregated m fam = ground arith

module _ (syntax : Syntax) (d : DestinationInput) where
  of_mode-add_profile :
      (include : Bool) (ds : Destinations) (p : Profile)
      → of_mode include (add_profile syntax d ds p) ≡ (
          if has_mode include p
          then join (of_mode include ds) (profile_prefixes syntax d p)
          else of_mode include ds)
  unfolding add_profile
  of_mode-add_profile true ds p = ground arith
  of_mode-add_profile false ds p = ground arith

  -- One more profile: its prefixes are added if it has the mode.
  gained :
      (include : Bool) (ds : Destinations) (p : Profile) (fam : Family)
      → has_mode include p ≡ true
      → in_family (of_mode include (add_profile syntax d ds p)) fam
        ≡ in_family (of_mode include ds) fam ++ in_family (profile_prefixes syntax d p) fam
  gained include ds p fam h = rw (of_mode-add_profile include ds p, h, in_family-join)

  passed_over :
      (include : Bool) (ds : Destinations) (p : Profile) (fam : Family)
      → has_mode include p ≡ false
      → in_family (of_mode include (add_profile syntax d ds p)) fam
        ≡ in_family (of_mode include ds) fam
  passed_over include ds p fam h = rw (of_mode-add_profile include ds p, h)

  of_mode_kept :
      (include : Bool) (ds : Destinations) (ps : List Profile) (fam : Family) (x : Prefix)
      → Memᴰ x (in_family (of_mode include ds) fam)
      → Memᴰ x (in_family (of_mode include (add_profiles syntax d ds ps)) fam)
  unfolding add_profiles
  of_mode_kept include ds [] fam x m = m
  of_mode_kept include ds (p ∷ ps) fam x m =
      of_mode_kept include (add_profile syntax d ds p) ps fam x
        (elim (Bool-cases (has_mode include p)) [
          | inl e ↦ rw (gained include ds p fam e) (Memᴰ.append_left _ m)
          | inr e ↦ rw (passed_over include ds p fam e) m
        ])

  -- What a profile of the mode lists is collected.
  pub of_mode_listed :
      (include : Bool) (ds : Destinations) (ps : List Profile) (p : Profile) (fam : Family)
      (x : Prefix)
      → Memᴰ p ps
      → has_mode include p ≡ true
      → Memᴰ x (in_family (profile_prefixes syntax d p) fam)
      → Memᴰ x (in_family (of_mode include (add_profiles syntax d ds ps)) fam)
  unfolding add_profiles
  of_mode_listed include ds [] p fam x i h m = elim i [ ]
  of_mode_listed include ds (q ∷ ps) p fam x (Memᴰ.head e) h m =
      of_mode_kept include (add_profile syntax d ds q) ps fam x (
        rw (← e, gained include ds p fam h)
          (Memᴰ.append_right (in_family (of_mode include ds) fam) m))
  of_mode_listed include ds (q ∷ ps) p fam x (Memᴰ.tail i) h m =
      of_mode_listed include (add_profile syntax d ds q) ps p fam x i h m

  -- An address that a profile of the mode lists.
  pub record ListedBy (include : Bool) (ps : List Profile) (fam : Family) (a : Addr) : Type 0 where
    pub profile : Profile
    pub member : Memᴰ profile ps
    pub mode : has_mode include profile ≡ true
    pub address : covers (in_family (profile_prefixes syntax d profile) fam) a ≡ true

  later :
      {include : Bool} {ps : List Profile} {fam : Family} {a : Addr} (p : Profile)
      → ListedBy include ps fam a
      → ListedBy include (p ∷ ps) fam a
  later p l = record {
    profile = l.profile;
    member = Memᴰ.tail l.member;
    mode = l.mode;
    address = l.address;
  }

  covered_step :
      (include : Bool) (ds : Destinations) (p : Profile) (ps : List Profile) (fam : Family)
      (a : Addr)
      → covers (in_family (of_mode include (add_profile syntax d ds p)) fam) a ≡ true
      → (covers (in_family (of_mode include ds) fam) a ≡ true) ⊎ ListedBy include (p ∷ ps) fam a
  covered_step include ds p ps fam a c = elim (Bool-cases (has_mode include p)) [
    | inr e ↦ inl (ap (λ l. covers l a) (sym (passed_over include ds p fam e)) ∙ c)
    | inl e ↦ elim (Bool-cases (covers (in_family (of_mode include ds) fam) a)) [
      | inl h ↦ inl h
      | inr h ↦ inr (record { profile = p; member = Memᴰ.head refl; mode = e; address = own e h })
    ]
  ]
    where
      own :
          has_mode include p ≡ true
          → covers (in_family (of_mode include ds) fam) a ≡ false
          → covers (in_family (profile_prefixes syntax d p) fam) a ≡ true
      own e h =
          let both =
            sym (
              ap (λ l. covers l a) (gained include ds p fam e)
              ∙ any-append (λ (q : Prefix). contains q a) (in_family (of_mode include ds) fam)
                  (in_family (profile_prefixes syntax d p) fam))
            ∙ c in
          ap (λ b. b || covers (in_family (profile_prefixes syntax d p) fam) a) (sym h) ∙ both

  -- What is collected covers no other address than those.
  pub of_mode_covered :
      (include : Bool) (ds : Destinations) (ps : List Profile) (fam : Family) (a : Addr)
      → covers (in_family (of_mode include (add_profiles syntax d ds ps)) fam) a ≡ true
      → (covers (in_family (of_mode include ds) fam) a ≡ true) ⊎ ListedBy include ps fam a
  unfolding add_profiles
  of_mode_covered include ds [] fam a c = inl c
  of_mode_covered include ds (p ∷ ps) fam a c =
      elim (of_mode_covered include (add_profile syntax d ds p) ps fam a c) [
        | inr l ↦ inr (later p l)
        | inl h ↦ covered_step include ds p ps fam a h
      ]
