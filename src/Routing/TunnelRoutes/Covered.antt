-- ===== src/Routing/TunnelRoutes/Covered.antt =====
-- What the tunnels' routes cover with the profiles' destinations added.
use riftroute.Base.{
  ℕ, ◌==◌, String, str_eq, str_eq_iff, Bool, true, ◌||◌, List, [], ◌∷◌, ◌++◌, map, any, any-append,
  none, some, ◌≡◌, refl, sym, ap, ◌∙◌, inl, inr, arith, All, Bool-cases, Option-cases,
}
use riftroute.Netip.{Addr, Prefix, width, addr, contains}
use riftroute.Netip.Syntax.{Syntax}
use riftroute.Routing.Aggregate.{aggregate}
use riftroute.Routing.Aggregate.Coverage.{covers, covers-aggregate}
use riftroute.Routing.Destinations.{DestinationInput, entry_prefixes, host_prefix}
use riftroute.Routing.RulesBeside.{entry_to_prefix}
use riftroute.Routing.TunnelRoutes.{
  TunnelInput, by_tunnel, route_text, tunnel_profile_routes, once, with_extra, with_routes,
}

module _ (syntax : Syntax) where
  -- netip reads back what it prints of a prefix, and of a host's address, which is no prefix.
  pub record Prints (p : Prefix) : Type 0 where
    pub prefix : syntax.parse_prefix (syntax.print_prefix p) ≡ some p
    pub not_prefix : syntax.parse_prefix (syntax.print_addr (addr p)) ≡ none
    pub address : syntax.parse_addr (syntax.print_addr (addr p)) ≡ some (addr p)

  entry-print_addr :
      (p : Prefix)
      → Prints p
      → entry_to_prefix syntax (syntax.print_addr (addr p)) ≡ some (host_prefix (addr p))
  unfolding entry_to_prefix
  entry-print_addr p h = rw (entry_to_prefix, h.not_prefix, h.address)

  entry-print_prefix :
      (p : Prefix) → Prints p → entry_to_prefix syntax (syntax.print_prefix p) ≡ some p
  unfolding entry_to_prefix
  entry-print_prefix p h = rw (entry_to_prefix, h.prefix)

  host_prefix-addr : (p : Prefix) → (p.bits == width p.is4) ≡ true → host_prefix (addr p) ≡ p
  host_prefix-addr p e = ap (λ (n : ℕ). record p { bits = n }) (sym (ground arith))

  entry-route_text : (p : Prefix) → Prints p → entry_to_prefix syntax (route_text syntax p) ≡ some p
  unfolding route_text
  entry-route_text p h = elim (Bool-cases (p.bits == width p.is4)) [
    | inl e ↦ rw (route_text, e) (entry-print_addr p h ∙ ap some (host_prefix-addr p e))
    | inr e ↦ rw (route_text, e) (entry-print_prefix p h)
  ]

  entry_prefixes-route_text :
      (ps : List Prefix) → All Prints ps → entry_prefixes syntax (map (route_text syntax) ps) ≡ ps
  unfolding entry_prefixes
  entry_prefixes-route_text [] h = refl
  entry_prefixes-route_text (p ∷ ps) h =
      rw (entry_prefixes, entry-route_text p h.0) (ap (◌∷◌ p) (entry_prefixes-route_text ps h.1))

  entry_prefixes-append :
      (rs ss : List String)
      → entry_prefixes syntax (rs ++ ss) ≡ entry_prefixes syntax rs ++ entry_prefixes syntax ss
  unfolding entry_prefixes
  entry_prefixes-append [] ss = refl
  entry_prefixes-append (r ∷ rs) ss = elim (Option-cases (entry_to_prefix syntax r)) [
    | inl e ↦ rw (entry_prefixes, e) (entry_prefixes-append rs ss)
    | inr (p, e) ↦ rw (entry_prefixes, e) (ap (◌∷◌ p) (entry_prefixes-append rs ss))
  ]

  -- Whether texts hold an address.
  abbrev pub texts_cover : List String → Addr → Bool
  texts_cover rs a = covers (entry_prefixes syntax rs) a

  texts_cover-append :
      (rs ss : List String) (a : Addr)
      → texts_cover (rs ++ ss) a ≡ (texts_cover rs a || texts_cover ss a)
  texts_cover-append rs ss a =
      ap (λ l. covers l a) (entry_prefixes-append rs ss)
      ∙ any-append (λ (p : Prefix). contains p a) (entry_prefixes syntax rs)
          (entry_prefixes syntax ss)

  -- A text among those seen adds nothing.
  texts_cover_seen :
      (r : String) (seen : List String) (a : Addr)
      → any (str_eq r) seen ≡ true
      → texts_cover (r ∷ []) a ≡ true
      → texts_cover seen a ≡ true
  texts_cover_seen r [] a h k = cc
  texts_cover_seen r (s ∷ seen) a h k = elim (Bool-cases (str_eq r s)) [
    | inl e ↦
        texts_cover-append (s ∷ []) seen a
        ∙ ap (λ b. b || texts_cover seen a)
            (ap (λ t. texts_cover (t ∷ []) a) (sym ((str_eq_iff r s).0 e)) ∙ k)
    | inr e ↦ texts_cover-append (s ∷ []) seen a ∙ ground (arith, texts_cover_seen r seen a)
  ]

  texts_cover-once :
      (seen rs : List String) (a : Addr)
      → (texts_cover seen a || texts_cover (once seen rs) a)
        ≡ (texts_cover seen a || texts_cover rs a)
  unfolding once
  texts_cover-once seen [] a = refl
  texts_cover-once seen (r ∷ rs) a = elim (Bool-cases (any (str_eq r) seen)) [
    | inl e ↦ rw e (
        ground (
          arith,
          texts_cover-once seen rs a,
          texts_cover-append (r ∷ []) rs a,
          texts_cover_seen r seen a e,
        ))
    | inr e ↦ rw e (
        ground (
          arith,
          texts_cover-once (r ∷ seen) rs a,
          texts_cover-append (r ∷ []) rs a,
          texts_cover-append (r ∷ []) seen a,
          texts_cover-append (r ∷ []) (once (r ∷ seen) rs) a,
        ))
  ]

  texts_cover-with_extra :
      (t : TunnelInput) (extra : List String) (a : Addr)
      → texts_cover (with_extra t extra).routes a ≡ (texts_cover t.routes a || texts_cover extra a)
  unfolding with_extra entry_prefixes
  texts_cover-with_extra t [] a = ground arith
  texts_cover-with_extra t (e ∷ es) a =
      texts_cover-once [] (t.routes ++ e ∷ es) a ∙ texts_cover-append t.routes (e ∷ es) a

  module _ (d : DestinationInput) where
    abbrev pub fed : String → List Prefix
    fed name = by_tunnel syntax d name d.profiles

    texts_cover-tunnel_profile_routes :
        (name : String) (a : Addr)
        → All Prints (aggregate (fed name))
        → texts_cover (tunnel_profile_routes syntax d name) a ≡ covers (fed name) a
    unfolding tunnel_profile_routes
    texts_cover-tunnel_profile_routes name a h =
        ap (λ l. covers l a) (entry_prefixes-route_text (aggregate (fed name)) h)
        ∙ covers-aggregate (fed name) a

    texts_cover_profiles :
        (t : TunnelInput) (a : Addr)
        → All Prints (aggregate (fed t.name))
        → texts_cover (with_extra t (tunnel_profile_routes syntax d t.name)).routes a
          ≡ (texts_cover t.routes a || covers (fed t.name) a)
    texts_cover_profiles t a h =
        texts_cover-with_extra t (tunnel_profile_routes syntax d t.name) a
        ∙ ap (λ b. texts_cover t.routes a || b) (texts_cover-tunnel_profile_routes t.name a h)

    -- For any input and tunnels, where netip reads back the prefixes and addresses that it prints of
    -- what the tunnel-mode profiles list: with those profiles' destinations added, each tunnel's
    -- routes hold an address exactly if its own routes or one of its profiles' destinations do.
    pub texts_cover-with_routes :
        (ts : List TunnelInput) (a : Addr)
        → All (λ (t : TunnelInput). All Prints (aggregate (fed t.name))) ts
        → map
            (λ (t : TunnelInput). texts_cover t.routes a)
            (with_routes ts (tunnel_profile_routes syntax d))
          ≡ map (λ (t : TunnelInput). texts_cover t.routes a || covers (fed t.name) a) ts
    unfolding with_routes
    texts_cover-with_routes [] a h = refl
    texts_cover-with_routes (t ∷ ts) a h = rw (texts_cover_profiles t a h.0) (
        ap (λ l. (texts_cover t.routes a || covers (fed t.name) a) ∷ l)
          (texts_cover-with_routes ts a h.1))
