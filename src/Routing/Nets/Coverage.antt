-- ===== src/Routing/Nets/Coverage.antt =====
-- What is left of prefixes beside a tunnel's networks, address by address.
use riftroute.Base.{
  ℕ, zero, suc, ◌+◌, ◌-◌, ◌≤◌, ◌<◌, ltb, leb, bool_eq, Bool, true, false, not, ◌&&◌, ◌||◌, List, [],
  ◌∷◌, ◌≡◌, refl, ap, inl, inr, arith, any, any-append, All, Bool-cases, leb→le, ltb→lt,
  bool_eq_refl, bool_eq→eq, ◌⊎◌,
}
use riftroute.Netip.{Addr, Prefix, width, addr, masked, contains}
use riftroute.Netip.Blocks.{
  contains→Inside, Inside→contains, Inside-nested, contains_trans, contains-masked,
}
use riftroute.Netip.Halves.{halves, contains-halves, halves-bits, halves-is4}
use riftroute.Routing.Aggregate.Coverage.{covers}
use riftroute.Routing.Nets.{
  inside, within, outside_tunnels, Verdict, dropped, split, kept, verdict, subtract_from,
  subtract_nets, subtract_all, around_tunnels,
}

-- Networks that ParsePrefix can have given: their length fits their family.
abbrev pub AllValid : List Prefix → Type 0
AllValid = All (λ n. n.bits ≤ width n.is4)

-- All of a covered prefix lies in what covers it.
inside_lem :
    (p n : Prefix) (a : Addr) → inside p n ≡ true → contains p a ≡ true → contains n a ≡ true
inside_lem p n a h c = contains_trans p n a (leb→le _ _ (ground arith)) (ground arith) c

-- A dropped prefix lies in the networks.
dropped-covers :
    (p : Prefix) (nets : List Prefix) (a : Addr)
    → verdict p nets ≡ dropped
    → contains p a ≡ true
    → covers nets a ≡ true
unfolding verdict
dropped-covers p [] a h c = cc
dropped-covers p (n ∷ nets) a h c = ground (arith, inside_lem p n a, dropped-covers p nets a)

-- Prefixes of which neither covers the other share no address.
disjoint :
    (p n : Prefix) (a : Addr)
    → inside p n ≡ false
    → (ltb p.bits n.bits && contains p (addr n)) ≡ false
    → contains p a ≡ true
    → contains n a ≡ false
disjoint p n a h k c = elim (Bool-cases (contains n a)) [
  | inr e ↦ e
  | inl e ↦ elim (Bool-cases (leb n.bits p.bits)) [
    | inl le ↦ ground (
      arith,
      Inside→contains n (addr p)
          (Inside-nested (leb→le _ _ le) (contains→Inside n a e) (contains→Inside p a c)),
    )
    | inr gt ↦ ground (
      arith,
      Inside→contains p (addr n) (
          Inside-nested {p = n} {q = p} {a = a} (ground arith) (contains→Inside p a c)
            (contains→Inside n a e)),
    )
  ]
]

other_family :
    (p n : Prefix) (a : Addr)
    → bool_eq n.is4 p.is4 ≡ false
    → contains p a ≡ true
    → contains n a ≡ false
other_family p n a h c = elim (Bool-cases (contains n a)) [
  | inr e ↦ e
  | inl e ↦
      ground
        (arith, (contains→Inside n a e).family, (contains→Inside p a c).family, bool_eq_refl a.is4)
]

-- A kept prefix shares no address with the networks.
kept-covers :
    (p : Prefix) (nets : List Prefix) (a : Addr)
    → verdict p nets ≡ kept
    → contains p a ≡ true
    → covers nets a ≡ false
unfolding verdict
kept-covers p [] a h c = refl
kept-covers p (n ∷ nets) a h c =
    ground (arith, disjoint p n a, other_family p n a, kept-covers p nets a)

-- A split prefix is shorter than some network, so it is no single address.
short :
    (p n : Prefix)
    → n.bits ≤ width n.is4
    → bool_eq n.is4 p.is4 ≡ true
    → ltb p.bits n.bits ≡ true
    → p.bits < width p.is4
short p n v f h = omega (arith, ap width (bool_eq→eq n.is4 p.is4 f), ltb→lt p.bits n.bits h)

split-short :
    (p : Prefix) (nets : List Prefix)
    → AllValid nets
    → verdict p nets ≡ split
    → p.bits < width p.is4
unfolding verdict
split-short p [] v h = cc
split-short p (n ∷ nets) v h = ground (arith, short p n v.0, split-short p nets v.1)

Verdict-cases : (v : Verdict) → (v ≡ dropped) ⊎ (v ≡ split) ⊎ (v ≡ kept)
Verdict-cases dropped = inl refl
Verdict-cases split = inr (inl refl)
Verdict-cases kept = inr (inr refl)

-- With fuel for every open bit, what is left of a prefix is exactly its part outside the networks.
covers-subtract_from :
    (fuel : ℕ) (p : Prefix) (nets : List Prefix) (a : Addr)
    → AllValid nets
    → width p.is4 - p.bits < fuel
    → covers (subtract_from fuel p nets) a ≡ (contains p a && not (covers nets a))
unfolding subtract_from
covers-subtract_from zero p nets a v enough = absurd (omega arith)
covers-subtract_from (suc fuel) p nets a v enough = elim (Verdict-cases (verdict p nets)) [
  | inl e ↦ rw (e, subtract_from) (ground (arith, dropped-covers p nets a e))
  | inr (inr e) ↦ rw (e, subtract_from) (ground (arith, kept-covers p nets a e))
  | inr (inl e) ↦
      let less = split-short p nets v e in
      rw
        (
          e,
          subtract_from,
          any-append (λ (q : Prefix). contains q a) (subtract_from fuel (halves p).0 nets)
              (subtract_from fuel (halves p).1 nets),
        )
        (rw
          (
            covers-subtract_from fuel (halves p).0 nets a v
                (smaller (halves p).0 (halves-bits p).0 (halves-is4 p).0 less),
            covers-subtract_from fuel (halves p).1 nets a v
                (smaller (halves p).1 (halves-bits p).1 (halves-is4 p).1 less),
            contains-halves p a less,
          )
          (distribute (contains (halves p).0 a) (contains (halves p).1 a) (not (covers nets a))))
]
  where
    smaller :
        (h : Prefix)
        → h.bits ≡ p.bits + 1
        → h.is4 ≡ p.is4
        → p.bits < width p.is4
        → width h.is4 - h.bits < fuel
    smaller h b f less = omega (arith, ap width f)

    distribute : (x y z : Bool) → (x && z || y && z) ≡ ((x || y) && z)
    distribute x y z = ground arith

pub covers-subtract_nets :
    (p : Prefix) (nets : List Prefix) (a : Addr)
    → AllValid nets
    → covers (subtract_nets p nets) a ≡ (contains p a && not (covers nets a))
unfolding subtract_nets
covers-subtract_nets p nets a v =
    covers-subtract_from (suc (width p.is4 - p.bits)) p nets a v (omega arith)

covers-subtract_all :
    (ps nets : List Prefix) (a : Addr)
    → AllValid nets
    → covers (subtract_all ps nets) a ≡ (covers ps a && not (covers nets a))
unfolding subtract_all
covers-subtract_all [] nets a v = refl
covers-subtract_all (p ∷ ps) nets a v =
    rw
      (
        any-append (λ (q : Prefix). contains q a) (subtract_nets (masked p) nets)
            (subtract_all ps nets),
        covers-subtract_nets (masked p) nets a v,
        covers-subtract_all ps nets a v,
        contains-masked p a,
      )
      (ground arith)

-- For any prefixes and any valid networks, an address lies in what `aroundTunnels` leaves exactly
-- when it lies in one of the prefixes and in none of the networks.
pub covers-around_tunnels :
    (ps nets : List Prefix) (a : Addr)
    → AllValid nets
    → covers (around_tunnels ps nets) a ≡ (covers ps a && not (covers nets a))
unfolding around_tunnels
covers-around_tunnels ps [] a v = ground arith
covers-around_tunnels ps (n ∷ nets) a v = covers-subtract_all ps (n ∷ nets) a v

any-inside-covers :
    (p : Prefix) (nets : List Prefix) (a : Addr)
    → any (λ n. inside p n) nets ≡ true
    → contains p a ≡ true
    → covers nets a ≡ true
any-inside-covers p [] a h c = cc
any-inside-covers p (n ∷ nets) a h c = ground (arith, inside_lem p n a, any-inside-covers p nets a)

-- For any prefixes and networks: the prefixes that `outsideTunnels` keeps, together with the
-- networks, cover the addresses that the given prefixes and the networks cover; and none of those
-- it keeps lies inside a network.
pub outside_tunnels_lem :
    (ps nets : List Prefix)
    → ((a : Addr)
        → (covers (outside_tunnels ps nets) a || covers nets a) ≡ (covers ps a || covers nets a))
      × All (λ p. any (λ n. inside p n) nets ≡ false) (outside_tunnels ps nets)
unfolding outside_tunnels
outside_tunnels_lem [] nets = (λ a. refl, tt)
outside_tunnels_lem (p ∷ ps) nets =
    let (cover, apart) = outside_tunnels_lem ps nets in
    elim (Bool-cases (any (λ n. inside p n) nets)) [
      | inl e ↦ rw e (λ a. ground (arith, cover a, any-inside-covers p nets a e), apart)
      | inr e ↦ rw e (λ a. ground (arith, cover a), (e, apart))
    ]

-- What a set of prefixes covers, a prefix within the set covers no more than.
pub within-covers :
    (p : Prefix) (aggregated : List Prefix) (a : Addr)
    → within p aggregated ≡ true
    → contains p a ≡ true
    → covers aggregated a ≡ true
unfolding within
within-covers p aggregated a h c = any-inside-covers p aggregated a h c
