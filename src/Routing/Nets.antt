-- ===== src/Routing/Nets.antt =====
-- internal/routing/tunnels.go and engine.go: prefixes set against a tunnel's networks.
pub mod Coverage
use riftroute.Base.{
  ℕ, zero, suc, ◌-◌, ltb, leb, bool_eq, if◌then◌else◌, Bool, true, false, not, ◌&&◌, List, [], ◌∷◌,
  ◌++◌, any, select,
}
use riftroute.Netip.{Addr, Prefix, width, addr, masked, contains}
use riftroute.Netip.Halves.{halves}

-- Whether q covers p: the source's `q.Bits() <= p.Bits() && q.Contains(p.Addr())`.
abbrev pub inside : Prefix → Prefix → Bool
inside p q = leb q.bits p.bits && contains q (addr p)

-- `within`.
unfoldable pub within : Prefix → List Prefix → Bool
within p aggregated = any (λ q. inside p q) aggregated

-- `outsideTunnels`: the loop's `inside` flag is whether some network covers the prefix. With no
-- networks the source returns its input, as the loop would.
unfoldable pub outside_tunnels : List Prefix → List Prefix → List Prefix
outside_tunnels prefixes nets = select (λ p. not (any (λ n. inside p n) nets)) prefixes

-- What the loop of `subtractNets` finds first: a network that p lies in, one that lies in p, or none.
pub data Verdict : Type 0 where
  dropped split kept : Verdict

unfoldable pub verdict : Prefix → List Prefix → Verdict
verdict p [] = kept
verdict p (n ∷ nets) =
    if not (bool_eq n.is4 p.is4)
    then verdict p nets
    else if inside p n
    then dropped
    else if ltb p.bits n.bits && contains p (addr n)
    then split
    else verdict p nets

-- `subtractNets` on fuel. A prefix is split only while it is shorter than some network, so there are
-- at most as many splits below it as it has open bits.
unfoldable pub subtract_from : ℕ → Prefix → List Prefix → List Prefix
unfolding verdict halves
subtract_from zero p nets = p ∷ []
subtract_from (suc fuel) p nets = elim (verdict p nets) [
  | dropped ↦ []
  | split ↦ subtract_from fuel (halves p).0 nets ++ subtract_from fuel (halves p).1 nets
  | kept ↦ p ∷ []
]

unfoldable pub subtract_nets : Prefix → List Prefix → List Prefix
unfolding subtract_from
subtract_nets p nets = subtract_from (suc (width p.is4 - p.bits)) p nets

-- The loop of `aroundTunnels`.
unfoldable pub subtract_all : List Prefix → List Prefix → List Prefix
unfolding subtract_nets masked
subtract_all [] nets = []
subtract_all (p ∷ ps) nets = subtract_nets (masked p) nets ++ subtract_all ps nets

unfoldable pub around_tunnels : List Prefix → List Prefix → List Prefix
unfolding subtract_all
around_tunnels prefixes [] = prefixes
around_tunnels prefixes (n ∷ nets) = subtract_all prefixes (n ∷ nets)
