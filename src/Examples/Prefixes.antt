-- ===== src/Examples/Prefixes.antt =====
-- Prefix arithmetic at work: 10.0.0.0/9 and its sibling, a prefix that another covers, and a
-- network cut out of a larger one.
use riftroute.Base.{ℕ, true, false, not, ◌&&◌, List, [], ◌∷◌, ◌≡◌, refl, arith}
use riftroute.Netip.{Addr, Prefix, masked, contains, addr_eq}
use riftroute.Netip.Halves.{halves}
use riftroute.Routing.Aggregate.{aggregate, merge_once}
use riftroute.Routing.Aggregate.Coverage.{covers, covers-aggregate}
use riftroute.Routing.Aggregate.Fixpoint.{merge_once-aggregate}
use riftroute.Routing.Nets.{around_tunnels, subtract_nets}
use riftroute.Routing.Nets.Coverage.{covers-around_tunnels}

abbrev v4 : ℕ → ℕ → Prefix
v4 value bits = record { is4 = true; value = value; bits = bits }

-- 10.0.0.0/9, 10.128.0.0/9 (given unmasked), and 10.1.0.0/16, which the first covers.
abbrev given : List Prefix
given = v4 0x0a800001 9 ∷ v4 0x0a010000 16 ∷ v4 0x0a000000 9 ∷ []

abbrev host : Addr
host = record { is4 = true; value = 0x0a810203; zone = "" }

aggregate_test : aggregate given ≡ v4 0x0a000000 8 ∷ []
unfolding aggregate masked contains addr_eq
aggregate_test = refl

covers-aggregate_example : covers (aggregate given) host ≡ covers given host
covers-aggregate_example = covers-aggregate given host

merge_once-aggregate_example : merge_once (aggregate given) ≡ (aggregate given, false)
merge_once-aggregate_example = merge_once-aggregate given

-- 10.0.0.0/8 without 10.192.0.0/10.
subtract_test :
    subtract_nets (v4 0x0a000000 8) (v4 0x0ac00000 10 ∷ [])
    ≡ v4 0x0a000000 9 ∷ v4 0x0a800000 10 ∷ []
unfolding subtract_nets contains masked halves
subtract_test = refl

covers-around_tunnels_example :
    covers (around_tunnels (v4 0x0a000000 8 ∷ []) (v4 0x0ac00000 10 ∷ [])) host
    ≡ (covers (v4 0x0a000000 8 ∷ []) host && not (covers (v4 0x0ac00000 10 ∷ []) host))
covers-around_tunnels_example =
    covers-around_tunnels (v4 0x0a000000 8 ∷ []) (v4 0x0ac00000 10 ∷ []) host (omega arith)
