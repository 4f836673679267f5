-- ===== src/Examples/Claims.antt =====
-- Two halves of 10/8 that something else routes as a whole.
use riftroute.Base.{ℕ, ◌==◌, Bool, true, List, [], ◌∷◌, ◌≡◌, refl}
use riftroute.Netip.{Addr, Prefix, addr_eq, contains, masked, prefix_eq}
use riftroute.Routing.Aggregate.{aggregate}
use riftroute.Routing.Aggregate.Coverage.{covers}
use riftroute.Routing.Unclaimed.{unclaimed_aggregate}
use riftroute.Routing.Unclaimed.Listed.{covers-unclaimed_aggregate}

abbrev half_at : ℕ → Prefix
half_at value = record { is4 = true; value = value; bits = 9 }

abbrev both_halves : List Prefix
both_halves = half_at 0x0a000000 ∷ half_at 0x0a800000 ∷ []

abbrev taken : Prefix → Bool
taken p = p.bits == 8

abbrev inner : Addr
inner = record { is4 = true; value = 0x0a810203; zone = "" }

unclaimed_test : unclaimed_aggregate taken both_halves ≡ both_halves
unfolding unclaimed_aggregate aggregate masked contains addr_eq prefix_eq
unclaimed_test = refl

covers-unclaimed_aggregate_example :
    covers (unclaimed_aggregate taken both_halves) inner ≡ covers both_halves inner
covers-unclaimed_aggregate_example = covers-unclaimed_aggregate taken both_halves inner
