-- ===== src/Examples/Routes.antt =====
-- The routing engine at work: a route that moves into a tunnel, and a narrower one beside it.
use mathlib.Core.Option
use riftroute.Base.{true, not, [], ◌∷◌, none, length, select, ◌≡◌, ◌↔◌, ◌⊎◌, refl}
use riftroute.Netip.{Addr, masked, contains, overlaps}
use riftroute.Domain.{add_route, del_route}
use riftroute.Routing.Keys.{route_key, dst_key}
use riftroute.Routing.Plan.{
  key, dst, reconcile, make_route_op, route_adds, replace_olds, rule_adds, rule_dels, route_dels,
}
use riftroute.Routing.Plan.Shape.{find_dst}
use riftroute.Routing.Plan.Crash.{kernel_run-crash}
use riftroute.Routing.Plan.Kernel.{kernel_run, table_of}
use riftroute.Routing.Plan.Converge.{kernel_run-reconcile, kernel_run-inverse}
use riftroute.Routing.Simulate.{simulate, best_route, match_bits, decide_on}
use riftroute.Routing.Simulate.Longest.{Unrouted, Longest, simulate-Longest}
use riftroute.Routing.Nets.{outside_tunnels}
use riftroute.Routing.Conflict.{detect_conflicts, entries, conflict_of, same_hop}
use riftroute.Routing.Conflict.Shared.{AllAgree, detect_conflicts_none}
use riftroute.Routing.Beside.{TunnelPlan, beside, yields}
use riftroute.Routing.Beside.Placed.{first, find_dst-beside}
use riftroute.Routing.Beside.Distinct.{beside-IsDistinct}
use riftroute.Routing.Plan.Shape.{IsDistinct}
use riftroute.Routing.Keys.{IsPlain}
use riftroute.Examples.Data.{syntax, net16, direct, tunneled, narrow}

direct-IsPlain : IsPlain direct.route
direct-IsPlain = record { family = refl; table = refl; dst = refl }

tunneled-IsPlain : IsPlain tunneled.route
tunneled-IsPlain = record { family = refl; table = refl; dst = refl }

narrow-IsPlain : IsPlain narrow.route
narrow-IsPlain = record { family = refl; table = refl; dst = refl }

-- The old route to the destination goes before the new one.
reconcile_test :
    (reconcile (tunneled ∷ narrow ∷ []) (direct ∷ []) [] []).ops
    ≡ make_route_op del_route direct
      ∷ make_route_op add_route tunneled
      ∷ make_route_op add_route narrow
      ∷ []
unfolding reconcile dst_key route_key
reconcile_test = refl

kernel_run-reconcile_example :
    Option.map key (
      kernel_run
        (reconcile (tunneled ∷ narrow ∷ []) (direct ∷ []) [] []).ops
        (table_of (direct ∷ []))
        (dst direct))
    ≡ Option.map key (find_dst (dst direct) (tunneled ∷ narrow ∷ []))
unfolding dst_key
kernel_run-reconcile_example =
    kernel_run-reconcile (tunneled ∷ narrow ∷ []) (direct ∷ []) [] []
      (tunneled-IsPlain, (narrow-IsPlain, tt)) (direct-IsPlain, tt) (refl, (refl, tt)) (refl, tt)
      (dst direct)

kernel_run-inverse_example :
    kernel_run
      (reconcile (tunneled ∷ narrow ∷ []) (direct ∷ []) [] []).inverse
      (kernel_run
        (reconcile (tunneled ∷ narrow ∷ []) (direct ∷ []) [] []).ops
        (table_of (direct ∷ [])))
      (dst direct)
    ≡ find_dst (dst direct) (direct ∷ [])
unfolding dst_key
kernel_run-inverse_example =
    kernel_run-inverse (tunneled ∷ narrow ∷ []) (direct ∷ []) [] []
      (tunneled-IsPlain, (narrow-IsPlain, tt)) (direct-IsPlain, tt) (refl, (refl, tt)) (refl, tt)
      (dst direct)

-- The apply is cut off once 10/8 is gone.
kernel_run-crash_example :
    kernel_run
      (reconcile (tunneled ∷ narrow ∷ []) (direct ∷ []) [] []).inverse
      (kernel_run (make_route_op del_route direct ∷ []) (table_of (direct ∷ [])))
      (dst direct)
    ≡ find_dst (dst direct) (direct ∷ [])
unfolding dst_key reconcile route_adds replace_olds rule_adds rule_dels route_dels route_key
kernel_run-crash_example =
    kernel_run-crash (tunneled ∷ narrow ∷ []) (direct ∷ []) [] []
      (tunneled-IsPlain, (narrow-IsPlain, tt)) (direct-IsPlain, tt) (refl, (refl, tt)) (refl, tt)
      (dst direct) (make_route_op del_route direct ∷ [])
      (make_route_op add_route tunneled ∷ make_route_op add_route narrow ∷ []) refl

-- 10.1.2.3, which both destinations hold.
abbrev host : Addr
host = record { is4 = true; value = 0x0a010203; zone = "" }

simulate_test : (simulate syntax (tunneled.route ∷ narrow.route ∷ []) host none).iface ≡ "en0"
unfolding simulate best_route match_bits decide_on contains
simulate_test = refl

simulate-Longest_example :
    Unrouted syntax host
      (tunneled.route ∷ narrow.route ∷ [])
      (simulate syntax (tunneled.route ∷ narrow.route ∷ []) host none)
    ⊎ Longest syntax host
        (tunneled.route ∷ narrow.route ∷ [])
        (simulate syntax (tunneled.route ∷ narrow.route ∷ []) host none)
simulate-Longest_example = simulate-Longest syntax host (tunneled.route ∷ narrow.route ∷ []) none

conflicts_test : length (detect_conflicts syntax (tunneled ∷ narrow ∷ [])) ≡ 1
unfolding detect_conflicts conflict_of same_hop masked overlaps
conflicts_test = refl

detect_conflicts_none_example :
    (detect_conflicts syntax (direct ∷ narrow ∷ []) ≡ [])
    ↔ AllAgree (entries syntax (direct ∷ narrow ∷ []))
detect_conflicts_none_example = detect_conflicts_none syntax (direct ∷ narrow ∷ [])

-- A tunnel to 10.1/16, beside 10/8 by the router.
abbrev tunnel_plan : TunnelPlan
tunnel_plan = record { routes = tunneled ∷ []; nets = net16 ∷ [] }

beside_test : beside syntax tunnel_plan (direct ∷ narrow ∷ []) ≡ direct ∷ []
unfolding beside dst_key route_key contains yields outside_tunnels
beside_test = refl

find_dst-beside_example :
    find_dst (dst direct) (beside syntax tunnel_plan (direct ∷ narrow ∷ []))
    ≡ first
        (find_dst
          (dst direct)
          (select (λ o. not (yields syntax tunnel_plan o)) (direct ∷ narrow ∷ [])))
        (find_dst (dst direct) (tunneled ∷ []))
find_dst-beside_example =
    find_dst-beside syntax tunnel_plan (direct ∷ narrow ∷ []) (direct-IsPlain, (narrow-IsPlain, tt))
      (tunneled-IsPlain, tt) (dst direct)

beside-IsDistinct_example : IsDistinct (beside syntax tunnel_plan (direct ∷ narrow ∷ []))
unfolding dst_key
beside-IsDistinct_example =
    beside-IsDistinct syntax tunnel_plan (direct ∷ narrow ∷ [])
      (direct-IsPlain, (narrow-IsPlain, tt)) (tunneled-IsPlain, tt) (refl, (refl, tt))
