-- ===== src/Examples/Safety.antt =====
-- The safety layer at work: a provider that refuses a route, an outage, a route that keeps going
-- missing, and a desired set that no guardrail refuses.
use mathlib.Core.List.{Memᴰ}
use riftroute.Base.{
  ℕ, str_eq, if◌then◌else◌, true, false, not, List, [], ◌∷◌, none, some, any, select, All, ◌≡◌, ◌↔◌,
  refl,
}
use riftroute.Netip.{contains}
use riftroute.Domain.{Route, ManagedRoute, add_route, PlanOp, Plan}
use riftroute.Routing.Keys.{route_key, dst_key}
use riftroute.Routing.Plan.{key, dst, make_route_op, invert, reconcile}
use riftroute.Routing.Simulate.{undecided}
use riftroute.Routing.Verify.{
  is_tunnel_route, has, index_installed, verify_routes, fate, fetch, looked_up, read_index,
  outranked,
}
use riftroute.Safety.Watchdog.{new_watchdog, Event, canceled, tick, fired, run, all_unreachable}
use riftroute.Safety.Watchdog.Fires.{Outage, run_fired_iff}
use riftroute.Safety.Executor.{RouteProvider, provider_error, do_op, apply, run_ops}
use riftroute.Safety.Executor.Complete.{RolledBack, apply_failed}
use riftroute.Safety.Executor.Atomic.{apply-atomic, run_ops-apply}
use riftroute.Safety.LiveRepair.{Recs, held, note}
use riftroute.Safety.LiveRepair.Strikes.{Note, run_notes, Struck, note-Struck}
use riftroute.Safety.LiveRepair.Installed.{Reading, installed}
use riftroute.Safety.LiveRepair.NotAdded.{adds_key, reconcile-installed}
use riftroute.Safety.Guardrails.{Guard, check_guardrails, captures, vetted, next_hops}
use riftroute.Safety.Guardrails.Safe.{Safe, check_guardrails-Safe}
use riftroute.Examples.Data.{syntax, router, direct, narrow}

-- A kernel whose table is a list, and that refuses 10.1/16.
abbrev pub refusing : RouteProvider (List ManagedRoute)
refusing = record {
  add_route =
      λ m s. if str_eq m.route.dst_cidr "10.1.0.0/16" then (s, some "refused") else (m ∷ s, none);
  del_route = λ m s. (select (λ x. not (str_eq (dst x) (dst m))) s, none);
  add_rule = λ m s. (s, none);
  del_rule = λ m s. (s, none);
}

abbrev pub plan : List PlanOp → Plan
plan ops = record { ops = ops; inverse = invert ops }

abbrev pub both : Plan
both = plan (make_route_op add_route direct ∷ make_route_op add_route narrow ∷ [])

apply_test : apply refusing both [] ≡ (
  [],
  some (record {
    op = make_route_op add_route narrow;
    rolled_back = 1;
    cause = provider_error "refused";
  }),
)
unfolding apply do_op dst_key
apply_test = refl

apply-atomic_example : (apply refusing both []).0 ≡ []
unfolding apply do_op dst_key
apply-atomic_example =
    apply-atomic refusing both []
      (
        record { undone = λ e. refl; unharmed = λ n. absurd (n refl) },
        (record { undone = λ e. cc; unharmed = λ n. refl }, tt),
      )
      (λ e. cc)

run_ops-apply_example :
    run_ops refusing
      (invert (make_route_op add_route direct ∷ []))
      (apply refusing (plan (make_route_op add_route direct ∷ [])) []).0
    ≡ ([], none)
unfolding apply do_op dst_key
run_ops-apply_example =
    run_ops-apply refusing (plan (make_route_op add_route direct ∷ [])) []
      (record { undone = λ e. refl; unharmed = λ n. absurd (n refl) }, tt) refl

apply_failed_example : RolledBack refusing both.ops [] (apply refusing both []).0 (record {
  op = make_route_op add_route narrow;
  rolled_back = 1;
  cause = provider_error "refused";
})
unfolding apply do_op
apply_failed_example =
    apply_failed refusing both []
      (record {
        op = make_route_op add_route narrow;
        rolled_back = 1;
        cause = provider_error "refused";
      })
      refl

-- One round with the canary down, then two with everything down.
abbrev outage : List Event
outage = tick (λ a. str_eq a "192.168.1.1") ∷ tick (λ a. false) ∷ tick (λ a. false) ∷ canceled ∷ []

watchdog_test : run (new_watchdog ("192.168.1.1" ∷ "1.1.1.1" ∷ []) 2) outage ≡ fired
unfolding run all_unreachable
watchdog_test = refl

run_fired_iff_example :
    (run (new_watchdog ("192.168.1.1" ∷ "1.1.1.1" ∷ []) 2) outage ≡ fired)
    ↔ Outage (new_watchdog ("192.168.1.1" ∷ "1.1.1.1" ∷ []) 2) 2 outage
run_fired_iff_example = run_fired_iff ("192.168.1.1" ∷ "1.1.1.1" ∷ []) 2 outage

-- A route found missing every half minute.
abbrev seen_at : ℕ → Note
seen_at now = record { at = now; missing = narrow ∷ [] }

abbrev second : ℕ
second = 1000000000

note_test :
    (note 90000000000 (narrow ∷ []) (run_notes (seen_at 60000000000 ∷ seen_at 30000000000 ∷ []))).1
    ≡ narrow.route ∷ []
unfolding note run_notes route_key
note_test = refl

note-Struck_example :
    All
      (λ (rt : Route).
        Struck
          (seen_at 90000000000 ∷ seen_at 60000000000 ∷ seen_at 30000000000 ∷ [])
          (route_key rt)
          90000000000)
      (note 90000000000
        (narrow ∷ [])
        (run_notes (seen_at 60000000000 ∷ seen_at 30000000000 ∷ []))).1
note-Struck_example =
    note-Struck 90000000000 (narrow ∷ []) (seen_at 60000000000 ∷ seen_at 30000000000 ∷ [])

abbrev no_records : Recs
no_records k = none

-- The route is held for half an hour from the start.
abbrev holding : Recs
holding k = some (record { route = narrow.route; seen = []; held_until = 1800000000000 })

abbrev seen_now : Reading
seen_now = record {
  syntax = syntax;
  now = 90000000000;
  desired = narrow ∷ [];
  list_routes = λ f. some [];
  note = true;
  tunnels_only = false;
}

installed_test :
    (reconcile (narrow ∷ []) (installed seen_now (narrow ∷ []) (λ k. none)).0 [] []).ops
    ≡ make_route_op add_route narrow ∷ []
unfolding reconcile installed has index_installed held is_tunnel_route verify_routes fate fetch
    looked_up route_key read_index outranked
installed_test = refl

reconcile-installed_example :
    any
      (adds_key (key narrow))
      (reconcile (narrow ∷ []) (installed seen_now (narrow ∷ []) holding).0 [] []).ops
    ≡ false
unfolding held is_tunnel_route
reconcile-installed_example =
    reconcile-installed seen_now (narrow ∷ []) holding narrow (narrow ∷ []) [] [] (Memᴰ.head refl)
      refl refl

-- The router answers, outside the VPN, and is in no desired destination.
abbrev guard : Guard
guard = record {
  syntax = syntax;
  lookup = λ a. some (record (undecided syntax a) { reachable = true });
  plan = none;
  phys_gw = some router;
  peer = none;
}

check_guardrails-Safe_example : Safe guard (direct ∷ narrow ∷ [])
unfolding check_guardrails captures vetted next_hops contains dst_key
check_guardrails-Safe_example =
    check_guardrails-Safe guard (direct ∷ narrow ∷ []) (λ k nh. true) (refl, (refl, tt)) refl
