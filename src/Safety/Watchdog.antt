-- ===== src/Safety/Watchdog.antt =====
-- internal/safety/watchdog.go: the deadman switch. What `select` receives is an explicit sequence of
-- events; a probe is a function of the anchor, one for each round.
pub mod Fires
use riftroute.Base.{
  ℕ, suc, String, leb, ltb, if◌then◌else◌, Bool, true, false, not, List, [], ◌∷◌, ◌++◌, Option,
  none, some, any, all,
}
use riftroute.Netip.{Addr}
use riftroute.Netip.Syntax.{Syntax}

-- `CanaryAnchor` and `DefaultAnchors`; `none` is the invalid address.
abbrev pub canary_anchor : String
canary_anchor = "1.1.1.1"

abbrev pub default_anchors : Syntax → Option Addr → List String
default_anchors syntax phys_gw = elim phys_gw [
  | none ↦ canary_anchor ∷ []
  | some gw ↦ syntax.print_addr gw ∷ canary_anchor ∷ []
]

-- The clock, the prober and `onFire` are the environment's; a negative `k` counts as 0.
pub record Watchdog : Type 0 where
  pub anchors : List String
  pub k : ℕ

-- `NewWatchdog`.
abbrev pub new_watchdog : List String → ℕ → Watchdog
new_watchdog anchors k = record { anchors = anchors; k = if ltb k 1 then 1 else k }

-- `allUnreachable`: with no anchors, there is nothing to watch.
unfoldable pub all_unreachable : Watchdog → (String → Bool) → Bool
all_unreachable w probe = elim w.anchors [
  | [] ↦ false
  | a ∷ others ↦ all (λ b. not (probe b)) (a ∷ others)
]

-- What the loop's `select` receives: the context's end, or a tick, with what its probes answer.
pub data Event : Type 0 where
  canceled : Event
  tick : (String → Bool) → Event

-- `fired`: the recovery was run. `watching n`: the events have ended, with n failures in a row.
pub data Outcome : Type 0 where
  fired stopped : Outcome
  watching : ℕ → Outcome

-- The loop of `Run`, `consecutive` rounds lost so far.
unfoldable pub run_from : Watchdog → ℕ → List Event → Outcome
run_from w consecutive [] = watching consecutive
run_from w consecutive (canceled ∷ es) = stopped
run_from w consecutive (tick probe ∷ es) =
    let now = if all_unreachable w probe then suc consecutive else 0 in
    let rest = run_from w now es in if leb w.k now then fired else rest

-- `Run`.
unfoldable pub run : Watchdog → List Event → Outcome
unfolding run_from
run w es = run_from w 0 es
