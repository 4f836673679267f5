-- ===== src/Safety/Protocol/Apply.antt =====
-- internal/safety/apply.go: `Apply`, `ApplyBuilt` and `ApplyPlan`, each with its lock.
use riftroute.Base.{
  ℕ, ltb, String, str_eq, if◌then◌else◌, Bool, true, false, not, ◌&&◌, ◌||◌, List, [], ◌∷◌, ◌++◌,
  map, Option, none, some, select,
}
use riftroute.Domain.{
  family_v4, family_v6, owner_riftroute, Route, PolicyRule, ManagedRoute, ManagedRule, Plan,
}
use riftroute.Routing.Plan.{reconcile}
use riftroute.Safety.Guardrails.{
  gateway_unresolved, gateway_capture, bad_gateway, unreachable_next_hop, next_hop_via_vpn,
  conflicting_route, ssh_peer, check_guardrails,
}
use riftroute.Safety.LiveRepair.Installed.{Reading, installed}
use riftroute.Safety.Protocol.{pending, committed, Protocol, Env, Options}
use riftroute.Safety.Protocol.Replay.{audit}
use riftroute.Safety.Protocol.Execute.{
  ApplyRefusal, panicking, gave_up, guardrail, apply_in_progress, build_error, Result, no_plan,
  refuse, settled_with, or_empty, execute_plan, take_snapshot, is_empty, on_probation,
  record_unchanged, supersede_pending,
}
use riftroute.Safety.Protocol.Vet.{
  VetViolation, of_desired, keep_default_route, check_plan_guardrails,
}
use riftroute.Store.{TxId, Db, list_owned}

abbrev or_some {ℓ} : {A : Type ℓ} → Option A → Option A → Option A
or_some none b = b
or_some (some a) b = some a

-- What a build of the desired set returns; it may change the options.
pub data Built (B R P : Type 0) : Type 0 where
  build_failed : B → Built B R P
  built : List ManagedRoute → List ManagedRule → Options R P → Built B R P

-- The builder reads what the protocol changes.
abbrev pub Build : Type 0 → Type 0 → Type 0 → Type 0 → Type 0
Build B K R P = Protocol K R P → List ManagedRoute → Options R P → Built B R P

-- The time, and whether the caller's context has ended.
pub record Call : Type 0 where
  pub now : ℕ
  pub gone : Bool

abbrev owned_of : Route → Bool
owned_of r = str_eq r.owner owner_riftroute

abbrev managed_of : List Route → List ManagedRoute
managed_of rs =
    map (λ (r : Route). record { route = r; profile_id = r.profile; created_at = 0 })
      (select owned_of rs)

abbrev rules_of : List PolicyRule → List ManagedRule
rules_of rs =
    map (λ (r : PolicyRule). record { rule = r; profile_id = ""; created_at = 0 })
      (select (λ (r : PolicyRule). str_eq r.proto "riftroute") rs)

-- `providerManaged`, `actualManagedRules` and `actualManaged`.
module _ {K : Type 0} (env : Env K) where
  unfoldable pub provider_managed : K → List ManagedRoute
  provider_managed k =
      managed_of (or_empty (env.list_routes k family_v4))
      ++ managed_of (or_empty (env.list_routes k family_v6))

  unfoldable pub actual_managed_rules : K → List ManagedRule
  actual_managed_rules k =
      rules_of (or_empty (env.list_rules k family_v4))
      ++ rules_of (or_empty (env.list_rules k family_v6))

  unfoldable pub actual_managed : {P : Type 0} → K → Db P → List ManagedRoute
  unfolding provider_managed
  actual_managed k db = elim (list_owned env.fail db) [
    | none ↦ provider_managed k
    | some owned ↦ owned
  ]

-- `violationRules`.
abbrev rule_of : VetViolation → String
rule_of (keep_default_route f) = "keep-default-route"
rule_of (of_desired gateway_unresolved) = "gateway-unresolved"
rule_of (of_desired (gateway_capture d a)) = "gateway-capture"
rule_of (of_desired (bad_gateway g)) = "bad-gateway"
rule_of (of_desired (unreachable_next_hop g)) = "unreachable-next-hop"
rule_of (of_desired (next_hop_via_vpn g)) = "next-hop-via-vpn"
rule_of (of_desired (conflicting_route d a b)) = "conflicting-route"
rule_of (of_desired (ssh_peer a)) = "ssh-peer"

abbrev pub rules : List VetViolation → List String
rules vs = map rule_of vs

module _ {K R P : Type 0} where
  -- `lockApply`. While the lock is lent out for a restart, a caller waits until its context ends.
  abbrev pub lock_apply : {B : Type 0} → Call → Protocol K R P → Option (ApplyRefusal B)
  lock_apply c p =
      if ltb 0 p.panicking
      then some panicking
      else if c.gone || p.quiesced
      then some gave_up
      else none

-- What runs under the lock, and what is returned without it.
abbrev pub when_locked :
    {K R P B : Type 0}
    → Option (ApplyRefusal B)
    → Plan
    → Protocol K R P
    → Protocol K R P × Result B
    → Protocol K R P × Result B
when_locked none plan p run = run
when_locked (some e) plan p run = (p, refuse plan [] e)

-- What `apply` reads: the routes installed, the plan, and what the guardrails say.
module _ {K : Type 0} (env : Env K) where
  unfoldable pub reading : {R P : Type 0} → ℕ → List ManagedRoute → Options R P → K → Reading
  reading now desired o k = record {
    syntax = env.syntax;
    now = now;
    desired = desired;
    list_routes = env.list_routes k;
    note = not o.dry_run;
    tunnels_only = o.vet_changes_only;
  }

  unfoldable pub plan_for :
      {R P : Type 0}
      → ℕ
      → List ManagedRoute
      → List ManagedRoute
      → List ManagedRule
      → Options R P
      → Protocol K R P
      → Plan
  unfolding reading
  plan_for now owned desired desired_rules o p =
      reconcile desired (installed (reading now desired o p.kernel) owned p.live).0 desired_rules
        (actual_managed_rules env p.kernel)

  unfoldable pub violations :
      {R P : Type 0} → List ManagedRoute → Options R P → Plan → K → List VetViolation
  violations desired o plan k = map of_desired (
      check_guardrails
        (record {
          syntax = env.syntax;
          lookup = env.lookup k;
          plan = if o.vet_changes_only then some plan else none;
          phys_gw = o.phys_gw;
          peer = env.peer;
        })
        desired)

module _ {K R P B : Type 0} (env : Env K) where
  -- The tail of `apply`, once the guardrails have passed and the guards beside are settled.
  unfoldable pub go_on :
      Call
      → Plan
      → Options R P
      → Option (Protocol K R P → Protocol K R P × Result B)
      → Protocol K R P
      → Protocol K R P × Result B
  go_on c plan o (some again) q = again q
  go_on c plan o none q =
      execute_plan env c.now "apply" plan o true
        (record q { db = take_snapshot env c.now o q.kernel q.db })

  unfoldable pub commit_plan :
      Call
      → Plan
      → Options R P
      → Option (Protocol K R P → Protocol K R P × Result B)
      → Option (Protocol K R P)
      → Protocol K R P
      → Protocol K R P × Result B
  unfolding go_on
  commit_plan c plan o again none p = (p, refuse plan [] apply_in_progress)
  commit_plan c plan o again (some q) p = go_on c plan o again q

  unfoldable pub vetted_plan :
      Call
      → Plan
      → List VetViolation
      → Options R P
      → List TxId
      → Option (Protocol K R P → Protocol K R P × Result B)
      → Protocol K R P
      → Protocol K R P × Result B
  unfolding commit_plan
  vetted_plan c plan (v ∷ vs) o beside again p = (
    record p {
      db = audit env o.actor "apply" "refused" "" (some plan) false (rules (v ∷ vs)) p.db;
    },
    refuse plan (v ∷ vs) guardrail,
  )
  vetted_plan c plan [] o beside again p =
      if is_empty plan.ops
      then (record_unchanged o beside p, settled_with none plan committed false)
      else commit_plan c plan o again (supersede_pending env p) p

  -- `apply`: `beside` are the transactions on probation when the desired set was built.
  unfoldable pub apply_desired :
      Call
      → List ManagedRoute
      → List ManagedRoute
      → List ManagedRule
      → Options R P
      → List TxId
      → Option (Protocol K R P → Protocol K R P × Result B)
      → Protocol K R P
      → Protocol K R P × Result B
  unfolding vetted_plan
  apply_desired c owned desired desired_rules o beside again p =
      let plan = plan_for env c.now owned desired desired_rules o p in
      let vs = violations env desired o plan p.kernel in
      let noted : Protocol K R P = record p {
        live = (installed (reading env c.now desired o p.kernel) owned p.live).1;
      } in
      if o.dry_run
      then (noted, settled_with none plan pending false)
      else vetted_plan c plan vs o beside again noted

  -- `Apply`.
  unfoldable pub apply :
      Call
      → List ManagedRoute
      → List ManagedRule
      → Options R P
      → Protocol K R P
      → Protocol K R P × Result B
  unfolding apply_desired
  apply c desired desired_rules o p = when_locked (lock_apply c p) no_plan p (
      apply_desired c (actual_managed env p.kernel p.db) desired desired_rules o
        (on_probation p.pending) none p)

  -- `applyBuilt`: the set is built again when a change beside was settled meanwhile, at most once.
  unfoldable pub built_with :
      Call
      → List ManagedRoute
      → Built B R P
      → List TxId
      → Option (Protocol K R P → Protocol K R P × Result B)
      → Protocol K R P
      → Protocol K R P × Result B
  unfolding apply_desired
  built_with c owned (build_failed e) beside again p = (p, refuse no_plan [] (build_error e))
  built_with c owned (built desired desired_rules o) beside again p =
      apply_desired c owned desired desired_rules o beside again p

  unfoldable pub build_again :
      Call → Build B K R P → Options R P → Protocol K R P → Protocol K R P × Result B
  unfolding built_with
  build_again c build o p =
      let owned = actual_managed env p.kernel p.db in built_with c owned (build p owned o) [] none p

  unfoldable pub apply_built :
      Call → Build B K R P → Options R P → List TxId → Protocol K R P → Protocol K R P × Result B
  unfolding built_with
  apply_built c build o beside p =
      let owned = actual_managed env p.kernel p.db in
      let again =
        if not (is_empty beside) && o.built_on_record then some (build_again c build o) else none in
      built_with c owned (build p owned o) beside again p

  -- `ApplyBuilt`.
  unfoldable pub apply_build :
      Call → Build B K R P → Options R P → Protocol K R P → Protocol K R P × Result B
  unfolding apply_built
  apply_build c build o p =
      let run = apply_built c build o (on_probation p.pending) p in
      if o.lendable && p.lent
      then if ltb 0 p.panicking
        then (p, refuse no_plan [] panicking)
        else apply_built c build o [] p
      else when_locked (lock_apply c p) no_plan p run

  -- `ApplyPlan`.
  unfoldable pub begin_plan :
      Call
      → String
      → Plan
      → Options R P
      → Option (Protocol K R P)
      → Protocol K R P
      → Protocol K R P × Result B
  begin_plan c action plan o none p = (p, refuse plan [] apply_in_progress)
  begin_plan c action plan o (some q) p =
      execute_plan env c.now action plan o false
        (record q { db = take_snapshot env c.now o q.kernel q.db })

  unfoldable pub plan_vetted :
      Call
      → String
      → Plan
      → List VetViolation
      → Options R P
      → Protocol K R P
      → Protocol K R P × Result B
  unfolding begin_plan
  plan_vetted c action plan (v ∷ vs) o p = (
    record p { db = audit env o.actor action "refused" "" (some plan) false (rules (v ∷ vs)) p.db },
    refuse plan (v ∷ vs) guardrail,
  )
  plan_vetted c action plan [] o p =
      if is_empty plan.ops
      then (record_unchanged o (on_probation p.pending) p, settled_with none plan committed false)
      else begin_plan c action plan o (supersede_pending env p) p

  unfoldable pub apply_plan :
      Call → String → Plan → Options R P → Protocol K R P → Protocol K R P × Result B
  unfolding plan_vetted
  apply_plan c action plan o p = when_locked (lock_apply c p) plan p (
      if o.dry_run
      then (p, settled_with none plan pending false)
      else plan_vetted c action plan (check_plan_guardrails env.syntax plan) o p)
