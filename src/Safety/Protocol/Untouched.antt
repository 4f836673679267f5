-- ===== src/Safety/Protocol/Untouched.antt =====
-- internal/safety/apply.go: a preview, and an apply that is refused, change nothing.
use riftroute.Base.{
  ℕ, String, if◌then◌else◌, Bool, true, false, ◌||◌, List, [], ◌∷◌, Option, none, some, ◌≡◌, refl,
  inl, inr, Bool-cases, arith,
}
use riftroute.Domain.{ManagedRoute, ManagedRule, Plan}
use riftroute.Safety.Executor.{ApplyError}
use riftroute.Safety.Executor
use riftroute.Safety.LiveRepair.Installed.{installed}
use riftroute.Safety.Protocol.{committed, Protocol, Env, Options}
use riftroute.Safety.Protocol.Replay.{audit}
use riftroute.Safety.Protocol.Vet.{VetViolation, check_plan_guardrails}
use riftroute.Safety.Protocol.Execute.{
  ApplyRefusal, panicking, gave_up, guardrail, apply_in_progress, build_error, execute_error,
  Result, is_empty, no_plan, settled_with, next_tx_id, on_probation, begin_tx, execute_failed,
  execute_done, executed, execute_plan, supersede_pending, take_snapshot, record_unchanged,
}
use riftroute.Safety.Protocol.Apply.{
  Call, lock_apply, when_locked, go_on, commit_plan, vetted_plan, plan_for, reading, violations,
  apply_desired, apply, begin_plan, plan_vetted, apply_plan, actual_managed, rules,
}
use riftroute.Store.{TxId, append_audit}

-- The refusals of an apply, which is not carried out.
abbrev pub is_refusal : {B : Type 0} → Option (ApplyRefusal B) → Bool
is_refusal none = false
is_refusal (some panicking) = true
is_refusal (some gave_up) = true
is_refusal (some guardrail) = true
is_refusal (some apply_in_progress) = true
is_refusal (some (build_error e)) = true
is_refusal (some (execute_error e)) = false

-- All but the audit and what is known of the routes that other programs remove.
pub record Untouched {K R P : Type 0} (p q : Protocol K R P) : Type 0 where
  pub kernel : q.kernel ≡ p.kernel
  pub owned : q.db.owned ≡ p.db.owned
  pub journal : q.db.journal ≡ p.db.journal
  pub snapshots : q.db.snapshots ≡ p.db.snapshots
  pub outside : q.outside ≡ p.outside
  pub pending : q.pending ≡ p.pending
  pub resolved : q.resolved ≡ p.resolved
  pub idseq : q.idseq ≡ p.idseq

module _ {K P : Type 0} (env : Env K) where
  audited :
      {R : Type 0} (p q : Protocol K R P) (actor action result reason : String) (plan : Option Plan)
      (undone : Bool) (codes : List String)
      → Untouched p q
      → Untouched p (record q { db = audit env actor action result reason plan undone codes q.db })
  unfolding audit append_audit
  audited p q actor action result reason plan undone codes u =
      elim (Bool-cases env.fail.append_audit) [
        | inl y ↦ rw y u
        | inr n ↦ rw n (record {
          kernel = u.kernel;
          owned = u.owned;
          journal = u.journal;
          snapshots = u.snapshots;
          outside = u.outside;
          pending = u.pending;
          resolved = u.resolved;
          idseq = u.idseq;
        })
      ]

same : {K R P : Type 0} (p : Protocol K R P) → Untouched p p
same p = record {
  kernel = refl;
  owned = refl;
  journal = refl;
  snapshots = refl;
  outside = refl;
  pending = refl;
  resolved = refl;
  idseq = refl;
}

module _ {K R P : Type 0} (B : Type 0) (env : Env K) where
  executed_error :
      (action : String) (id : TxId) (plan : Plan) (own : Bool) (o : Options R P)
      (e : Option ApplyError) (p : Protocol K R P)
      → is_refusal (executed {B = B} env action id plan own o e p).1.error ≡ false
  unfolding executed execute_failed execute_done
  executed_error action id plan own o (some e) p = refl
  executed_error action id plan own o none p = elim (Bool-cases o.unguarded) [
    | inl y ↦ rw y refl
    | inr n ↦ rw n refl
  ]

  execute_plan_error :
      (now : ℕ) (action : String) (plan : Plan) (o : Options R P) (own : Bool) (p : Protocol K R P)
      → is_refusal (execute_plan {B = B} env now action plan o own p).1.error ≡ false
  unfolding execute_plan
  execute_plan_error now action plan o own p =
      let id = next_tx_id own p.idseq in
      let begun = begin_tx env now id plan o p in
      let ran = Executor.apply env.prov plan begun.kernel in
      executed_error action id plan own o ran.1 (record begun { kernel = ran.0 })

  -- A call that is refused, or that only previews.
  abbrev Quiet : Bool → Protocol K R P → Protocol K R P × Result B → Type 0
  Quiet dry p r = (dry || is_refusal r.1.error) ≡ true → Untouched p r.0

  commit_plan-Quiet :
      (c : Call) (plan : Plan) (o : Options R P) (m : Option (Protocol K R P))
      (p q : Protocol K R P)
      → Untouched p q
      → Quiet false p (commit_plan env c plan o none m q)
  unfolding commit_plan go_on
  commit_plan-Quiet c plan o none p q u h = u
  commit_plan-Quiet c plan o (some s) p q u h = ground (
    arith,
    execute_plan_error c.now "apply" plan o true
        (record s { db = take_snapshot env c.now o s.kernel s.db }),
  )

  begin_plan-Quiet :
      (c : Call) (action : String) (plan : Plan) (o : Options R P) (m : Option (Protocol K R P))
      (p : Protocol K R P)
      → Quiet false p (begin_plan env c action plan o m p)
  unfolding begin_plan
  begin_plan-Quiet c action plan o none p h = same p
  begin_plan-Quiet c action plan o (some s) p h = ground (
    arith,
    execute_plan_error c.now action plan o false
        (record s { db = take_snapshot env c.now o s.kernel s.db }),
  )

  vetted_plan-Quiet :
      (c : Call) (plan : Plan) (vs : List VetViolation) (o : Options R P) (beside : List TxId)
      (p q : Protocol K R P)
      → Untouched p q
      → Quiet false p (vetted_plan env c plan vs o beside none q)
  unfolding vetted_plan
  vetted_plan-Quiet c plan (v ∷ vs) o beside p q u h =
      audited env p q o.actor "apply" "refused" "" (some plan) false (rules (v ∷ vs)) u
  vetted_plan-Quiet c plan [] o beside p q u h =
      either (is_empty plan.ops) (commit_plan-Quiet c plan o (supersede_pending env q) p q u) h
    where
      either :
          (b : Bool)
          → Quiet false p (commit_plan env c plan o none (supersede_pending env q) q)
          → Quiet false p (
              if b
              then (record_unchanged o beside q, settled_with none plan committed false)
              else commit_plan env c plan o none (supersede_pending env q) q)
      either true k h = ground arith
      either false k h = k h

  plan_vetted-Quiet :
      (c : Call) (action : String) (plan : Plan) (vs : List VetViolation) (o : Options R P)
      (p : Protocol K R P)
      → Quiet false p (plan_vetted env c action plan vs o p)
  unfolding plan_vetted
  plan_vetted-Quiet c action plan (v ∷ vs) o p h =
      audited env p p o.actor action "refused" "" (some plan) false (rules (v ∷ vs)) (same p)
  plan_vetted-Quiet c action plan [] o p h =
      either (is_empty plan.ops) (begin_plan-Quiet c action plan o (supersede_pending env p) p) h
    where
      either :
          (b : Bool)
          → Quiet false p (begin_plan env c action plan o (supersede_pending env p) p)
          → Quiet false p (
              if b
              then (
                record_unchanged o (on_probation p.pending) p,
                settled_with none plan committed false,
              )
              else begin_plan env c action plan o (supersede_pending env p) p)
      either true k h = ground arith
      either false k h = k h

  when_locked-Quiet :
      (dry : Bool) (m : Option (ApplyRefusal B)) (plan : Plan) (p : Protocol K R P)
      (run : Protocol K R P × Result B)
      → Quiet dry p run
      → Quiet dry p (when_locked m plan p run)
  when_locked-Quiet dry none plan p run q h = q h
  when_locked-Quiet dry (some e) plan p run q h = same p

  if_Quiet :
      (dry : Bool) (p : Protocol K R P) (x y : Protocol K R P × Result B)
      → Untouched p x.0
      → Quiet false p y
      → Quiet dry p (if dry then x else y)
  if_Quiet true p x y a b h = a
  if_Quiet false p x y a b h = b h

  -- For any state, desired set and options: an `Apply` that only previews (DryRun), or that is refused
  -- (by a panic in progress, the lock, a guardrail or a change awaiting confirmation), leaves the
  -- kernel, the records, the journal, the snapshots and every transaction as they were.
  pub apply-Untouched :
      (c : Call) (desired : List ManagedRoute) (desired_rules : List ManagedRule) (o : Options R P)
      (p : Protocol K R P)
      → (o.dry_run || is_refusal (apply {B = B} env c desired desired_rules o p).1.error) ≡ true
      → Untouched p (apply {B = B} env c desired desired_rules o p).0
  unfolding apply apply_desired
  apply-Untouched c desired desired_rules o p =
      let owned = actual_managed env p.kernel p.db in
      let plan = plan_for env c.now owned desired desired_rules o p in
      let live = (installed (reading env c.now desired o p.kernel) owned p.live).1 in
      let noted : Untouched p (record p { live = live }) = record {
        kernel = refl;
        owned = refl;
        journal = refl;
        snapshots = refl;
        outside = refl;
        pending = refl;
        resolved = refl;
        idseq = refl;
      } in
      when_locked-Quiet o.dry_run (lock_apply c p) no_plan p _ (
        if_Quiet o.dry_run p _ _ noted (
          vetted_plan-Quiet c plan (violations env desired o plan p.kernel) o
            (on_probation p.pending) p (record p { live = live }) noted))

  -- The same of `ApplyPlan`, for any plan and any action.
  pub apply_plan-Untouched :
      (c : Call) (action : String) (plan : Plan) (o : Options R P) (p : Protocol K R P)
      → (o.dry_run || is_refusal (apply_plan {B = B} env c action plan o p).1.error) ≡ true
      → Untouched p (apply_plan {B = B} env c action plan o p).0
  unfolding apply_plan
  apply_plan-Untouched c action plan o p = when_locked-Quiet o.dry_run (lock_apply c p) plan p _ (
      if_Quiet o.dry_run p _ _ (same p)
        (plan_vetted-Quiet c action plan (check_plan_guardrails env.syntax plan) o p))
