-- ===== src/Safety/Protocol/Reach.antt =====
-- The apply protocol as a state machine: its operations, the decisions that the watchdog and the
-- timers send and the goroutines that receive them, in any order.
use riftroute.Base.{
  ℕ, ltb, String, if◌then◌else◌, Bool, true, false, not, ◌&&◌, List, [], ◌∷◌, Option, none, some,
  ◌≡◌, refl, arith, inl, inr, Bool-cases,
}
use riftroute.Domain.{ManagedRoute, ManagedRule, Plan}
use riftroute.Safety.LiveRepair.Installed.{installed}
use riftroute.Safety.Panic.{panic_flush}
use riftroute.Safety.Panic.Kept.{panic_flush-IsValid}
use riftroute.Safety.Protocol.{Decision, commit, rollback, PendingTx, Protocol, Env, Options}
use riftroute.Safety.Protocol.Settle.{
  find_tx, decide, await, finish_found, finish_by, shutdown_decisions, shutdown_resolve,
}
use riftroute.Safety.Protocol.Vet.{VetViolation, check_plan_guardrails}
use riftroute.Safety.Protocol.Execute.{
  Result, ApplyRefusal, no_plan, is_empty, on_probation, supersede_pending, take_snapshot,
  execute_plan,
}
use riftroute.Safety.Protocol.Apply.{
  Call, rules, Build, Built, build_failed, built, lock_apply, when_locked, go_on, commit_plan,
  reading, plan_for, violations, begin_plan, vetted_plan, apply_desired, apply, built_with,
  build_again, apply_built, apply_build, plan_vetted, apply_plan, actual_managed,
}
use riftroute.Safety.Protocol.Invariant.{
  IsValid, decide-IsValid, await-IsValid, settle-IsValid, settle_all-IsValid,
}
use riftroute.Safety.Protocol.Steps.{IsValid-same, audit_journal, record_unchanged-IsValid}
use riftroute.Safety.Protocol.Outcome.{Superseded, AllSuperseded, supersede_pending-AllSuperseded}
use riftroute.Safety.Protocol.Begun.{Journals, execute_plan-IsValid}
use riftroute.Store.{TxId, Db, save_snapshot, prune_snapshots}

module _ {K R P : Type 0} (env : Env K) where
  take_snapshot_journal :
      (now : ℕ) (o : Options R P) (k : K) (db : Db P)
      → (take_snapshot env now o k db).journal ≡ db.journal
  unfolding take_snapshot save_snapshot prune_snapshots
  take_snapshot_journal now o k db = ground arith

  -- What an operation returns beside a result keeps the invariant.
  abbrev Keeps : {B : Type 0} → (Protocol K R P → Protocol K R P × Result B) → Type 0
  Keeps f = (q : Protocol K R P) → IsValid q → IsValid (f q).0

  abbrev AllKeep : {B : Type 0} → Option (Protocol K R P → Protocol K R P × Result B) → Type 0
  AllKeep none = Unit
  AllKeep (some f) = Keeps f

module _ {K R P B : Type 0} where
  pub if-Keeps :
      (b : Bool) (x y : Protocol K R P × Result B)
      → IsValid x.0
      → IsValid y.0
      → IsValid (if b then x else y).0
  if-Keeps true x y h k = h
  if-Keeps false x y h k = k

  when_locked-Keeps :
      (m : Option (ApplyRefusal B)) (plan : Plan) (p : Protocol K R P)
      (run : Protocol K R P × Result B)
      → IsValid p
      → IsValid run.0
      → IsValid (when_locked m plan p run).0
  when_locked-Keeps none plan p run v w = w
  when_locked-Keeps (some e) plan p run v w = v

module _ {K R P : Type 0} (B : Type 0) (env : Env K) (j : Journals env) where
  committed-IsValid :
      (c : Call) (action : String) (plan : Plan) (o : Options R P) (ownership : Bool)
      (p q : Protocol K R P)
      → Superseded env p q
      → IsValid
          (execute_plan {B = B} env c.now action plan o ownership
            (record q { db = take_snapshot env c.now o q.kernel q.db })).0
  committed-IsValid c action plan o ownership p q s =
      let shot : Protocol K R P = record q { db = take_snapshot env c.now o q.kernel q.db } in
      execute_plan-IsValid B env c.now action plan o ownership shot j
        (IsValid-same q shot refl refl refl (take_snapshot_journal env c.now o q.kernel q.db)
          s.valid)
        s.none_left

  go_on-IsValid :
      (c : Call) (plan : Plan) (o : Options R P)
      (again : Option (Protocol K R P → Protocol K R P × Result B)) (p q : Protocol K R P)
      → AllKeep env again
      → Superseded env p q
      → IsValid (go_on env c plan o again q).0
  unfolding go_on
  go_on-IsValid c plan o none p q k s = committed-IsValid c "apply" plan o true p q s
  go_on-IsValid c plan o (some f) p q k s = k q s.valid

  commit_plan-IsValid :
      (c : Call) (plan : Plan) (o : Options R P)
      (again : Option (Protocol K R P → Protocol K R P × Result B)) (m : Option (Protocol K R P))
      (p : Protocol K R P)
      → AllKeep env again
      → AllSuperseded env p m
      → IsValid p
      → IsValid (commit_plan env c plan o again m p).0
  unfolding commit_plan
  commit_plan-IsValid c plan o again none p k s v = v
  commit_plan-IsValid c plan o again (some q) p k s v = go_on-IsValid c plan o again p q k s

  vetted_plan-IsValid :
      (c : Call) (plan : Plan) (vs : List VetViolation) (o : Options R P) (beside : List TxId)
      (again : Option (Protocol K R P → Protocol K R P × Result B)) (p : Protocol K R P)
      → AllKeep env again
      → IsValid p
      → IsValid (vetted_plan env c plan vs o beside again p).0
  unfolding vetted_plan
  vetted_plan-IsValid c plan (x ∷ vs) o beside again p k v =
      IsValid-same p _ refl refl refl
        (audit_journal env o.actor "apply" "refused" "" (some plan) false (rules (x ∷ vs)) p.db) v
  vetted_plan-IsValid c plan [] o beside again p k v = elim (Bool-cases (is_empty plan.ops)) [
    | inl y ↦ rw y (record_unchanged-IsValid o beside p v)
    | inr n ↦ rw n (
        commit_plan-IsValid c plan o again (supersede_pending env p) p k
          (supersede_pending-AllSuperseded env p v) v)
  ]

  apply_desired-IsValid :
      (c : Call) (owned desired : List ManagedRoute) (rules : List ManagedRule) (o : Options R P)
      (beside : List TxId) (again : Option (Protocol K R P → Protocol K R P × Result B))
      (p : Protocol K R P)
      → AllKeep env again
      → IsValid p
      → IsValid (apply_desired env c owned desired rules o beside again p).0
  unfolding apply_desired
  apply_desired-IsValid c owned desired rules o beside again p k v =
      let plan = plan_for env c.now owned desired rules o p in
      let live = (installed (reading env c.now desired o p.kernel) owned p.live).1 in
      if-Keeps o.dry_run _ _ (IsValid-same p _ refl refl refl refl v) (
        vetted_plan-IsValid c plan (violations env desired o plan p.kernel) o beside again
          (record p { live = live }) k (IsValid-same p _ refl refl refl refl v))

  pub apply-IsValid :
      (c : Call) (desired : List ManagedRoute) (rules : List ManagedRule) (o : Options R P)
      → Keeps env (apply {B = B} env c desired rules o)
  unfolding apply
  apply-IsValid c desired rules o p v = when_locked-Keeps (lock_apply c p) no_plan p _ v (
      apply_desired-IsValid c (actual_managed env p.kernel p.db) desired rules o
        (on_probation p.pending) none p tt v)

  built_with-IsValid :
      (c : Call) (owned : List ManagedRoute) (b : Built B R P) (beside : List TxId)
      (again : Option (Protocol K R P → Protocol K R P × Result B)) (p : Protocol K R P)
      → AllKeep env again
      → IsValid p
      → IsValid (built_with env c owned b beside again p).0
  unfolding built_with
  built_with-IsValid c owned (build_failed e) beside again p k v = v
  built_with-IsValid c owned (built desired rules o) beside again p k v =
      apply_desired-IsValid c owned desired rules o beside again p k v

  build_again-IsValid :
      (c : Call) (build : Build B K R P) (o : Options R P) → Keeps env (build_again env c build o)
  unfolding build_again
  build_again-IsValid c build o p v =
      built_with-IsValid c _ (build p (actual_managed env p.kernel p.db) o) [] none p tt v

  apply_built-IsValid :
      (c : Call) (build : Build B K R P) (o : Options R P) (beside : List TxId)
      → Keeps env (apply_built env c build o beside)
  unfolding apply_built
  apply_built-IsValid c build o beside p v =
      built_with-IsValid c _ (build p (actual_managed env p.kernel p.db) o) beside _ p
        (maybe (not (is_empty beside) && o.built_on_record)) v
    where
      maybe : (b : Bool) → AllKeep env (if b then some (build_again env c build o) else none)
      maybe true = build_again-IsValid c build o
      maybe false = tt

  pub apply_build-IsValid :
      (c : Call) (build : Build B K R P) (o : Options R P) → Keeps env (apply_build env c build o)
  unfolding apply_build
  apply_build-IsValid c build o p v =
      if-Keeps (o.lendable && p.lent) _ _
        (if-Keeps (ltb 0 p.panicking) _ _ v (apply_built-IsValid c build o [] p v))
        (when_locked-Keeps (lock_apply c p) no_plan p _ v
          (apply_built-IsValid c build o (on_probation p.pending) p v))

  begin_plan-IsValid :
      (c : Call) (action : String) (plan : Plan) (o : Options R P) (m : Option (Protocol K R P))
      (p : Protocol K R P)
      → AllSuperseded env p m
      → IsValid p
      → IsValid (begin_plan {B = B} env c action plan o m p).0
  unfolding begin_plan
  begin_plan-IsValid c action plan o none p s v = v
  begin_plan-IsValid c action plan o (some q) p s v = committed-IsValid c action plan o false p q s

  plan_vetted-IsValid :
      (c : Call) (action : String) (plan : Plan) (vs : List VetViolation) (o : Options R P)
      → Keeps env (plan_vetted {B = B} env c action plan vs o)
  unfolding plan_vetted
  plan_vetted-IsValid c action plan (x ∷ vs) o p v =
      IsValid-same p _ refl refl refl
        (audit_journal env o.actor action "refused" "" (some plan) false (rules (x ∷ vs)) p.db) v
  plan_vetted-IsValid c action plan [] o p v = elim (Bool-cases (is_empty plan.ops)) [
    | inl y ↦ rw y (record_unchanged-IsValid o (on_probation p.pending) p v)
    | inr n ↦ rw n (
        begin_plan-IsValid c action plan o (supersede_pending env p) p
          (supersede_pending-AllSuperseded env p v) v)
  ]

  pub apply_plan-IsValid :
      (c : Call) (action : String) (plan : Plan) (o : Options R P)
      → Keeps env (apply_plan {B = B} env c action plan o)
  unfolding apply_plan
  apply_plan-IsValid c action plan o p v = when_locked-Keeps (lock_apply c p) plan p _ v (
      if-Keeps o.dry_run _ _ v
        (plan_vetted-IsValid c action plan (check_plan_guardrails env.syntax plan) o p v))

-- One step: a call, a decision sent, or the goroutine that waits for one.
pub data Step (K R P B : Type 0) (env : Env K) (p q : Protocol K R P) : Type 0 where
  applied :
      (c : Call) (desired : List ManagedRoute) (desired_rules : List ManagedRule) (o : Options R P)
      → q ≡ (apply {B = B} env c desired desired_rules o p).0
      → Step K R P B env p q
  applied_built :
      (c : Call) (build : Build B K R P) (o : Options R P)
      → q ≡ (apply_build env c build o p).0
      → Step K R P B env p q
  applied_plan :
      (c : Call) (action : String) (plan : Plan) (o : Options R P)
      → q ≡ (apply_plan {B = B} env c action plan o p).0
      → Step K R P B env p q
  decided : (id : TxId) (d : Decision) → q ≡ decide id d p → Step K R P B env p q
  resolved : (id : TxId) → q ≡ await env id p → Step K R P B env p q
  confirmed : (id : TxId) → q ≡ (finish_by env commit id p).0 → Step K R P B env p q
  reverted : (id : TxId) → q ≡ (finish_by env rollback id p).0 → Step K R P B env p q
  panicked :
      (actor : String) (flushing : R → R)
      → q ≡ (panic_flush env actor flushing p).0
      → Step K R P B env p q
  shut_down : q ≡ shutdown_resolve env p → Step K R P B env p q
  -- A panic that starts or ends, and the lock that a restart takes, lends and releases.
  guarded :
      (panicking : ℕ) (quiesced lent : Bool)
      → q ≡ record p { panicking = panicking; quiesced = quiesced; lent = lent }
      → Step K R P B env p q

pub data Reach (K R P B : Type 0) (env : Env K) (p : Protocol K R P) : Protocol K R P → Type 0 where
  here : Reach K R P B env p p
  next :
      {q r : Protocol K R P} → Reach K R P B env p q → Step K R P B env q r → Reach K R P B env p r

module _ {K R P : Type 0} (B : Type 0) (env : Env K) (j : Journals env) where
  finish_found-IsValid :
      (m : Option (PendingTx R)) (d : Decision) (id : TxId) (p : Protocol K R P)
      → IsValid p
      → IsValid (finish_found env m d id p).0
  unfolding finish_found
  finish_found-IsValid none d id p v = v
  finish_found-IsValid (some pt) d id p v = settle-IsValid env d id p v

  finish_by-IsValid :
      (d : Decision) (id : TxId) (p : Protocol K R P) → IsValid p → IsValid (finish_by env d id p).0
  unfolding finish_by
  finish_by-IsValid d id p v = finish_found-IsValid (find_tx id p.pending) d id p v

  shutdown_resolve-IsValid : (p : Protocol K R P) → IsValid p → IsValid (shutdown_resolve env p)
  unfolding shutdown_resolve
  shutdown_resolve-IsValid p v = settle_all-IsValid env (shutdown_decisions p.pending) p v

  Step-IsValid : {p q : Protocol K R P} → Step K R P B env p q → IsValid p → IsValid q
  Step-IsValid (applied c desired ds o e) v = rw e (apply-IsValid B env j c desired ds o _ v)
  Step-IsValid (applied_built c build o e) v = rw e (apply_build-IsValid B env j c build o _ v)
  Step-IsValid (applied_plan c action plan o e) v =
      rw e (apply_plan-IsValid B env j c action plan o _ v)
  Step-IsValid (decided id d e) v = rw e (decide-IsValid env id d _ v)
  Step-IsValid (resolved id e) v = rw e (await-IsValid env id _ v)
  Step-IsValid (confirmed id e) v = rw e (finish_by-IsValid commit id _ v)
  Step-IsValid (reverted id e) v = rw e (finish_by-IsValid rollback id _ v)
  Step-IsValid (panicked actor flushing e) v = rw e (panic_flush-IsValid env actor flushing _ v)
  Step-IsValid (shut_down e) v = rw e (shutdown_resolve-IsValid _ v)
  Step-IsValid (guarded n a b e) v = rw e (IsValid-same _ _ refl refl refl refl v)

  -- Where no write of a journal entry fails, from a state with nothing on probation, or one valid
  -- transaction, and whatever calls, decisions and goroutines follow in whatever order: at most one
  -- transaction is on probation. Its plan is in the journal under its id, it is not resolved, its
  -- record has not run, and its id and every resolved one's are among those that were counted so far.
  pub Reach-IsValid : {p q : Protocol K R P} → IsValid p → Reach K R P B env p q → IsValid q
  Reach-IsValid v here = v
  Reach-IsValid v (next r st) = Step-IsValid st (Reach-IsValid v r)
