-- ===== src/Safety/Protocol/Execute.antt =====
-- internal/safety/apply.go: from a plan to a transaction on probation.
use riftroute.Base.{
  ℕ, suc, String, if◌then◌else◌, Bool, true, false, not, ◌&&◌, List, [], ◌∷◌, ◌++◌, map, Option,
  none, some, any, select,
}
use riftroute.Domain.{family_v4, family_v6, Route, Plan}
use riftroute.Safety.Executor.{ApplyError, apply}
use riftroute.Safety.Protocol.{
  commit, TxResult, pending, committed, failed, RecState, rec_open, rec_committed, rec_rolled_back,
  PendingTx, Protocol, Env, Options,
}
use riftroute.Safety.Protocol.Replay.{audit, apply_ownership}
use riftroute.Safety.Protocol.Settle.{run_record, find_tx, find_resolved, settle_all}
use riftroute.Safety.Protocol.Vet.{VetViolation}
use riftroute.Store.{
  TxId, same_id, Db, Snapshot, put_pending_tx, clear_pending_tx, save_snapshot, prune_snapshots,
  list_profiles,
}

-- Why a change is refused or fails; the texts are left to the display.
pub data ApplyRefusal (B : Type 0) : Type 0 where
  panicking gave_up guardrail apply_in_progress : ApplyRefusal B
  build_error : B → ApplyRefusal B
  execute_error : ApplyError → ApplyRefusal B

-- `Result`, with the error that is returned beside it. The diff is printed from the plan.
pub record Result (B : Type 0) : Type 0 where
  pub tx : Option TxId
  pub plan : Plan
  pub violations : List VetViolation
  pub status : TxResult
  pub needs_confirm : Bool
  pub error : Option (ApplyRefusal B)

abbrev pub no_plan : Plan
no_plan = record { ops = []; inverse = [] }

abbrev pub refuse : {B : Type 0} → Plan → List VetViolation → ApplyRefusal B → Result B
refuse plan vs e = record {
  tx = none;
  plan = plan;
  violations = vs;
  status = failed;
  needs_confirm = false;
  error = some e;
}

abbrev pub settled_with : {B : Type 0} → Option TxId → Plan → TxResult → Bool → Result B
settled_with tx plan status confirm = record {
  tx = tx;
  plan = plan;
  violations = [];
  status = status;
  needs_confirm = confirm;
  error = none;
}

abbrev pub is_empty {ℓ} : {A : Type ℓ} → List A → Bool
is_empty [] = true
is_empty (a ∷ rest) = false

abbrev pub or_empty {ℓ} : {A : Type ℓ} → Option (List A) → List A
or_empty none = []
or_empty (some l) = l

-- `keep` of PruneSnapshots.
abbrev pub snapshot_retention : ℕ
snapshot_retention = 50

-- The next id, and when the transaction started.
unfoldable pub next_tx_id : Bool → ℕ → TxId
next_tx_id ownership idseq = record { route_op = not ownership; seq = suc idseq }

-- The first loop of `recordUnchanged`: the records still open, unless one was dropped.
unfoldable pub open_records : (TxId → RecState) → List TxId → Option (List TxId)
open_records rec_of [] = some []
open_records rec_of (id ∷ ids) =
    let rest = open_records rec_of ids in
    elim (rec_of id) [
      | rec_open ↦ elim rest [ none ↦ none | some ids' ↦ some (id ∷ ids') ]
      | rec_committed ↦ rest
      | rec_rolled_back ↦ none
    ]

module _ {R : Type 0} where
  abbrev pub set_record : (R → R) → List TxId → List (PendingTx R) → List (PendingTx R)
  set_record f ids pts =
      map
        (λ (pt : PendingTx R).
          if any (same_id pt.id) ids then record pt { on_commit = some f } else pt)
        pts

  -- `onProbation`.
  unfoldable pub on_probation : List (PendingTx R) → List TxId
  on_probation pts =
      map (λ (pt : PendingTx R). pt.id) (select (λ (pt : PendingTx R). pt.ownership) pts)

module _ {R P : Type 0} where
  abbrev pub probation : TxId → Plan → Bool → Options R P → PendingTx R
  probation id plan ownership o = record {
    id = id;
    plan = plan;
    interactive = o.interactive;
    ownership = ownership;
    decided = none;
    on_commit = o.on_commit;
    rec = rec_open;
    actor = o.actor;
  }

module _ {K R P : Type 0} where
  -- The record's state of a transaction, pending or resolved.
  abbrev pub rec_of : Protocol K R P → TxId → RecState
  rec_of p id = elim (find_tx id p.pending) [
    | some pt ↦ pt.rec
    | none ↦ elim (find_resolved id p.resolved) [ some r ↦ r.rec | none ↦ rec_open ]
  ]

  -- `recordUnchanged`.
  unfoldable pub replace_records : Option (List TxId) → (R → R) → Protocol K R P → Protocol K R P
  replace_records none f p = p
  replace_records (some []) f p = record p { outside = f p.outside }
  replace_records (some (id ∷ ids)) f p = record p { pending = set_record f (id ∷ ids) p.pending }

  unfoldable pub record_unchanged : Options R P → List TxId → Protocol K R P → Protocol K R P
  unfolding replace_records open_records
  record_unchanged o beside p = elim o.on_commit [
    | none ↦ p
    | some f ↦
        if not (is_empty beside) && o.built_on_record
        then p
        else replace_records (open_records (rec_of p) beside) f p
  ]

module _ {K P : Type 0} (env : Env K) where
  -- `Capture`: only the reads of the IPv6 routes and the rules may fail.
  capture : ℕ → Option (List P) → List Route → K → Snapshot P
  capture now profiles v4 k = record {
    id = now;
    reason = "pre-apply";
    routes_v4 = v4;
    routes_v6 = or_empty (env.list_routes k family_v6);
    rules = or_empty (env.list_rules k family_v4) ++ or_empty (env.list_rules k family_v6);
    profiles = profiles;
  }

module _ {K R P : Type 0} (env : Env K) where
  -- `supersedePending`.
  unfoldable pub supersede_pending : Protocol K R P → Option (Protocol K R P)
  unfolding settle_all
  supersede_pending p =
      if any (λ (pt : PendingTx R). pt.interactive) p.pending
      then none
      else some (settle_all env (map (λ (pt : PendingTx R). (pt.id, commit)) p.pending) p)

  -- `takeSnapshot`.
  unfoldable pub take_snapshot : ℕ → Options R P → K → Db P → Db P
  unfolding capture
  take_snapshot now o k db =
      let profiles : Option (List P) = elim o.snapshot_profiles [
        | none ↦ list_profiles env.fail db
        | some ps ↦ some ps
      ] in
      elim (env.list_routes k family_v4) [
        | none ↦ db
        | some v4 ↦
            prune_snapshots env.fail snapshot_retention
              (save_snapshot env.fail (capture env now profiles v4 k) db)
      ]

  -- `executePlan`: the journal is written, then the kernel.
  unfoldable pub begin_tx : ℕ → TxId → Plan → Options R P → Protocol K R P → Protocol K R P
  begin_tx now id plan o p = record p {
    idseq = suc p.idseq;
    last_tx = if o.background then p.last_tx else some now;
    db = (put_pending_tx env.fail id plan p.db).0;
  }

  -- Committed at once.
  unfoldable pub commit_unguarded : TxId → Options R P → Protocol K R P → Protocol K R P
  commit_unguarded id o p =
      let cleared = (clear_pending_tx env.fail id p.db).0 in
      record p {
        db = audit env o.actor "confirm" "committed" "unguarded" none false [] cleared;
        resolved = record { id = id; result = committed; rec = rec_committed } ∷ p.resolved;
        outside = run_record o.on_commit p.outside;
      }

module _ {K R P B : Type 0} (env : Env K) where
  -- The executor has already rolled back.
  unfoldable pub execute_failed :
      String → TxId → Plan → Options R P → ApplyError → Protocol K R P → Protocol K R P × Result B
  execute_failed action id plan o e p =
      let cleared = (clear_pending_tx env.fail id p.db).0 in
      (
        record p { db = audit env o.actor action "failed" "" (some plan) true [] cleared },
        refuse plan [] (execute_error e),
      )

  unfoldable pub execute_done :
      String → TxId → Plan → Bool → Options R P → Protocol K R P → Protocol K R P × Result B
  unfolding commit_unguarded
  execute_done action id plan ownership o p =
      let owned : Db P = if ownership then apply_ownership env plan false p.db else p.db in
      let applied : Protocol K R P = record p {
        db = audit env o.actor action "applied" "" (some plan) false [] owned;
      } in
      if o.unguarded
      then (commit_unguarded env id o applied, settled_with (some id) plan committed false)
      else (
        record applied { pending = probation id plan ownership o ∷ applied.pending },
        settled_with (some id) plan pending o.interactive,
      )

  unfoldable pub executed :
      String
      → TxId
      → Plan
      → Bool
      → Options R P
      → Option ApplyError
      → Protocol K R P
      → Protocol K R P × Result B
  unfolding execute_failed execute_done
  executed action id plan ownership o none p = execute_done action id plan ownership o p
  executed action id plan ownership o (some e) p = execute_failed action id plan o e p

  unfoldable pub execute_plan :
      ℕ → String → Plan → Options R P → Bool → Protocol K R P → Protocol K R P × Result B
  unfolding begin_tx executed
  execute_plan now action plan o ownership p =
      let id = next_tx_id ownership p.idseq in
      let begun = begin_tx env now id plan o p in
      let ran = apply env.prov plan begun.kernel in
      executed action id plan ownership o ran.1 (record begun { kernel = ran.0 })
