-- ===== src/Safety/Protocol/Settle.antt =====
-- internal/safety/apply.go: how a transaction on probation is decided and resolved.
use riftroute.Base.{
  if◌then◌else◌, Bool, true, false, not, List, [], ◌∷◌, map, Option, none, some, select,
}
use riftroute.Safety.Protocol.{
  Decision, commit, rollback, rollback_watchdog, rollback_unconfirmed, rollback_shutdown, code, why,
  TxResult, committed, rolled_back, RecState, rec_open, rec_committed, rec_rolled_back, PendingTx,
  Resolved, Protocol, Env,
}
use riftroute.Safety.Protocol.Replay.{left_plan, audit, roll_back}
use riftroute.Store.{TxId, same_id, put_pending_tx, clear_pending_tx}

module _ {R : Type 0} where
  -- `runRecord`.
  abbrev pub run_record : Option (R → R) → R → R
  run_record none r = r
  run_record (some f) r = f r

  -- `settleRecord`: the record's new state, and what it leaves outside.
  unfoldable pub settle_record : PendingTx R → Bool → R → RecState × R
  settle_record pt commits r = elim pt.rec [
    | rec_open ↦
        if commits then (rec_committed, run_record pt.on_commit r) else (rec_rolled_back, r)
    | rec_committed ↦ (rec_committed, r)
    | rec_rolled_back ↦ (rec_rolled_back, r)
  ]

  -- `lookup` and `resolvedResult`.
  abbrev pub find_tx : TxId → List (PendingTx R) → Option (PendingTx R)
  find_tx id [] = none
  find_tx id (pt ∷ pts) = if same_id pt.id id then some pt else find_tx id pts

  -- `decide`: a decision after the first is ignored.
  abbrev pub decided_by : Decision → PendingTx R → PendingTx R
  decided_by d pt = elim pt.decided [ none ↦ record pt { decided = some d } | some e ↦ pt ]

  -- `settleForPanic` and `ShutdownResolve`: which decisions they send.
  abbrev pub policy_decisions : List (PendingTx R) → List (TxId × Decision)
  policy_decisions pts =
      map (λ (pt : PendingTx R). (pt.id, commit)) (select (λ pt. pt.ownership) pts)

  abbrev pub shutdown_decisions : List (PendingTx R) → List (TxId × Decision)
  shutdown_decisions pts =
      map (λ (pt : PendingTx R). (pt.id, if pt.interactive then rollback_shutdown else commit)) pts

abbrev pub find_resolved : TxId → List Resolved → Option Resolved
find_resolved id [] = none
find_resolved id (r ∷ rs) = if same_id r.id id then some r else find_resolved id rs

module _ {K R P : Type 0} where
  abbrev pub result_of : TxId → Protocol K R P → Option TxResult
  result_of id p = elim (find_resolved id p.resolved) [ none ↦ none | some r ↦ some r.result ]

  -- `finishTx`: the entry of `resolved`, once; the hook of `SetOnSettled` runs elsewhere.
  unfoldable pub finish_tx : TxId → TxResult → RecState → Protocol K R P → Protocol K R P
  finish_tx id result rec p = elim (find_resolved id p.resolved) [
    | some r ↦ p
    | none ↦ record p {
      resolved = record { id = id; result = result; rec = rec } ∷ p.resolved;
      pending = select (λ (pt : PendingTx R). not (same_id pt.id id)) p.pending;
    }
  ]

  unfoldable pub decide : TxId → Decision → Protocol K R P → Protocol K R P
  decide id d p = record p {
    pending = map (λ pt. if same_id pt.id id then decided_by d pt else pt) p.pending;
  }

module _ {K R P : Type 0} (env : Env K) where
  -- `resolve`, once a decision is received. A provider that panics is left out.
  unfoldable pub kept : PendingTx R → Protocol K R P → Protocol K R P
  unfolding settle_record
  kept pt p =
      let cleared = (clear_pending_tx env.fail pt.id p.db).0 in
      record p {
        db = audit env pt.actor "confirm" "committed" "" none false [] cleared;
        outside = (settle_record pt true p.outside).1;
      }

  unfoldable pub resolve_commit : PendingTx R → Protocol K R P → Protocol K R P
  unfolding finish_tx settle_record kept
  resolve_commit pt p = finish_tx pt.id committed (settle_record pt true p.outside).0 (kept pt p)

  unfoldable pub taken_back : Decision → PendingTx R → Protocol K R P → Protocol K R P
  unfolding settle_record roll_back left_plan
  taken_back d pt p =
      let back = roll_back env pt p.kernel p.db in
      let left = (put_pending_tx env.fail pt.id (left_plan back.left) back.db).0 in
      let cleared = (clear_pending_tx env.fail pt.id back.db).0 in
      record p {
        kernel = back.kernel;
        outside = (settle_record pt false p.outside).1;
        db = elim back.error [
          | some e ↦ audit env pt.actor "rollback" "rollback_incomplete" "" none true [] left
          | none ↦
              audit env pt.actor "rollback" "rolled_back" (why d) none true (code d ∷ []) cleared
        ];
      }

  unfoldable pub resolve_rollback : Decision → PendingTx R → Protocol K R P → Protocol K R P
  unfolding finish_tx settle_record taken_back
  resolve_rollback d pt p =
      finish_tx pt.id rolled_back (settle_record pt false p.outside).0 (taken_back d pt p)

  unfoldable pub resolve : Decision → PendingTx R → Protocol K R P → Protocol K R P
  unfolding resolve_commit resolve_rollback
  resolve commit pt p = resolve_commit pt p
  resolve rollback pt p = resolve_rollback rollback pt p
  resolve rollback_watchdog pt p = resolve_rollback rollback_watchdog pt p
  resolve rollback_unconfirmed pt p = resolve_rollback rollback_unconfirmed pt p
  resolve rollback_shutdown pt p = resolve_rollback rollback_shutdown pt p

  -- The resolving goroutine of a transaction, up to `close(pt.done)`: it waits for a decision.
  unfoldable pub await_found : Option (PendingTx R) → Protocol K R P → Protocol K R P
  unfolding resolve
  await_found none p = p
  await_found (some pt) p = elim pt.decided [ none ↦ p | some d ↦ resolve d pt p ]

  unfoldable pub await : TxId → Protocol K R P → Protocol K R P
  unfolding await_found
  await id p = await_found (find_tx id p.pending) p

  -- `pt.decide(d)` and `<-pt.done`.
  unfoldable pub settle : Decision → TxId → Protocol K R P → Protocol K R P
  unfolding decide await
  settle d id p = await id (decide id d p)

  unfoldable pub settle_all : List (TxId × Decision) → Protocol K R P → Protocol K R P
  unfolding settle
  settle_all [] p = p
  settle_all ((id, d) ∷ rest) p = settle_all rest (settle d id p)

  -- `Confirm` and `Rollback`; no result is ErrNoSuchTx.
  unfoldable pub finish_found :
      Option (PendingTx R) → Decision → TxId → Protocol K R P → Protocol K R P × Option TxResult
  unfolding settle
  finish_found none d id p = (p, result_of id p)
  finish_found (some pt) d id p = let after = settle d id p in (after, result_of id after)

  unfoldable pub finish_by : Decision → TxId → Protocol K R P → Protocol K R P × Option TxResult
  unfolding finish_found
  finish_by d id p = finish_found (find_tx id p.pending) d id p

  abbrev pub confirm : TxId → Protocol K R P → Protocol K R P × Option TxResult
  confirm = finish_by commit

  abbrev pub revert : TxId → Protocol K R P → Protocol K R P × Option TxResult
  revert = finish_by rollback

  unfoldable pub settle_for_panic : Protocol K R P → Protocol K R P
  unfolding settle_all
  settle_for_panic p = settle_all (policy_decisions p.pending) p

  unfoldable pub shutdown_resolve : Protocol K R P → Protocol K R P
  unfolding settle_all
  shutdown_resolve p = settle_all (shutdown_decisions p.pending) p
