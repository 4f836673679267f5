-- ===== src/Safety/Protocol/Final.antt =====
-- internal/safety/apply.go: a transaction is settled once, by the decision that is received first.
use riftroute.Base.{
  if◌then◌else◌, Bool, true, false, List, [], Option, none, some, ◌≡◌, refl, sym, ap, ◌∙◌, inl, inr,
  Option-cases,
}
use riftroute.Safety.Protocol.{
  Decision, commit, rollback, rollback_watchdog, rollback_unconfirmed, rollback_shutdown, rec_open,
  committed, rolled_back, RecState, TxResult, Resolved, PendingTx, Protocol, Env,
}
use riftroute.Safety.Protocol.Settle.{
  run_record, find_tx, find_resolved, result_of, settle_record, finish_tx, resolve, resolve_commit,
  kept, taken_back, resolve_rollback, decide, settle, finish_found, finish_by,
}
use riftroute.Safety.Protocol.Invariant.{OnProbation, outcome, sent, decide-OnProbation}
use riftroute.Safety.Protocol.Outcome.{first, settle_only, settle-Finished, sent_id}
use riftroute.Store.{TxId, same_id}
use riftroute.Store.Rows.{same_id_refl}

-- What the change's record leaves outside, by the decision.
abbrev pub recorded_by : {R : Type 0} → Decision → Option (R → R) → R → R
recorded_by commit f r = run_record f r
recorded_by rollback f r = r
recorded_by rollback_watchdog f r = r
recorded_by rollback_unconfirmed f r = r
recorded_by rollback_shutdown f r = r

module _ {K R P : Type 0} where
  finish_tx_outside :
      (id : TxId) (result : TxResult) (rec : RecState) (p : Protocol K R P)
      → (finish_tx id result rec p).outside ≡ p.outside
  unfolding finish_tx
  finish_tx_outside id result rec p = elim (Option-cases (find_resolved id p.resolved)) [
    | inl e ↦ rw (finish_tx, e) refl
    | inr (r, e) ↦ rw (finish_tx, e) refl
  ]

module _ {R : Type 0} where
  settle_record_open :
      (pt : PendingTx R) (b : Bool) (r : R)
      → pt.rec ≡ rec_open
      → (settle_record pt b r).1 ≡ (if b then run_record pt.on_commit r else r)
  unfolding settle_record
  settle_record_open pt true r e = rw (settle_record, e) refl
  settle_record_open pt false r e = rw (settle_record, e) refl

module _ {K R P : Type 0} (env : Env K) where
  rollback_outside :
      (d : Decision) (pt : PendingTx R) (p : Protocol K R P)
      → pt.rec ≡ rec_open
      → (resolve_rollback env d pt p).outside ≡ p.outside
  unfolding resolve_rollback taken_back
  rollback_outside d pt p e =
      finish_tx_outside pt.id rolled_back (settle_record pt false p.outside).0
        (taken_back env d pt p)
      ∙ settle_record_open pt false p.outside e

  resolve_outside :
      (d : Decision) (pt : PendingTx R) (p : Protocol K R P)
      → pt.rec ≡ rec_open
      → (resolve env d pt p).outside ≡ recorded_by d pt.on_commit p.outside
  unfolding resolve resolve_commit kept
  resolve_outside commit pt p e =
      finish_tx_outside pt.id committed (settle_record pt true p.outside).0 (kept env pt p)
      ∙ settle_record_open pt true p.outside e
  resolve_outside rollback pt p e = rollback_outside rollback pt p e
  resolve_outside rollback_watchdog pt p e = rollback_outside rollback_watchdog pt p e
  resolve_outside rollback_unconfirmed pt p e = rollback_outside rollback_unconfirmed pt p e
  resolve_outside rollback_shutdown pt p e = rollback_outside rollback_shutdown pt p e

  finish_pending :
      (d : Decision) (p : Protocol K R P) (pt : PendingTx R)
      → OnProbation p pt
      → finish_by env d pt.id p ≡ (settle env d pt.id p, result_of pt.id (settle env d pt.id p))
  unfolding finish_by finish_found
  finish_pending d p pt o =
      ap (λ (m : Option (PendingTx R)). finish_found env m d pt.id p)
        (ap (find_tx pt.id) o.only
          ∙ ap (λ (b : Bool). if b then some pt else none) (same_id_refl pt.id))

  finish_settled :
      (d : Decision) (id : TxId) (q : Protocol K R P)
      → q.pending ≡ []
      → finish_by env d id q ≡ (q, result_of id q)
  unfolding finish_by finish_found
  finish_settled d id q e =
      ap (λ (m : Option (PendingTx R)). finish_found env m d id q) (ap (find_tx id) e)

  -- What a decision about the transaction on probation leads to.
  pub record Settled (p : Protocol K R P) (pt : PendingTx R) (d e : Decision) : Type 0 where
    pub result : (finish_by env d pt.id p).1 ≡ some (outcome (first d pt))
    pub free : (finish_by env d pt.id p).0.pending ≡ []
    pub recorded :
        (finish_by env d pt.id p).0.outside ≡ recorded_by (first d pt) pt.on_commit p.outside
    pub final : finish_by env e pt.id (finish_by env d pt.id p).0 ≡ finish_by env d pt.id p

  settled_result :
      (d : Decision) (p : Protocol K R P) (pt : PendingTx R)
      → OnProbation p pt
      → result_of pt.id (settle env d pt.id p) ≡ some (outcome (first d pt))
  settled_result d p pt o =
      let f = settle-Finished env d p pt o in
      let same = ap (λ (i : TxId). same_id i pt.id) (sent_id d pt) ∙ same_id_refl pt.id in
      ap
        (λ (rs : List Resolved). elim (find_resolved pt.id rs) as (λ _. Option TxResult) [
          | none ↦ none
          | some r ↦ some r.result
        ])
        f.resolved
      ∙ rw same refl

  settled_outside :
      (d : Decision) (p : Protocol K R P) (pt : PendingTx R)
      → OnProbation p pt
      → (settle env d pt.id p).outside ≡ recorded_by (first d pt) pt.on_commit p.outside
  unfolding decide
  settled_outside d p pt o =
      let o' = decide-OnProbation pt.id d p pt o in
      ap (λ (q : Protocol K R P). q.outside) (settle_only env d p pt o)
      ∙ resolve_outside (first d pt) (sent pt.id d pt) (decide pt.id d p) o'.open_record
      ∙ ap (λ (f : Option (R → R)). recorded_by (first d pt) f p.outside) (sent_on_commit d pt)
    where
      sent_on_commit :
          (d : Decision) (pt : PendingTx R) → (sent pt.id d pt).on_commit ≡ pt.on_commit
      sent_on_commit d pt =
          rw (same_id_refl pt.id)
            (elim (Option-cases pt.decided) [ inl e ↦ rw e refl | inr (x, e) ↦ rw e refl ])

  -- For a transaction on probation and any decision: it is settled by the decision received first,
  -- this one or one sent before, and `Confirm` or `Rollback` answers with its outcome. Nothing is on
  -- probation any more, the change's record has run if it committed and not otherwise, and any later
  -- decision changes nothing and gets the same answer.
  pub finish_by-Settled :
      (d e : Decision) (p : Protocol K R P) (pt : PendingTx R) → OnProbation p pt → Settled p pt d e
  finish_by-Settled d e p pt o =
      let same = finish_pending d p pt o in
      let f = settle-Finished env d p pt o in
      record {
        result = ap (λ (r : Protocol K R P × Option TxResult). r.1) same ∙ settled_result d p pt o;
        free = ap (λ (r : Protocol K R P × Option TxResult). r.0.pending) same ∙ f.none_left;
        recorded =
            ap (λ (r : Protocol K R P × Option TxResult). r.0.outside) same
            ∙ settled_outside d p pt o;
        final =
            ap (λ (r : Protocol K R P × Option TxResult). finish_by env e pt.id r.0) same
            ∙ finish_settled e pt.id (settle env d pt.id p) f.none_left
            ∙ sym same;
      }
