-- ===== src/Safety/Protocol/Begun.antt =====
-- internal/safety/apply.go, `executePlan`: it keeps the protocol's invariant when nothing is on
-- probation.
use riftroute.Base.{
  ℕ, ◌≤◌, String, if◌then◌else◌, Bool, true, false, List, [], ◌∷◌, Option, none, some, All, ◌≡◌,
  refl, ap, ◌∙◌, inl, inr, arith, Bool-cases,
}
use riftroute.Domain.{Plan}
use riftroute.Safety.Executor.{ApplyError, apply}
use riftroute.Safety.Protocol.{PendingTx, Resolved, Protocol, Env, Options}
use riftroute.Safety.Protocol.Replay.{apply_ownership, audit}
use riftroute.Safety.Protocol.Settle.{find_resolved}
use riftroute.Safety.Protocol.Execute.{
  next_tx_id, begin_tx, execute_failed, execute_done, commit_unguarded, executed, probation,
  execute_plan,
}
use riftroute.Safety.Protocol.Invariant.{entry_of, IsValid}
use riftroute.Safety.Protocol.Steps.{
  past_fresh, past_weaken, apply_ownership_journal, audit_journal,
}
use riftroute.Store.{TxId, Db, put_pending_tx}
use riftroute.Store.Rows.{find_entry, find_entry-upsert_entry}

-- No write of the journal fails.
abbrev pub Journals : {K : Type 0} → Env K → Type 0
Journals env = (id : TxId) → env.fail.put_pending id ≡ false

module _ {K R P : Type 0} where
  -- A transaction that has its id and its entry, and is not yet on probation.
  pub record Begun (id : TxId) (plan : Plan) (p : Protocol K R P) : Type 0 where
    pub nothing : p.pending ≡ []
    pub past : All (λ (r : Resolved). r.id.seq ≤ p.idseq) p.resolved
    pub unresolved : find_resolved id p.resolved ≡ none
    pub used : id.seq ≤ p.idseq
    pub journaled : find_entry id p.db.journal ≡ some (entry_of id plan)

  guarded-IsValid :
      (action : String) (id : TxId) (plan : Plan) (ownership : Bool) (o : Options R P)
      (p : Protocol K R P) (db : Db P)
      → db.journal ≡ p.db.journal
      → Begun id plan p
      → IsValid (record p { db = db; pending = probation id plan ownership o ∷ p.pending })
  guarded-IsValid action id plan ownership o p db j b = record {
    past = b.past;
    single = inr (
      probation id plan ownership o,
      record {
        only = ap (λ (l : List (PendingTx R)). probation id plan ownership o ∷ l) b.nothing;
        unresolved = b.unresolved;
        used = b.used;
        open_record = refl;
        journaled = ap (find_entry id) j ∙ b.journaled;
      },
    );
  }

  Begun-kernel :
      (id : TxId) (plan : Plan) (p : Protocol K R P) (k : K)
      → Begun id plan p
      → Begun id plan (record p { kernel = k })
  Begun-kernel id plan p k b = record {
    nothing = b.nothing;
    past = b.past;
    unresolved = b.unresolved;
    used = b.used;
    journaled = b.journaled;
  }

module _ {K P : Type 0} (env : Env K) where
  put_pending_tx_find :
      (id : TxId) (plan : Plan) (db : Db P)
      → env.fail.put_pending id ≡ false
      → find_entry id (put_pending_tx env.fail id plan db).0.journal ≡ some (entry_of id plan)
  unfolding put_pending_tx
  put_pending_tx_find id plan db f = rw f (find_entry-upsert_entry (entry_of id plan) db.journal)

module _ {K R P : Type 0} (env : Env K) where
  begin_tx-Begun :
      (now : ℕ) (ownership : Bool) (plan : Plan) (o : Options R P) (p : Protocol K R P)
      → Journals env
      → IsValid p
      → p.pending ≡ []
      → Begun
          (next_tx_id ownership p.idseq)
          plan
          (begin_tx env now (next_tx_id ownership p.idseq) plan o p)
  unfolding begin_tx next_tx_id
  begin_tx-Begun now ownership plan o p j v e = record {
    nothing = e;
    past = past_weaken p.idseq p.resolved v.past;
    unresolved = past_fresh p.idseq (next_tx_id ownership p.idseq) p.resolved v.past (omega arith);
    used = omega arith;
    journaled =
        put_pending_tx_find env (next_tx_id ownership p.idseq) plan p.db
          (j (next_tx_id ownership p.idseq));
  }

module _ {K R P : Type 0} (B : Type 0) (env : Env K) where
  execute_done-IsValid :
      (action : String) (id : TxId) (plan : Plan) (ownership : Bool) (o : Options R P)
      (p : Protocol K R P)
      → Begun id plan p
      → IsValid (execute_done {B = B} env action id plan ownership o p).0
  unfolding execute_done commit_unguarded
  execute_done-IsValid action id plan ownership o p b = elim (Bool-cases o.unguarded) [
    | inl y ↦ rw y (record { past = (b.used, b.past); single = inl b.nothing })
    | inr n ↦
        let owned : Db P = if ownership then apply_ownership env plan false p.db else p.db in
        rw n (
          guarded-IsValid action id plan ownership o p
            (audit env o.actor action "applied" "" (some plan) false [] owned)
            (audit_journal env o.actor action "applied" "" (some plan) false [] owned
              ∙ owned_journal ownership)
            b)
  ]
    where
      owned_journal :
          (c : Bool)
          → (if c then apply_ownership env plan false p.db else p.db).journal ≡ p.db.journal
      owned_journal true = apply_ownership_journal env plan false p.db
      owned_journal false = refl

  executed-IsValid :
      (action : String) (id : TxId) (plan : Plan) (ownership : Bool) (o : Options R P)
      (e : Option ApplyError) (p : Protocol K R P)
      → Begun id plan p
      → IsValid (executed {B = B} env action id plan ownership o e p).0
  unfolding executed execute_failed
  executed-IsValid action id plan ownership o none p b =
      execute_done-IsValid action id plan ownership o p b
  executed-IsValid action id plan ownership o (some e) p b = record {
    past = b.past;
    single = inl b.nothing;
  }

  pub execute_plan-IsValid :
      (now : ℕ) (action : String) (plan : Plan) (o : Options R P) (ownership : Bool)
      (p : Protocol K R P)
      → Journals env
      → IsValid p
      → p.pending ≡ []
      → IsValid (execute_plan {B = B} env now action plan o ownership p).0
  unfolding execute_plan
  execute_plan-IsValid now action plan o ownership p j v e =
      let id = next_tx_id ownership p.idseq in
      let q = begin_tx env now id plan o p in
      let ran = apply env.prov plan q.kernel in
      executed-IsValid action id plan ownership o ran.1 (record q { kernel = ran.0 })
        (Begun-kernel id plan q ran.0 (begin_tx-Begun env now ownership plan o p j v e))
